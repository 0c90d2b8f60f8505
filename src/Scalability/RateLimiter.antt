-- ===== src/Scalability/RateLimiter.antt =====
-- app/scalability/rate_limiter.py: the in-memory sliding window and the limiter over it. The reading
-- of the clock is an argument. `metrics` keeps the tenants that the metrics callback was told of; a
-- callback is either absent or told, by a call or by its `increment`.
pub mod Window
pub mod Bound
use Prim.Native.String.{◌++◌}
use ai_risk_engine.Prelude.{
  ℕ, ◌+◌, Bool, true, false, String, Option, none, some, List, [], ◌∷◌, ◌++◌ as append,
  if◌then◌else◌, ltb, leb, length, select, Table, lookup, insert,
}

-- `InMemoryRateLimitBackend._windows`
abbrev pub Windows : Type 0
Windows = Table (List ℕ)

-- `self._windows.get(key, [])`
unfoldable pub window_of : Windows → String → List ℕ
window_of windows key = elim (lookup key windows) [ none ↦ [] | some times ↦ times ]

-- `t > now - window_seconds`
abbrev pub is_live : ℕ → ℕ → ℕ → Bool
is_live window now t = ltb now (t + window)

-- `InMemoryRateLimitBackend.incr_window` at the reading `now`
unfoldable pub incr_window : String → ℕ → ℕ → Windows → ℕ × Windows
unfolding window_of
incr_window key window_seconds now windows =
    let times = append (select (is_live window_seconds now) (window_of windows key)) (now ∷ []) in
    (length times, insert key times windows)

-- `InMemoryRateLimitBackend.get_current_count`
unfoldable pub get_current_count : String → Windows → ℕ
unfolding window_of
get_current_count key windows = length (window_of windows key)

pub record TenantRateLimiter : Type 0 where
  pub windows : Windows
  pub limit : ℕ
  pub window : ℕ
  pub has_metrics : Bool
  pub metrics : List String

-- `TenantRateLimiter._key`
unfoldable pub key_of : String → String
key_of tenant_id = "rate:tenant:" ++ tenant_id

-- `TenantRateLimiter.allow_request` at the reading `now`, over the in-memory backend
unfoldable pub allow_request : String → ℕ → TenantRateLimiter → Bool × TenantRateLimiter
unfolding incr_window key_of
allow_request tenant_id now limiter =
    let (count, windows) = incr_window (key_of tenant_id) limiter.window now limiter.windows in
    let allowed = leb count limiter.limit in
    (
      allowed,
      record limiter {
        windows = windows;
        metrics =
            if limiter.has_metrics
            then (if allowed then limiter.metrics else tenant_id ∷ limiter.metrics)
            else limiter.metrics;
      },
    )

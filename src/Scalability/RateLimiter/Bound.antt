-- ===== src/Scalability/RateLimiter/Bound.antt =====
-- The promise of a sliding window: no interval as long as the window sees more allowed requests of
-- one tenant than the limit.
use ai_risk_engine.Prelude.{
  ℕ, ◌+◌, ◌≤◌, ◌<◌, ◌≡◌, refl, ap, ◌∙◌, Bool, true, ◌&&◌, String, List, [], ◌∷◌, arith, ltb, leb,
  lookup, length-append, select, ◌==◌, eq_iff,
}
use ai_risk_engine.Scalability.RateLimiter.{
  TenantRateLimiter, window_of, is_live, key_of, allow_request,
}
use ai_risk_engine.Scalability.RateLimiter.Window.{
  count, count_mono, count-append, length-select, count-select-live, window_of-incr_window,
}

-- A request that was answered: whose, when, and whether it was allowed.
pub record Answer : Type 0 where
  pub tenant : String
  pub time : ℕ
  pub allowed : Bool

pub record Request : Type 0 where
  pub tenant : String
  pub time : ℕ

-- The limiter serves the requests, of which the list has the latest first, one after the other.
unfoldable pub serve : List Request → TenantRateLimiter → List Answer × TenantRateLimiter
serve [] limiter = ([], limiter)
serve (r ∷ earlier) limiter =
    let (log, before) = serve earlier limiter in
    let (allowed, after) = allow_request r.tenant r.time before in
    (record { tenant = r.tenant; time = r.time; allowed = allowed } ∷ log, after)

abbrev pub newest : List Request → ℕ
newest [] = 0
newest (r ∷ earlier) = r.time

-- The clock does not go back.
abbrev pub IsOrdered : List Request → Type 0
IsOrdered [] = Unit
IsOrdered (r ∷ earlier) = (newest earlier ≤ r.time) × IsOrdered earlier

abbrev live_answer : ℕ → ℕ → String → Answer → Bool
live_answer window now tenant a = (a.tenant == tenant) && is_live window now a.time

-- An allowed request of the tenant in the interval of the given length from `from` on.
abbrev pub allowed_within : ℕ → ℕ → String → Answer → Bool
allowed_within window from tenant a =
    (a.tenant == tenant) && a.allowed && leb from a.time && ltb a.time (from + window)

within-live :
    (window from now : ℕ) (tenant : String) (a : Answer)
    → now < from + window
    → allowed_within window from tenant a ≡ true
    → live_answer window now tenant a ≡ true
within-live window from now tenant a h e = ground arith

-- A request is allowed if with it the tenant's live readings are at most as many as the limit.
pub allow_request-eq-leb :
    (tenant : String) (now : ℕ) (l : TenantRateLimiter)
    → (allow_request tenant now l).0
      ≡ leb (count (is_live l.window now) (window_of l.windows (key_of tenant)) + 1) l.limit
unfolding allow_request
allow_request-eq-leb tenant now l =
    let live = select (is_live l.window now) (window_of l.windows (key_of tenant)) in
    ap (λ n. leb n l.limit)
      (omega (
        arith,
        length-append live (now ∷ []),
        length-select (is_live l.window now) (window_of l.windows (key_of tenant)),
      ))

count-answer :
    (window from limit seen : ℕ) (tenant : String) (a : Answer) (log : List Answer)
    → a.allowed ≡ leb (seen + 1) limit
    → count (allowed_within window from tenant) log ≤ limit
    → (a.tenant ≡ tenant
        → a.time < from + window
        → count (allowed_within window from tenant) log ≤ seen)
    → count (allowed_within window from tenant) (a ∷ log) ≤ limit
count-answer window from limit seen tenant a log decided ih within =
    ground (arith, eq_iff a.tenant tenant, within)

module _ (start : TenantRateLimiter) where
  abbrev log_of : List Request → List Answer
  log_of rs = (serve rs start).0

  abbrev after : List Request → TenantRateLimiter
  after rs = (serve rs start).1

  serve_settings :
      (rs : List Request) → ((after rs).window ≡ start.window) × ((after rs).limit ≡ start.limit)
  unfolding serve allow_request
  serve_settings [] = (refl, refl)
  serve_settings (r ∷ rs) = serve_settings rs

  -- The stored readings count the tenant's live requests, now and at any later time.
  stored-eq-live :
      (rs : List Request) (tenant : String) (later : ℕ)
      → start.windows ≡ []
      → IsOrdered rs
      → newest rs ≤ later
      → count (is_live start.window later) (window_of (after rs).windows (key_of tenant))
        ≡ count (live_answer start.window later tenant) (log_of rs)
  unfolding serve allow_request lookup
  stored-eq-live [] tenant later fresh o h = rw fresh refl
  stored-eq-live (r ∷ rs) tenant later fresh o h =
      let l = after rs in
      let w = start.window in
      let stored = window_of l.windows (key_of r.tenant) in
      let same : l.window ≡ w = (serve_settings rs).0 in
      rw (same, window_of-incr_window)
        (ground (
          arith,
          stored-eq-live rs tenant later fresh o.1 (omega arith),
          count-append (is_live w later) (select (is_live w r.time) stored) (r.time ∷ []),
          count-select-live w r.time later stored (omega arith),
          eq_iff r.tenant tenant,
        ))

  -- At most as many requests of a tenant are allowed as the limit, in every interval as long as the
  -- window, whatever the other tenants do, for a limiter that starts with no readings stored and a
  -- clock that does not go back.
  pub allowed-le-limit :
      (rs : List Request) (tenant : String) (from : ℕ)
      → start.windows ≡ []
      → IsOrdered rs
      → count (allowed_within start.window from tenant) (log_of rs) ≤ start.limit
  unfolding serve
  allowed-le-limit [] tenant from fresh o = omega arith
  allowed-le-limit (r ∷ rs) tenant from fresh o =
      let w = start.window in
      let l = after rs in
      let (same_window, same_limit) = serve_settings rs in
      let a : Answer = record {
        tenant = r.tenant;
        time = r.time;
        allowed = (allow_request r.tenant r.time l).0;
      } in
      let seen = count (live_answer w r.time r.tenant) (log_of rs) in
      let live = stored-eq-live rs r.tenant r.time fresh o.1 o.0 in
      let decided : a.allowed ≡ leb (seen + 1) start.limit =
        allow_request-eq-leb r.tenant r.time l
        ∙ rw (same_window, same_limit) (ap (λ n. leb (n + 1) start.limit) live) in
      count-answer w from start.limit seen tenant a (log_of rs) decided
        (allowed-le-limit rs tenant from fresh o.1)
        (λ e recent. rw e (
          count_mono (allowed_within w from tenant) (live_answer w r.time tenant) (log_of rs)
            (λ x. within-live w from r.time tenant x recent)))

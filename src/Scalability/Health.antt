-- ===== src/Scalability/Health.antt =====
-- app/scalability/health_monitor.py: the checks are parameters, each of which may be absent or raise.
pub mod Status
use ai_risk_engine.Exec.{Exec, pure, catch, ◌>>=◌}
use ai_risk_engine.Json.{Fields, str, field, end}
use ai_risk_engine.Prelude.{Bool, true, false, ◌||◌, String, Option, none, some, if◌then◌else◌}
use ai_risk_engine.Prelude.Int.{ℤ}

pub record HealthMonitor (W : Type 0) : Type 0 where
  pub db : Option (Exec W Fields)
  pub redis : Option (Exec W Fields)
  pub rabbitmq : Option (Exec W Fields)
  pub backlog : Option (Exec W ℤ)
  pub circuit_states : Option (Exec W Fields)
  pub latency : Option (Exec W Fields)

-- The dictionary that `system_health` returns.
pub record Health : Type 0 where
  pub db : Fields
  pub redis : Fields
  pub rabbitmq : Fields
  pub workflow_backlog : Option ℤ
  pub circuit_breaker_states : Fields
  pub node_latency_metrics : Fields
  pub status : String

abbrev pub unknown : Fields
unknown = field "status" (str "unknown") end

abbrev pub error_status : String → Fields
error_status message = field "status" (str "error") (field "error" (str message) end)

-- What a check found, and whether it raised.
pub record Finding (A : Type 0) : Type 0 where
  pub value : A
  pub degraded : Bool

module _ {W A : Type 0} where
  -- `if check: try: out[…] = await check() except Exception as e: …`, with the value of an absent
  -- check and the one of a check that raised.
  unfoldable pub probe : Option (Exec W A) → A → (String → A) → Exec W (Finding A)
  unfolding pure catch ◌>>=◌
  probe none missing on_error = pure (record { value = missing; degraded = false })
  probe (some check) missing on_error =
      catch (do found ← check; pure (record { value = found; degraded = false }))
        (λ e. pure (record { value = on_error e.message; degraded = true }))

module _ {W : Type 0} (monitor : HealthMonitor W) where
  open monitor use {db, redis, rabbitmq, backlog, circuit_states, latency}

  unfoldable pub optional_backlog : Option (Exec W ℤ) → Option (Exec W (Option ℤ))
  unfolding pure ◌>>=◌
  optional_backlog none = none
  optional_backlog (some count) = some (do n ← count; pure (some n))

  -- `HealthMonitor.system_health`
  unfoldable pub system_health : Exec W Health
  unfolding pure ◌>>=◌
  system_health = do
    a ← probe db unknown error_status
    b ← probe redis unknown error_status
    c ← probe rabbitmq unknown error_status
    d ← probe (optional_backlog backlog) none (λ message. none)
    e ← probe circuit_states end (λ message. end)
    f ← probe latency end (λ message. end)
    pure (record {
      db = a.value;
      redis = b.value;
      rabbitmq = c.value;
      workflow_backlog = d.value;
      circuit_breaker_states = e.value;
      node_latency_metrics = f.value;
      status = if a.degraded || b.degraded || c.degraded || d.degraded then "degraded" else "ok";
    })

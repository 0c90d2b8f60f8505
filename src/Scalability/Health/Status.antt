-- ===== src/Scalability/Health/Status.antt =====
-- When the system counts as degraded.
use ai_risk_engine.Exec.{Exec, Result, ok, err, pure, recover, proceed, catch, ◌>>=◌}
use ai_risk_engine.Json.{end}
use ai_risk_engine.Prelude.{
  ◌≡◌, refl, Bool, true, false, ◌||◌, String, Option, none, some, if◌then◌else◌,
}
use ai_risk_engine.Prelude.Int.{ℤ}
use ai_risk_engine.Scalability.Health.{
  HealthMonitor, Health, Finding, unknown, error_status, probe, optional_backlog, system_health,
}

module _ {A : Type 0} where
  abbrev is_err : Result A → Bool
  is_err (ok a) = false
  is_err (err e) = true

  abbrev reported : (String → A) → Result A → Finding A
  reported on_error (ok found) = record { value = found; degraded = false }
  reported on_error (err e) = record { value = on_error e.message; degraded = true }

module _ {W A : Type 0} where
  -- The check is there and raises.
  abbrev pub raises : Option (Exec W A) → W → Bool
  raises none w = false
  raises (some check) w = is_err (check w).0

  -- The world after the check.
  abbrev pub after : Option (Exec W A) → W → W
  after none w = w
  after (some check) w = (check w).1

  abbrev finding : Option (Exec W A) → A → (String → A) → W → Finding A
  finding none missing on_error w = record { value = missing; degraded = false }
  finding (some check) missing on_error w = reported on_error (check w).0

  probe_lem :
      (o : Option (Exec W A)) (missing : A) (on_error : String → A) (w : W)
      → probe o missing on_error w ≡ (ok (finding o missing on_error w), after o w)
  unfolding probe pure catch ◌>>=◌
  probe_lem none missing on_error w = refl
  probe_lem (some check) missing on_error w = caught (check w)
    where
      caught :
          (r : Result A × W)
          → recover
              (λ e. pure (record { value = on_error e.message; degraded = true }))
              (proceed (λ found. pure (record { value = found; degraded = false })) r)
            ≡ (ok (reported on_error r.0), r.1)
      caught (ok found, w') = refl
      caught (err e, w') = refl

  degraded-raises :
      (o : Option (Exec W A)) (missing : A) (on_error : String → A) (w : W)
      → (finding o missing on_error w).degraded ≡ raises o w
  degraded-raises none missing on_error w = refl
  degraded-raises (some check) missing on_error w = same (check w).0
    where
      same : (r : Result A) → (reported on_error r).degraded ≡ is_err r
      same (ok found) = refl
      same (err e) = refl

module _ {W : Type 0} (monitor : HealthMonitor W) where
  raises-optional_backlog :
      (o : Option (Exec W ℤ)) (w : W) → raises (optional_backlog monitor o) w ≡ raises o w
  unfolding optional_backlog pure ◌>>=◌
  raises-optional_backlog none w = refl
  raises-optional_backlog (some count) w = same (count w)
    where
      same : (r : Result ℤ × W) → is_err (proceed (λ n. pure (some n)) r).0 ≡ is_err r.0
      same (ok n, w') = refl
      same (err e, w') = refl

  -- What the checks find and the worlds that they leave, in the order in which they run.
  module _ (w : W) where
    abbrev after_db : W
    after_db = after monitor.db w

    abbrev after_redis : W
    after_redis = after monitor.redis after_db

    abbrev after_rabbitmq : W
    after_rabbitmq = after monitor.rabbitmq after_redis

    abbrev after_backlog : W
    after_backlog = after (optional_backlog monitor monitor.backlog) after_rabbitmq

    abbrev after_circuits : W
    after_circuits = after monitor.circuit_states after_backlog

    abbrev health_at : Health
    health_at =
        let a = finding monitor.db unknown error_status w in
        let b = finding monitor.redis unknown error_status after_db in
        let c = finding monitor.rabbitmq unknown error_status after_redis in
        let d =
          finding (optional_backlog monitor monitor.backlog) none (λ message. none)
            after_rabbitmq in
        record {
          db = a.value;
          redis = b.value;
          rabbitmq = c.value;
          workflow_backlog = d.value;
          circuit_breaker_states =
              (finding monitor.circuit_states end (λ message. end) after_backlog).value;
          node_latency_metrics =
              (finding monitor.latency end (λ message. end) after_circuits).value;
          status =
              if a.degraded || b.degraded || c.degraded || d.degraded then "degraded" else "ok";
        }

    system_health_lem :
        system_health monitor w ≡ (ok health_at, after monitor.latency after_circuits)
    unfolding system_health pure ◌>>=◌
    system_health_lem =
        rw
          (
            probe_lem monitor.db unknown error_status w,
            probe_lem monitor.redis unknown error_status after_db,
            probe_lem monitor.rabbitmq unknown error_status after_redis,
            probe_lem (optional_backlog monitor monitor.backlog) none (λ message. none)
                after_rabbitmq,
            probe_lem monitor.circuit_states end (λ message. end) after_backlog,
            probe_lem monitor.latency end (λ message. end) after_circuits,
          )
          refl

  -- The health is always reported, whatever the checks raise, and it is degraded exactly if one of
  -- the checks of database, Redis, RabbitMQ and backlog is there and raises, in the order in which
  -- they run; what these checks return, and what the checks of breakers and latency return or raise,
  -- does not count.
  pub system_health-degraded :
      (w : W)
      → (let w₁ = after monitor.db w in
          let w₂ = after monitor.redis w₁ in
          let w₃ = after monitor.rabbitmq w₂ in
          (health : Health) × (w' : W) × (system_health monitor w ≡ (ok health, w'))
          × (health.status ≡ (
              if raises monitor.db w
                || raises monitor.redis w₁
                || raises monitor.rabbitmq w₂
                || raises monitor.backlog w₃
              then "degraded"
              else "ok")))
  system_health-degraded w = (
    health_at w,
    after monitor.latency (after_circuits w),
    system_health_lem w,
    rw
        (
          degraded-raises monitor.db unknown error_status w,
          degraded-raises monitor.redis unknown error_status (after_db w),
          degraded-raises monitor.rabbitmq unknown error_status (after_redis w),
          degraded-raises (optional_backlog monitor monitor.backlog) none (λ message. none)
              (after_rabbitmq w),
          raises-optional_backlog monitor.backlog (after_rabbitmq w),
        )
        refl,
  )

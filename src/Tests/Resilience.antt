-- ===== src/Tests/Resilience.antt =====
-- Witnesses for the theorems on the bulkhead, the partitioner and the health monitor.
use ai_risk_engine.Errors.{runtime_error}
use ai_risk_engine.Exec.{ok, throw, pure}
use ai_risk_engine.Json.{str, field, end}
use ai_risk_engine.Prelude.{
  ℕ, ◌+◌, ◌≤◌, ◌≡◌, ◌≢◌, refl, ap, Bool, true, false, ◌||◌, String, none, some, arith,
  if◌then◌else◌,
}
use ai_risk_engine.Prelude.Int.{pos}
use ai_risk_engine.Scalability.Bulkhead.{
  BulkheadExecutor, Worker, absent, new, submit, work, ensure_worker,
}
use ai_risk_engine.Scalability.Bulkhead.Draining.{work_for, work_for-drains, remaining, drained}
use ai_risk_engine.Scalability.Bulkhead.Isolation.{
  Reach, here, next, submits, works, IsBounded, Reach-IsSound, one_at_a_time,
}
use ai_risk_engine.Scalability.Health.{HealthMonitor, Health, system_health}
use ai_risk_engine.Scalability.Health.Status.{raises, after, system_health-degraded}

abbrev submitted : BulkheadExecutor String
submitted = (submit "b" (submit "a" (new 2 5)).1).1

abbrev busy : BulkheadExecutor String
busy = work (work submitted)

busy_reached : Reach (new 2 5) busy
busy_reached =
    next (next (next (next here (submits "a" refl)) (submits "b" refl)) (works refl)) (works refl)

one_at_a_time_example :
    (busy.active ≤ 1)
    × (busy.active ≤ 2)
    × (busy.permits + busy.active ≡ 2)
    × IsBounded 5 busy.queue
one_at_a_time_example = one_at_a_time 2 5 busy_reached

is_there : Worker String → Bool
is_there absent = false
is_there _ = true

worker_there : busy.worker ≢ absent
unfolding is_there submit ensure_worker work
worker_there h = absurd (ground (arith, ap is_there h))

work_for-drains_example :
    work_for (remaining busy.worker busy.queue) busy ≡ drained busy busy.worker 2
work_for-drains_example = work_for-drains busy 1 5 (Reach-IsSound 2 5 busy_reached) worker_there

abbrev monitor : HealthMonitor ℕ
monitor = record {
  db = some (pure (field "status" (str "ok") end));
  redis = some (throw (record { cls = runtime_error; message = "down" }));
  rabbitmq = none;
  backlog = some (λ w. (ok (pos w), w + 1));
  circuit_states = none;
  latency = none;
}

system_health-degraded_example :
    (let w₁ = after monitor.db 3 in
      let w₂ = after monitor.redis w₁ in
      let w₃ = after monitor.rabbitmq w₂ in
      (health : Health) × (w' : ℕ) × (system_health monitor 3 ≡ (ok health, w'))
      × (health.status ≡ (
          if raises monitor.db 3
            || raises monitor.redis w₁
            || raises monitor.rabbitmq w₂
            || raises monitor.backlog w₃
          then "degraded"
          else "ok")))
system_health-degraded_example = system_health-degraded monitor 3

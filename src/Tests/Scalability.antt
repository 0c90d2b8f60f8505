-- ===== src/Tests/Scalability.antt =====
-- Witnesses for the theorems on app/scalability.
use ai_risk_engine.Errors.{Error, runtime_error}
use ai_risk_engine.Exec.{Result, ok}
use ai_risk_engine.Prelude.{
  ℕ, ◌+◌, ◌≤◌, ◌<◌, ◌≡◌, ◌≢◌, ◌↔◌, refl, true, String, none, some, List, [], ◌∷◌, arith,
  if◌then◌else◌, leb,
}
use ai_risk_engine.Prelude.Int.{ℤ, whole, pos}
use ai_risk_engine.Scalability.Autoscaling.{
  scale_up, scale_down, AutoScalingPolicy, MetricsSnapshot, evaluate,
}
use ai_risk_engine.Scalability.Autoscaling.Decisions.{evaluate_decides, IsBreached, IsQuiet}
use ai_risk_engine.Scalability.CircuitBreaker.{
  CircuitBreaker, closed, open_circuit, half_open, admit, call, reject, settle,
}
use ai_risk_engine.Scalability.CircuitBreaker.Invariant.{
  IsSound, Rejects, Settled, call_outcome, failing_calls, failing_calls_trip,
}
use ai_risk_engine.Scalability.CircuitBreaker.Schedule.{
  System, enter, finish, Reach, here, next, Reach-IsSound,
}
use ai_risk_engine.Scalability.RateLimiter.{TenantRateLimiter}
use ai_risk_engine.Scalability.RateLimiter.Bound.{Request, serve, allowed_within, allowed-le-limit}
use ai_risk_engine.Scalability.RateLimiter.Window.{count}

abbrev limiter : TenantRateLimiter
limiter = record { windows = []; limit = 1; window = 60; has_metrics = true; metrics = [] }

abbrev at : String → ℕ → Request
at tenant time = record { tenant = tenant; time = time }

abbrev requests : List Request
requests = at "t1" 70 ∷ at "t2" 20 ∷ at "t1" 11 ∷ at "t1" 10 ∷ []

allowed-le-limit_example : count (allowed_within 60 10 "t1") (serve requests limiter).0 ≤ 1
allowed-le-limit_example =
    allowed-le-limit limiter requests "t1" 10 refl
      (omega arith, (omega arith, (omega arith, (omega arith, tt))))

abbrev fresh : CircuitBreaker
fresh = record {
  threshold = 2;
  recovery_timeout = 30;
  name = "db";
  metrics = true;
  state = closed;
  failures = 0;
  last_failure_time = none;
  increments = [];
}

abbrev tripped : CircuitBreaker
tripped = record fresh { state = open_circuit; failures = 2; last_failure_time = some 100 }

fresh-IsSound : IsSound fresh
fresh-IsSound = record {
  positive = omega arith;
  closed_below = λ h. omega arith;
  tripped_above = λ h. absurd (h refl);
  dated = λ h. absurd (h refl);
}

tripped-IsSound : IsSound tripped
tripped-IsSound = record {
  positive = omega arith;
  closed_below = λ h. ground (arith, h);
  tripped_above = λ h. omega arith;
  dated = λ h e. ground (arith, e);
}

abbrev failure : Error
failure = record { cls = runtime_error; message = "down" }

abbrev outcome : Result ℕ
outcome = ok 7

call_outcome_example :
    IsSound (call 140 141 outcome tripped).1
    × (Rejects 140 tripped → call 140 141 outcome tripped ≡ reject tripped)
    × (¬ Rejects 140 tripped
        → ((call 140 141 outcome tripped).0 ≡ outcome)
          × Settled 141 outcome tripped (call 140 141 outcome tripped).1)
call_outcome_example = call_outcome 140 141 outcome tripped tripped-IsSound

failing_calls_trip_example :
    (failing_calls (1 ∷ 2 ∷ 3 ∷ []) failure fresh).state
    ≡ (if leb 2 (0 + 3) then open_circuit else closed)
failing_calls_trip_example = failing_calls_trip (1 ∷ 2 ∷ 3 ∷ []) failure fresh fresh-IsSound refl

abbrev idle : System
idle = record { breaker = tripped; running = 0 }

abbrev probed : System
probed = record { breaker = record tripped { state = half_open }; running = 1 }

abbrev closed_again : System
closed_again = record {
  breaker = (settle {A = Unit {0}} 132 (ok tt) probed.breaker).1;
  running = 0;
}

overlap : Reach idle closed_again
unfolding admit
overlap = next (next here (enter 131 refl refl)) (finish 132 (ok tt) refl refl)

Reach-IsSound_example : IsSound closed_again.breaker
Reach-IsSound_example = Reach-IsSound {x = idle} {y = closed_again} overlap tripped-IsSound

abbrev policy : AutoScalingPolicy
policy = record {
  cpu_up = whole 70;
  cpu_down = whole 30;
  latency_up = whole 500;
  failure_up = pos 500;
  queue_up = 100;
  min_replicas = 1;
  max_replicas = 3;
}

abbrev snapshot : MetricsSnapshot
snapshot = record {
  cpu_usage_pct = some (whole 90);
  request_latency_p99_ms = none;
  failure_rate = some (pos 0);
  queue_depth = some 3;
  current_replicas = 3;
}

abbrev no_float : ℤ → String
no_float x = ""

abbrev no_int : ℕ → String
no_int n = ""

evaluate_decides_example :
    (((evaluate no_float no_int policy snapshot).action ≡ scale_up)
      ↔ (IsBreached policy snapshot × (3 < 3)))
    × (((evaluate no_float no_int policy snapshot).action ≡ scale_down) ↔ (
        ((evaluate no_float no_int policy snapshot).action ≢ scale_up)
        × (1 < 3)
        × IsQuiet policy snapshot))
evaluate_decides_example = evaluate_decides no_float no_int policy snapshot

-- ===== src/Scalability/CircuitBreaker.antt =====
-- app/scalability/circuit_breaker.py. A `call` is two atomic sections under the lock, with the
-- guarded function awaited between them: other calls may run there. The readings of the clock and
-- the outcome of the function are arguments. Calls on the metrics callback are recorded.
pub mod Invariant
pub mod Schedule
use Prim.Native.String.{◌++◌}
use ai_risk_engine.Errors.{Error, runtime_error}
use ai_risk_engine.Exec.{Exec, Result, ok, err, pure, raise, throw, ◌>>=◌, ◌>>◌}
use ai_risk_engine.Prelude.{
  ℕ, ◌+◌, Bool, true, false, String, Option, none, some, List, [], ◌∷◌, if◌then◌else◌, leb,
}

pub data CircuitState : Type 0 where
  closed open_circuit half_open : CircuitState

pub record CircuitBreaker : Type 0 where
  pub threshold : ℕ
  pub recovery_timeout : ℕ
  pub name : String
  pub metrics : Bool
  pub state : CircuitState
  pub failures : ℕ
  pub last_failure_time : Option ℕ
  pub increments : List String

-- `CircuitBreaker.__init__`
unfoldable pub new : ℕ → ℕ → String → Bool → CircuitBreaker
new failure_threshold recovery_timeout_seconds name metrics = record {
  threshold = failure_threshold;
  recovery_timeout = recovery_timeout_seconds;
  name = name;
  metrics = metrics;
  state = closed;
  failures = 0;
  last_failure_time = none;
  increments = [];
}

abbrev increment : String → CircuitBreaker → CircuitBreaker
increment counter b = record b {
  increments = if b.metrics then counter ∷ b.increments else b.increments;
}

-- `_record_success`
unfoldable pub record_success : CircuitBreaker → CircuitBreaker
record_success b = increment "circuit_breaker_success" (record b { failures = 0; state = closed })

abbrev open_at_threshold : CircuitBreaker → CircuitBreaker
open_at_threshold b = record b {
  state = if leb b.threshold b.failures then open_circuit else b.state;
}

-- `_record_failure` at the clock reading `now`
unfoldable pub record_failure : ℕ → CircuitBreaker → CircuitBreaker
record_failure now b = open_at_threshold (
    increment "circuit_breaker_failure"
      (record b { last_failure_time = some now; failures = b.failures + 1 }))

abbrev pub reject {ℓ} : {A : Type ℓ} → CircuitBreaker → Result A × CircuitBreaker
reject b =
    (err (record { cls = runtime_error; message = "Circuit breaker " ++ b.name ++ " is OPEN" }), b)

-- The open branch of the first section: still closed to calls, or time for a probe.
abbrev try_half_open : ℕ → Option ℕ → Exec CircuitBreaker (Unit {0})
try_half_open now none b = reject b
try_half_open now (some last) b =
    if leb (last + b.recovery_timeout) now
    then (ok tt, record b { state = half_open })
    else reject b

abbrev admit_in : CircuitState → ℕ → Exec CircuitBreaker (Unit {0})
admit_in open_circuit now b = try_half_open now b.last_failure_time b
admit_in closed now b = (ok tt, b)
admit_in half_open now b = (ok tt, b)

-- The first section of `call`.
unfoldable pub admit : ℕ → Exec CircuitBreaker (Unit {0})
admit now b = admit_in b.state now b

abbrev reopen : CircuitState → CircuitState
reopen half_open = open_circuit
reopen s = s

-- The section of the `except` branch.
unfoldable pub on_failure : ℕ → CircuitBreaker → CircuitBreaker
unfolding record_failure
on_failure now b = let b' = record_failure now b in record b' { state = reopen b'.state }

-- What follows the guarded function: `done` is its outcome.
unfoldable pub settle {ℓ} : {A : Type ℓ} → ℕ → Result A → CircuitBreaker → Result A × CircuitBreaker
unfolding record_success on_failure
settle now (ok a) b = (ok a, record_success b)
settle now (err e) b = (err e, on_failure now b)

-- `call` with nothing else running meanwhile: `start` and `end` are the readings of the clock.
unfoldable pub call : {A : Type 0} → ℕ → ℕ → Result A → Exec CircuitBreaker A
unfolding admit settle ◌>>=◌
call start end done = do admit start; settle end done

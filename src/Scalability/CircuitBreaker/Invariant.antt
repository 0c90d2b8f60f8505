-- ===== src/Scalability/CircuitBreaker/Invariant.antt =====
-- What holds of a breaker between any two of its atomic sections, and what `admit` does then.
use ai_risk_engine.Errors.{Error}
use ai_risk_engine.Exec.{Result, ok, err}
use ai_risk_engine.Prelude.{
  ℕ, ◌+◌, ◌≤◌, ◌<◌, ◌≡◌, ◌≢◌, ◌↔◌, none, some, List, [], ◌∷◌, arith, leb, length, Bool-cases, inl,
  inr, if◌then◌else◌,
}
use ai_risk_engine.Scalability.CircuitBreaker.{
  CircuitBreaker, closed, reject, open_circuit, record_success, admit, on_failure, settle, call,
}

-- The breaker is closed exactly while it has counted fewer failures than the threshold, and one
-- that has counted a failure knows when the last one was.
pub record IsSound (b : CircuitBreaker) : Type 0 where
  pub positive : 0 < b.threshold
  pub closed_below : b.state ≡ closed → b.failures < b.threshold
  pub tripped_above : b.state ≢ closed → b.threshold ≤ b.failures
  pub dated : b.failures ≢ 0 → b.last_failure_time ≢ none

pub admit-IsSound : (now : ℕ) (b : CircuitBreaker) → IsSound b → IsSound (admit now b).1
unfolding admit
admit-IsSound now b h = ground arith

pub record_success-IsSound : (b : CircuitBreaker) → IsSound b → IsSound (record_success b)
unfolding record_success
record_success-IsSound b h = ground arith

pub on_failure-IsSound : (now : ℕ) (b : CircuitBreaker) → IsSound b → IsSound (on_failure now b)
unfolding on_failure
on_failure-IsSound now b h = ground arith

-- When a sound breaker turns a call away: while it is open and the last failure is more recent than
-- the recovery timeout.
abbrev pub Rejects : ℕ → CircuitBreaker → Type 0
Rejects now b =
    (b.state ≡ open_circuit)
    × ((last : ℕ) × (b.last_failure_time ≡ some last) × (now < last + b.recovery_timeout))

-- A sound breaker turns a call away, raising RuntimeError and changing nothing, exactly while it is
-- open and the last failure is more recent than the recovery timeout. Otherwise it lets the call
-- pass and is not open afterwards.
pub admit_decides :
    (now : ℕ) (b : CircuitBreaker)
    → IsSound b
    → (Rejects now b → admit now b ≡ reject b)
      × (¬ Rejects now b
          → ((admit now b).0 ≡ ok tt)
            × ((admit now b).1.state ≢ open_circuit)
            × ((admit now b).1.failures ≡ b.failures))
unfolding admit
admit_decides now b h = (λ r. ground arith, λ r. (ground arith, ground arith, ground arith))

pub settle-IsSound {ℓ} :
    {A : Type ℓ} (now : ℕ) (done : Result A) (b : CircuitBreaker)
    → IsSound b
    → IsSound (settle now done b).1
unfolding settle
settle-IsSound now (ok a) b h = record_success-IsSound b h
settle-IsSound now (err e) b h = on_failure-IsSound now b h

-- What the function's outcome does to the breaker `b`, by the reading `end`.
abbrev pub Settled {ℓ} : {A : Type ℓ} → ℕ → Result A → CircuitBreaker → CircuitBreaker → Type 0
Settled end (ok a) b b' = (b'.state ≡ closed) × (b'.failures ≡ 0)
Settled end (err e) b b' =
    (b'.failures ≡ b.failures + 1)
    × (b'.last_failure_time ≡ some end)
    × ((b.threshold ≤ b.failures + 1) ↔ (b'.state ≡ open_circuit))

-- A call on a sound breaker keeps it sound. A call that is turned away raises, changes nothing and
-- does not depend on the function. Any other has the function's own outcome: a return leaves the
-- breaker closed with no failures, and a raise counts one failure at the time of its end, with the
-- breaker open after it exactly if that makes as many as the threshold.
pub call_outcome :
    {A : Type 0} (start end : ℕ) (done : Result A) (b : CircuitBreaker)
    → IsSound b
    → IsSound (call start end done b).1
      × (Rejects start b → call start end done b ≡ reject b)
      × (¬ Rejects start b
          → ((call start end done b).0 ≡ done) × Settled end done b (call start end done b).1)
unfolding call admit settle
call_outcome start end (ok a) b h = (ground arith, λ r. ground arith, λ r. ground arith)
call_outcome start end (err e) b h = (ground arith, λ r. ground arith, λ r. ground arith)

-- A client that makes calls one after the other, at the given times, on a function that always
-- raises.
unfoldable pub failing_calls : List ℕ → Error → CircuitBreaker → CircuitBreaker
failing_calls [] e b = b
failing_calls (now ∷ times) e b = failing_calls times e (call {A = Unit {0}} now now (err e) b).1

module _ (now : ℕ) (e : Error) (b : CircuitBreaker) where
  abbrev after : CircuitBreaker
  after = (call {A = Unit {0}} now now (err e) b).1

  failing_call-open : b.state ≡ open_circuit → after.state ≡ open_circuit
  unfolding call admit settle
  failing_call-open s = ground arith

  failing_call-closed :
      b.state ≡ closed
      → (after.threshold ≡ b.threshold)
        × (after.failures ≡ b.failures + 1)
        × (after.state ≡ (if leb b.threshold (b.failures + 1) then open_circuit else closed))
  unfolding call admit settle
  failing_call-closed s = ground arith

failing_calls-open :
    (times : List ℕ) (e : Error) (b : CircuitBreaker)
    → IsSound b
    → b.state ≡ open_circuit
    → (failing_calls times e b).state ≡ open_circuit
unfolding failing_calls
failing_calls-open [] e b h s = s
failing_calls-open (now ∷ times) e b h s =
    failing_calls-open times e (after now e b) (call_outcome now now (err e) b h).0
      (failing_call-open now e b s)

-- A closed breaker stays closed through calls that fail one after the other until as many failures
-- are counted as the threshold, and is open after that one and after every further one.
pub failing_calls_trip :
    (times : List ℕ) (e : Error) (b : CircuitBreaker)
    → IsSound b
    → b.state ≡ closed
    → (failing_calls times e b).state
      ≡ (if leb b.threshold (b.failures + length times) then open_circuit else closed)
unfolding failing_calls
failing_calls_trip [] e b h s = ground arith
failing_calls_trip (now ∷ times) e b h s =
    let sound : IsSound (after now e b) = (call_outcome now now (err e) b h).0 in
    let (same, more, status) = failing_call-closed now e b s in
    elim (Bool-cases (leb b.threshold (b.failures + 1))) [
      | inl tripped ↦
          ground (arith, failing_calls-open times e (after now e b) sound (rw tripped at status))
      | inr room ↦
          ground (arith, failing_calls_trip times e (after now e b) sound (rw room at status))
    ]

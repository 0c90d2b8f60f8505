-- ===== src/Scalability/CircuitBreaker/Schedule.antt =====
-- Calls that overlap: their atomic sections in any order.
use ai_risk_engine.Errors.{Error}
use ai_risk_engine.Exec.{Result, ok, err}
use ai_risk_engine.Prelude.{ℕ, zero, suc, ◌+◌, ◌≤◌, ◌≡◌, refl, ap, some, arith}
use ai_risk_engine.Scalability.CircuitBreaker.{
  CircuitBreaker, open_circuit, half_open, admit, settle,
}
use ai_risk_engine.Scalability.CircuitBreaker.Invariant.{settle-IsSound, IsSound, admit-IsSound}

-- The breaker, and the number of calls whose function is running.
pub record System : Type 0 where
  pub breaker : CircuitBreaker
  pub running : ℕ

-- One atomic section of some call. `enter` and `turn_away` are the first one; `finish` is the one
-- after the function, with its outcome. The reading of the clock is free.
pub data Step (x : System) (y : System) : Type 0 where
  enter :
      (now : ℕ) → admit now x.breaker ≡ (ok tt, y.breaker) → y.running ≡ x.running + 1 → Step x y
  turn_away :
      (now : ℕ) {e : Error}
      → admit now x.breaker ≡ (err e, y.breaker)
      → y.running ≡ x.running
      → Step x y
  finish :
      (now : ℕ) (done : Result (Unit {0}))
      → x.running ≡ y.running + 1
      → y.breaker ≡ (settle now done x.breaker).1
      → Step x y

pub data Reach (x : System) : System → Type 0 where
  here : Reach x x
  next : {y z : System} → Reach x y → Step y z → Reach x z

Step-IsSound : {x y : System} → Step x y → IsSound x.breaker → IsSound y.breaker
unfolding settle
Step-IsSound {x} {y} (enter now e r) h =
    rw (ap (λ (r : Result (Unit {0}) × CircuitBreaker). r.1) e) at (admit-IsSound now x.breaker h)
Step-IsSound {x} (turn_away now e r) h =
    rw (ap (λ (r : Result (Unit {0}) × CircuitBreaker). r.1) e) at (admit-IsSound now x.breaker h)
Step-IsSound {x} (finish now done r e) h = rw e (settle-IsSound now done x.breaker h)

-- Whatever the calls that overlap, and whatever the order of their sections, the breaker is sound
-- between any two sections if it was at the start.
pub Reach-IsSound : {x y : System} → Reach x y → IsSound x.breaker → IsSound y.breaker
Reach-IsSound here h = h
Reach-IsSound (next r st) h = Step-IsSound st (Reach-IsSound r h)

abbrev probing : CircuitBreaker → ℕ → System
probing b n = record { breaker = record b { state = half_open }; running = n }

more_probes :
    (n : ℕ) (b : CircuitBreaker) {x : System} → Reach x (probing b 1) → Reach x (probing b (suc n))
unfolding admit
more_probes zero b r = r
more_probes (suc n) b r = next (more_probes n b r) (enter 0 refl (omega arith))

-- After the recovery timeout an open breaker with no call running lets any number of calls run at
-- the same time, without any of them finished, and stays half-open throughout.
pub half_open_admits_many :
    (b : CircuitBreaker) (last now n : ℕ)
    → b.state ≡ open_circuit
    → b.last_failure_time ≡ some last
    → last + b.recovery_timeout ≤ now
    → Reach (record { breaker = b; running = 0 }) (probing b (suc n))
unfolding admit
half_open_admits_many b last now n s l due =
    more_probes n b (next here (enter now (ground arith) (omega arith)))

-- ===== src/Domain/Lifecycle.antt =====
-- The lifecycle that `transition_to` of app/domain/models/event.py enforces.
use ai_risk_engine.Domain.Event.{
  EventStatus, received, created, validated, processing, approved, rejected, failed,
  validate_transition, BaseEvent, transition_to,
}
use ai_risk_engine.Errors.{Error}
use ai_risk_engine.Exec.{Exec, Result-cases, ok, err, pure, catch, ◌>>=◌, ◌>>◌}
use ai_risk_engine.Prelude.{
  ℕ, ◌+◌, ◌≤◌, ◌<◌, ◌≡◌, refl, ap, ◌∙◌, List, [], ◌∷◌, arith, length, Bool, true, false,
  if◌then◌else◌, ◌⊎◌, inl, inr,
}

-- The number of changes that can still follow a status.
abbrev pub changes_left : EventStatus → ℕ
changes_left received = 3
changes_left created = 3
changes_left validated = 2
changes_left processing = 1
changes_left _ = 0

changes_left-transition :
    (s t : EventStatus) → validate_transition s t ≡ ok tt → changes_left t < changes_left s
unfolding validate_transition
changes_left-transition received t h = ground arith
changes_left-transition created t h = ground arith
changes_left-transition validated t h = ground arith
changes_left-transition processing t h = ground arith
changes_left-transition approved t h = ground arith
changes_left-transition rejected t h = ground arith
changes_left-transition failed t h = ground arith

-- A change that the table lists sets the status and nothing else; any other raises and leaves the
-- event as it was.
pub transition_to_atomic :
    (t : EventStatus) (e : BaseEvent)
    → (validate_transition e.status t ≡ ok tt)
        × (transition_to t e ≡ (ok tt, record e { status = t }))
      ⊎ ((x : Error) × (validate_transition e.status t ≡ err x) × (transition_to t e ≡ (err x, e)))
unfolding transition_to
transition_to_atomic t e = elim (Result-cases (validate_transition e.status t)) [
  | inl (tt, h) ↦ inl (h, rw h)
  | inr (x, h) ↦ inr (x, h, rw h)
]

-- The calls that change the status, one after the other.
data TransitionPath : EventStatus → List EventStatus → EventStatus → Type 0 where
  stay : {s u : EventStatus} → s ≡ u → TransitionPath s [] u
  move :
      {s t u : EventStatus} {ts : List EventStatus}
      → validate_transition s t ≡ ok tt
      → TransitionPath t ts u
      → TransitionPath s (t ∷ ts) u

TransitionPath-bounded :
    {s u : EventStatus} {ts : List EventStatus}
    → TransitionPath s ts u
    → length ts + changes_left u ≤ changes_left s
TransitionPath-bounded (stay e) = ground arith
TransitionPath-bounded (move {s = s} {t = t} h p) =
    omega (arith, TransitionPath-bounded p, changes_left-transition s t h)

before_approved : (s : EventStatus) → validate_transition s approved ≡ ok tt → s ≡ processing
unfolding validate_transition
before_approved processing h = refl
before_approved _ h = ground arith

before_processing : (s : EventStatus) → validate_transition s processing ≡ ok tt → s ≡ validated
unfolding validate_transition
before_processing validated h = refl
before_processing _ h = ground arith

TransitionPath-approved :
    {s u : EventStatus} {ts : List EventStatus}
    → TransitionPath s ts u
    → u ≡ approved
    → (s ≡ received) ⊎ (s ≡ created)
    → ts ≡ validated ∷ processing ∷ approved ∷ []
unfolding validate_transition
TransitionPath-approved (stay e) q start = ground arith
TransitionPath-approved (move h (stay e)) q start = ground arith
TransitionPath-approved (move h (move h₁ (stay e))) q start = ground arith
TransitionPath-approved (move {s = s} {t = t} h (move {t = t₁} h₁ (move h₂ (stay e)))) q start =
    let last = e ∙ q in
    let third = before_approved t₁ (rw last at h₂) in
    let second = before_processing t (rw third at h₁) in cc
TransitionPath-approved (move h (move h₁ (move h₂ (move h₃ p)))) q start =
    absurd (ground (arith, TransitionPath-bounded (move h (move h₁ (move h₂ (move h₃ p))))))

-- A call of `transition_to` by a client that catches what it raises, and whether it was accepted.
unfoldable pub attempt : EventStatus → Exec BaseEvent Bool
unfolding catch pure ◌>>=◌
attempt t = catch (transition_to t >> pure true) (λ e. pure false)

-- A client's calls of `transition_to` on one event, refused ones included; the accepted statuses.
unfoldable pub attempt_all : List EventStatus → Exec BaseEvent (List EventStatus)
unfolding pure ◌>>=◌
attempt_all [] = pure []
attempt_all (t ∷ ts) = do
  accepted ← attempt t
  rest ← attempt_all ts
  pure (if accepted then t ∷ rest else rest)

attempt_cases :
    (t : EventStatus) (e : BaseEvent)
    → (validate_transition e.status t ≡ ok tt) × (attempt t e ≡ (ok true, record e { status = t }))
      ⊎ (attempt t e ≡ (ok false, e))
unfolding attempt catch pure ◌>>=◌
attempt_cases t e = elim (transition_to_atomic t e) [
  | inl (valid, runs) ↦ inl (valid, rw runs refl)
  | inr (x, invalid, raises) ↦ inr (rw raises refl)
]

-- The calls always end, and the accepted ones are a path of the table.
attempt_all-TransitionPath :
    (ts : List EventStatus) (e : BaseEvent)
    → (done : List EventStatus) × (e' : BaseEvent) × (attempt_all ts e ≡ (ok done, e'))
      × TransitionPath e.status done e'.status
unfolding attempt_all pure ◌>>=◌
attempt_all-TransitionPath [] e = ([], e, refl, stay refl)
attempt_all-TransitionPath (t ∷ ts) e = elim (attempt_cases t e) [
  | inl (valid, accepted) ↦
      let (done, e', runs, path) = attempt_all-TransitionPath ts (record e { status = t }) in
      (t ∷ done, e', rw (accepted, runs) refl, move valid path)
  | inr refused ↦
      let (done, e', runs, path) = attempt_all-TransitionPath ts e in
      (done, e', rw (refused, runs) refl, path)
]

-- Whatever statuses a client asks for on a received or created event, one after the other, with the
-- refused calls caught: if the event is approved after them, then the accepted calls were to
-- validated, to processing and to approved, in this order and no others.
pub approved_only_by_path :
    (ts : List EventStatus) (e : BaseEvent)
    → (e.status ≡ received) ⊎ (e.status ≡ created)
    → (attempt_all ts e).1.status ≡ approved
    → (attempt_all ts e).0 ≡ ok (validated ∷ processing ∷ approved ∷ [])
approved_only_by_path ts e start end =
    let (done, e', runs, path) = attempt_all-TransitionPath ts e in
    rw runs (ap ok (TransitionPath-approved path (rw runs at end) start))

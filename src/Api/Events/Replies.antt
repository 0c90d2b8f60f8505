-- ===== src/Api/Events/Replies.antt =====
-- What a reply with an event says, and what a retry of the request gets.
use ai_risk_engine.Api.Events.{
  Body, Reply, replied, refused, event_of, validate_body, on_error, create_with_key, create_event,
}
use ai_risk_engine.Application.EventService as Service
use ai_risk_engine.Application.EventService.{EventServices}
use ai_risk_engine.Application.EventService.Replay.{
  KeepsResponses, IsPrintable, create_event-replays,
}
use ai_risk_engine.Domain.Requests.{EventResponse}
use ai_risk_engine.Errors.{
  Error, domain_error, domain_validation_error, application_error, messaging_failure_error,
  exception,
}
use ai_risk_engine.Exec.{Result, Result-cases, ok, err, pure, lift, catch, recover, proceed, ◌>>=◌}
use ai_risk_engine.Exec.Triple.{Triple, Triple-pure, Triple-throw, Triple-if, Triple-ok}
use ai_risk_engine.Json.{Fields}
use ai_risk_engine.Observability.Failures.{isinstance}
use ai_risk_engine.Prelude.{
  strip, ℕ, ◌≡◌, refl, ap, Bool, false, Bool-cases, inl, inr, String, some, [], ◌∷◌, is_blank,
  arith,
}
use ai_risk_engine.Prelude.Int.{ℤ}

abbrev IsRefusal : Reply → Type 0
IsRefusal (replied r) = ⊥
IsRefusal (refused status detail) = Unit

-- The response of a reply, in the place where the service returned it.
abbrev response_in : {W : Type 0} → Result Reply × W → Result EventResponse × W
response_in (ok (replied r), w) = (ok r, w)
response_in (ok (refused status detail), w) =
    (err (record { cls = exception; message = detail }), w)
response_in (err e, w) = (err e, w)

not_replied : {e : Error} {reply : Reply} → err e ≡ ok reply → ⊥
not_replied h = ground (arith, h)

not_both :
    (status : ℕ) (detail : String) (r : EventResponse) → refused status detail ≡ replied r → ⊥
not_both status detail r h = ground (arith, h)

ok_injective : {x y : Reply} → ok x ≡ ok y → x ≡ y
ok_injective h = ground (arith, h)

module _ {W : Type 0} (services : EventServices W) (serializable : Fields → Bool)
    (float_str : ℤ → String) where
  Triple-on_error :
      (e : Error)
      → Triple
          (λ _. Unit)
          (on_error services serializable float_str e)
          (λ reply _. IsRefusal reply)
          (λ _ _. Unit)
  unfolding on_error
  Triple-on_error e =
      Triple-if (isinstance e.cls (domain_validation_error ∷ [])) _ _
        (λ _. Triple-pure _ (λ w p. tt))
        (λ _.
          Triple-if (isinstance e.cls (domain_error ∷ [])) _ _ (λ _. Triple-pure _ (λ w p. tt))
            (λ _.
              Triple-if (isinstance e.cls (messaging_failure_error ∷ [])) _ _
                (λ _. Triple-pure _ (λ w p. tt))
                (λ _.
                  Triple-if (isinstance e.cls (application_error ∷ [])) _ _
                    (λ _. Triple-pure _ (λ w p. tt)) (λ _. Triple-throw e (λ w p. tt)))))

  service_replied :
      (x : Result EventResponse × W) (r : EventResponse) (w' : W)
      → recover
          (on_error services serializable float_str)
          (proceed (λ response. pure (replied response)) x)
        ≡ (ok (replied r), w')
      → x ≡ (ok r, w')
  unfolding pure
  service_replied (ok r₀, w₁) r w' h = ap response_in h
  service_replied (err e, w₁) r w' h = absurd (Triple-ok (Triple-on_error e) w₁ w' (replied r) tt h)

  with_key_replied :
      (key event_id now tenant_id c : String) (body : Body) (r : EventResponse) (w w' : W)
      → create_with_key services serializable float_str key event_id now tenant_id c body w
        ≡ (ok (replied r), w')
      → (validate_body services serializable float_str body ≡ ok tt)
        × (Service.create_event services (event_of event_id now tenant_id body) tenant_id key c w
            ≡ (ok r, w'))
  unfolding create_with_key lift catch ◌>>=◌
  with_key_replied key event_id now tenant_id c body r w w' h =
      elim (Result-cases (validate_body services serializable float_str body)) [
        | inl (tt, valid) ↦ (
          valid,
          service_replied
              (Service.create_event services (event_of event_id now tenant_id body) tenant_id key c
                w)
              r w' (rw valid at h),
        )
        | inr (e, invalid) ↦
            absurd (not_replied (ap (λ (x : Result Reply × W). x.0) (rw invalid at h)))
      ]

  -- A reply with an event is given only if the header has a key that is not blank, the body passes the
  -- validators, and the service returned that event under the stripped key for the tenant that the
  -- middleware found.
  pub create_event-replied :
      (x event_id now tenant_id c : String) (body : Body) (r : EventResponse) (w w' : W)
      → create_event services serializable float_str (some x) event_id now tenant_id c body w
        ≡ (ok (replied r), w')
      → (is_blank x ≡ false)
        × (validate_body services serializable float_str body ≡ ok tt)
        × (Service.create_event services
              (event_of event_id now tenant_id body)
              tenant_id
              (strip x)
              c
              w
            ≡ (ok r, w'))
  unfolding create_event pure
  create_event-replied x event_id now tenant_id c body r w w' h = elim (Bool-cases (is_blank x)) [
    | inl blank ↦
        absurd
          (not_both 400 _ r (ok_injective (ap (λ (x : Result Reply × W). x.0) (rw blank at h))))
    | inr full ↦
        let (valid, returned) =
          with_key_replied (strip x) event_id now tenant_id c body r w w' (rw full at h) in
        (full, valid, returned)
  ]

  -- A retry of `POST /events` is idempotent: if a request was replied to with an event, then a later
  -- request of the same tenant whose header strips to the same key, with any valid body, gets a reply
  -- with the same event, though a new event id and a new time are drawn for it, and leaves the world
  -- alone, with a cache that keeps what was written or read, and an event that is read back from its
  -- JSON form.
  pub create_event-retries :
      (x y event_id again now later tenant_id c c' : String) (body other : Body) (r : EventResponse)
      (w w' : W)
      → KeepsResponses services
      → IsPrintable services r
      → create_event services serializable float_str (some x) event_id now tenant_id c body w
        ≡ (ok (replied r), w')
      → is_blank y ≡ false
      → strip y ≡ strip x
      → validate_body services serializable float_str other ≡ ok tt
      → create_event services serializable float_str (some y) again later tenant_id c' other w'
        ≡ (ok (replied r), w')
  unfolding create_event create_with_key pure lift catch ◌>>=◌
  create_event-retries x y event_id again now later tenant_id c c' body other r w w' keeps printable
        first full same_key valid =
      let (_, _, created) = create_event-replied x event_id now tenant_id c body r w w' first in
      let replayed =
        create_event-replays services keeps (event_of event_id now tenant_id body)
          (event_of again later tenant_id other) tenant_id (strip x) c c' r w w' printable
          created in
      rw (full, same_key, valid, replayed) refl

-- ===== src/Application/RedisRepository/RoundTrip.antt =====
-- An event that the service created is found.
use Prim.Native.Char.{code}
use Prim.Native.String.{◌++◌}
use text.Mathlib.TextLemmas.{cons-append, head-eq_of_cons-eq}
use ai_risk_engine.Application.EventService as Service
use ai_risk_engine.Application.EventService.{
  PersistedEvent, EventRepository, EventServices, Cache, Message, create_new, idempotency_key_of,
  persisted_to_response,
}
use ai_risk_engine.Application.RedisRepository.{
  event_store_ttl, persisted_of, event_key, save, loaded, get_event, redis_repository,
}
use ai_risk_engine.Domain.Event.{Event}
use ai_risk_engine.Domain.Requests.{EventResponse}
use ai_risk_engine.Errors.{Error}
use ai_risk_engine.Exec.{Exec, Result, ok, err, pure, lift, ◌>>=◌}
use ai_risk_engine.Exec.Triple.{
  Outcome, Triple, Triple-pure, Triple-bind, Triple-raise, Triple-catch, Triple-given, Triple-ok,
}
use ai_risk_engine.Prelude.{
  ℕ, ◌≡◌, refl, sym, ap, subst, ◌∙◌, false, Bool-cases, inl, inr, String, Option, some, is_empty,
  ◌==◌, eq_iff, eq_refl, arith,
}
use ai_risk_engine.Workflow.RedisStore.Refinement.{IsTextMap}

-- A key of the idempotency cache is no key of an event.
keys_differ : (s t : String) → (("idempotency:" ++ s) == ("event:" ++ t)) ≡ false
keys_differ s t = elim (Bool-cases (("idempotency:" ++ s) == ("event:" ++ t))) [
  | inl equal ↦ absurd (
      omega (
        arith,
        ap code (
            head-eq_of_cons-eq (
              sym (cons-append "i" "dempotency:" s)
              ∙ (eq_iff ("idempotency:" ++ s) ("event:" ++ t)).0 equal
              ∙ cons-append "e" "vent:" t)),
      ))
  | inr differ ↦ differ
]

module _ {W : Type 0} (services : EventServices W) (view : W → String → Option String)
    (dump : PersistedEvent → String) (load : String → Result PersistedEvent) where
  open services use {publish, redis, start}

  -- The service over the Redis repository and the same Redis client, which behaves as Redis does;
  -- the publisher and the trigger of workflows write nothing to it.
  pub record IsRedisService : Type 0 where
    pub over : services.repository ≡ redis_repository redis dump load
    pub text_map : IsTextMap redis view
    pub publish_keeps :
        (x k : String) (m : Message) (i : String) (w : W) (asked : String)
        → view (publish x k m i w).1 asked ≡ view w asked
    pub start_keeps :
        (e t : String) (w : W) (asked : String) → view (start e t w).1 asked ≡ view w asked

pub cache_key_differs : (t k a b : String) → (idempotency_key_of t k == event_key a b) ≡ false
unfolding idempotency_key_of event_key
cache_key_differs t k a b = keys_differ (t ++ (":" ++ k)) (a ++ (":" ++ b))

-- An action after which `P` holds, returned or raised, if it held before.
Triple-keeps :
    {W A : Type 0} {P : W → Type 0} {E : Error → W → Type 0} (m : Exec W A)
    → ((w : W) → P w → P (m w).1)
    → ((e : Error) (w : W) → P w → E e w)
    → Triple P m (λ _ w. P w) E
Triple-keeps {W} {A} {P} {E} m keeps raised = record { at = λ w p. both (m w) (keeps w p) }
  where
    both : (r : Result A × W) → P r.1 → Outcome (λ _ w. P w) E r
    both (ok a, w) p = p
    both (err e, w) p = raised e w p

-- An action that always leaves `Q`.
Triple-leaves :
    {W A : Type 0} {Q : W → Type 0} (m : Exec W A)
    → ((w : W) → Q (m w).1)
    → Triple (λ _. Unit) m (λ _ w. Q w) (λ _ _. Unit)
Triple-leaves {W} {A} {Q} m leaves = record { at = λ w p. either (m w) (leaves w) }
  where
    either : (r : Result A × W) → Q r.1 → Outcome (λ _ w. Q w) (λ _ _. Unit) r
    either (ok a, w) q = q
    either (err e, w) q = tt

module _ {W : Type 0} {services : EventServices W} {view : W → String → Option String}
    {dump : PersistedEvent → String} {load : String → Result PersistedEvent}
    (h : IsRedisService services view dump load) (event : Event) (correlation_id : String) where
  open services use {repository, publish, redis, start}

  abbrev saved : PersistedEvent
  saved = persisted_of event correlation_id

  abbrev key_of_event : String
  key_of_event = event_key event.fields.tenant_id event.fields.event_id

  abbrev IsKept : W → Type 0
  IsKept w = view w key_of_event ≡ some (dump saved)

  Triple-redis_save :
      Triple
        (λ _. Unit)
        (save redis dump load event correlation_id)
        (λ p w. IsKept w × (p ≡ saved))
        (λ _ _. Unit)
  unfolding save
  Triple-redis_save =
      Triple-bind
        (Triple-leaves {Q = IsKept} (redis.set_cache key_of_event (dump saved) event_store_ttl)
          (λ w.
            h.text_map.set_view key_of_event (dump saved) event_store_ttl w key_of_event
            ∙ rw (eq_refl key_of_event) refl))
        λ done. Triple-pure _ (λ w p. (p, refl))

  Triple-save :
      Triple
        (λ _. Unit)
        (repository.save event correlation_id)
        (λ p w. IsKept w × (p ≡ saved))
        (λ _ _. Unit)
  Triple-save =
      subst
        (λ (r : EventRepository W).
          Triple (λ _. Unit) (r.save event correlation_id) (λ p w. IsKept w × (p ≡ saved))
            (λ _ _. Unit))
        (sym h.over) Triple-redis_save

  Triple-cached :
      (tenant_id idempotency_key v : String) (t : ℕ)
      → Triple IsKept
          (redis.set_cache (idempotency_key_of tenant_id idempotency_key) v t)
          (λ _ w. IsKept w)
          (λ _ _. Unit)
  Triple-cached tenant_id idempotency_key v t =
      Triple-keeps (redis.set_cache (idempotency_key_of tenant_id idempotency_key) v t)
        (λ w kept.
          h.text_map.set_view (idempotency_key_of tenant_id idempotency_key) v t w key_of_event
          ∙ rw
              (cache_key_differs tenant_id idempotency_key event.fields.tenant_id
                event.fields.event_id)
              kept)
        (λ e w kept. tt)

  Triple-create_new :
      (tenant_id idempotency_key header : String)
      → Triple
          (λ _. Unit)
          (create_new services event
            (idempotency_key_of tenant_id idempotency_key)
            header
            correlation_id)
          (λ r w. IsKept w × (r ≡ persisted_to_response saved))
          (λ _ _. Unit)
  unfolding create_new
  Triple-create_new tenant_id idempotency_key header = Triple-bind Triple-save λ p.
      Triple-given λ is_saved.
        Triple-bind
          (Triple-catch
            (Triple-keeps (publish _ _ _ _)
              (λ w kept. h.publish_keeps _ _ _ _ w key_of_event ∙ kept) (λ e w kept. kept))
            (λ e. Triple-raise {E = λ _ _. Unit} _ _ (λ w kept. tt)))
          λ sent.
            Triple-bind
              (Triple-catch
                (Triple-keeps (start p.event_id p.tenant_id)
                  (λ w kept. h.start_keeps _ _ w key_of_event ∙ kept) (λ e w kept. kept))
                (λ e. Triple-pure tt (λ w kept. kept)))
              λ started.
                Triple-bind (Triple-cached tenant_id idempotency_key _ _)
                  λ done. Triple-pure _ (λ w kept. (kept, ap persisted_to_response is_saved))

  -- The repository answers with the event that it keeps.
  get_event_kept :
      (w : W)
      → IsKept w
      → is_empty (dump saved) ≡ false
      → load (dump saved) ≡ ok saved
      → get_event redis dump load event.fields.tenant_id event.fields.event_id w
        ≡ (ok (some saved), w)
  unfolding get_event loaded pure lift ◌>>=◌
  get_event_kept w kept is_text printed =
      rw (h.text_map.get_reads key_of_event w, kept, is_text, printed) refl

  -- What the service creates is found: over the Redis repository, with a client that behaves as Redis
  -- does within the times to live, a publisher and a workflow trigger that write nothing to Redis,
  -- and an event that is read back from its JSON form, which is not empty, `get_event` for the tenant
  -- and id of an event answers, after a creation that returned, with the very response of the
  -- creation, also if the start of the workflow raised.
  pub create_new-get_event :
      (tenant_id idempotency_key header : String) (r : EventResponse) (w w' : W)
      → is_empty (dump saved) ≡ false
      → load (dump saved) ≡ ok saved
      → create_new services event
          (idempotency_key_of tenant_id idempotency_key)
          header
          correlation_id
          w
        ≡ (ok r, w')
      → Service.get_event services event.fields.tenant_id event.fields.event_id w'
        ≡ (ok (some r), w')
  unfolding Service.get_event Service.optional_response pure ◌>>=◌
  create_new-get_event tenant_id idempotency_key header r w w' is_text printed created =
      let (kept, is_r) =
        Triple-ok (Triple-create_new tenant_id idempotency_key header) w w' r tt created in
      let found =
        subst
          (λ (repo : EventRepository W).
            repo.get event.fields.tenant_id event.fields.event_id w' ≡ (ok (some saved), w'))
          (sym h.over) (get_event_kept w' kept is_text printed) in
      rw (found, is_r) refl

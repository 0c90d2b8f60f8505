-- ===== src/Application/EventService/Replay.antt =====
-- Idempotent creation of events.
use Prim.Native.String.{◌++◌}
use text.Mathlib.TextLemmas.{append_assoc}
use ai_risk_engine.Application.EventService.{
  EventServices, create_new, create_event, replay_or_create, idempotency_key_of, idempotency_ttl,
  persisted_to_response, routing_key, message_of,
}
use ai_risk_engine.Domain.Event.{Event}
use ai_risk_engine.Domain.Requests.{EventResponse}
use ai_risk_engine.Errors.{messaging_failure_error}
use ai_risk_engine.Exec.{Result, Result-cases, ok, err, proceed, lift, pure, catch, raise}
use ai_risk_engine.Exec.Triple.{
  Outcome, Triple, Triple-pure, Triple-bind, Triple-any, Triple-weaken, Triple-if, Triple-ok,
}
use ai_risk_engine.Prelude.{
  ◌≡◌, refl, sym, subst, inl, inr, false, String, Option, none, some, is_empty,
}

-- Behaviour of the cache on which the replay relies, within the time to live: a value that was
-- written, or was read, is read again.
pub record KeepsResponses {W : Type 0} (services : EventServices W) : Type 0 where
  pub get_cache-set :
      (k v : String) (t : _) (w w' : W)
      → services.redis.set_cache k v t w ≡ (ok tt, w')
      → services.redis.get_cache k w' ≡ (ok (some v), w')
  pub get_cache_again :
      (k : String) (o : Option String) (w w' : W)
      → services.redis.get_cache k w ≡ (ok o, w')
      → services.redis.get_cache k w' ≡ (ok o, w')

-- The response is read back from its JSON form, which is not empty.
pub record IsPrintable {W : Type 0} (services : EventServices W) (r : EventResponse) : Type 0 where
  pub load-dump : services.load (services.dump r) ≡ ok r
  pub dump_is_text : is_empty (services.dump r) ≡ false

keys_collide :
    (a b i : String)
    → idempotency_key_of (a ++ (":" ++ b)) i ≡ idempotency_key_of a (b ++ (":" ++ i))
unfolding idempotency_key_of
keys_collide a b i = simp (append_assoc)

module _ {W : Type 0} (services : EventServices W) where
  open services use {repository, publish, redis, start, dump, load}

  module _ (keeps : KeepsResponses services) where
    -- After a cached answer the key answers the same.
    replay_again :
        (k : String) (v : String) (r : EventResponse) (w : W)
        → is_empty v ≡ false
        → load v ≡ ok r
        → redis.get_cache k w ≡ (ok (some v), w)
        → (event : Event) (i c : String)
        → proceed (replay_or_create services event k i c) (redis.get_cache k w) ≡ (ok r, w)
    unfolding lift
    replay_again k v r w full read got event i c = rw (got, full, read) refl

    -- The key has an answer, which is `r`.
    abbrev Answers : String → EventResponse → W → Type 0
    Answers k r w =
        IsPrintable services r
        → (v : String) × (is_empty v ≡ false)
          × (load v ≡ ok r)
          × (redis.get_cache k w ≡ (ok (some v), w))

    Triple-set_cache :
        (k v : String)
        → Triple
            (λ _. Unit)
            (redis.set_cache k v idempotency_ttl)
            (λ _ w. redis.get_cache k w ≡ (ok (some v), w))
            (λ _ _. Unit)
    Triple-set_cache k v = record {
      at = λ w p.
          written (redis.set_cache k v idempotency_ttl w)
            (λ w' h. keeps.get_cache-set k v idempotency_ttl w w' h);
    }
      where
        written :
            (r : Result (Unit {0}) × W)
            → ((w' : W) → r ≡ (ok tt, w') → redis.get_cache k w' ≡ (ok (some v), w'))
            → Outcome (λ _ w. redis.get_cache k w ≡ (ok (some v), w)) (λ _ _. Unit) r
        written (ok _, w') h = h w' refl
        written (err e, w') h = tt

    Triple-get_cache :
        (k : String)
        → Triple
            (λ _. Unit)
            (redis.get_cache k)
            (λ o w. redis.get_cache k w ≡ (ok o, w))
            (λ _ _. Unit)
    Triple-get_cache k = record {
      at = λ w p. found (redis.get_cache k w) (λ o w' h. keeps.get_cache_again k o w w' h);
    }
      where
        found :
            (r : Result (Option String) × W)
            → ((o : Option String) (w' : W) → r ≡ (ok o, w') → redis.get_cache k w' ≡ (ok o, w'))
            → Outcome (λ o w. redis.get_cache k w ≡ (ok o, w)) (λ _ _. Unit) r
        found (ok o, w') h = h o w' refl
        found (err e, w') h = tt

    Triple-create_new :
        (event : Event) (k i c : String)
        → Triple (λ _. Unit) (create_new services event k i c) (Answers k) (λ _ _. Unit)
    unfolding create_new
    Triple-create_new event k i c = Triple-bind (Triple-any (repository.save event c)) λ p.
        Triple-bind
          (Triple-any (
            catch (publish "risk_events" (routing_key event.kind) (message_of event.kind p) i)
              (λ e. raise messaging_failure_error ("Publish failed: " ++ e.message))))
          λ _. Triple-bind (Triple-any (catch (start p.event_id p.tenant_id) (λ e. pure tt))) λ _.
            let r = persisted_to_response p in
            Triple-bind (Triple-set_cache k (dump r)) λ _.
              Triple-pure r
                (λ w got printable. (dump r, printable.dump_is_text, printable.load-dump, got))

    Triple-load :
        (k v : String)
        → is_empty v ≡ false
        → Triple
            (λ w. redis.get_cache k w ≡ (ok (some v), w))
            (lift (load v))
            (Answers k)
            (λ _ _. Unit)
    unfolding lift
    Triple-load k v full = record {
      at = λ w got. elim (Result-cases (load v)) [
        | inl (r, e) ↦
            subst (λ x. Outcome (Answers k) (λ _ _. Unit) (x, w)) (sym e)
              (λ printable. (v, full, e, got))
        | inr (x, e) ↦ subst (λ y. Outcome (Answers k) (λ _ _. Unit) (y, w)) (sym e) tt
      ];
    }

    Triple-replay :
        (event : Event) (k i c : String) (o : Option String)
        → Triple
            (λ w. redis.get_cache k w ≡ (ok o, w))
            (replay_or_create services event k i c o)
            (Answers k)
            (λ _ _. Unit)
    Triple-replay event k i c none =
        Triple-weaken (Triple-create_new event k i c) (λ w p. tt) (λ r w a. a)
    Triple-replay event k i c (some v) =
        Triple-if (is_empty v) _ _
          (λ _. Triple-weaken (Triple-create_new event k i c) (λ w p. tt) (λ r w a. a))
          (λ full. Triple-load k v full)

    Triple-create_event :
        (event : Event) (t i c : String)
        → Triple
            (λ _. Unit)
            (create_event services event t i c)
            (Answers (idempotency_key_of t i))
            (λ _ _. Unit)
    unfolding create_event
    Triple-create_event event t i c =
        Triple-bind (Triple-get_cache (idempotency_key_of t i))
          λ o. Triple-replay event (idempotency_key_of t i) i c o

    -- Creating under a tenant and an idempotency key that a response was returned for returns the same
    -- response and leaves the world alone, whatever the event and the correlation id of the second
    -- call: nothing is saved, published or started again. The cache keeps what was written or read, and
    -- the response is read back from its JSON form.
    pub create_event-replays :
        (event again : Event) (t i c c' : String) (r : EventResponse) (w w' : W)
        → IsPrintable services r
        → create_event services event t i c w ≡ (ok r, w')
        → create_event services again t i c' w' ≡ (ok r, w')
    unfolding create_event
    create_event-replays event again t i c c' r w w' printable h =
        let (v, full, read, got) =
          Triple-ok (Triple-create_event event t i c) w w' r tt h printable in
        replay_again (idempotency_key_of t i) v r w' full read got again i c'

    -- The keys do not keep tenants apart: a tenant whose name continues another's after a colon shares
    -- keys with it, and gets back the response of the other tenant's event, under the same conditions.
    pub create_event-crosses_tenants :
        (event again : Event) (a b i c c' : String) (r : EventResponse) (w w' : W)
        → IsPrintable services r
        → create_event services event (a ++ (":" ++ b)) i c w ≡ (ok r, w')
        → create_event services again a (b ++ (":" ++ i)) c' w' ≡ (ok r, w')
    unfolding create_event
    create_event-crosses_tenants event again a b i c c' r w w' printable h =
        let (v, full, read, got) =
          Triple-ok (Triple-create_event event (a ++ (":" ++ b)) i c) w w' r tt h printable in
        replay_again (idempotency_key_of a (b ++ (":" ++ i))) v r w' full read
          (subst (λ k. redis.get_cache k w' ≡ (ok (some v), w')) (keys_collide a b i) got) again
          (b ++ (":" ++ i)) c'

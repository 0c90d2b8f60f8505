-- ===== src/Api/App/Writes.antt =====
-- What the handlers of a tenant write, over the services that app/api/dependencies.py builds.
use ai_risk_engine.Api.Dependencies as Dependencies
use ai_risk_engine.Api.Dependencies.{Printing, redis_of, message_fields, get_event_service}
use ai_risk_engine.Api.Events.{
  Body, risk_body, compliance_body, event_of, on_error, create_with_key, create_event, get_event,
  request_to_risk_event, request_to_compliance_event,
}
use ai_risk_engine.Application.EventService as Service
use ai_risk_engine.Application.EventService.{
  PersistedEvent, create_new, replay_or_create, idempotency_key_of, idempotency_ttl,
  persisted_to_response,
}
use ai_risk_engine.Application.RedisRepository.{save, loaded, event_key, event_store_ttl}
use ai_risk_engine.Application.RedisRepository as RedisRepository
use ai_risk_engine.Domain.Event.{Event}
use ai_risk_engine.Errors.{Error}
use ai_risk_engine.Exec.{pure, throw}
use ai_risk_engine.Exec.Keeps.{
  Keeps, Keeps-pure, Keeps-lift, Keeps-raise, Keeps-if, Keeps-catch, Keeps-bind,
}
use ai_risk_engine.Infrastructure.Publisher.{Broker, RabbitMqPublisher}
use ai_risk_engine.Infrastructure.Publisher.Elsewhere.{
  IsElsewhere, beside, Keeps-on_broker, Keeps-publish,
}
use ai_risk_engine.Infrastructure.RedisClient.{Redis}
use ai_risk_engine.Infrastructure.RedisClient.Texts.{IsTextStore, Keeps-set_cache, Keeps-get_cache}
use ai_risk_engine.Json.{Fields}
use ai_risk_engine.Prelude.{
  strip, arith, ℕ, ◌≡◌, Bool, false, String, Option, none, some, ◌==◌, is_empty, is_blank,
}
use ai_risk_engine.Prelude.Int.{ℤ}

module _ {W C H X : Type 0} (client : Redis W) (broker : Broker W C H X) (url : String)
    (printing : Printing) (view : W → String → Option String) (key : String) where
  abbrev services : Service.EventServices (RabbitMqPublisher C H × W)
  services = get_event_service client broker url printing

  -- The text under the key.
  abbrev pub text_at : RabbitMqPublisher C H × W → Option String
  text_at = beside (λ w. view w key)

  module _ (texts : IsTextStore client view)
      (elsewhere : IsElsewhere broker (λ w. view w key)) where
    Keeps-set :
        (k v : String) (t : ℕ) → (k == key) ≡ false → Keeps text_at (services.redis.set_cache k v t)
    Keeps-set k v t other = Keeps-on_broker (Keeps-set_cache texts k v t key other)

    Keeps-save :
        (e : Event) (c : String)
        → (event_key e.fields.tenant_id e.fields.event_id == key) ≡ false
        → Keeps text_at (services.repository.save e c)
    unfolding save
    Keeps-save e c other = Keeps-bind (Keeps-set _ _ event_store_ttl other) λ _. Keeps-pure _

    Keeps-create_new :
        (e : Event) (k i c : String)
        → (event_key e.fields.tenant_id e.fields.event_id == key) ≡ false
        → (k == key) ≡ false
        → Keeps text_at (create_new services e k i c)
    unfolding create_new Dependencies.start
    Keeps-create_new e k i c other_event other_key = Keeps-bind (Keeps-save e c other_event) λ p.
        Keeps-bind
          (Keeps-catch (Keeps-publish broker url printing.dump_message elsewhere _ _ _ _)
            (λ x. Keeps-raise _ _))
          λ _. Keeps-bind (Keeps-catch (Keeps-pure tt) (λ x. Keeps-pure tt)) λ _.
            Keeps-bind
              (Keeps-set k (printing.dump_response (persisted_to_response p)) idempotency_ttl
                other_key)
              λ _. Keeps-pure (persisted_to_response p)

    Keeps-replay :
        (e : Event) (k i c : String) (o : Option String)
        → (event_key e.fields.tenant_id e.fields.event_id == key) ≡ false
        → (k == key) ≡ false
        → Keeps text_at (replay_or_create services e k i c o)
    Keeps-replay e k i c none other_event other_key = Keeps-create_new e k i c other_event other_key
    Keeps-replay e k i c (some cached) other_event other_key =
        Keeps-if (is_empty cached) (Keeps-create_new e k i c other_event other_key) (Keeps-lift _)

    Keeps-create :
        (e : Event) (t i c : String)
        → (event_key e.fields.tenant_id e.fields.event_id == key) ≡ false
        → (idempotency_key_of t i == key) ≡ false
        → Keeps text_at (Service.create_event services e t i c)
    unfolding Service.create_event
    Keeps-create e t i c other_event other_key =
        Keeps-bind (Keeps-on_broker (Keeps-get_cache texts (idempotency_key_of t i) key))
          λ o. Keeps-replay e (idempotency_key_of t i) i c o other_event other_key

    -- What the tenant's own keys are not.
    pub record IsForeign (tenant_id : String) : Type 0 where
      pub no_event : (event_id : String) → (event_key tenant_id event_id == key) ≡ false
      pub no_cached : (i : String) → (idempotency_key_of tenant_id i == key) ≡ false

    module _ (serializable : Fields → Bool) (float_str : ℤ → String) (tenant_id : String)
        (foreign : IsForeign tenant_id) where
      own_event :
          (event_id now : String) (body : Body)
          → (event_key
                (event_of event_id now tenant_id body).fields.tenant_id
                (event_of event_id now tenant_id body).fields.event_id
              == key)
            ≡ false
      unfolding request_to_risk_event request_to_compliance_event
      own_event event_id now (risk_body req) = foreign.no_event event_id
      own_event event_id now (compliance_body req) = foreign.no_event event_id

      Keeps-on_error : (e : Error) → Keeps text_at (on_error services serializable float_str e)
      unfolding on_error pure throw
      Keeps-on_error e = record { at = λ w. ground arith }

      pub Keeps-create_event :
          (header : Option String) (event_id now correlation_id : String) (body : Body)
          → Keeps text_at (
              create_event services serializable float_str header event_id now tenant_id
                correlation_id body)
      unfolding create_event create_with_key
      Keeps-create_event none event_id now correlation_id body = Keeps-pure _
      Keeps-create_event (some i) event_id now correlation_id body =
          Keeps-if (is_blank i) (Keeps-pure _) (
            Keeps-bind (Keeps-lift _) λ _.
              Keeps-catch
                (Keeps-bind
                  (Keeps-create (event_of event_id now tenant_id body) tenant_id (strip i)
                    correlation_id (own_event event_id now body) (foreign.no_cached (strip i)))
                  λ r. Keeps-pure _)
                Keeps-on_error)

    pub Keeps-get_event :
        (serializable : Fields → Bool) (float_str : ℤ → String) (tenant_id event_id : String)
        → Keeps text_at (get_event services serializable float_str tenant_id event_id)
    unfolding get_event Service.get_event RedisRepository.get_event loaded
    Keeps-get_event serializable float_str tenant_id event_id =
        Keeps-bind
          (Keeps-bind
            (Keeps-bind (Keeps-on_broker (Keeps-get_cache texts (event_key tenant_id event_id) key))
              λ raw. Keeps-loaded raw)
            λ found. Keeps-pure _)
          λ e. Keeps-pure _
      where
        Keeps-loaded :
            (raw : Option String)
            → Keeps text_at (loaded services.redis printing.dump_event printing.load_event raw)
        Keeps-loaded none = Keeps-pure none
        Keeps-loaded (some raw) =
            Keeps-if (is_empty raw) (Keeps-pure none) (Keeps-bind (Keeps-lift _) λ e. Keeps-pure _)

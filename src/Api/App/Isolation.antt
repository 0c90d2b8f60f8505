-- ===== src/Api/App/Isolation.antt =====
-- What one tenant's requests do to what another tenant sees, over the services that
-- app/api/dependencies.py builds.
use Prim.Native.String.{◌++◌}
use ai_risk_engine.Api.App.{
  Endpoint, get_health, get_tenant_context, post_event, get_event_by_id, post_risk, post_compliance,
  Drawn, Settings, response_of, health, tenant_context, post, route, serve,
}
use ai_risk_engine.Api.App.Served.{prepared}
use ai_risk_engine.Api.App.Layers.{
  final_response, recovered_result, replied_world, serve_world, serve_result,
}
use ai_risk_engine.Api.App.Writes.{IsForeign, Keeps-create_event, Keeps-get_event}
use ai_risk_engine.Api.Dependencies.{
  Printing, get_event_service, get_tenant_id, get_correlation_id, attribute_or_raise,
}
use ai_risk_engine.Api.Events.{
  Reply, replied, refused, reply_of, risk_body, compliance_body, get_event,
}
use ai_risk_engine.Api.Middleware.{Request, Scope, Response, correlation_id_of}
use ai_risk_engine.Application.EventService.{EventServices, PersistedEvent}
use ai_risk_engine.Application.EventService as Service
use ai_risk_engine.Application.RedisRepository as RedisRepository
use ai_risk_engine.Application.RedisRepository.{event_key, loaded}
use ai_risk_engine.Application.RedisRepository.RoundTrip.{cache_key_differs}
use ai_risk_engine.Application.RedisRepository.Tenants.{
  has_colon, event_keys_differ, event_keys_collide,
}
use ai_risk_engine.Exec.{Exec, Result, ok, err, pure, lift, proceed, ◌>>=◌}
use ai_risk_engine.Infrastructure.Publisher.{Broker, RabbitMqPublisher}
use ai_risk_engine.Infrastructure.Publisher.Elsewhere.{IsElsewhere}
use ai_risk_engine.Infrastructure.RedisClient.{Redis, get_cache}
use ai_risk_engine.Infrastructure.RedisClient.Texts.{IsTextStore}
use ai_risk_engine.Json.{Fields}
use ai_risk_engine.Prelude.{
  strip, ◌≡◌, ◌≢◌, refl, sym, ap, ◌∙◌, Bool, false, Bool-cases, inl, inr, String, Option, none,
  some, if◌then◌else◌, is_blank, is_empty,
}
use ai_risk_engine.Prelude.Int.{ℤ}

module _ {W C H X : Type 0} (client : Redis W) (broker : Broker W C H X) (url : String)
    (printing : Printing) (view : W → String → Option String) (serializable : Fields → Bool)
    (float_str : ℤ → String) (settings : Settings) where
  abbrev app_services : EventServices (RabbitMqPublisher C H × W)
  app_services = get_event_service client broker url printing

  abbrev pub app : Drawn → Request → Endpoint → Exec (Scope (RabbitMqPublisher C H × W)) Response
  app drawn = serve app_services serializable float_str settings drawn

  module _ (texts : IsTextStore client view) where
    -- A request of a tenant leaves the keys alone that are not its own.
    route_text :
        (key : String) (elsewhere : IsElsewhere broker (λ w. view w key)) (drawn : Drawn)
        (tenant_id correlation_id : String) (s : Scope (RabbitMqPublisher C H × W))
        (foreign : IsForeign client broker url printing view key texts elsewhere tenant_id)
        (endpoint : Endpoint)
        → view
            (route app_services serializable float_str settings drawn endpoint
              (prepared tenant_id correlation_id s)).1.world.1
            key
          ≡ view s.world.1 key
    unfolding route post health tenant_context get_tenant_id get_correlation_id attribute_or_raise
        pure ◌>>=◌
    route_text key elsewhere drawn tenant_id correlation_id s foreign get_health = refl
    route_text key elsewhere drawn tenant_id correlation_id s foreign get_tenant_context = refl
    route_text key elsewhere drawn tenant_id correlation_id s foreign (post_event header body) =
        ap (λ (x : RabbitMqPublisher C H × W). view x.1 key) (replied_world _)
        ∙ (Keeps-create_event client broker url printing view key texts elsewhere serializable
              float_str tenant_id foreign header drawn.event_id drawn.now correlation_id body).at
            s.world
    route_text key elsewhere drawn tenant_id correlation_id s foreign (get_event_by_id event_id) =
        ap (λ (x : RabbitMqPublisher C H × W). view x.1 key) (replied_world _)
        ∙ (Keeps-get_event client broker url printing view key texts elsewhere serializable
              float_str tenant_id event_id).at
            s.world
    route_text key elsewhere drawn tenant_id correlation_id s foreign (post_risk header body) =
        ap (λ (x : RabbitMqPublisher C H × W). view x.1 key) (replied_world _)
        ∙ (Keeps-create_event client broker url printing view key texts elsewhere serializable
              float_str tenant_id foreign header drawn.event_id drawn.now correlation_id
              (risk_body body)).at
            s.world
    route_text key elsewhere drawn tenant_id correlation_id s foreign
          (post_compliance header body) =
        ap (λ (x : RabbitMqPublisher C H × W). view x.1 key) (replied_world _)
        ∙ (Keeps-create_event client broker url printing view key texts elsewhere serializable
              float_str tenant_id foreign header drawn.event_id drawn.now correlation_id
              (compliance_body body)).at
            s.world

    -- What a read of an event answers, for the text under its key.
    abbrev reply_of_loaded : Result PersistedEvent → Result Reply
    reply_of_loaded (ok p) = ok (replied (Service.persisted_to_response p))
    reply_of_loaded (err e) = err e

    abbrev reply_of_text : Option String → Result Reply
    reply_of_text none = ok (refused 404 "Event not found")
    reply_of_text (some raw) =
        if is_empty raw
        then ok (refused 404 "Event not found")
        else reply_of_loaded (printing.load_event raw)

    get_event_lem :
        (tenant_id event_id : String) (w : RabbitMqPublisher C H × W)
        → get_event app_services serializable float_str tenant_id event_id w
          ≡ (reply_of_text (view w.1 (event_key tenant_id event_id)), w)
    unfolding get_event Service.get_event Service.optional_response RedisRepository.get_event loaded
        get_cache pure lift ◌>>=◌
    get_event_lem tenant_id event_id w =
        rw (texts.get_reads (event_key tenant_id event_id) w.1)
          (by_text (view w.1 (event_key tenant_id event_id)))
      where
        by_loaded :
            (r : Result PersistedEvent)
            → proceed
                (λ e. pure (reply_of e))
                (proceed
                  (λ found. pure (Service.optional_response found))
                  (proceed (λ e. pure (some e)) (r, w)))
              ≡ (reply_of_loaded r, w)
        by_loaded (ok p) = refl
        by_loaded (err e) = refl

        by_text :
            (o : Option String)
            → proceed
                (λ e. pure (reply_of e))
                (proceed
                  (λ found. pure (Service.optional_response found))
                  (loaded app_services.redis printing.dump_event printing.load_event o w))
              ≡ (reply_of_text o, w)
        by_text none = refl
        by_text (some raw) = elim (Bool-cases (is_empty raw)) [
          | inl empty ↦ rw empty refl
          | inr full ↦ rw full (by_loaded (printing.load_event raw))
        ]

    abbrev response_result : Result Reply → Result Response
    response_result (ok reply) = ok (response_of reply)
    response_result (err e) = err e

    responded :
        (x : Result Reply × Scope (RabbitMqPublisher C H × W))
        → (proceed (λ reply. pure (response_of reply)) x).0 ≡ response_result x.0
    unfolding pure
    responded (ok reply, s) = refl
    responded (err e, s) = refl

    -- GET /events/{id} answers by the text under the key of the tenant and the event alone.
    reads_text :
        (drawn : Drawn) (request : Request) (header event_id : String)
        (s : Scope (RabbitMqPublisher C H × W))
        → request.tenant_header ≡ some header
        → is_blank header ≡ false
        → (app drawn request (get_event_by_id event_id) s).0
          ≡ final_response (correlation_id_of request.correlation_header drawn.correlation_id) (
              recovered_result (
                response_result
                  (reply_of_text (view s.world.1 (event_key (strip header) event_id)))))
    unfolding route get_tenant_id attribute_or_raise pure ◌>>=◌
    reads_text drawn request header event_id s given named =
        serve_result app_services serializable float_str settings drawn request header
          (get_event_by_id event_id) s given named
        ∙ ap
            (λ r.
              final_response (correlation_id_of request.correlation_header drawn.correlation_id)
                (recovered_result r))
            (responded _
              ∙ ap (λ (x : Result Reply × (RabbitMqPublisher C H × W)). response_result x.0)
                  (get_event_lem (strip header) event_id s.world))

    -- Tenants are kept apart: over a Redis client that stores texts as documented within the times to
    -- live and a broker that does not write to Redis, no request of one tenant, to any endpoint and
    -- with any body or headers, changes what another tenant's GET /events/{id} answers, for any id,
    -- if the two stripped tenant names differ and contain no colon.
    pub tenants_isolated :
        (elsewhere : (key : String) → IsElsewhere broker (λ w. view w key)) (drawn again : Drawn)
        (request other : Request) (header other_header event_id : String) (endpoint : Endpoint)
        (s : Scope (RabbitMqPublisher C H × W))
        → request.tenant_header ≡ some header
        → is_blank header ≡ false
        → other.tenant_header ≡ some other_header
        → is_blank other_header ≡ false
        → has_colon (strip header) ≡ false
        → has_colon (strip other_header) ≡ false
        → strip header ≢ strip other_header
        → (app again other (get_event_by_id event_id) (app drawn request endpoint s).1).0
          ≡ (app again other (get_event_by_id event_id) s).0
    tenants_isolated elsewhere drawn again request other header other_header event_id endpoint s
          given named also_given also_named plain also_plain differ =
        let key = event_key (strip other_header) event_id in
        let foreign : IsForeign client broker url printing view key texts (elsewhere key)
            (strip header) =
          record {
            no_event = λ e.
                event_keys_differ (strip header) (strip other_header) e event_id plain also_plain
                  differ;
            no_cached = λ i. cache_key_differs (strip header) i (strip other_header) event_id;
          } in
        reads_text again other other_header event_id (app drawn request endpoint s).1 also_given
          also_named
        ∙ ap
            (λ o.
              final_response (correlation_id_of other.correlation_header again.correlation_id)
                (recovered_result (response_result (reply_of_text o))))
            (ap (λ (w : RabbitMqPublisher C H × W). view w.1 key)
                (serve_world app_services serializable float_str settings drawn request header
                  endpoint s given named)
              ∙ route_text key (elsewhere key) drawn (strip header) _ s foreign endpoint)
        ∙ sym (reads_text again other other_header event_id s also_given also_named)

    -- The colon matters: over the same client, a tenant whose name another tenant's name continues
    -- after a colon reads that tenant's events, by asking for the rest of the name, a colon and the id
    -- of the event. The two answers are the same under the same correlation id.
    pub reads_across_tenants :
        (drawn again : Drawn) (request other : Request) (header other_header rest event_id : String)
        (s : Scope (RabbitMqPublisher C H × W))
        → request.tenant_header ≡ some header
        → is_blank header ≡ false
        → other.tenant_header ≡ some other_header
        → is_blank other_header ≡ false
        → strip other_header ≡ strip header ++ (":" ++ rest)
        → correlation_id_of request.correlation_header drawn.correlation_id
          ≡ correlation_id_of other.correlation_header again.correlation_id
        → (app drawn request (get_event_by_id (rest ++ (":" ++ event_id))) s).0
          ≡ (app again other (get_event_by_id event_id) s).0
    reads_across_tenants drawn again request other header other_header rest event_id s given named
          also_given also_named continues same_id =
        reads_text drawn request header (rest ++ (":" ++ event_id)) s given named
        ∙ (λ i. final_response (same_id i) (
            recovered_result (
              response_result (
                reply_of_text (
                  view s.world.1 (
                    (sym (event_keys_collide (strip header) rest event_id)
                        ∙ ap (λ t. event_key t event_id) (sym continues))
                      i))))))
        ∙ sym (reads_text again other other_header event_id s also_given also_named)

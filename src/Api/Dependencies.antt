-- ===== src/Api/Dependencies.antt =====
-- app/api/dependencies.py, with `DummyWorkflowTrigger` of app/workflows/dummy_workflow.py, which only
-- logs. A client that is constructed is an argument of the function that may construct it.
use Prim.Native.String.{◌++◌}
use ai_risk_engine.Api.Middleware.{Scope, scope}
use ai_risk_engine.Application.EventService.{EventServices, Message, PersistedEvent, Cache}
use ai_risk_engine.Application.RedisRepository.{redis_repository}
use ai_risk_engine.Domain.Requests.{EventResponse}
use ai_risk_engine.Errors.{attribute_error}
use ai_risk_engine.Exec.{Exec, Result, pure, raise, ◌>>=◌}
use ai_risk_engine.Infrastructure.Publisher.{Broker, RabbitMqPublisher, on_broker, publish}
use ai_risk_engine.Infrastructure.RedisClient.{Redis, redis_cache}
use ai_risk_engine.Json.{Fields, str, field, end}
use ai_risk_engine.Prelude.{String, Option, none, some}

-- `_redis_client` and `_publisher`
pub record Singletons (R P : Type 0) : Type 0 where
  pub redis_client : Option R
  pub publisher : Option P

abbrev or_else : {A : Type 0} → Option A → A → A
or_else none fresh = fresh
or_else (some kept) fresh = kept

module _ {R P : Type 0} where
  unfoldable pub get_redis_client : R → Singletons R P → R × Singletons R P
  get_redis_client fresh s =
      let client = or_else s.redis_client fresh in (client, record s { redis_client = some client })

  unfoldable pub get_publisher : P → Singletons R P → P × Singletons R P
  get_publisher fresh s =
      let publisher = or_else s.publisher fresh in
      (publisher, record s { publisher = some publisher })

-- The message as the dictionary that the service builds.
abbrev pub message_fields : Message → Fields
message_fields m = field "event_id" (str m.event_id) (
    field "tenant_id" (str m.tenant_id) (
      field "correlation_id" (str m.correlation_id)
        (field "event_type" (str m.event_type) (field "status" (str m.status) end))))

-- The Redis client beside a publisher.
abbrev pub beside_publisher : {W C H : Type 0} → Cache W → Cache (RabbitMqPublisher C H × W)
beside_publisher cache = record {
  get_cache = λ key. on_broker (cache.get_cache key);
  set_cache = λ key value ttl. on_broker (cache.set_cache key value ttl);
}

-- `DummyWorkflowTrigger.start`
unfoldable pub start : {W : Type 0} → String → String → Exec W (Unit {0})
unfolding pure
start event_id tenant_id = pure tt

-- What `json` and pydantic print and read.
pub record Printing : Type 0 where
  pub dump_message : Fields → Result String
  pub dump_event : PersistedEvent → String
  pub load_event : String → Result PersistedEvent
  pub dump_response : EventResponse → String
  pub load_response : String → Result EventResponse

module _ {W C H X : Type 0} (client : Redis W) (broker : Broker W C H X) (url : String)
    (printing : Printing) where
  abbrev pub redis_of : Cache (RabbitMqPublisher C H × W)
  redis_of = beside_publisher (redis_cache client)

  -- `get_event_service`
  abbrev pub get_event_service : EventServices (RabbitMqPublisher C H × W)
  get_event_service = record {
    repository = redis_repository redis_of printing.dump_event printing.load_event;
    publish = λ exchange routing_key message idempotency_key.
        publish broker url printing.dump_message exchange routing_key (message_fields message)
          idempotency_key;
    redis = redis_of;
    start = start;
    dump = printing.dump_response;
    load = printing.load_response;
  }

-- `request.state.name`, which raises AttributeError where it is not set.
unfoldable pub attribute_or_raise : {S : Type 0} → String → Option String → Exec S String
unfolding pure raise
attribute_or_raise name none =
    raise attribute_error ("'State' object has no attribute '" ++ name ++ "'")
attribute_or_raise name (some text) = pure text

abbrev pub or_empty_text : Option String → String
or_empty_text none = ""
or_empty_text (some text) = text

module _ {W : Type 0} where
  unfoldable pub get_tenant_id : Exec (Scope W) String
  unfolding attribute_or_raise ◌>>=◌
  get_tenant_id = do s ← scope; attribute_or_raise "tenant_id" s.state.tenant_id

  unfoldable pub get_correlation_id : Exec (Scope W) String
  unfolding pure ◌>>=◌
  get_correlation_id = do s ← scope; pure (or_empty_text s.state.correlation_id)

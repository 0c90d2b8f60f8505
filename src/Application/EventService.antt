-- ===== src/Application/EventService.antt =====
-- app/application/event_service.py, with the protocol of app/application/event_repository.py. The
-- JSON form of a response is pydantic's: `dump` and `load` are parameters. Log lines are not
-- modelled, also the audit line of the fifth step. `str(e)` of an exception is its message.
pub mod Replay
use Prim.Native.String.{◌++◌}
use ai_risk_engine.Domain.Event.{
  EventStatus, BaseEvent, EventKind, plain, risk, compliance, Event, event_type_name, status_value,
}
use ai_risk_engine.Domain.Requests.{EventResponse}
use ai_risk_engine.Errors.{Error, messaging_failure_error}
use ai_risk_engine.Exec.{Exec, Result, ok, err, pure, lift, raise, catch, ◌>>=◌, ◌>>◌}
use ai_risk_engine.Json.{Fields}
use ai_risk_engine.Prelude.{
  ℕ, Bool, true, false, String, Option, none, some, if◌then◌else◌, is_empty,
}

pub record PersistedEvent : Type 0 where
  pub event_id : String
  pub tenant_id : String
  pub correlation_id : String
  pub status : EventStatus
  pub created_at : String
  pub metadata : Option Fields
  pub version : String

-- The protocol `EventRepository`.
pub record EventRepository (W : Type 0) : Type 0 where
  pub save : Event → String → Exec W PersistedEvent
  pub get : String → String → Exec W (Option PersistedEvent)

-- `get_cache` and `set_cache` of the Redis client: key, value, seconds to live.
pub record Cache (W : Type 0) : Type 0 where
  pub get_cache : String → Exec W (Option String)
  pub set_cache : String → String → ℕ → Exec W (Unit {0})

-- The message that is published.
pub record Message : Type 0 where
  pub event_id : String
  pub tenant_id : String
  pub correlation_id : String
  pub event_type : String
  pub status : String

-- What `EventService.__init__` is given, but for the logger: `publish` takes the exchange, the
-- routing key, the message and the idempotency key, `start` the ids of event and tenant.
pub record EventServices (W : Type 0) : Type 0 where
  pub repository : EventRepository W
  pub publish : String → String → Message → String → Exec W (Unit {0})
  pub redis : Cache W
  pub start : String → String → Exec W (Unit {0})
  pub dump : EventResponse → String
  pub load : String → Result EventResponse

-- `_idempotency_key`
unfoldable pub idempotency_key_of : String → String → String
idempotency_key_of tenant_id idempotency_key = "idempotency:" ++ tenant_id ++ ":" ++ idempotency_key

abbrev pub idempotency_ttl : ℕ
idempotency_ttl = 300

-- `_routing_key`
unfoldable pub routing_key : EventKind → String
routing_key (risk _ _) = "risk.created"
routing_key (compliance _ _) = "compliance.created"
routing_key plain = "event.created"

-- `_persisted_to_response`
unfoldable pub persisted_to_response : PersistedEvent → EventResponse
persisted_to_response p = record {
  event_id = p.event_id;
  tenant_id = p.tenant_id;
  status = p.status;
  created_at = p.created_at;
  metadata = p.metadata;
  version = p.version;
}

abbrev pub message_of : EventKind → PersistedEvent → Message
message_of kind p = record {
  event_id = p.event_id;
  tenant_id = p.tenant_id;
  correlation_id = p.correlation_id;
  event_type = event_type_name kind;
  status = status_value p.status;
}

unfoldable pub optional_response : Option PersistedEvent → Option EventResponse
unfolding persisted_to_response
optional_response none = none
optional_response (some p) = some (persisted_to_response p)

module _ {W : Type 0} (services : EventServices W) where
  open services use {repository, publish, redis, start, dump, load}

  -- Steps two to seven of `create_event`.
  unfoldable pub create_new : Event → String → String → String → Exec W EventResponse
  unfolding pure raise catch ◌>>=◌ persisted_to_response
  create_new event cache_key idempotency_key correlation_id = do
    persisted ← repository.save event correlation_id
    catch
        (publish "risk_events" (routing_key event.kind) (message_of event.kind persisted)
          idempotency_key)
        (λ e. raise messaging_failure_error ("Publish failed: " ++ e.message))
    catch (start persisted.event_id persisted.tenant_id) (λ e. pure tt)
    let response = persisted_to_response persisted
    redis.set_cache cache_key (dump response) idempotency_ttl
    pure response

  -- `if cached`: an empty text counts as none.
  abbrev pub replay_or_create :
      Event → String → String → String → Option String → Exec W EventResponse
  replay_or_create event cache_key idempotency_key correlation_id none =
      create_new event cache_key idempotency_key correlation_id
  replay_or_create event cache_key idempotency_key correlation_id (some cached) =
      if is_empty cached
      then create_new event cache_key idempotency_key correlation_id
      else lift (load cached)

  -- `EventService.create_event`
  unfoldable pub create_event : Event → String → String → String → Exec W EventResponse
  unfolding lift ◌>>=◌
  create_event event tenant_id idempotency_key correlation_id = do
    cached ← redis.get_cache (idempotency_key_of tenant_id idempotency_key)
    replay_or_create event (idempotency_key_of tenant_id idempotency_key) idempotency_key
        correlation_id cached

  -- `EventService.get_event`
  unfoldable pub get_event : String → String → Exec W (Option EventResponse)
  unfolding pure ◌>>=◌
  get_event tenant_id event_id = do
    found ← repository.get tenant_id event_id
    pure (optional_response found)

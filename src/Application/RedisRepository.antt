-- ===== src/Application/RedisRepository.antt =====
-- `RedisEventRepository` of app/infrastructure/cache/event_repository_redis.py, over `get_cache` and
-- `set_cache` of the Redis client. The text of a payload, with the conversions of dates and statuses,
-- is `json`'s: `dump` and `load` are parameters.
pub mod RoundTrip
pub mod Tenants
use Prim.Native.String.{◌++◌}
use ai_risk_engine.Application.EventService.{PersistedEvent, EventRepository, Cache}
use ai_risk_engine.Domain.Event.{Event, received}
use ai_risk_engine.Exec.{Exec, Result, pure, lift, ◌>>=◌, ◌>>◌}
use ai_risk_engine.Json.{Value, Fields, str, get}
use ai_risk_engine.Prelude.{ℕ, String, Option, none, some, is_empty, if◌then◌else◌}

-- `EVENT_STORE_TTL`: seven days.
abbrev pub event_store_ttl : ℕ
event_store_ttl = 604800

-- The `version` among the metadata, if it is a text.
abbrev text_or_default : Option Value → String
text_or_default (some (str version)) = version
text_or_default _ = "1.0"

unfoldable pub version_of : Option Fields → String
version_of none = "1.0"
version_of (some metadata) = text_or_default (get "version" metadata)

-- What `save` makes of an event.
unfoldable pub persisted_of : Event → String → PersistedEvent
unfolding version_of
persisted_of event correlation_id = record {
  event_id = event.fields.event_id;
  tenant_id = event.fields.tenant_id;
  correlation_id = correlation_id;
  status = received;
  created_at = event.fields.created_at;
  metadata = event.fields.metadata;
  version = version_of event.fields.metadata;
}

unfoldable pub event_key : String → String → String
event_key tenant_id event_id = "event:" ++ (tenant_id ++ (":" ++ event_id))

module _ {W : Type 0} (redis : Cache W) (dump : PersistedEvent → String)
    (load : String → Result PersistedEvent) where
  unfoldable pub save : Event → String → Exec W PersistedEvent
  unfolding pure ◌>>=◌
  save event correlation_id = do
    let persisted = persisted_of event correlation_id
    redis.set_cache (event_key event.fields.tenant_id event.fields.event_id) (dump persisted)
        event_store_ttl
    pure persisted

  -- `if not raw: return None`, else the event that the text stands for.
  unfoldable pub loaded : Option String → Exec W (Option PersistedEvent)
  unfolding pure lift ◌>>=◌
  loaded none = pure none
  loaded (some raw) =
      if is_empty raw then pure none else (do event ← lift (load raw); pure (some event))

  unfoldable pub get_event : String → String → Exec W (Option PersistedEvent)
  unfolding ◌>>=◌
  get_event tenant_id event_id = do raw ← redis.get_cache (event_key tenant_id event_id); loaded raw

  abbrev pub redis_repository : EventRepository W
  redis_repository = record { save = save; get = get_event }

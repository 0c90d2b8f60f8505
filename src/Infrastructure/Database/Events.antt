-- ===== src/Infrastructure/Database/Events.antt =====
-- `DbEventRepository` of app/infrastructure/database/event_repository_db.py, on the rows of the class
-- `Event` of app/infrastructure/database/models.py.
pub mod RoundTrip
use ai_risk_engine.Application.EventService.{PersistedEvent}
use ai_risk_engine.Application.RedisRepository.{version_of}
use ai_risk_engine.Domain.Event.{
  EventStatus, received, created, validated, processing, approved, rejected, failed, Event,
  event_type_name, status_value,
}
use ai_risk_engine.Errors.{value_error}
use ai_risk_engine.Exec.{Exec, Result, ok, err, pure, lift, ◌>>=◌, ◌>>◌}
use ai_risk_engine.Infrastructure.Database.{Session}
use ai_risk_engine.Json.{Fields}
use ai_risk_engine.Prelude.{
  Bool, false, not, ◌&&◌, String, Option, none, some, if◌then◌else◌, ◌==◌, is_empty,
}
use Prim.Native.String.{◌++◌}

-- `events`, with the columns of `BaseModel` that the repository uses.
pub record EventRow : Type 0 where
  pub event_id : String
  pub tenant_id : String
  pub correlation_id : String
  pub status : String
  pub event_type : String
  pub metadata : Option Fields
  pub version : String
  pub created_at : Option String
  pub is_deleted : Bool

-- A `PersistedEvent` as `get` makes it: its time is None if that of the row is.
pub record FoundEvent : Type 0 where
  pub event_id : String
  pub tenant_id : String
  pub correlation_id : String
  pub status : EventStatus
  pub created_at : Option String
  pub metadata : Option Fields
  pub version : String

-- The event that `save` returns, as one of these.
abbrev pub as_found : PersistedEvent → FoundEvent
as_found p = record {
  event_id = p.event_id;
  tenant_id = p.tenant_id;
  correlation_id = p.correlation_id;
  status = p.status;
  created_at = some p.created_at;
  metadata = p.metadata;
  version = p.version;
}

-- Whether a time has no zone, and the time in the local one.
pub record Zones : Type 0 where
  pub is_naive : String → Bool
  pub with_local_zone : String → String

-- `EventStatus(value)`
unfoldable pub event_status : String → Result EventStatus
event_status value =
    if value == "received"
    then ok received
    else if value == "created"
    then ok created
    else if value == "validated"
    then ok validated
    else if value == "processing"
    then ok processing
    else if value == "approved"
    then ok approved
    else if value == "rejected"
    then ok rejected
    else if value == "failed"
    then ok failed
    else err
        (record { cls = value_error; message = "'" ++ (value ++ "' is not a valid EventStatus") })

-- The row that `save` adds.
unfoldable pub row_of : Event → String → EventRow
unfolding version_of event_type_name
row_of event correlation_id = record {
  event_id = event.fields.event_id;
  tenant_id = event.fields.tenant_id;
  correlation_id = correlation_id;
  status = "received";
  event_type = event_type_name event.kind;
  metadata = event.fields.metadata;
  version = version_of event.fields.metadata;
  created_at = none;
  is_deleted = false;
}

abbrev pub is_asked : String → String → EventRow → Bool
is_asked tenant_id event_id row =
    (row.tenant_id == tenant_id) && (row.event_id == event_id) && not row.is_deleted

module _ {W : Type 0} (zones : Zones) (session : Session W EventRow) where
  abbrev pub localized : String → String
  localized time = if zones.is_naive time then zones.with_local_zone time else time

  -- `created_at or event.created_at`
  abbrev pub time_or : Option String → String → String
  time_or none other = other
  time_or (some time) other = localized time

  -- `created_at`, of which None is passed on as it is
  abbrev pub time_or_none : Option String → Option String
  time_or_none none = none
  time_or_none (some time) = some (localized time)

  abbrev or_default : String → String
  or_default version = if is_empty version then "1.0" else version

  unfoldable pub save : Event → String → Exec W PersistedEvent
  unfolding pure ◌>>=◌ row_of version_of
  save event correlation_id = do
    session.add (row_of event correlation_id)
    session.flush
    session.commit
    orm ← session.refresh (row_of event correlation_id)
    pure (record {
      event_id = orm.event_id;
      tenant_id = orm.tenant_id;
      correlation_id = orm.correlation_id;
      status = received;
      created_at = time_or orm.created_at event.fields.created_at;
      metadata = event.fields.metadata;
      version = version_of event.fields.metadata;
    })

  abbrev pub event_of_row : EventRow → EventStatus → FoundEvent
  event_of_row orm status = record {
    event_id = orm.event_id;
    tenant_id = orm.tenant_id;
    correlation_id = orm.correlation_id;
    status = status;
    created_at = time_or_none orm.created_at;
    metadata = orm.metadata;
    version = or_default orm.version;
  }

  unfoldable pub found : Option EventRow → Exec W (Option FoundEvent)
  unfolding pure lift ◌>>=◌ event_status
  found none = pure none
  found (some orm) = do
    status ← lift (event_status orm.status)
    pure (some (event_of_row orm status))

  unfoldable pub get : String → String → Exec W (Option FoundEvent)
  unfolding ◌>>=◌
  get tenant_id event_id = do orm ← session.select_one (is_asked tenant_id event_id); found orm

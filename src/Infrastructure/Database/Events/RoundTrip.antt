-- ===== src/Infrastructure/Database/Events/RoundTrip.antt =====
-- The database as a map from tenants and ids to events.
use ai_risk_engine.Application.EventService.{PersistedEvent}
use ai_risk_engine.Application.RedisRepository.{version_of}
use ai_risk_engine.Domain.Event.{
  EventStatus, received, created, validated, processing, approved, rejected, failed, Event,
  status_value,
}
use ai_risk_engine.Errors.{exception}
use ai_risk_engine.Exec.{Result, ok, err, pure, lift, proceed, ◌>>=◌}
use ai_risk_engine.Infrastructure.Database.{Session}
use ai_risk_engine.Infrastructure.Database.Events.{
  EventRow, FoundEvent, as_found, Zones, event_status, row_of, is_asked, event_of_row, time_or,
  save, get, found,
}
use ai_risk_engine.Prelude.{
  arith, ◌≡◌, refl, sym, ap, ◌∙◌, inl, inr, Bool, true, false, ◌&&◌, Bool-cases, String, Option,
  none, some, List, [], ◌∷◌, All, if◌then◌else◌, ◌==◌, eq_iff, is_empty,
}

-- The text of a status is read back as the status.
event_status-status_value : (s : EventStatus) → event_status (status_value s) ≡ ok s
unfolding event_status status_value
event_status-status_value received = refl
event_status-status_value created = refl
event_status-status_value validated = refl
event_status-status_value processing = refl
event_status-status_value approved = refl
event_status-status_value rejected = refl
event_status-status_value failed = refl

abbrev pub matching : (EventRow → Bool) → List EventRow → List EventRow
matching p [] = []
matching p (row ∷ rows) = let rest = matching p rows in if p row then row ∷ rest else rest

-- `scalar_one_or_none`
abbrev pub one_of : List EventRow → Result (Option EventRow)
one_of [] = ok none
one_of (row ∷ []) = ok (some row)
one_of (row ∷ other ∷ rows) =
    err (record {
      cls = exception;
      message = "Multiple rows were found when one or none was required";
    })

abbrev pub stored : EventRow → String → EventRow
stored row time = record row { created_at = some time }

-- The index of the table, on tenant and id, is free for the row; deleted rows count.
abbrev pub has_index : String → String → EventRow → Bool
has_index tenant_id event_id row = (row.tenant_id == tenant_id) && (row.event_id == event_id)

abbrev pub IsNew : EventRow → List EventRow → Type 0
IsNew row rows = All (λ r. has_index row.tenant_id row.event_id r ≡ false) rows

not_asked :
    (tenant_id event_id : String) (rows : List EventRow)
    → All (λ r. has_index tenant_id event_id r ≡ false) rows
    → All (λ r. is_asked tenant_id event_id r ≡ false) rows
not_asked tenant_id event_id [] h = tt
not_asked tenant_id event_id (row ∷ rows) h =
    (ground (arith, h.0), not_asked tenant_id event_id rows h.1)

-- Documented behaviour of a session on the table `events`: a row whose index is free is inserted with
-- the time of the database and read back, and a select reads what is there.
pub record IsEventTable {W : Type 0} (session : Session W EventRow) (rows : W → List EventRow)
    : Type 0 where
  pub inserts :
      (row : EventRow) (w : W)
      → IsNew row (rows w)
      → (time : String) × (w₁ : W) × (w₂ : W) × (w₃ : W) × (session.add row w ≡ (ok tt, w₁))
        × (session.flush w₁ ≡ (ok tt, w₂))
        × (session.commit w₂ ≡ (ok tt, w₃))
        × (session.refresh row w₃ ≡ (ok (stored row time), w₃))
        × (rows w₃ ≡ stored row time ∷ rows w)
  pub selects :
      (p : EventRow → Bool) (w : W) → session.select_one p w ≡ (one_of (matching p (rows w)), w)

matching-none :
    (p : EventRow → Bool) (rows : List EventRow)
    → All (λ r. p r ≡ false) rows
    → matching p rows ≡ []
matching-none p [] h = refl
matching-none p (row ∷ rows) h = rw h.0 (matching-none p rows h.1)

module _ {W : Type 0} (zones : Zones) (session : Session W EventRow) (rows : W → List EventRow)
    (laws : IsEventTable session rows) where
  abbrev of_status : EventRow → Result EventStatus → Result (Option FoundEvent)
  of_status row (ok status) = ok (some (event_of_row zones session row status))
  of_status row (err e) = err e

  abbrev found_result : Result (Option EventRow) → Result (Option FoundEvent)
  found_result (ok none) = ok none
  found_result (ok (some row)) = of_status row (event_status row.status)
  found_result (err e) = err e

  found_lem :
      (r : Result (Option EventRow)) (w : W)
      → proceed (found zones session) (r, w) ≡ (found_result r, w)
  unfolding found pure lift ◌>>=◌
  found_lem (ok none) w = refl
  found_lem (ok (some row)) w = by_status (event_status row.status)
    where
      by_status :
          (r : Result EventStatus)
          → proceed (λ status. pure (some (event_of_row zones session row status))) (r, w)
            ≡ (of_status row r, w)
      by_status (ok status) = refl
      by_status (err e) = refl
  found_lem (err e) w = refl

  -- A read is a function of the rows.
  get_lem :
      (tenant_id event_id : String) (w : W)
      → get zones session tenant_id event_id w
        ≡ (found_result (one_of (matching (is_asked tenant_id event_id) (rows w))), w)
  unfolding get ◌>>=◌
  get_lem tenant_id event_id w = rw (laws.selects (is_asked tenant_id event_id) w) (found_lem _ w)

  module _ (event : Event) (correlation_id : String) where
    abbrev row : EventRow
    row = row_of event correlation_id

    abbrev pub answer_for : String → PersistedEvent
    answer_for time = record {
      event_id = event.fields.event_id;
      tenant_id = event.fields.tenant_id;
      correlation_id = correlation_id;
      status = received;
      created_at = time_or zones session (some time) event.fields.created_at;
      metadata = event.fields.metadata;
      version = version_of event.fields.metadata;
    }

    found_stored :
        (time : String)
        → is_empty (version_of event.fields.metadata) ≡ false
        → found_result (ok (some (stored row time))) ≡ ok (some (as_found (answer_for time)))
    unfolding row_of event_status
    found_stored time named = rw named refl

    asked_index :
        (tenant_id event_id : String)
        → is_asked tenant_id event_id row ≡ true
        → (row.tenant_id ≡ tenant_id) × (row.event_id ≡ event_id)
    asked_index tenant_id event_id h = (
      ground (arith, eq_iff row.tenant_id tenant_id),
      ground (arith, eq_iff row.event_id event_id),
    )

    none_before :
        (tenant_id event_id : String) (w : W)
        → IsNew row (rows w)
        → is_asked tenant_id event_id row ≡ true
        → matching (is_asked tenant_id event_id) (rows w) ≡ []
    none_before tenant_id event_id w new same =
        let (same_tenant, same_event) = asked_index tenant_id event_id same in
        (λ i. matching (is_asked (sym same_tenant i) (sym same_event i)) (rows w))
        ∙ matching-none (is_asked row.tenant_id row.event_id) (rows w)
            (not_asked row.tenant_id row.event_id (rows w) new)

    read_after :
        (time tenant_id event_id : String) (w w' : W)
        → IsNew row (rows w)
        → is_empty (version_of event.fields.metadata) ≡ false
        → rows w' ≡ stored row time ∷ rows w
        → get zones session tenant_id event_id w' ≡ (
          (if is_asked tenant_id event_id row
              then ok (some (as_found (answer_for time)))
              else (get zones session tenant_id event_id w).0),
          w',
        )
    read_after time tenant_id event_id w w' new named grown =
        get_lem tenant_id event_id w'
        ∙ rw (get_lem tenant_id event_id w, grown)
            (elim (Bool-cases (is_asked tenant_id event_id row)) [
              | inl same ↦
                  rw (none_before tenant_id event_id w new same, same)
                    (ap (λ (r : Result (Option FoundEvent)). (r, w')) (found_stored time named))
              | inr other ↦ rw other refl
            ])

    -- The repository is a map from tenants and ids to events: saving an event whose tenant and id no
    -- row has, deleted or not, with metadata that do not name an empty version, over a session that
    -- behaves as documented, returns, and then `get` answers with the very event that `save` returned
    -- for this tenant and id, and for every other as it did before.
    pub save-get :
        (w : W)
        → IsNew row (rows w)
        → is_empty (version_of event.fields.metadata) ≡ false
        → (p : PersistedEvent) × (w' : W) × (save zones session event correlation_id w ≡ (ok p, w'))
          × ((tenant_id event_id : String)
              → get zones session tenant_id event_id w' ≡ (
                (if is_asked tenant_id event_id row
                    then ok (some (as_found p))
                    else (get zones session tenant_id event_id w).0),
                w',
              ))
    unfolding save pure ◌>>=◌ row_of
    save-get w new named =
        let (time, w₁, w₂, w₃, added, flushed, committed, refreshed, grown) =
          laws.inserts row w new in
        (
          answer_for time,
          w₃,
          rw (added, flushed, committed, refreshed) refl,
          λ tenant_id event_id. read_after time tenant_id event_id w w₃ new named grown,
        )

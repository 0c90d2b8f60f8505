-- ===== src/Tests/Databases.antt =====
-- The witnesses for the theorems on the database: a table of events that is a list, and a table of one
-- row that is a dictionary.
use ai_risk_engine.Application.EventService.{PersistedEvent}
use ai_risk_engine.Application.RedisRepository.{version_of}
use ai_risk_engine.Exec.{ok}
use ai_risk_engine.Infrastructure.Database.{Session}
use ai_risk_engine.Infrastructure.Database.Events.{
  as_found, EventRow, Zones, row_of, is_asked, save, get,
}
use ai_risk_engine.Infrastructure.Database.Events.RoundTrip.{
  matching, one_of, stored, IsEventTable, save-get,
}
use ai_risk_engine.Infrastructure.Database.Rows.{Columns, is_key_column, upsert_idempotent}
use ai_risk_engine.Infrastructure.Database.Rows.Tenants.{or_kept, IsUpsert, upsert_keeps_owner}
use ai_risk_engine.Json as Json
use ai_risk_engine.Json.{Value, Fields, str, null, field, end}
use ai_risk_engine.Prelude.{
  arith, ◌≡◌, ◌∙◌, eq_iff, refl, inl, inr, Bool, true, false, Bool-cases, String, Option, none,
  some, List, [], ◌∷◌, if◌then◌else◌, ◌==◌, is_empty,
}
use ai_risk_engine.Tests.Repository.{new_event}

abbrev events : Session (List EventRow) EventRow
events = record {
  add = λ row w. (ok tt, stored row "2026" ∷ w);
  flush = λ w. (ok tt, w);
  commit = λ w. (ok tt, w);
  refresh = λ row w. (ok (stored row "2026"), w);
  select_one = λ p w. (one_of (matching p w), w);
  select_all = λ p w. (ok (matching p w), w);
  upsert = λ payload index update w. (ok (row_of new_event "c1"), w);
}

abbrev utc : Zones
utc = record { is_naive = λ time. false; with_local_zone = λ time. time }

events-IsEventTable : IsEventTable events (λ w. w)
events-IsEventTable = record {
  inserts = λ row w new. (
    "2026",
    stored row "2026" ∷ w,
    stored row "2026" ∷ w,
    stored row "2026" ∷ w,
    refl,
    refl,
    refl,
    refl,
    refl,
  );
  selects = λ p w. refl;
}

version_named : is_empty (version_of new_event.fields.metadata) ≡ false
unfolding version_of Json.get
version_named = refl

save-get_example :
    (p : PersistedEvent) × (w' : List EventRow) × (save utc events new_event "c1" [] ≡ (ok p, w'))
    × ((tenant_id event_id : String)
        → get utc events tenant_id event_id w' ≡ (
          (if is_asked tenant_id event_id (row_of new_event "c1")
              then ok (some (as_found p))
              else (get utc events tenant_id event_id []).0),
          w',
        ))
save-get_example =
    save-get utc events (λ w. w) events-IsEventTable new_event "c1" [] tt version_named

-- One row.
abbrev joined : Fields → Fields → Fields
joined end fs = fs
joined (field k v more) fs = field k v (joined more fs)

get-joined :
    (c : String) (update fs : Fields)
    → Json.get c (joined update fs) ≡ or_kept (Json.get c update) (Json.get c fs)
unfolding Json.get
get-joined c end fs = refl
get-joined c (field k v more) fs = elim (Bool-cases (k == c)) [
  | inl same ↦ rw same refl
  | inr other ↦ rw other (get-joined c more fs)
]

abbrev text_is : String → Option Value → Bool
text_is key (some (str text)) = text == key
text_is key _ = false

abbrev row_under : Fields → String → Option Fields
row_under row key = if text_is key (Json.get "idempotency_key" row) then some row else none

-- The row in the session and the one in the database.
abbrev Rows : Type 0
Rows = Fields × Fields

abbrev seen : Rows → String → Option Fields
seen w = row_under w.0

abbrev committed : Rows → String → Option Fields
committed w = row_under w.1

abbrev one_row : Session Rows Fields
one_row = record {
  add = λ row w. (ok tt, (row, w.1));
  flush = λ w. (ok tt, w);
  commit = λ w. (ok tt, (w.0, w.0));
  refresh = λ row w. (ok w.0, w);
  select_one = λ p w. (ok (if p w.0 then some w.0 else none), w);
  select_all = λ p w. (ok (if p w.0 then w.0 ∷ [] else []), w);
  upsert = λ payload index update w. (ok (joined update w.0), (joined update w.0, w.1));
}

is_row :
    (row : Fields) (key : String) (old : Fields)
    → row_under row key ≡ some old
    → (row ≡ old) × (text_is key (Json.get "idempotency_key" row) ≡ true)
is_row row key old h = (ground (arith, h), ground (arith, h))

one_key :
    (o : Option Value) (key other : String)
    → text_is key o ≡ true
    → (key == other) ≡ false
    → text_is other o ≡ false
one_key (some (str text)) key other h differs =
    ground (arith, eq_iff text key, eq_iff text other, eq_iff key other)
one_key _ key other h differs = ground arith

module _ (update row : Fields) (key : String) (kept : Json.get "idempotency_key" update ≡ none)
    (keyed : text_is key (Json.get "idempotency_key" row) ≡ true) where
  same_key : Json.get "idempotency_key" (joined update row) ≡ Json.get "idempotency_key" row
  same_key = get-joined "idempotency_key" update row ∙ rw kept refl

  under_key : row_under (joined update row) key ≡ some (joined update row)
  under_key = rw (same_key, keyed) refl

  under_other :
      (other : String)
      → (key == other) ≡ false
      → row_under (joined update row) other ≡ row_under row other
  under_other other differs =
      let none_there = one_key (Json.get "idempotency_key" row) key other keyed differs in
      rw (same_key, none_there) refl

one_row-IsUpsert : IsUpsert one_row (λ row c. Json.get c row) (λ fs. true) seen committed
one_row-IsUpsert = record {
  conflicts = λ payload update key w old fits named keyed kept there.
      let (is_old, has_key) = is_row w.0 key old there in
      (
        joined update w.0,
        (joined update w.0, w.1),
        refl,
        λ c. rw (← is_old) (get-joined c update w.0),
        under_key update w.0 key kept has_key,
        under_other update w.0 key kept has_key,
      );
  commits = λ w. (refl, λ key. refl);
}

abbrev columns : Columns Fields
columns = record { id = λ row. "1"; tenant_id = λ row. "acme"; is_deleted = λ row. false }

-- A row of another tenant than the caller.
abbrev acme_row : Fields
acme_row =
    field "tenant_id" (str "acme")
      (field "idempotency_key" (str "k1") (field "name" (str "first") end))

under_k1 : row_under acme_row "k1" ≡ some acme_row
unfolding Json.get
under_k1 = refl

abbrev new_name : Fields
new_name = field "name" (str "second") end

named_second : Json.get "name" new_name ≡ some (str "second")
unfolding Json.get
named_second = refl

name-is_key_column_not : is_key_column "name" ≡ false
unfolding is_key_column
name-is_key_column_not = refl

upsert_keeps_owner_example :
    (new : Fields) × (w' : Rows) × (upsert_idempotent columns one_row new_name "k1" "globex"
        (acme_row, acme_row)
      ≡ (ok new, w'))
    × (committed w' "k1" ≡ some new)
    × ((other : String) → ("k1" == other) ≡ false → committed w' other ≡ row_under acme_row other)
    × (Json.get "tenant_id" new ≡ Json.get "tenant_id" acme_row)
    × (Json.get "idempotency_key" new ≡ Json.get "idempotency_key" acme_row)
    × ((c : String) (v : Value)
        → Json.get c new_name ≡ some v
        → is_key_column c ≡ false
        → Json.get c new ≡ some v)
upsert_keeps_owner_example =
    upsert_keeps_owner columns one_row (λ row c. Json.get c row) (λ fs. true) seen committed
      one_row-IsUpsert new_name "k1" "globex" "name" (str "second") (acme_row, acme_row) acme_row
      refl named_second name-is_key_column_not under_k1

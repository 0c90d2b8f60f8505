-- ===== src/Infrastructure/Database/Rows/Tenants.antt =====
-- Whose row an idempotent upsert writes to.
use ai_risk_engine.Exec.{ok, pure, returned, ◌>>=◌}
use ai_risk_engine.Infrastructure.Database.{Session}
use ai_risk_engine.Infrastructure.Database.Rows.{
  Columns, without_keys, payload_of, is_key_column, upsert_idempotent,
}
use ai_risk_engine.Json.{Value, Fields, str, field, end, get, put}
use ai_risk_engine.Prelude.{
  arith, ◌≡◌, refl, ap, ◌∙◌, Bool-cases, inl, inr, Bool, true, false, String, Option, none, some,
  if◌then◌else◌, ◌==◌, eq_iff,
}

-- What remains of a column after an update by a dictionary.
abbrev pub or_kept : Option Value → Option Value → Option Value
or_kept none kept = kept
or_kept (some v) kept = some v

-- Some column is named.
abbrev pub IsNamed : Fields → Type 0
IsNamed fs = (c : String) × (v : Value) × (get c fs ≡ some v)

-- Documented behaviour of INSERT … ON CONFLICT (idempotency_key) DO UPDATE … RETURNING, at a key that a
-- row has, with a dictionary whose columns and values the table accepts and an update that is not
-- empty and leaves the key alone: that row is updated and returned, and no other is touched. A commit keeps what the session
-- sees: `seen` and `committed` are the rows with a key in the session and in the database.
pub record IsUpsert {W R : Type 0} (db : Session W R) (column : R → String → Option Value)
    (accepts : Fields → Bool) (seen committed : W → String → Option R) : Type 0 where
  pub conflicts :
      (payload update : Fields) (key : String) (w : W) (old : R)
      → accepts payload ≡ true
      → IsNamed update
      → get "idempotency_key" payload ≡ some (str key)
      → get "idempotency_key" update ≡ none
      → seen w key ≡ some old
      → (new : R) × (w' : W) × (db.upsert payload "idempotency_key" update w ≡ (ok new, w'))
        × ((c : String) → column new c ≡ or_kept (get c update) (column old c))
        × (seen w' key ≡ some new)
        × ((other : String) → (key == other) ≡ false → seen w' other ≡ seen w other)
  pub commits :
      (w : W)
      → ((db.commit w).0 ≡ ok tt) × ((key : String) → committed (db.commit w).1 key ≡ seen w key)

get-put :
    (asked k : String) (v : Value) (fs : Fields)
    → get asked (put k v fs) ≡ (if k == asked then some v else get asked fs)
unfolding get put
get-put asked k v end = refl
get-put asked k v (field j x fs) =
    ground (arith, get-put asked k v fs, eq_iff k asked, eq_iff j k, eq_iff j asked)

get-without_keys :
    (asked : String) (fs : Fields)
    → get asked (without_keys fs) ≡ (if is_key_column asked then none else get asked fs)
unfolding get without_keys
get-without_keys asked end = ground arith
get-without_keys asked (field j x fs) = elim (Bool-cases (j == asked)) [
  | inl same ↦ elim (Bool-cases (is_key_column asked)) [
    | inl key ↦
        rw (ap is_key_column ((eq_iff j asked).0 same), key)
          (get-without_keys asked fs ∙ rw key refl)
    | inr other ↦ rw (ap is_key_column ((eq_iff j asked).0 same), other, same) refl
  ]
  | inr differ ↦ elim (Bool-cases (is_key_column j)) [
    | inl key ↦ rw (key, differ) (get-without_keys asked fs)
    | inr other ↦ rw (other, differ) (get-without_keys asked fs)
  ]
]

get-without_keys_other :
    (c : String) (fs : Fields) → is_key_column c ≡ false → get c (without_keys fs) ≡ get c fs
get-without_keys_other c fs other = get-without_keys c fs ∙ rw other refl

module _ {W R : Type 0} (columns : Columns R) (db : Session W R)
    (column : R → String → Option Value) (accepts : Fields → Bool)
    (seen committed : W → String → Option R)
    (laws : IsUpsert db column accepts seen committed) where
  -- An upsert under an idempotency key that a row has, with values that the table accepts and that
  -- name some column `c` other than the tenant and the key, updates, commits and returns that row,
  -- whichever tenant calls and whichever the row belongs to: the row keeps its tenant and its key,
  -- every other column that the values name becomes what they say, and the rows with other keys are
  -- committed as they were.
  pub upsert_keeps_owner :
      (values : Fields) (key caller c : String) (v : Value) (w : W) (old : R)
      → accepts (payload_of values key caller) ≡ true
      → get c values ≡ some v
      → is_key_column c ≡ false
      → seen w key ≡ some old
      → (new : R) × (w' : W) × (upsert_idempotent columns db values key caller w ≡ (ok new, w'))
        × (committed w' key ≡ some new)
        × ((other : String) → (key == other) ≡ false → committed w' other ≡ seen w other)
        × (column new "tenant_id" ≡ column old "tenant_id")
        × (column new "idempotency_key" ≡ column old "idempotency_key")
        × ((c : String) (v : Value)
            → get c values ≡ some v
            → is_key_column c ≡ false
            → column new c ≡ some v)
  unfolding upsert_idempotent payload_of is_key_column pure ◌>>=◌
  upsert_keeps_owner values key caller c v w old fits given other there =
      let payload = payload_of values key caller in
      let (new, w', runs, updated, row, others) =
        laws.conflicts payload (without_keys payload) key w old fits
          (c, v, get-without_keys_other c payload other ∙ named c v given other)
          (get-put "idempotency_key" "idempotency_key" (str key)
            (put "tenant_id" (str caller) values))
          (get-without_keys "idempotency_key" payload) there in
      let (done, kept) = laws.commits w' in
      (
        new,
        (db.commit w').1,
        rw (runs, returned (db.commit w') done) refl,
        kept key ∙ row,
        λ o differs. kept o ∙ others o differs,
        updated "tenant_id" ∙ rw (get-without_keys "tenant_id" payload) refl,
        updated "idempotency_key" ∙ rw (get-without_keys "idempotency_key" payload) refl,
        λ c v given other.
            updated c
            ∙ ap (λ o. or_kept o (column old c))
                (get-without_keys_other c payload other ∙ named c v given other),
      )
    where
      named :
          (c : String) (v : Value)
          → get c values ≡ some v
          → is_key_column c ≡ false
          → get c (payload_of values key caller) ≡ some v
      named c v given other =
          get-put c "idempotency_key" (str key) (put "tenant_id" (str caller) values)
          ∙ ground (
            arith,
            get-put c "tenant_id" (str caller) values,
            given,
            other,
            eq_iff "tenant_id" c,
            eq_iff c "tenant_id",
            eq_iff "idempotency_key" c,
            eq_iff c "idempotency_key",
          )

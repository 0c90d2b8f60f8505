-- ===== src/Infrastructure/Database/Rows.antt =====
-- `AsyncRepository` of app/infrastructure/database/repository.py, over a table whose rows have an id,
-- a tenant and a mark of deletion.
pub mod Tenants
use ai_risk_engine.Exec.{Exec, pure, ◌>>=◌, ◌>>◌}
use ai_risk_engine.Infrastructure.Database.{Session}
use ai_risk_engine.Json.{Value, Fields, str, field, end, put}
use ai_risk_engine.Prelude.{Bool, not, ◌&&◌, ◌||◌, String, Option, List, if◌then◌else◌, ◌==◌}

-- The columns of a model that the repository names.
pub record Columns (R : Type 0) : Type 0 where
  pub id : R → String
  pub tenant_id : R → String
  pub is_deleted : R → Bool

-- `k in ("tenant_id", "idempotency_key")`
unfoldable pub is_key_column : String → Bool
is_key_column k = k == "tenant_id" || k == "idempotency_key"

-- `{k: v for k, v in payload.items() if k not in (…)}`
unfoldable pub without_keys : Fields → Fields
without_keys end = end
without_keys (field k v payload) =
    let rest = without_keys payload in if is_key_column k then rest else field k v rest

-- `{**values, "tenant_id": tenant_id, "idempotency_key": idempotency_key}`
unfoldable pub payload_of : Fields → String → String → Fields
unfolding put
payload_of values idempotency_key tenant_id =
    put "idempotency_key" (str idempotency_key) (put "tenant_id" (str tenant_id) values)

module _ {W R : Type 0} (columns : Columns R) (db : Session W R) where
  open columns use {id, is_deleted}

  abbrev pub is_live_row : String → String → R → Bool
  is_live_row asked tenant_id row =
      (id row == asked) && (columns.tenant_id row == tenant_id) && not (is_deleted row)

  abbrev pub is_live_of_tenant : String → R → Bool
  is_live_of_tenant tenant_id row = (columns.tenant_id row == tenant_id) && not (is_deleted row)

  unfoldable pub get_by_id : String → String → Exec W (Option R)
  get_by_id asked tenant_id = db.select_one (is_live_row asked tenant_id)

  unfoldable pub create : R → Exec W R
  unfolding ◌>>=◌
  create obj = do db.add obj; db.commit; db.refresh obj

  unfoldable pub upsert_idempotent : Fields → String → String → Exec W R
  unfolding pure ◌>>=◌ payload_of without_keys
  upsert_idempotent values idempotency_key tenant_id = do
    let payload = payload_of values idempotency_key tenant_id
    row ← db.upsert payload "idempotency_key" (without_keys payload)
    db.commit
    pure row

  unfoldable pub list_by_tenant : String → Exec W (List R)
  list_by_tenant tenant_id = db.select_all (is_live_of_tenant tenant_id)

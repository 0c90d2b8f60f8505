-- ===== src/Infrastructure/Database.antt =====
-- app/infrastructure/database: the two repositories over an `AsyncSession` of SQLAlchemy, whose calls
-- are a record of actions. A `select(…).where(…)` is the condition on rows that it states.
pub mod Events
pub mod Rows
use ai_risk_engine.Exec.{Exec}
use ai_risk_engine.Json.{Value, Fields}
use ai_risk_engine.Prelude.{Bool, String, Option, List}

-- `execute` with `scalar_one_or_none`, with `scalars().all()`, and an insert with
-- `on_conflict_do_update` on an indexed column that returns the row.
pub record Session (W R : Type 0) : Type 0 where
  pub add : R → Exec W (Unit {0})
  pub flush : Exec W (Unit {0})
  pub commit : Exec W (Unit {0})
  pub refresh : R → Exec W R
  pub select_one : (R → Bool) → Exec W (Option R)
  pub select_all : (R → Bool) → Exec W (List R)
  pub upsert : Fields → String → Fields → Exec W R

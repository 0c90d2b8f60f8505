-- ===== src/Tests/Models.antt =====
-- Witnesses for the theorems on app/governance/model_registry.py.
use ai_risk_engine.Exec.{ok}
use ai_risk_engine.Governance.Models.{
  ModelRecord, ReviewArgs, get_approved_model, approve_model, reject_model,
}
use ai_risk_engine.Governance.Models
use ai_risk_engine.Governance.Models.Laws.{
  get_approved_model-approved, approve_model-deploys, logged,
}
use ai_risk_engine.Prelude.{◌≡◌, refl, String, none, some, [], ◌∷◌, ◌++◌, true, false}
use ai_risk_engine.Tests.World.{
  World, empty_world, audit, registry, trail_of, registry-IsModelStore,
}

abbrev model : Models.ModelStatus → ModelRecord
model s = record {
  model_name = "risk-model";
  version = "2";
  checksum = "abc";
  created_at = "2026-01-01";
  is_approved = false;
  approved_by = none;
  approved_at = none;
  status = s;
}

abbrev good_model : ModelRecord
good_model = record (model Models.approved) { is_approved = true; approved_by = some "alice" }

abbrev with_model : ModelRecord → World
with_model m = record empty_world { models = m ∷ [] }

abbrev review : ReviewArgs
review = record {
  model_name = "risk-model";
  version = "2";
  actor = "alice";
  tenant_id = "t1";
  correlation_id = "c1";
  reason = none;
}

approved_reads :
    (get_approved_model registry audit "risk-model" (some "2") (with_model good_model)).0
    ≡ ok good_model
unfolding get_approved_model Models.get_model Models.require_deployable Models.is_deployable
approved_reads = refl

get_approved_model-approved_example :
    (good_model.status ≡ Models.approved) × (good_model.is_approved ≡ true)
get_approved_model-approved_example =
    get_approved_model-approved registry audit "risk-model" (some "2") (with_model good_model)
      {m = good_model} approved_reads

approve_model-deploys_example :
    (q : ModelRecord) × (w' : World) × (time : String) × (approve_model registry audit review
        (with_model (model Models.pending))
      ≡ (ok q, w'))
    × (q.approved_by ≡ some "alice")
    × (q.checksum ≡ "abc")
    × (trail_of w' ≡ [] ++ logged "model_approved" review time ∷ [])
    × (get_approved_model registry audit "risk-model" (some "2") w' ≡ (ok q, w'))
approve_model-deploys_example =
    approve_model-deploys registry audit registry-IsModelStore review
      (with_model (model Models.pending)) (model Models.pending) refl refl (refl, refl) refl

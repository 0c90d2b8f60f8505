-- ===== src/Workflow/Run/Trail.antt =====
-- The audit trail of a state as a list of the nodes that ran, for `run` of the workflows in
-- app/workflows/langgraph.
use ai_risk_engine.Json.{Value, Fields, str, get, equals_text}
use ai_risk_engine.Prelude.{
  ◌≡◌, refl, ap, ◌∙◌, Bool, false, ◌||◌, String, Option, none, some, List, [], ◌∷◌, ◌++◌, map,
  arith,
}
use ai_risk_engine.Workflow.Nodes.Specs.{Logged}
use ai_risk_engine.Workflow.State.{RiskState, trail_has, node_done}

abbrev pub names : List Fields → List (Option Value)
names = map (get "node")

abbrev pub written : List String → List (Option Value)
written = map (λ n. some (str n))

-- The event of the state `s`, with the named nodes run and no others.
pub record Stage (s : RiskState) (done : List String) (u : RiskState) : Type 0 where
  pub event_id : u.event_id ≡ s.event_id
  pub tenant_id : u.tenant_id ≡ s.tenant_id
  pub correlation_id : u.correlation_id ≡ s.correlation_id
  pub raw_event : u.raw_event ≡ s.raw_event
  pub nodes : names u.audit_trail ≡ written done

abbrev has_name : String → List (Option Value) → Bool
has_name node [] = false
has_name node (none ∷ vs) = has_name node vs
has_name node (some v ∷ vs) = equals_text v node || has_name node vs

trail_has-names : (node : String) (t : List Fields) → trail_has node t ≡ has_name node (names t)
unfolding trail_has
trail_has-names node [] = refl
trail_has-names node (e ∷ es) = ground (arith, trail_has-names node es)

names-append : (t : List Fields) (e : Fields) → names (t ++ e ∷ []) ≡ names t ++ get "node" e ∷ []
names-append [] e = refl
names-append (f ∷ t) e = ap (λ l. get "node" f ∷ l) (names-append t e)

written-append :
    (done : List String) (n : String) → written (done ++ n ∷ []) ≡ written done ++ some (str n) ∷ []
written-append [] n = refl
written-append (m ∷ done) n = ap (λ l. some (str m) ∷ l) (written-append done n)

pub names-Logged :
    (node : String) (done : List String) (before t : List Fields)
    → names before ≡ written done
    → Logged node before t
    → names t ≡ written (done ++ node ∷ [])
names-Logged node done before t h (entry, name, e) =
    rw (e, names-append before entry, written-append, h, name) refl

-- A node that is not among those that ran has yet to run.
pub Stage-fresh :
    (s : RiskState) (done : List String) (u : RiskState) (node : String)
    → Stage s done u
    → has_name node (written done) ≡ false
    → node_done u node ≡ false
unfolding node_done
Stage-fresh s done u node st fresh =
    trail_has-names node u.audit_trail ∙ ap (has_name node) st.nodes ∙ fresh

-- A node adds its own entry, and leaves the event alone.
pub Stage-step :
    (s : RiskState) (done : List String) (node : String) (v u : RiskState)
    → Stage s done v
    → u.event_id ≡ v.event_id
    → u.tenant_id ≡ v.tenant_id
    → u.correlation_id ≡ v.correlation_id
    → u.raw_event ≡ v.raw_event
    → Logged node v.audit_trail u.audit_trail
    → Stage s (done ++ node ∷ []) u
Stage-step s done node v u st event tenant correlation raw logged = record {
  event_id = event ∙ st.event_id;
  tenant_id = tenant ∙ st.tenant_id;
  correlation_id = correlation ∙ st.correlation_id;
  raw_event = raw ∙ st.raw_event;
  nodes = names-Logged node done v.audit_trail u.audit_trail st.nodes logged;
}

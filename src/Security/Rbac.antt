-- ===== src/Security/Rbac.antt =====
-- app/security/rbac.py
use Prim.Native.String.{◌++◌}
use ai_risk_engine.Errors.{Error, authorization_error}
use ai_risk_engine.Exec.{Result, ok, err}
use ai_risk_engine.Prelude.{
  Bool, true, false, ◌≡◌, String, none, some, [], ◌∷◌, Table, lookup, arith, eq_iff, ◌⊎◌,
}

pub data Role : Type 0 where
  admin analyst approver viewer : Role

-- `.value`
unfoldable pub role_value : Role → String
role_value admin = "ADMIN"
role_value analyst = "ANALYST"
role_value approver = "APPROVER"
role_value viewer = "VIEWER"

-- `_ACTION_PERMISSIONS`, the rows of one role.
unfoldable pub action_permissions : Role → Table Bool
action_permissions admin =
    ("create", true) ∷ ("approve", true) ∷ ("view", true) ∷ ("register_model", true) ∷ []
action_permissions analyst =
    ("create", true) ∷ ("approve", false) ∷ ("view", true) ∷ ("register_model", false) ∷ []
action_permissions approver =
    ("create", false) ∷ ("approve", true) ∷ ("view", true) ∷ ("register_model", false) ∷ []
action_permissions viewer =
    ("create", false) ∷ ("approve", false) ∷ ("view", true) ∷ ("register_model", false) ∷ []

abbrev pub denied : Role → String → Error
denied role action = record {
  cls = authorization_error;
  message = "Role " ++ role_value role ++ " does not have permission for action '" ++ action ++ "'";
}

-- `RBACService.check_permission`
unfoldable pub check_permission : Role → String → Result (Unit {0})
unfolding action_permissions lookup role_value
check_permission role action = elim (lookup action (action_permissions role)) [
  | some true ↦ ok tt
  | some false ↦ err (denied role action)
  | none ↦ err (denied role action)
]

-- The permission matrix of the comment above `_ACTION_PERMISSIONS`, row by row.
abbrev pub May : Role → String → Type 0
May admin a = a ≡ "create" ⊎ a ≡ "approve" ⊎ a ≡ "view" ⊎ a ≡ "register_model"
May analyst a = a ≡ "create" ⊎ a ≡ "view"
May approver a = a ≡ "approve" ⊎ a ≡ "view"
May viewer a = a ≡ "view"

-- A check passes exactly for the pairs of a role and an action that the documented permission
-- matrix grants, and raises AuthorizationError for every other pair, whatever the action's name.
pub check_permission_sound :
    (r : Role) (a : String)
    → (check_permission r a ≡ ok tt → May r a)
      × (May r a → check_permission r a ≡ ok tt)
      × ((check_permission r a ≡ ok tt) ⊎ (check_permission r a ≡ err (denied r a)))
unfolding check_permission
check_permission_sound admin a =
    ground
      (arith, eq_iff "create" a, eq_iff "approve" a, eq_iff "view" a, eq_iff "register_model" a)
check_permission_sound analyst a = ground (
  arith,
  eq_iff "create" a,
  eq_iff "approve" a,
  eq_iff "view" a,
  eq_iff "register_model" a,
  eq_iff "approve" "view",
)
check_permission_sound approver a = ground (
  arith,
  eq_iff "create" a,
  eq_iff "approve" a,
  eq_iff "view" a,
  eq_iff "register_model" a,
  eq_iff "create" "approve",
  eq_iff "create" "view",
)
check_permission_sound viewer a = ground (
  arith,
  eq_iff "create" a,
  eq_iff "approve" a,
  eq_iff "view" a,
  eq_iff "register_model" a,
  eq_iff "create" "view",
  eq_iff "approve" "view",
)

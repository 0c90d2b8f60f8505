-- ===== src/Security/Tenant.antt =====
-- app/security/tenant_context.py
use Prim.Native.String.{◌++◌}
use ai_risk_engine.Errors.{Error, tenant_isolation_error}
use ai_risk_engine.Exec.{Result, ok, err}
use ai_risk_engine.Prelude.{
  ◌≡◌, ◌⊎◌, ◌||◌, false, not, String, ◌==◌, eq_iff, if◌then◌else◌, is_empty, arith,
}

abbrev isolation : String → Result (Unit {0})
isolation m = err (record { cls = tenant_isolation_error; message = m })

-- `TenantContext.validate_access`
unfoldable pub validate_access : String → String → Result (Unit {0})
validate_access resource_tenant request_tenant =
    if is_empty resource_tenant || is_empty request_tenant
    then isolation "Tenant isolation: resource_tenant and request_tenant must be non-empty"
    else if not (resource_tenant == request_tenant)
    then isolation (
        "Tenant isolation: access denied. Resource tenant '" ++ resource_tenant
        ++ "' does not match request tenant '" ++ request_tenant ++ "'")
    else ok tt

-- Access is granted exactly between a non-empty tenant and itself; every other pair raises
-- TenantIsolationError, also that of two empty tenants.
pub validate_access_sound :
    (resource request : String)
    → (validate_access resource request ≡ ok tt
        → (resource ≡ request) × (is_empty resource ≡ false))
      × (resource ≡ request → is_empty resource ≡ false → validate_access resource request ≡ ok tt)
      × ((validate_access resource request ≡ ok tt)
          ⊎ ((e : Error) × (e.cls ≡ tenant_isolation_error)
              × (validate_access resource request ≡ err e)))
unfolding validate_access
validate_access_sound resource request = (
  (λ h. ground (arith, eq_iff resource request)),
  (λ e n. ground (arith, eq_iff resource request)),
  ground (arith, eq_iff resource request),
)

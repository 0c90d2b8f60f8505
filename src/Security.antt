-- ===== src/Security.antt =====
-- The security layer: app/security/rbac.py, app/security/tenant_context.py and
-- app/security/encryption.py.
pub mod Encryption
pub mod Rbac
pub mod Tenant

-- ===== src/Auth.antt =====
-- backend/src/auth: who calls, and what they may do.
pub mod Permissions
pub mod Scope
pub mod Jwt
pub mod Tenants
pub mod TenantSession
pub mod Authenticator
pub mod ApiKeys
pub mod Guard

-- ===== src/Policy.antt =====
-- backend/src/policy: what a sponsorship is decided by.
pub mod Context
pub mod Quota
pub mod Rules
pub mod Engine
pub mod Source
pub mod Ceilings
pub mod Factory
pub mod Repository

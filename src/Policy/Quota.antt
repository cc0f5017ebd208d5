-- ===== src/Policy/Quota.antt =====
-- backend/src/policy/quota: fixed windows, the counter store's port with its laws, and the stores.
pub mod Window
pub mod Store
pub mod InMemory
pub mod Redis

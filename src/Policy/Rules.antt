-- ===== src/Policy/Rules.antt =====
-- backend/src/policy/rules: the rule classes.
pub mod AccessLists
pub mod TokenOwnership
pub mod QuotaRule
pub mod ReadOnly

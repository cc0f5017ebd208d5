-- ===== src/Chain.antt =====
-- backend/src/chain: the chains that are served and what is read from them.
pub mod Registry
pub mod Balance

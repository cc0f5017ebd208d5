-- ===== src/Signature.antt =====
-- backend/src/signature: the bytes of an attestation, their digest, and the engine that signs.
pub mod Layout
pub mod Codec
pub mod TypedData
pub mod Engine

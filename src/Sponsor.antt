-- ===== src/Sponsor.antt =====
-- backend/src/api/sponsor and api/dto/sponsorRequest.ts: one sponsorship, from request to response.
pub mod Request
pub mod Ports
pub mod Service

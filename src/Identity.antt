-- ===== src/Identity.antt =====
-- The identity domain: core/internal/identity.
pub mod Limiter
pub mod Service

-- ===== src/Tests.antt =====
-- Concrete runs of the modelled code, and each theorem at an input that meets its conditions.
mod Limiter
mod Bundles
mod Fleet
mod Factors
mod Deletion
mod Crypto
mod Identity
mod Convergence

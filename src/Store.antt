-- ===== src/Store.antt =====
-- The persistence layer: core/internal/database, with the SQL of core/internal/database/queries as
-- sqlc generates it into core/internal/database/gen.
pub mod Tx
pub mod Rows
pub mod Queries
pub mod Bundles
pub mod Fleet
pub mod Deletion
pub mod Identity
pub mod Factors
pub mod Convergence

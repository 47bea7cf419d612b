-- ===== src/Store/Queries.antt =====
-- The statements of core/internal/database/gen/domain.sql.go and unassignment.sql.go, one function
-- each. An insert tests the primary key, the unique and the foreign keys of core/migrations.
pub mod Bundles
pub mod Fleet

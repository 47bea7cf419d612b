-- ===== src/Store/Identity/Queries.antt =====
-- The statements of core/internal/database/gen/identity.sql.go and of store.sql.go on the identity
-- tables, one function each.
mod Accounts
mod Enrollments
mod Sessions
mod Bindings
unfoldable pub use Accounts.*
unfoldable pub use Enrollments.*
unfoldable pub use Sessions.*
unfoldable pub use Bindings.*

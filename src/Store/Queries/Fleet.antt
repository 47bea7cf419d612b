-- ===== src/Store/Queries/Fleet.antt =====
-- core/internal/database/gen/domain.sql.go and unassignment.sql.go: the statements on Node Groups,
-- Assignments, Managed Nodes, Enrollment Tokens and cleanup tasks.
mod Groups
mod Nodes
mod Tasks
unfoldable pub use Groups.*
unfoldable pub use Nodes.*
unfoldable pub use Tasks.*

-- ===== src/Store/Queries/Bundles.antt =====
-- core/internal/database/gen/domain.sql.go: the statements on Secrets, Drafts and Bundle Revisions.
mod Secrets
mod Revisions
unfoldable pub use Secrets.*
unfoldable pub use Revisions.*

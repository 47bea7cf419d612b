-- ===== src/Store/Identity.antt =====
-- core/internal/database/identity.go and the identity methods of store.go. Each operation is a transaction
-- body; `transact` runs it. A method that is one statement runs it by itself.
pub mod Rows
pub mod Queries
mod Accounts
mod Mfa
mod Sessions
mod Bindings
unfoldable pub use Accounts.*
unfoldable pub use Mfa.*
unfoldable pub use Sessions.*
unfoldable pub use Bindings.*

-- ===== src/Identity/Service.antt =====
-- core/internal/identity/service.go: the use cases of the identity domain, over the identity store and the
-- cryptographic helpers. The clock is read once for a request, and what `NewSecret`, `uuid.NewString` and
-- the random source supply are arguments.
pub mod Flow
pub mod Checks
pub mod Logins
pub mod Enrollment
pub mod Account
pub mod External
pub mod Instances
pub mod Keeps
pub mod Frame
pub mod Steps
pub mod Routine
pub mod Providers
pub mod Lockout
pub mod Guards
pub mod Removal
pub mod Requests
pub mod Openness
pub mod SignIn
pub mod Rotation
pub mod SecondFactor

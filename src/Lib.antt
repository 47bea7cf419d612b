-- ===== src/Lib.antt =====
-- AutoSecrets Core (core/ of the repository): a control plane that keeps Secrets of Applications and
-- Environments, publishes them as Bundle Revisions, assigns Revisions to groups of Managed
-- Nodes, and follows the delivery and the removal at each node.
--
-- The state of Core is the database. Store/Rows.antt has the rows of its tables (core/migrations,
-- core/internal/database/gen/models.go) and the record `Db` of all tables that are modelled. Each
-- statement of core/internal/database/gen is a function on `Db` in Store/Queries, with the row
-- conditions of its SQL text, the cascades and the constraints of the schema. A method of
-- core/internal/database runs statements one after the other, stops at the first error, and commits at
-- the end; Store/Tx.antt is that monad, and `transact` is `Begin` to `Commit` with the deferred
-- `Rollback`. The operations compose the statements as the methods do:
--
--   Store/Bundles.antt   domain.go, CreateSecretWithValue, AddSecretVersion, UpdateBinding,
--                        UpdateDraftSelections, Publish, Rollback and their helpers. Children:
--                        Selections and Drafts (the update of a Draft), Files, Revisions and History
--                        (publication and rollback), Versions and Creation (Secrets), Soundness and
--                        Keeps (the invariant of the tables).
--   Store/Fleet.antt     domain.go and unassignment.go, the methods on Node Groups, Assignments,
--                        Managed Nodes, Enrollment Tokens and cleanup tasks. Children: Ambiguity,
--                        Shrinking and Requests (one delivery of a bundle to a node), Enrollment
--                        (tokens), Cleanup and Unassigned (removal), Delivery and Assigned (which
--                        Revision a node is to have).
--   Identity/Limiter.antt  core/internal/identity/rate_limit.go, the limiter of failed logins, which
--                        lives in memory. Children: Bounds, Failures and Runs.
--   Store/Identity.antt  core/internal/database/identity.go and the identity methods of store.go, on the
--                        tables of Store/Identity/Rows.antt, by the statements of Store/Identity/Queries:
--                        Accounts (the Organization, members, Bootstrap, audit), Mfa (enrollments and
--                        recovery codes), Sessions (with step-up grants) and Bindings (external
--                        identities, OIDC transactions, the password login switch).
--   Store/Factors.antt   identity.go on the same tables, the proofs of a login that are good for one
--                        use: UseTOTP, ConsumeRecoveryCode, CreateLoginChallenge and
--                        ConsumeLoginChallenge. Children: Once and Challenges.
--   Crypto.antt          core/internal/crypto/crypto.go: MasterKey (Seal, Open), Passwords
--                        (HashPassword, VerifyPassword), Totp and RecoveryCodes. Crypto/Primitives.antt
--                        has the functions of other packages as a record, and what is relied on of them
--                        as records of laws.
--   Store/Deletion.antt  domain.go, CreateApplication, CreateEnvironment, DeleteApplication,
--                        DeleteEnvironment and DeleteSecret, with the cascades of core/migrations.
--                        Children: Refusals and Erasure.
--   Identity/Service.antt  core/internal/identity/service.go, each use case as a run of store calls, each
--                        call a transaction of its own: Flow (errors and runs), Checks (the checks that
--                        use cases share), Logins, Enrollment, Account, External and Instances (OIDC and
--                        OAuth), Requests (runs of requests). Keeps has the rules for what a run leaves
--                        true; Frame, Steps, Routine, Providers, Lockout, Guards, Removal and Openness
--                        apply them; SignIn, SecondFactor and Rotation look at one use case each.
--   Store/Convergence.antt  core/internal/database/convergence.go, RecordConvergence, on its own table and the
--                        ids its foreign keys look at, and core/internal/fleet/nodestate.go,
--                        deriveNodeState. Child: Observed.
--   Tests                concrete runs, and each theorem at an input that meets its conditions.
--   Prelude              Boolean tests, lists as tables, maps as association lists, and their lemmas.
--
-- Ids, names, hashes and other texts that the code only compares or orders are numbers, and the empty
-- text is 0; times and durations are numbers. New ids and the time are arguments of an operation, as
-- `uuid.NewString` and `now()` supply them. Versions and counts are numbers without the bound of int64,
-- which a Draft would need 2 ^ 63 updates to reach. A transaction is one step: the row lock that
-- `SELECT ... FOR UPDATE` takes is what makes it one where the code takes it. AddGroupMember and
-- CreateAssignment look for a conflict without a lock, so two of them that run at the same time
-- under READ COMMITTED are outside of what is stated here, and so are two use cases of the identity
-- service whose store calls alternate. The service reads its clock in nanoseconds, once for a
-- request. Lists are traversed by structural recursion, so no fuel is needed anywhere.
--
-- Not modelled: connections and their loss, the HTTP handlers and the exchanges with external
-- identity providers, the certificate authority and the signing keys, the envelope, the read-only
-- listings, the Agent and the web console. A failure of the random source is not modelled, and a TOTP time
-- is one after the first half minute of 1970.
pub mod Prelude
pub mod Crypto
pub mod Identity
pub mod Store
pub mod Tests

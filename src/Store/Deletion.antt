-- ===== src/Store/Deletion.antt =====
-- core/internal/database/domain.go: Applications and Environments, and the deletions, whose cascades
-- core/migrations declares.
pub mod Refusals
pub mod Erasure
use autosecrets.Prelude.{
  ℕ, Bool, true, false, not, ◌&&◌, ◌||◌, Option, none, some, List, [], ◌∷◌, ◌++◌, ◌==◌, ltb, any,
  find, drop_if, keep_if, count_if,
}
use autosecrets.Store.Tx.{
  Tx, not_found, conflict, unique_violation, foreign_key_violation, pure, gets, require, refuse,
  modify, map_err, map_unique, ◌>>=◌, ◌>>◌,
}
use autosecrets.Store.Rows.{
  Application, Environment, Secret, BundleRevision, Draft, Assignment, is_active, RevisionFile, Db,
}

unfoldable pub insert_application : ℕ → ℕ → Tx Db (Unit {0})
insert_application id name = do
  rows ← gets (λ db. db.applications)
  refuse (any (λ a. a.id == id || a.name == name) rows) unique_violation
  modify
      (λ db. record db { applications = db.applications ++ record { id = id; name = name } ∷ [] })

-- `CreateApplication`
unfoldable pub create_application : ℕ → ℕ → Tx Db (Unit {0})
unfolding insert_application
create_application id name = map_err map_unique (insert_application id name)

unfoldable pub insert_environment : ℕ → ℕ → ℕ → Tx Db (Unit {0})
insert_environment id app name = do
  rows ← gets (λ db. db.environments)
  refuse (any (λ e. e.id == id || e.application_id == app && e.name == name) rows) unique_violation
  applications ← gets (λ db. db.applications)
  require (any (λ a. a.id == app) applications) foreign_key_violation
  modify (λ db. record db {
    environments = db.environments ++ record { id = id; application_id = app; name = name } ∷ [];
  })

-- `CreateEnvironment`
unfoldable pub create_environment : ℕ → ℕ → ℕ → Tx Db (Unit {0})
unfolding insert_environment
create_environment id app name = map_err map_unique (insert_environment id app name)

-- What goes with a set of Applications and Environments: a row of the tables below them goes if its
-- Application or its Environment is in the set.
abbrev pub Scope : Type 0
Scope = ℕ → ℕ → Bool

abbrev pub secret_gone : Scope → Db → ℕ → Bool
secret_gone gone db id = any (λ s. s.id == id && gone s.application_id s.environment_id) db.secrets

abbrev pub draft_gone : Scope → Db → ℕ → Bool
draft_gone gone db id = any (λ d. d.id == id && gone d.application_id d.environment_id) db.drafts

abbrev pub revision_gone : Scope → Db → ℕ → Bool
revision_gone gone db id =
    any (λ r. r.id == id && gone r.application_id r.environment_id) db.bundle_revisions

abbrev pub assignment_gone : Scope → Db → ℕ → Bool
assignment_gone gone db id =
    any (λ a. a.id == id && revision_gone gone db a.revision_id) db.assignments

-- The cascade below `environments`.
abbrev pub cascade : Scope → Db → Db
cascade gone db = record db {
  secrets = drop_if (λ s. gone s.application_id s.environment_id) db.secrets;
  secret_versions = drop_if (λ v. secret_gone gone db v.secret_id) db.secret_versions;
  file_bindings = drop_if (λ b. secret_gone gone db b.secret_id) db.file_bindings;
  drafts = drop_if (λ d. gone d.application_id d.environment_id) db.drafts;
  draft_selections =
      drop_if (λ s. draft_gone gone db s.draft_id || secret_gone gone db s.secret_id)
        db.draft_selections;
  bundle_revisions = drop_if (λ r. gone r.application_id r.environment_id) db.bundle_revisions;
  revision_files = drop_if (λ f. revision_gone gone db f.revision_id) db.revision_files;
  assignments = drop_if (λ a. revision_gone gone db a.revision_id) db.assignments;
  unassignment_tasks = drop_if (λ t. assignment_gone gone db t.assignment_id) db.unassignment_tasks;
}

-- `revision_files.secret_id` does not cascade: a file that stays must not name a Secret that goes.
abbrev pub holds_back : Scope → Db → Bool
holds_back gone db =
    any (λ f. secret_gone gone db f.secret_id && not (revision_gone gone db f.revision_id))
      db.revision_files

-- Every row of the Application, and of an Environment of it.
abbrev pub application_scope : ℕ → Db → Scope
application_scope id db app env =
    app == id || any (λ e. e.id == env && e.application_id == id) db.environments

abbrev pub environment_scope : ℕ → ℕ → Db → Scope
environment_scope id app db _ env =
    env == id && any (λ e. e.id == id && e.application_id == app) db.environments

-- `DELETE FROM applications WHERE id = $1`. With no such row nothing goes.
unfoldable pub delete_application_by_id : ℕ → Tx Db ℕ
delete_application_by_id id = do
  db ← gets (λ db. db)
  let n = count_if (λ a. a.id == id) db.applications
  let gone : Scope = λ app env. ltb 0 n && application_scope id db app env
  refuse (holds_back gone db) foreign_key_violation
  modify (λ db. record (cascade gone db) {
    applications = drop_if (λ a. a.id == id) db.applications;
    environments = drop_if (λ e. ltb 0 n && e.application_id == id) db.environments;
  })
  pure n

-- `DELETE FROM environments WHERE id = $1 AND application_id = $2`
unfoldable pub delete_environment_by_id : ℕ → ℕ → Tx Db ℕ
delete_environment_by_id id app = do
  db ← gets (λ db. db)
  refuse (holds_back (environment_scope id app db) db) foreign_key_violation
  modify (λ db. record (cascade (environment_scope id app db) db) {
    environments = drop_if (λ e. e.id == id && e.application_id == app) db.environments;
  })
  pure (count_if (λ e. e.id == id && e.application_id == app) db.environments)

-- `DELETE FROM secrets WHERE id = $1`
unfoldable pub delete_secret_by_id : ℕ → Tx Db ℕ
delete_secret_by_id id = do
  db ← gets (λ db. db)
  let n = count_if (λ s. s.id == id) db.secrets
  refuse (ltb 0 n && any (λ f. f.secret_id == id) db.revision_files) foreign_key_violation
  modify (λ db. record db {
    secrets = drop_if (λ s. s.id == id) db.secrets;
    secret_versions = drop_if (λ v. ltb 0 n && v.secret_id == id) db.secret_versions;
    file_bindings = drop_if (λ b. ltb 0 n && b.secret_id == id) db.file_bindings;
    draft_selections = drop_if (λ s. ltb 0 n && s.secret_id == id) db.draft_selections;
  })
  pure n

-- `DeleteRevisionFilesForApplication`, `...ForEnvironment`, `...ForSecret`
unfoldable pub delete_revision_files_for_application : ℕ → Tx Db (Unit {0})
delete_revision_files_for_application id = modify (λ db. record db {
  revision_files =
      drop_if (λ f. any (λ r. r.id == f.revision_id && r.application_id == id) db.bundle_revisions)
        db.revision_files;
})

unfoldable pub delete_revision_files_for_environment : ℕ → ℕ → Tx Db (Unit {0})
delete_revision_files_for_environment app env = modify (λ db. record db {
  revision_files =
      drop_if
        (λ f.
          any (λ r. r.id == f.revision_id && (r.application_id == app && r.environment_id == env))
            db.bundle_revisions)
        db.revision_files;
})

unfoldable pub delete_revision_files_for_secret : ℕ → Tx Db (Unit {0})
delete_revision_files_for_secret id =
    modify (λ db. record db { revision_files = drop_if (λ f. f.secret_id == id) db.revision_files })

unfoldable pub count_active_assignments_for_application : ℕ → Tx Db ℕ
count_active_assignments_for_application id =
    gets (λ db. count_if (λ a. a.application_id == id && is_active a.status) db.assignments)

unfoldable pub count_active_assignments_for_environment : ℕ → ℕ → Tx Db ℕ
count_active_assignments_for_environment app env = gets (λ db.
    count_if (λ a. (a.application_id == app && a.environment_id == env) && is_active a.status)
      db.assignments)

-- The join counts one row for each Secret of the id, which is a primary key.
abbrev pub is_bundle_of : ℕ → Db → Assignment → Bool
is_bundle_of id db a =
    any
      (λ s.
        s.id == id
        && (s.application_id == a.application_id && s.environment_id == a.environment_id))
      db.secrets

unfoldable pub count_active_assignments_for_secret : ℕ → Tx Db ℕ
count_active_assignments_for_secret id =
    gets (λ db. count_if (λ a. is_bundle_of id db a && is_active a.status) db.assignments)

-- `DeleteApplication`
unfoldable pub delete_application : ℕ → Tx Db (Unit {0})
unfolding count_active_assignments_for_application delete_revision_files_for_application
    delete_application_by_id
delete_application id = do
  count ← count_active_assignments_for_application id
  refuse (ltb 0 count) conflict
  delete_revision_files_for_application id
  n ← delete_application_by_id id
  require (n == 1) not_found

-- `DeleteEnvironment`
unfoldable pub delete_environment : ℕ → ℕ → Tx Db (Unit {0})
unfolding count_active_assignments_for_environment delete_revision_files_for_environment
    delete_environment_by_id
delete_environment id app = do
  count ← count_active_assignments_for_environment app id
  refuse (ltb 0 count) conflict
  delete_revision_files_for_environment app id
  n ← delete_environment_by_id id app
  require (n == 1) not_found

-- `DeleteSecret`
unfoldable pub delete_secret : ℕ → Tx Db (Unit {0})
unfolding count_active_assignments_for_secret delete_revision_files_for_secret delete_secret_by_id
delete_secret id = do
  count ← count_active_assignments_for_secret id
  refuse (ltb 0 count) conflict
  delete_revision_files_for_secret id
  n ← delete_secret_by_id id
  require (n == 1) not_found

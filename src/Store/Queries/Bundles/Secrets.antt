-- ===== src/Store/Queries/Bundles/Secrets.antt =====
-- core/internal/database/gen/domain.sql.go: Secrets, Secret Versions, File Bindings and Drafts.
use autosecrets.Prelude.{
  ℕ, ◌+◌, Bool, ◌&&◌, ◌||◌, none, some, List, [], ◌∷◌, ◌++◌, ◌==◌, if◌then◌else◌, any, find,
  keep_if, update_if, length, ltb,
}
use autosecrets.Store.Tx.{
  Tx, no_rows, unique_violation, foreign_key_violation, pure, gets, or_fail, require, refuse,
  modify, ◌>>=◌, ◌>>◌,
}
use autosecrets.Store.Rows.{Secret, Blob, SecretVersion, Draft, DraftSelection, Db}

-- `WHERE application_id = $1 AND environment_id = $2` on the tables that have both columns.
abbrev pub secret_in : ℕ → ℕ → Secret → Bool
secret_in app env r = r.application_id == app && r.environment_id == env

abbrev pub draft_in : ℕ → ℕ → Draft → Bool
draft_in app env r = r.application_id == app && r.environment_id == env

unfoldable pub insert_secret : Secret → Tx Db (Unit {0})
insert_secret row = do
  secrets ← gets (λ db. db.secrets)
  refuse (any (λ r. r.id == row.id) secrets) unique_violation
  refuse
      (any (λ r. secret_in row.application_id row.environment_id r && r.name == row.name) secrets)
      unique_violation
  applications ← gets (λ db. db.applications)
  require (any (λ r. r.id == row.application_id) applications) foreign_key_violation
  environments ← gets (λ db. db.environments)
  require (any (λ r. r.id == row.environment_id) environments) foreign_key_violation
  modify (λ db. record db { secrets = db.secrets ++ row ∷ [] })

abbrev pub versions_of : ℕ → List SecretVersion → List SecretVersion
versions_of secret_id = keep_if (λ v. v.secret_id == secret_id)

-- `max(seq)` over the rows of one Secret, 0 when it has none.
abbrev pub max_seq : ℕ → List SecretVersion → ℕ
max_seq secret_id [] = 0
max_seq secret_id (v ∷ vs) =
    let m = max_seq secret_id vs in if v.secret_id == secret_id && ltb m v.seq then v.seq else m

unfoldable pub insert_secret_version_first : ℕ → ℕ → Blob → Tx Db (Unit {0})
insert_secret_version_first id secret_id blob = do
  versions ← gets (λ db. db.secret_versions)
  refuse (any (λ v. v.id == id || v.secret_id == secret_id && v.seq == 1) versions) unique_violation
  modify (λ db. record db {
    secret_versions =
        db.secret_versions ++ record { id = id; secret_id = secret_id; seq = 1; blob = blob } ∷ [];
  })

-- The new `seq` is the largest one plus 1, which is what the statement returns.
unfoldable pub insert_secret_version_next : ℕ → ℕ → Blob → Tx Db ℕ
insert_secret_version_next id secret_id blob = do
  versions ← gets (λ db. db.secret_versions)
  refuse (any (λ v. v.id == id) versions) unique_violation
  modify (λ db. record db {
    secret_versions =
        db.secret_versions
        ++ record {
          id = id;
          secret_id = secret_id;
          seq = max_seq secret_id db.secret_versions + 1;
          blob = blob;
        }
          ∷ [];
  })
  pure (max_seq secret_id versions + 1)

-- 0o400
abbrev pub default_mode : ℕ
default_mode = 0o400

unfoldable pub insert_default_file_binding : ℕ → ℕ → Tx Db (Unit {0})
insert_default_file_binding secret_id path = do
  bindings ← gets (λ db. db.file_bindings)
  refuse (any (λ b. b.secret_id == secret_id) bindings) unique_violation
  modify (λ db. record db {
    file_bindings =
        db.file_bindings
        ++ record { secret_id = secret_id; path = path; uid = 0; gid = 0; mode = default_mode }
          ∷ [];
  })

-- `ON CONFLICT (application_id, environment_id) DO NOTHING`; `id` is what `gen_random_uuid` drew.
unfoldable pub insert_draft : ℕ → ℕ → ℕ → Tx Db (Unit {0})
insert_draft id app env = do
  drafts ← gets (λ db. db.drafts)
  refuse (any (λ d. d.id == id) drafts) unique_violation
  modify (λ db. record db {
    drafts =
        if any (draft_in app env) db.drafts
        then db.drafts
        else db.drafts
          ++ record { id = id; application_id = app; environment_id = env; version = 0 } ∷ [];
  })

abbrev pub selects : ℕ → ℕ → DraftSelection → Bool
selects draft_id secret_id s = s.draft_id == draft_id && s.secret_id == secret_id

-- `INSERT … ON CONFLICT (draft_id, secret_id) DO UPDATE SET version_seq`
abbrev pub upsert_selection : ℕ → ℕ → ℕ → List DraftSelection → List DraftSelection
upsert_selection draft_id secret_id seq rows =
    if any (selects draft_id secret_id) rows
    then update_if (selects draft_id secret_id) (λ s. record s { version_seq = seq }) rows
    else rows ++ record { draft_id = draft_id; secret_id = secret_id; version_seq = seq } ∷ []

unfoldable pub upsert_draft_selection : ℕ → ℕ → ℕ → Tx Db (Unit {0})
upsert_draft_selection draft_id secret_id seq = modify (λ db. record db {
  draft_selections = upsert_selection draft_id secret_id seq db.draft_selections;
})

unfoldable pub select_draft_id : ℕ → ℕ → Tx Db ℕ
select_draft_id app env = do
  drafts ← gets (λ db. db.drafts)
  draft ← or_fail no_rows (find (draft_in app env) drafts)
  pure draft.id

-- One row at most has the Draft of the environment, so the insert from a select adds one selection.
unfoldable pub insert_draft_selection_for_new_secret : ℕ → ℕ → ℕ → Tx Db (Unit {0})
insert_draft_selection_for_new_secret secret_id app env = do
  drafts ← gets (λ db. db.drafts)
  elim (find (draft_in app env) drafts) [
    | none ↦ pure tt
    | some d ↦ modify (λ db. record db {
      draft_selections = upsert_selection d.id secret_id 1 db.draft_selections;
    })
  ]

unfoldable pub select_secret_app_env : ℕ → Tx Db (ℕ × ℕ)
select_secret_app_env secret_id = do
  secrets ← gets (λ db. db.secrets)
  secret ← or_fail no_rows (find (λ r. r.id == secret_id) secrets)
  pure (secret.application_id, secret.environment_id)

-- The join with `drafts` picks the selections of every Draft of the environment.
unfoldable pub update_draft_selection_version : ℕ → ℕ → ℕ → ℕ → Tx Db (Unit {0})
update_draft_selection_version seq app env secret_id = modify (λ db. record db {
  draft_selections =
      update_if
        (λ s.
          s.secret_id == secret_id && any (λ d. d.id == s.draft_id && draft_in app env d) db.drafts)
        (λ s. record s { version_seq = seq }) db.draft_selections;
})

unfoldable pub update_file_binding : ℕ → ℕ → ℕ → ℕ → ℕ → Tx Db (Unit {0})
update_file_binding path uid gid mode secret_id = modify (λ db. record db {
  file_bindings =
      update_if (λ b. b.secret_id == secret_id)
        (λ b. record b { path = path; uid = uid; gid = gid; mode = mode }) db.file_bindings;
})

unfoldable pub select_draft_version : ℕ → Tx Db ℕ
select_draft_version draft_id = do
  drafts ← gets (λ db. db.drafts)
  draft ← or_fail no_rows (find (λ d. d.id == draft_id) drafts)
  pure draft.version

unfoldable pub bump_draft_row : ℕ → Tx Db ℕ
bump_draft_row draft_id = do
  drafts ← gets (λ db. db.drafts)
  draft ← or_fail no_rows (find (λ d. d.id == draft_id) drafts)
  modify (λ db. record db {
    drafts =
        update_if (λ d. d.id == draft_id) (λ d. record d { version = d.version + 1 }) db.drafts;
  })
  pure (draft.version + 1)

-- A version of a Secret that stands in the environment of the Draft.
abbrev pub selection_exists : Db → ℕ → ℕ → ℕ → Bool
selection_exists db draft_id secret_id seq =
    any
      (λ v.
        v.secret_id == secret_id
        && v.seq == seq
        && any
            (λ s.
              s.id == secret_id
              && any (λ d. d.id == draft_id && draft_in s.application_id s.environment_id d)
                  db.drafts)
            db.secrets)
      db.secret_versions

unfoldable pub select_draft_selection_exists : ℕ → ℕ → ℕ → Tx Db Bool
select_draft_selection_exists draft_id secret_id seq =
    gets (λ db. selection_exists db draft_id secret_id seq)

unfoldable pub select_draft_id_version : ℕ → ℕ → Tx Db Draft
select_draft_id_version app env = do
  drafts ← gets (λ db. db.drafts)
  or_fail no_rows (find (draft_in app env) drafts)

abbrev pub selections_of : ℕ → List DraftSelection → List DraftSelection
selections_of draft_id = keep_if (λ s. s.draft_id == draft_id)

unfoldable pub count_draft_selections : ℕ → Tx Db ℕ
count_draft_selections draft_id = gets (λ db. length (selections_of draft_id db.draft_selections))

-- ===== src/Store/Queries/Bundles/Revisions.antt =====
-- core/internal/database/gen/domain.sql.go: Bundle Revisions and their files.
use autosecrets.Prelude.{
  ℕ, Bool, ◌&&◌, none, some, List, [], ◌∷◌, ◌++◌, ◌==◌, any, find, keep_if, length,
}
use autosecrets.Store.Tx.{
  Tx, no_rows, unique_violation, foreign_key_violation, pure, gets, or_fail, require, refuse,
  modify, ◌>>=◌, ◌>>◌,
}
use autosecrets.Store.Queries.Bundles.Secrets.{selections_of}
use autosecrets.Store.Rows.{FileBinding, DraftSelection, BundleRevision, RevisionFile, Db}

abbrev pub revision_in : ℕ → ℕ → BundleRevision → Bool
revision_in app env r = r.application_id == app && r.environment_id == env

unfoldable pub insert_bundle_revision : BundleRevision → Tx Db (Unit {0})
insert_bundle_revision row = do
  revisions ← gets (λ db. db.bundle_revisions)
  refuse (any (λ r. r.id == row.id) revisions) unique_violation
  environments ← gets (λ db. db.environments)
  require (any (λ r. r.id == row.environment_id) environments) foreign_key_violation
  modify (λ db. record db { bundle_revisions = db.bundle_revisions ++ row ∷ [] })

abbrev pub file_of : ℕ → DraftSelection → FileBinding → RevisionFile
file_of revision_id s b = record {
  revision_id = revision_id;
  secret_id = s.secret_id;
  path = b.path;
  uid = b.uid;
  gid = b.gid;
  mode = b.mode;
  version_seq = s.version_seq;
}

-- `FROM draft_selections ds JOIN file_bindings fb ON fb.secret_id = ds.secret_id`. A Secret has one
-- binding at most (UNIQUE), so the join adds one row or none for each selection.
abbrev pub freeze : ℕ → List FileBinding → List DraftSelection → List RevisionFile
freeze revision_id bindings [] = []
freeze revision_id bindings (s ∷ ss) =
    let rest = freeze revision_id bindings ss in
    elim (find (λ b. b.secret_id == s.secret_id) bindings) [
      | none ↦ rest
      | some b ↦ file_of revision_id s b ∷ rest
    ]

unfoldable pub insert_revision_files_from_draft : ℕ → ℕ → Tx Db (Unit {0})
insert_revision_files_from_draft revision_id draft_id = modify (λ db. record db {
  revision_files =
      db.revision_files
      ++ freeze revision_id db.file_bindings (selections_of draft_id db.draft_selections);
})

unfoldable pub select_revision_draft_version : ℕ → ℕ → ℕ → Tx Db ℕ
select_revision_draft_version id app env = do
  revisions ← gets (λ db. db.bundle_revisions)
  revision ← or_fail no_rows (find (λ r. r.id == id && revision_in app env r) revisions)
  pure revision.draft_version

abbrev pub files_of : ℕ → List RevisionFile → List RevisionFile
files_of revision_id = keep_if (λ f. f.revision_id == revision_id)

unfoldable pub count_revision_files : ℕ → Tx Db ℕ
count_revision_files revision_id = gets (λ db. length (files_of revision_id db.revision_files))

abbrev pub copy_to : ℕ → List RevisionFile → List RevisionFile
copy_to revision_id [] = []
copy_to revision_id (f ∷ fs) = record f { revision_id = revision_id } ∷ copy_to revision_id fs

unfoldable pub insert_revision_files_copy : ℕ → ℕ → Tx Db (Unit {0})
insert_revision_files_copy revision_id from_id = modify (λ db. record db {
  revision_files = db.revision_files ++ copy_to revision_id (files_of from_id db.revision_files);
})

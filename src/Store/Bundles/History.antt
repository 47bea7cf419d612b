-- ===== src/Store/Bundles/History.antt =====
-- domain.go, `Publish` and `Rollback`: a Bundle Revision is a snapshot, and no earlier one changes.
use autosecrets.Prelude.{
  ℕ, ◌≡◌, ◌≢◌, sym, ap, ◌∙◌, false, ◌&&◌, some, List, [], map, arith, ◌==◌, any, find, length,
  keep_if-append, find-append_other, find-append_new,
}
use mathlib.Core.List.{append-nil}
use autosecrets.Store.Tx.{ok, transact}
use autosecrets.Store.Rows.{BundleRevision, OperationReason, RevisionFile, Draft, Db}
use autosecrets.Store.Queries.Bundles.{
  freeze, selections_of, files_of, copy_to, draft_in, revision_in,
}
use autosecrets.Store.Bundles.{publish, rollback, Revision}
use autosecrets.Store.Bundles.Selections.{selected_version}
use autosecrets.Store.Bundles.Soundness.{IsSound}
use autosecrets.Store.Bundles.Files.{
  files_of-freeze, files_of-freeze_other, files_of-copy_to, files_of-copy_to_other, files_of-absent,
  length-freeze, file_for, frozen_file, file_for-freeze, All-selections_of, length-copy_to,
  file_content, map-copy_to,
}
use autosecrets.Store.Bundles.Revisions.{
  publish_effect, rollback_effect, revision_row, with_revision,
}

-- What an operation that adds the Revision `id` leaves alone: the row and the files of every other.
abbrev pub KeepsOthers : ℕ → Db → Db → Type 0
KeepsOthers id db db' =
    (other : ℕ)
    → other ≢ id
    → (find (λ r. r.id == other) db'.bundle_revisions
        ≡ find (λ r. r.id == other) db.bundle_revisions)
      × (files_of other db'.revision_files ≡ files_of other db.revision_files)

with_revision-KeepsOthers :
    (row : BundleRevision) (files : List RevisionFile) (db : Db)
    → ((other : ℕ) → other ≢ row.id → files_of other files ≡ [])
    → KeepsOthers row.id db (with_revision row files db)
with_revision-KeepsOthers row files db none_other other ne = (
  find-append_other (λ r. r.id == other) db.bundle_revisions row (ground arith),
  keep_if-append (λ f. f.revision_id == other) db.revision_files files
      ∙ (rw (none_other other ne) (append-nil _)),
)

files_of-with_revision :
    (row : BundleRevision) (files : List RevisionFile) (db : Db)
    → IsSound db
    → any (λ q. q.id == row.id) db.bundle_revisions ≡ false
    → files_of row.id (with_revision row files db).revision_files ≡ files_of row.id files
files_of-with_revision row files db v fresh =
    keep_if-append (λ f. f.revision_id == row.id) db.revision_files files
    ∙ (rw
        (files_of-absent row.id db.bundle_revisions db.revision_files fresh v.files_have_revision))

-- Publishing freezes the Draft of the environment, which has at least one selection: in the new
-- Revision each Secret has the file that its binding and its selected version give, and no file if it
-- is not selected. The returned count is the number of its files, the version is the Draft's, and
-- every other Revision keeps its row and its files.
pub publish-freezes :
    (at id app env actor : ℕ) (reason : OperationReason) (db : Db) (r : Revision) (db' : Db)
    → IsSound db
    → transact (publish at id app env actor reason) db ≡ (ok r, db')
    → (d : Draft) × (find (draft_in app env) db.drafts ≡ some d)
      × ((s : ℕ)
          → file_for s (files_of id db'.revision_files)
            ≡ frozen_file id s
                (selected_version d.id s db.draft_selections)
                (find (λ b. b.secret_id == s) db.file_bindings))
      × (find (λ q. q.id == id) db'.bundle_revisions
          ≡ some (revision_row at id app env d.version actor reason))
      × (r.file_count ≡ length (files_of id db'.revision_files))
      × (r.file_count ≢ 0)
      × (r.draft_version ≡ d.version)
      × KeepsOthers id db db'
publish-freezes at id app env actor reason db r db' v done =
    let (d, found, after, fresh, version, count, nonempty) =
      publish_effect at id app env actor reason db r db' (ground arith) in
    let frozen : List RevisionFile =
      freeze id db.file_bindings (selections_of d.id db.draft_selections) in
    let row : BundleRevision = revision_row at id app env d.version actor reason in
    let own : files_of id db'.revision_files ≡ frozen = rw after (
      files_of-with_revision row frozen db v fresh
      ∙ files_of-freeze id db.file_bindings (selections_of d.id db.draft_selections)) in
    (
      d,
      found,
      λ s. rw own (file_for-freeze id d.id s db.file_bindings db.draft_selections),
      rw after (find-append_new (λ q. q.id == id) db.bundle_revisions row fresh (ground arith)),
      rw own (
          count
          ∙ sym (
              length-freeze id db.file_bindings (selections_of d.id db.draft_selections) (
                All-selections_of d.id db.file_bindings db.draft_selections
                  v.selections_have_binding))),
      nonempty,
      version,
      rw after (
          with_revision-KeepsOthers row frozen db (λ other.
            files_of-freeze_other other id db.file_bindings
              (selections_of d.id db.draft_selections))),
    )

-- Rolling back adds a Revision whose files are those of an earlier one of the same environment, in their
-- order and each with the same Secret, path, user, group, mode and version. The earlier Revision has at least one file, lends its
-- Draft version, and keeps its row and files, as every other Revision does.
pub rollback-copies :
    (at id app env from actor : ℕ) (reason : OperationReason) (db : Db) (r : Revision) (db' : Db)
    → IsSound db
    → transact (rollback at id app env from actor reason) db ≡ (ok r, db')
    → (q : BundleRevision) × (find (λ x. x.id == from && revision_in app env x) db.bundle_revisions
        ≡ some q)
      × (map file_content (files_of id db'.revision_files)
          ≡ map file_content (files_of from db.revision_files))
      × (find (λ x. x.id == id) db'.bundle_revisions
          ≡ some (revision_row at id app env q.draft_version actor reason))
      × (r.file_count ≡ length (files_of id db'.revision_files))
      × (r.file_count ≢ 0)
      × KeepsOthers id db db'
rollback-copies at id app env from actor reason db r db' v done =
    let (q, found, after, fresh, version, count, nonempty) =
      rollback_effect at id app env actor reason db r db' from (ground arith) in
    let copied : List RevisionFile = copy_to id (files_of from db.revision_files) in
    let row : BundleRevision = revision_row at id app env q.draft_version actor reason in
    let own : files_of id db'.revision_files ≡ copied = rw after (
      files_of-with_revision row copied db v fresh
      ∙ files_of-copy_to id (files_of from db.revision_files)) in
    (
      q,
      found,
      ap (map file_content) own ∙ map-copy_to id (files_of from db.revision_files),
      rw after (find-append_new (λ x. x.id == id) db.bundle_revisions row fresh (ground arith)),
      rw own (count ∙ sym (length-copy_to id (files_of from db.revision_files))),
      nonempty,
      rw after (
          with_revision-KeepsOthers row copied db
            (λ other. files_of-copy_to_other other id (files_of from db.revision_files))),
    )

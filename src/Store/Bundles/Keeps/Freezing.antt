-- ===== src/Store/Bundles/Keeps/Freezing.antt =====
-- domain.go: `Publish` and `Rollback` keep the tables sound.
use autosecrets.Prelude.{ℕ, ◌≡◌, List, [], ◌∷◌, ◌++◌, All, All-append}
use autosecrets.Store.Tx.{ok}
use autosecrets.Store.Rows.{BundleRevision, OperationReason, RevisionFile, Db}
use autosecrets.Store.Queries.Bundles.{freeze, selections_of, files_of, copy_to}
use autosecrets.Store.Bundles.{publish, rollback, Revision}
use autosecrets.Store.Bundles.Revisions.{
  publish_effect, rollback_effect, revision_row, with_revision,
}
use autosecrets.Store.Bundles.Soundness.{
  IsSound, HasRevision, HasRevision-append, freeze-HasRevision, copy_to-HasRevision,
}

pub with_revision-IsSound :
    (row : BundleRevision) (files : List RevisionFile) (db : Db)
    → IsSound db
    → All (HasRevision (db.bundle_revisions ++ row ∷ [])) files
    → IsSound (with_revision row files db)
with_revision-IsSound row files db v own = record {
  files_have_revision =
      All-append (HasRevision (db.bundle_revisions ++ row ∷ [])) db.revision_files files
        (HasRevision-append db.bundle_revisions row db.revision_files v.files_have_revision) own;
  secrets_have_binding = v.secrets_have_binding;
  selections_have_binding = v.selections_have_binding;
}

pub publish-IsSound :
    (at id app env actor : ℕ) (reason : OperationReason) (db : Db) (r : Revision) (db' : Db)
    → IsSound db
    → publish at id app env actor reason db ≡ ok (r, db')
    → IsSound db'
publish-IsSound at id app env actor reason db r db' v done =
    let (d, found, after, _, _, _, _) = publish_effect at id app env actor reason db r db' done in
    let row : BundleRevision = revision_row at id app env d.version actor reason in
    rw after (
      with_revision-IsSound row
        (freeze id db.file_bindings (selections_of d.id db.draft_selections)) db v
        (freeze-HasRevision db.bundle_revisions row db.file_bindings
          (selections_of d.id db.draft_selections)))

pub rollback-IsSound :
    (at id app env from actor : ℕ) (reason : OperationReason) (db : Db) (r : Revision) (db' : Db)
    → IsSound db
    → rollback at id app env from actor reason db ≡ ok (r, db')
    → IsSound db'
rollback-IsSound at id app env from actor reason db r db' v done =
    let (q, found, after, _, _, _, _) =
      rollback_effect at id app env actor reason db r db' from done in
    let row : BundleRevision = revision_row at id app env q.draft_version actor reason in
    rw after (
      with_revision-IsSound row (copy_to id (files_of from db.revision_files)) db v
        (copy_to-HasRevision db.bundle_revisions row (files_of from db.revision_files)))

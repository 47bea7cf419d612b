-- ===== src/Store/Bundles/Revisions.antt =====
-- domain.go, `Publish` and `Rollback`: the rows of a new Bundle Revision beside the earlier ones.
use autosecrets.Prelude.{
  ℕ, ◌≡◌, ◌≢◌, false, ◌&&◌, some, List, [], ◌∷◌, ◌++◌, arith, ◌==◌, any, find, length, Option-cases,
  inl, inr,
}
use autosecrets.Store.Tx.{ok}
use autosecrets.Store.Rows.{BundleRevision, OperationReason, RevisionFile, Draft, Db}
use autosecrets.Store.Queries.Bundles.{
  freeze, selections_of, files_of, copy_to, draft_in, revision_in,
}
use autosecrets.Store.Bundles.{publish, rollback, Revision}

abbrev pub revision_row : ℕ → ℕ → ℕ → ℕ → ℕ → ℕ → OperationReason → BundleRevision
revision_row at id app env version actor reason = record {
  id = id;
  application_id = app;
  environment_id = env;
  draft_version = version;
  created_at = at;
  created_by = actor;
  operation_reason = reason;
}

-- The tables after a new Revision with these files.
abbrev pub with_revision : BundleRevision → List RevisionFile → Db → Db
with_revision row files db = record db {
  bundle_revisions = db.bundle_revisions ++ row ∷ [];
  revision_files = db.revision_files ++ files;
}

module _ (at id app env actor : ℕ) (reason : OperationReason) (db : Db) (r : Revision)
    (db' : Db) where
  pub publish_effect :
      publish at id app env actor reason db ≡ ok (r, db')
      → (d : Draft) × (find (draft_in app env) db.drafts ≡ some d)
        × (db'
            ≡ with_revision
                (revision_row at id app env d.version actor reason)
                (freeze id db.file_bindings (selections_of d.id db.draft_selections))
                db)
        × (any (λ q. q.id == id) db.bundle_revisions ≡ false)
        × (r.draft_version ≡ d.version)
        × (r.file_count ≡ length (selections_of d.id db.draft_selections))
        × (r.file_count ≢ 0)
  unfolding publish
  publish_effect done = elim (Option-cases (find (draft_in app env) db.drafts)) [
    | inl e ↦ absurd (ground arith)
    | inr (d, e) ↦ (d, e, ground arith, ground arith, ground arith, ground arith, ground arith)
  ]

  pub rollback_effect :
      (from : ℕ)
      → rollback at id app env from actor reason db ≡ ok (r, db')
      → (q : BundleRevision) × (find
            (λ x. x.id == from && revision_in app env x)
            db.bundle_revisions
          ≡ some q)
        × (db'
            ≡ with_revision
                (revision_row at id app env q.draft_version actor reason)
                (copy_to id (files_of from db.revision_files))
                db)
        × (any (λ q. q.id == id) db.bundle_revisions ≡ false)
        × (r.draft_version ≡ q.draft_version)
        × (r.file_count ≡ length (files_of from db.revision_files))
        × (r.file_count ≢ 0)
  unfolding rollback
  rollback_effect from done =
      elim (Option-cases (find (λ x. x.id == from && revision_in app env x) db.bundle_revisions)) [
        | inl e ↦ absurd (ground arith)
        | inr (q, e) ↦ (q, e, ground arith, ground arith, ground arith, ground arith, ground arith)
      ]

-- ===== src/Store/Bundles/Creation.antt =====
-- domain.go, `CreateSecretWithValue`: what a new Secret comes with, in its environment.
use autosecrets.Prelude.{
  ℕ, ◌+◌, ◌≡◌, refl, ◌∙◌, false, ◌&&◌, ◌||◌, some, List, [], ◌∷◌, ◌++◌, arith, ◌==◌, if◌then◌else◌,
  any, find, Option-cases, inl, inr, ==_refl, find-append_new,
}
use autosecrets.Store.Tx.{ok, transact}
use autosecrets.Store.Rows.{SecretVersion, Blob, Draft, Db}
use autosecrets.Store.Queries.Bundles.{draft_in}
use autosecrets.Store.Bundles.{create_secret_with_value}
use autosecrets.Store.Bundles.Selections.{selected_version, selected_version-upsert}
use autosecrets.Store.Bundles.Drafts.{find-bumped, bumped}
use autosecrets.Store.Bundles.Versions.{blob_of, version_row}
use autosecrets.Store.Bundles.Soundness.{
  create_secret_tables, create_secret_selections, default_binding, new_secret,
}

-- The drafts once the environment has one.
abbrev with_draft : ℕ → ℕ → ℕ → List Draft → List Draft
with_draft id app env ds =
    if any (draft_in app env) ds
    then ds
    else ds ++ record { id = id; application_id = app; environment_id = env; version = 0 } ∷ []

no_first_version :
    (id k : ℕ) (vs : List SecretVersion)
    → any (λ v. v.id == id || v.secret_id == k && v.seq == 1) vs ≡ false
    → any (λ v. v.secret_id == k && v.seq == 1) vs ≡ false
no_first_version id k [] h = refl
no_first_version id k (v ∷ vs) h = ground (arith, no_first_version id k vs)

module _ (draft k version app env name : ℕ) (blob : Blob) (db db' : Db)
    (done : transact (create_secret_with_value draft k version app env name blob) db
      ≡ (ok tt, db')) where
  fresh :
      (any (λ r. r.id == k) db.secrets ≡ false)
      × (any (λ v. v.id == version || v.secret_id == k && v.seq == 1) db.secret_versions ≡ false)
      × (any (λ b. b.secret_id == k) db.file_bindings ≡ false)
      × (db'.secret_versions ≡ db.secret_versions ++ version_row version k 1 blob ∷ [])
  unfolding create_secret_with_value
  fresh = ground arith

  has_draft :
      (d : Draft) × (find (draft_in app env) (with_draft draft app env db.drafts) ≡ some d)
      × (db'.drafts ≡ bumped d.id (with_draft draft app env db.drafts))
  unfolding create_secret_with_value
  has_draft = elim (Option-cases (find (draft_in app env) (with_draft draft app env db.drafts))) [
    | inl e ↦ absurd (ground arith)
    | inr (d, e) ↦ (d, e, ground arith)
  ]

  -- A created Secret stands in its environment under its name, has the sealed value as version 1, is
  -- bound to the file of its own name with owner 0:0 and mode 0400, and is selected at version 1 by
  -- the Draft of the environment, which exists from then on.
  pub create_secret_complete :
      (find (λ r. r.id == k) db'.secrets ≡ some (new_secret app env k name))
      × (blob_of k 1 db'.secret_versions ≡ some (version_row version k 1 blob))
      × (find (λ b. b.secret_id == k) db'.file_bindings ≡ some (default_binding app env k name))
      × ((d : Draft) × (find (draft_in app env) db'.drafts ≡ some d)
          × (selected_version d.id k db'.draft_selections ≡ some 1))
  create_secret_complete =
      let (no_secret, no_version, no_binding, versions) = fresh in
      let created : create_secret_with_value draft k version app env name blob db ≡ ok (tt, db') =
        ground arith in
      let (secrets, bindings, _, _) =
        create_secret_tables draft k version app env name blob db db' created in
      let (d, found, drafts) = has_draft in
      let there : find (draft_in app env) db'.drafts ≡ some (record d { version = d.version + 1 }) =
        rw drafts (find-bumped app env (with_draft draft app env db.drafts) d found) in
      (
        rw secrets (
            find-append_new (λ r. r.id == k) db.secrets (new_secret app env k name) no_secret
              (==_refl k)),
        rw versions (
            find-append_new (λ v. v.secret_id == k && v.seq == 1) db.secret_versions
              (version_row version k 1 blob)
              (no_first_version version k db.secret_versions no_version) (ground arith)),
        rw bindings (
            find-append_new (λ b. b.secret_id == k) db.file_bindings
              (default_binding app env k name) no_binding (==_refl k)),
        (
          record d { version = d.version + 1 },
          there,
          rw (create_secret_selections draft k version app env name blob db db' created, there)
              (selected_version-upsert d.id k d.id k 1 db.draft_selections ∙ ground arith),
        ),
      )

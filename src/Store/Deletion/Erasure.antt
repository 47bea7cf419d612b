-- ===== src/Store/Deletion/Erasure.antt =====
-- domain.go, `DeleteApplication` and `DeleteSecret`: what a deletion erases, and what it leaves alone.
use autosecrets.Prelude.{
  ℕ, ◌≡◌, sym, ap, ◌∙◌, subst, true, false, ◌&&◌, Memᴰ, arith, ◌==◌, ltb, any, any-true, drop_if,
  count_if, mem-keep_if_intro,
}
use autosecrets.Store.Tx.{ok, transact}
use autosecrets.Store.Rows.{Secret, SecretVersion, RevisionFile, Db}
use autosecrets.Store.Deletion.{
  delete_application, delete_secret, Scope, secret_gone, application_scope,
}
use autosecrets.Store.Deletion.Refusals.{any-drop_if}

-- The tables after an accepted deletion of a Secret.
secret_effect :
    (id : ℕ) (db db' : Db)
    → transact (delete_secret id) db ≡ (ok tt, db')
    → (ltb 0 (count_if (λ s. s.id == id) db.secrets) ≡ true)
      × (db'.secrets ≡ drop_if (λ s. s.id == id) db.secrets)
      × (db'.secret_versions
          ≡ drop_if
              (λ v. ltb 0 (count_if (λ s. s.id == id) db.secrets) && v.secret_id == id)
              db.secret_versions)
      × (db'.revision_files ≡ drop_if (λ f. f.secret_id == id) db.revision_files)
      × (db'.bundle_revisions ≡ db.bundle_revisions)
unfolding delete_secret
secret_effect id db db' e = (ground arith, ground arith, ground arith, ground arith, ground arith)

-- An accepted deletion of a Secret leaves no row of it, no ciphertext of any of its versions and no file
-- of it in any Revision, the published ones included: their rows stay as they were, and so do every
-- version of every other Secret and every other file.
pub delete_secret-erases :
    (id : ℕ) (db db' : Db)
    → transact (delete_secret id) db ≡ (ok tt, db')
    → (any (λ s. s.id == id) db'.secrets ≡ false)
      × (any (λ v. v.secret_id == id) db'.secret_versions ≡ false)
      × (any (λ f. f.secret_id == id) db'.revision_files ≡ false)
      × (db'.bundle_revisions ≡ db.bundle_revisions)
      × ((v : SecretVersion)
          → Memᴰ v db.secret_versions
          → (v.secret_id == id) ≡ false
          → Memᴰ v db'.secret_versions)
      × ((f : RevisionFile)
          → Memᴰ f db.revision_files
          → (f.secret_id == id) ≡ false
          → Memᴰ f db'.revision_files)
delete_secret-erases id db db' e =
    let (there, secrets, versions, files, revisions) = secret_effect id db db' e in
    (
      ap (any (λ s. s.id == id)) secrets ∙ any-drop_if _ _ db.secrets (λ s h. h),
      ap (any (λ v. v.secret_id == id)) versions
          ∙ any-drop_if _ _ db.secret_versions (λ v h. ground (arith, there, h)),
      ap (any (λ f. f.secret_id == id)) files ∙ any-drop_if _ _ db.revision_files (λ f h. h),
      revisions,
      λ v m out.
          subst (λ t. Memᴰ v t) (sym versions)
            (mem-keep_if_intro _ db.secret_versions m (ground (arith, out))),
      λ f m out.
          subst (λ t. Memᴰ f t) (sym files)
            (mem-keep_if_intro _ db.revision_files m (ground (arith, out))),
    )

-- The rows that go with an Application that is there.
abbrev pub in_application : ℕ → Db → Scope
in_application id db app env =
    ltb 0 (count_if (λ a. a.id == id) db.applications) && application_scope id db app env

application_effect :
    (id : ℕ) (db db' : Db)
    → transact (delete_application id) db ≡ (ok tt, db')
    → (ltb 0 (count_if (λ a. a.id == id) db.applications) ≡ true)
      × (db'.applications ≡ drop_if (λ a. a.id == id) db.applications)
      × (db'.secrets
          ≡ drop_if (λ s. in_application id db s.application_id s.environment_id) db.secrets)
      × (db'.secret_versions
          ≡ drop_if (λ v. secret_gone (in_application id db) db v.secret_id) db.secret_versions)
      × (db'.bundle_revisions
          ≡ drop_if
              (λ r. in_application id db r.application_id r.environment_id)
              db.bundle_revisions)
unfolding delete_application
application_effect id db db' e =
    (ground arith, ground arith, ground arith, ground arith, ground arith)

-- An accepted deletion of an Application leaves no row of it, none of its Secrets and Revisions, and no
-- ciphertext of a Secret that it had, while every Secret outside of it and of its Environments stays.
pub delete_application-erases :
    (id : ℕ) (db db' : Db)
    → transact (delete_application id) db ≡ (ok tt, db')
    → (any (λ a. a.id == id) db'.applications ≡ false)
      × (any (λ s. s.application_id == id) db'.secrets ≡ false)
      × (any (λ r. r.application_id == id) db'.bundle_revisions ≡ false)
      × ((s : Secret)
          → Memᴰ s db.secrets
          → s.application_id ≡ id
          → any (λ v. v.secret_id == s.id) db'.secret_versions ≡ false)
      × ((s : Secret)
          → Memᴰ s db.secrets
          → application_scope id db s.application_id s.environment_id ≡ false
          → Memᴰ s db'.secrets)
delete_application-erases id db db' e =
    let (there, applications, secrets, versions, revisions) = application_effect id db db' e in
    (
      ap (any (λ a. a.id == id)) applications ∙ any-drop_if _ _ db.applications (λ a h. h),
      ap (any (λ s. s.application_id == id)) secrets
          ∙ any-drop_if _ _ db.secrets (λ s h. ground (arith, there, h)),
      ap (any (λ r. r.application_id == id)) revisions
          ∙ any-drop_if _ _ db.bundle_revisions (λ r h. ground (arith, there, h)),
      λ s m own.
          ap (any (λ v. v.secret_id == s.id)) versions
          ∙ any-drop_if _ _ db.secret_versions
              (λ v h. any-true _ m (ground (arith, there, own, h))),
      λ s m out.
          subst (λ t. Memᴰ s t) (sym secrets)
            (mem-keep_if_intro _ db.secrets m (ground (arith, out))),
    )

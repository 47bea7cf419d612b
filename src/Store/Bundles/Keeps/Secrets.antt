-- ===== src/Store/Bundles/Keeps/Secrets.antt =====
-- domain.go: `CreateSecretWithValue`, `AddSecretVersion` and `UpdateBinding` keep the tables sound.
use autosecrets.Prelude.{
  ℕ, ◌+◌, ◌≡◌, refl, ◌∙◌, Bool, true, ◌&&◌, Option, none, some, List, [], ◌∷◌, ◌++◌, arith, ◌==◌,
  any, find, update_if, Option-cases, inl, inr, All, All-append, All-mono, All-update_if,
  any-append, any-update_if,
}
use autosecrets.Store.Tx.{ok}
use autosecrets.Store.Rows.{DraftSelection, FileBinding, Blob, Draft, Db}
use autosecrets.Store.Queries.Bundles.{draft_in, max_seq}
use autosecrets.Store.Bundles.{create_secret_with_value, add_secret_version, update_binding}
use autosecrets.Store.Bundles.Soundness.{
  IsSound, HasBinding, IsBound, upsert_selection-HasBinding, create_secret_tables,
  create_secret_selections, select_first, default_binding, new_secret,
}

any-append_left :
    (k : ℕ) (bs : List FileBinding) (b : FileBinding)
    → any (λ c. c.secret_id == k) bs ≡ true
    → any (λ c. c.secret_id == k) (bs ++ b ∷ []) ≡ true
any-append_left k bs b h = rw (any-append (λ c. c.secret_id == k) bs (b ∷ []), h)

any-append_new :
    (bs : List FileBinding) (b : FileBinding)
    → any (λ c. c.secret_id == b.secret_id) (bs ++ b ∷ []) ≡ true
any-append_new bs b = rw (any-append (λ c. c.secret_id == b.secret_id) bs (b ∷ [])) (ground arith)

select_first-HasBinding :
    (k : ℕ) (o : Option Draft) (bs : List FileBinding) (rows : List DraftSelection)
    → any (λ b. b.secret_id == k) bs ≡ true
    → All (HasBinding bs) rows
    → All (HasBinding bs) (select_first k o rows)
select_first-HasBinding k none bs rows h all = all
select_first-HasBinding k (some d) bs rows h all =
    upsert_selection-HasBinding d.id k 1 bs rows h all

pub create_secret-IsSound :
    (draft secret_id version app env name : ℕ) (blob : Blob) (db db' : Db)
    → IsSound db
    → create_secret_with_value draft secret_id version app env name blob db ≡ ok (tt, db')
    → IsSound db'
create_secret-IsSound draft k version app env name blob db db' v done =
    let (secrets, bindings, revisions, files) =
      create_secret_tables draft k version app env name blob db db' done in
    let b = default_binding app env k name in
    record {
      files_have_revision = rw (revisions, files) v.files_have_revision;
      secrets_have_binding =
          rw (secrets, bindings)
            (All-append (IsBound (db.file_bindings ++ b ∷ [])) db.secrets
              (new_secret app env k name ∷ [])
              (All-mono (IsBound db.file_bindings) (IsBound (db.file_bindings ++ b ∷ [])) db.secrets
                (λ s h. any-append_left s.id db.file_bindings b h) v.secrets_have_binding)
              (any-append_new db.file_bindings b, tt));
      selections_have_binding =
          rw (create_secret_selections draft k version app env name blob db db' done, bindings)
            (select_first-HasBinding k (find (draft_in app env) db'.drafts)
              (db.file_bindings ++ b ∷ []) db.draft_selections (any-append_new db.file_bindings b)
              (All-mono (HasBinding db.file_bindings) (HasBinding (db.file_bindings ++ b ∷ []))
                db.draft_selections (λ s h. any-append_left s.secret_id db.file_bindings b h)
                v.selections_have_binding));
    }

-- Adding a version writes selections of the same Secrets.
pub add_secret_version-IsSound :
    (version k : ℕ) (blob : Blob) (db : Db) (r : ℕ × ℕ) (db' : Db)
    → IsSound db
    → add_secret_version version k blob db ≡ ok (r, db')
    → IsSound db'
unfolding add_secret_version
add_secret_version-IsSound version k blob db r db' v done =
    elim (Option-cases (find (λ s. s.id == k) db.secrets)) [
      | inl e ↦ absurd (ground arith)
      | inr (s, e) ↦
          let p : DraftSelection → Bool = λ x.
            x.secret_id == k
            && any (λ d. d.id == x.draft_id && draft_in s.application_id s.environment_id d)
                db.drafts in
          let q : ℕ = max_seq k db.secret_versions + 1 in
          let selections : db'.draft_selections
              ≡ update_if p (λ x. record x { version_seq = q }) db.draft_selections =
            ground arith in
          record {
            files_have_revision = ground (arith, v.files_have_revision);
            secrets_have_binding = ground (arith, v.secrets_have_binding);
            selections_have_binding =
                let bindings : db'.file_bindings ≡ db.file_bindings = ground arith in
                rw (selections, bindings)
                  (All-update_if (HasBinding db.file_bindings) p (λ x. record x { version_seq = q })
                    db.draft_selections (λ x h. h) v.selections_have_binding);
          }
    ]

pub update_binding-IsSound :
    (k path uid gid mode : ℕ) (db : Db) (n : ℕ) (db' : Db)
    → IsSound db
    → update_binding k path uid gid mode db ≡ ok (n, db')
    → IsSound db'
unfolding update_binding
update_binding-IsSound k path uid gid mode db n db' v done =
    let set : FileBinding → FileBinding =
      λ b. record b { path = path; uid = uid; gid = gid; mode = mode } in
    let kept : (j : ℕ)
        → any (λ b. b.secret_id == j) db'.file_bindings
          ≡ any (λ b. b.secret_id == j) db.file_bindings =
      λ j.
        let bindings : db'.file_bindings ≡ update_if (λ b. b.secret_id == k) set db.file_bindings =
          ground arith in
        rw bindings (
          any-update_if (λ b. b.secret_id == j) (λ b. b.secret_id == k) set db.file_bindings
            (λ b. refl)) in
    record {
      files_have_revision = ground (arith, v.files_have_revision);
      secrets_have_binding =
          let secrets : db'.secrets ≡ db.secrets = ground arith in
          rw secrets (
            All-mono (IsBound db.file_bindings) (IsBound db'.file_bindings) db.secrets
              (λ s h. kept s.id ∙ h) v.secrets_have_binding);
      selections_have_binding =
          let selections : db'.draft_selections ≡ db.draft_selections = ground arith in
          rw selections (
            All-mono (HasBinding db.file_bindings) (HasBinding db'.file_bindings)
              db.draft_selections (λ s h. kept s.secret_id ∙ h) v.selections_have_binding);
    }

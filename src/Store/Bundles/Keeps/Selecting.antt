-- ===== src/Store/Bundles/Keeps/Selecting.antt =====
-- domain.go: `UpdateDraftSelections` keeps the tables sound.
use autosecrets.Prelude.{
  ℕ, ◌≡◌, subst, Bool, true, ◌&&◌, List, [], ◌∷◌, Dict, arith, ◌==◌, any, find, Bool-cases,
  Option-cases, inl, inr, All, &&_parts,
}
use autosecrets.Store.Tx.{ok}
use autosecrets.Store.Rows.{DraftSelection, FileBinding, Secret, SecretVersion, Db}
use autosecrets.Store.Queries.Bundles.{upsert_selection, draft_in, selection_exists}
use autosecrets.Store.Bundles.{update_draft_selections}
use autosecrets.Store.Bundles.Selections.{
  all_exist, upsert_all, check_selections_lem, write_selections_lem,
}
use autosecrets.Store.Bundles.Soundness.{IsSound, HasBinding, IsBound, upsert_selection-HasBinding}

-- A version that `SelectDraftSelectionExists` finds is one of a Secret with a row.
secret_of_version :
    (k q : ℕ) (b : Bool) (vs : List SecretVersion)
    → any (λ v. v.secret_id == k && v.seq == q && b) vs ≡ true
    → b ≡ true
secret_of_version k q b [] h = cc
secret_of_version k q b (v ∷ vs) h = ground (arith, secret_of_version k q b vs)

binding_of_secret :
    (k : ℕ) (test : Secret → Bool) (bs : List FileBinding) (ss : List Secret)
    → All (IsBound bs) ss
    → any (λ s. s.id == k && test s) ss ≡ true
    → any (λ b. b.secret_id == k) bs ≡ true
binding_of_secret k test bs [] all h = cc
binding_of_secret k test bs (s ∷ ss) all h = elim (Bool-cases (s.id == k)) [
  | inl same ↦
      let e : s.id ≡ k = ground arith in subst (λ j. any (λ b. b.secret_id == j) bs ≡ true) e all.0
  | inr differs ↦ binding_of_secret k test bs ss all.1 (ground arith)
]

upsert_all-HasBinding :
    (d : ℕ) (selections : Dict ℕ) (db : Db) (rows : List DraftSelection)
    → All (IsBound db.file_bindings) db.secrets
    → all_exist db d selections ≡ true
    → All (HasBinding db.file_bindings) rows
    → All (HasBinding db.file_bindings) (upsert_all d selections rows)
upsert_all-HasBinding d [] db rows bound exist all = all
upsert_all-HasBinding d ((k, q) ∷ m) db rows bound exist all =
    let (here, later) = &&_parts (selection_exists db d k q) (all_exist db d m) exist in
    upsert_all-HasBinding d m db (upsert_selection d k q rows) bound later (
      upsert_selection-HasBinding d k q db.file_bindings rows
        (binding_of_secret k
          (λ s. any (λ e. e.id == d && draft_in s.application_id s.environment_id e) db.drafts)
          db.file_bindings db.secrets bound (secret_of_version k q _ db.secret_versions here))
        all)

pub update_draft_selections-IsSound :
    (app env expected : ℕ) (selections : Dict ℕ) (db : Db) (n : ℕ) (db' : Db)
    → IsSound db
    → update_draft_selections app env expected selections db ≡ ok (n, db')
    → IsSound db'
unfolding update_draft_selections
update_draft_selections-IsSound app env expected selections db n db' v done =
    elim (Option-cases (find (draft_in app env) db.drafts)) [
      | inl e ↦ absurd (ground arith)
      | inr (d, e) ↦ elim (Bool-cases (all_exist db d.id selections)) [
        | inl exist ↦
            let written : (db'.draft_selections ≡ upsert_all d.id selections db.draft_selections)
                × (db'.file_bindings ≡ db.file_bindings)
                × (db'.secrets ≡ db.secrets)
                × (db'.bundle_revisions ≡ db.bundle_revisions)
                × (db'.revision_files ≡ db.revision_files) =
              ground (
                arith,
                check_selections_lem d.id selections db,
                write_selections_lem d.id selections db,
              ) in
            record {
              files_have_revision = rw (written.3, written.4) v.files_have_revision;
              secrets_have_binding = rw (written.1, written.2) v.secrets_have_binding;
              selections_have_binding =
                  rw (written.0, written.1)
                    (upsert_all-HasBinding d.id selections db db.draft_selections
                      v.secrets_have_binding exist v.selections_have_binding);
            }
        | inr missing ↦ absurd (ground (arith, check_selections_lem d.id selections db))
      ]
    ]

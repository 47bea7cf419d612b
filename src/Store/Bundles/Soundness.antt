-- ===== src/Store/Bundles/Soundness.antt =====
-- domain.go: references between the bundle tables that every operation keeps.
use autosecrets.Prelude.{
  ℕ, ◌≡◌, refl, true, Option, none, some, List, [], ◌∷◌, ◌++◌, arith, ◌==◌, any, find, Bool-cases,
  Option-cases, inl, inr, All, All-append, All-mono, All-update_if, any-append,
}
use autosecrets.Store.Tx.{ok}
use autosecrets.Store.Rows.{
  BundleRevision, DraftSelection, FileBinding, RevisionFile, Secret, Blob, Draft, Db,
}
use autosecrets.Store.Queries.Bundles.{
  selects, upsert_selection, freeze, copy_to, file_of, draft_in,
}
use autosecrets.Store.Bundles.{create_secret_with_value}

abbrev pub HasRevision : List BundleRevision → RevisionFile → Type 0
HasRevision revisions f = any (λ r. r.id == f.revision_id) revisions ≡ true

abbrev pub HasBinding : List FileBinding → DraftSelection → Type 0
HasBinding bindings s = any (λ b. b.secret_id == s.secret_id) bindings ≡ true

abbrev pub IsBound : List FileBinding → Secret → Type 0
IsBound bindings s = any (λ b. b.secret_id == s.id) bindings ≡ true

-- Every frozen file belongs to a Bundle Revision, and every Secret and every selected Secret has a
-- File Binding.
pub record IsSound (db : Db) : Type 0 where
  pub files_have_revision : All (HasRevision db.bundle_revisions) db.revision_files
  pub secrets_have_binding : All (IsBound db.file_bindings) db.secrets
  pub selections_have_binding : All (HasBinding db.file_bindings) db.draft_selections

pub HasRevision-append :
    (rs : List BundleRevision) (r : BundleRevision) (fs : List RevisionFile)
    → All (HasRevision rs) fs
    → All (HasRevision (rs ++ r ∷ [])) fs
HasRevision-append rs r fs =
    All-mono (HasRevision rs) (HasRevision (rs ++ r ∷ [])) fs
      (λ f h. rw (any-append (λ q. q.id == f.revision_id) rs (r ∷ []), h))

HasRevision-new :
    (rs : List BundleRevision) (r : BundleRevision) (f : RevisionFile)
    → f.revision_id ≡ r.id
    → HasRevision (rs ++ r ∷ []) f
HasRevision-new rs r f e = rw (any-append (λ q. q.id == f.revision_id) rs (r ∷ [])) (ground arith)

pub freeze-HasRevision :
    (rs : List BundleRevision) (r : BundleRevision) (bs : List FileBinding)
    (ss : List DraftSelection)
    → All (HasRevision (rs ++ r ∷ [])) (freeze r.id bs ss)
freeze-HasRevision rs r bs [] = tt
freeze-HasRevision rs r bs (s ∷ ss) =
    elim (Option-cases (find (λ b. b.secret_id == s.secret_id) bs)) [
      | inl e ↦ rw (e, freeze) (freeze-HasRevision rs r bs ss)
      | inr (b, e) ↦
          rw (e, freeze)
            (HasRevision-new rs r (file_of r.id s b) refl, freeze-HasRevision rs r bs ss)
    ]

pub copy_to-HasRevision :
    (rs : List BundleRevision) (r : BundleRevision) (fs : List RevisionFile)
    → All (HasRevision (rs ++ r ∷ [])) (copy_to r.id fs)
copy_to-HasRevision rs r [] = tt
copy_to-HasRevision rs r (f ∷ fs) =
    (HasRevision-new rs r (record f { revision_id = r.id }) refl, copy_to-HasRevision rs r fs)

pub upsert_selection-HasBinding :
    (d s q : ℕ) (bs : List FileBinding) (rows : List DraftSelection)
    → any (λ b. b.secret_id == s) bs ≡ true
    → All (HasBinding bs) rows
    → All (HasBinding bs) (upsert_selection d s q rows)
upsert_selection-HasBinding d s q bs rows h all = elim (Bool-cases (any (selects d s) rows)) [
  | inl there ↦ rw there (
      All-update_if (HasBinding bs) (selects d s) (λ r. record r { version_seq = q }) rows
        (λ r p. p) all)
  | inr gone ↦ rw gone (
      All-append (HasBinding bs) rows (record { draft_id = d; secret_id = s; version_seq = q } ∷ [])
        all (h, tt))
]

module _ (app env secret_id name : ℕ) where
  abbrev pub default_binding : FileBinding
  default_binding = record { secret_id = secret_id; path = name; uid = 0; gid = 0; mode = 0o400 }

  abbrev pub new_secret : Secret
  new_secret = record { id = secret_id; application_id = app; environment_id = env; name = name }

-- The selection that a new Secret gets in the Draft of its environment.
abbrev pub select_first : ℕ → Option Draft → List DraftSelection → List DraftSelection
select_first secret_id none rows = rows
select_first secret_id (some d) rows = upsert_selection d.id secret_id 1 rows

module _ (draft secret_id version app env name : ℕ) (blob : Blob) (db db' : Db)
    (done : create_secret_with_value draft secret_id version app env name blob db
      ≡ ok (tt, db')) where
  pub create_secret_tables :
      (db'.secrets ≡ db.secrets ++ new_secret app env secret_id name ∷ [])
      × (db'.file_bindings ≡ db.file_bindings ++ default_binding app env secret_id name ∷ [])
      × (db'.bundle_revisions ≡ db.bundle_revisions)
      × (db'.revision_files ≡ db.revision_files)
  unfolding create_secret_with_value
  create_secret_tables = ground arith

  pub create_secret_selections :
      db'.draft_selections
      ≡ select_first secret_id (find (draft_in app env) db'.drafts) db.draft_selections
  unfolding create_secret_with_value
  create_secret_selections = ground arith

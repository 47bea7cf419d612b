-- ===== src/Store/Bundles/Files.antt =====
-- domain.sql.go, `InsertRevisionFilesFromDraft` and `InsertRevisionFilesCopy`: the files that the
-- two statements add, read back by Revision and by Secret.
use autosecrets.Prelude.{
  ℕ, suc, ◌≡◌, ◌≢◌, refl, sym, ap, false, Option, none, some, List, [], ◌∷◌, map, arith, ◌==◌, any,
  find, length, Bool-cases, Option-cases, inl, inr, All, All-keep_if, any-find-none,
}
use autosecrets.Store.Rows.{BundleRevision, DraftSelection, FileBinding, RevisionFile}
use autosecrets.Store.Queries.Bundles.{freeze, selections_of, files_of, copy_to}
use autosecrets.Store.Bundles.Selections.{selected_version}
use autosecrets.Store.Bundles.Soundness.{HasRevision, HasBinding}

pub files_of-freeze :
    (id : ℕ) (bs : List FileBinding) (ss : List DraftSelection)
    → files_of id (freeze id bs ss) ≡ freeze id bs ss
files_of-freeze id bs [] = refl
files_of-freeze id bs (s ∷ ss) = elim (Option-cases (find (λ b. b.secret_id == s.secret_id) bs)) [
  | inl e ↦ ground (arith, files_of-freeze id bs ss)
  | inr (b, e) ↦ ground (arith, files_of-freeze id bs ss)
]

pub files_of-freeze_other :
    (other id : ℕ) (bs : List FileBinding) (ss : List DraftSelection)
    → other ≢ id
    → files_of other (freeze id bs ss) ≡ []
files_of-freeze_other other id bs [] ne = refl
files_of-freeze_other other id bs (s ∷ ss) ne =
    elim (Option-cases (find (λ b. b.secret_id == s.secret_id) bs)) [
      | inl e ↦ ground (arith, files_of-freeze_other other id bs ss ne)
      | inr (b, e) ↦ ground (arith, files_of-freeze_other other id bs ss ne)
    ]

pub files_of-copy_to :
    (id : ℕ) (fs : List RevisionFile) → files_of id (copy_to id fs) ≡ copy_to id fs
files_of-copy_to id [] = refl
files_of-copy_to id (f ∷ fs) = ground (arith, files_of-copy_to id fs)

pub files_of-copy_to_other :
    (other id : ℕ) (fs : List RevisionFile) → other ≢ id → files_of other (copy_to id fs) ≡ []
files_of-copy_to_other other id [] ne = refl
files_of-copy_to_other other id (f ∷ fs) ne = ground (arith, files_of-copy_to_other other id fs ne)

-- A Revision that is not there has no files.
pub files_of-absent :
    (id : ℕ) (rs : List BundleRevision) (fs : List RevisionFile)
    → any (λ q. q.id == id) rs ≡ false
    → All (HasRevision rs) fs
    → files_of id fs ≡ []
files_of-absent id rs [] h all = refl
files_of-absent id rs (f ∷ fs) h all = elim (Bool-cases (f.revision_id == id)) [
  | inl same ↦
      let e : f.revision_id ≡ id = ground arith in
      absurd (ground (arith, ap (λ k. any (λ q. q.id == k) rs) e, all.0))
  | inr differs ↦ rw differs (files_of-absent id rs fs h all.1)
]

pub length-freeze :
    (id : ℕ) (bs : List FileBinding) (ss : List DraftSelection)
    → All (HasBinding bs) ss
    → length (freeze id bs ss) ≡ length ss
length-freeze id bs [] all = refl
length-freeze id bs (s ∷ ss) all = elim (Option-cases (find (λ b. b.secret_id == s.secret_id) bs)) [
  | inl e ↦ absurd (ground (arith, all.0, any-find-none (λ b. b.secret_id == s.secret_id) bs e))
  | inr (b, e) ↦ ground (arith, length-freeze id bs ss all.1)
]

-- The file of a Secret in a Revision, from the version that the Draft selects and its binding.
abbrev pub frozen_file : ℕ → ℕ → Option ℕ → Option FileBinding → Option RevisionFile
frozen_file id s none o = none
frozen_file id s (some seq) none = none
frozen_file id s (some seq) (some b) = some (record {
  revision_id = id;
  secret_id = s;
  path = b.path;
  uid = b.uid;
  gid = b.gid;
  mode = b.mode;
  version_seq = seq;
})

abbrev pub file_for : ℕ → List RevisionFile → Option RevisionFile
file_for s = find (λ f. f.secret_id == s)

frozen_file-none : (id s : ℕ) (o : Option ℕ) → frozen_file id s o none ≡ none
frozen_file-none id s none = refl
frozen_file-none id s (some seq) = refl

-- With no binding the Secret has no file.
file_for-freeze_unbound :
    (id s : ℕ) (bs : List FileBinding) (ss : List DraftSelection)
    → find (λ b. b.secret_id == s) bs ≡ none
    → file_for s (freeze id bs ss) ≡ none
file_for-freeze_unbound id s bs [] h = refl
file_for-freeze_unbound id s bs (x ∷ ss) h =
    elim (Option-cases (find (λ b. b.secret_id == x.secret_id) bs)) [
      | inl e ↦ ground (arith, file_for-freeze_unbound id s bs ss h)
      | inr (b, e) ↦ elim (Bool-cases (x.secret_id == s)) [
        | inl same ↦
            let eq : x.secret_id ≡ s = ground arith in
            absurd (ground (arith, ap (λ k. find (λ (c : FileBinding). c.secret_id == k) bs) eq))
        | inr differs ↦ ground (arith, file_for-freeze_unbound id s bs ss h)
      ]
    ]

file_for-freeze_bound :
    (id d s : ℕ) (bs : List FileBinding) (b : FileBinding) (ss : List DraftSelection)
    → find (λ c. c.secret_id == s) bs ≡ some b
    → file_for s (freeze id bs (selections_of d ss))
      ≡ frozen_file id s (selected_version d s ss) (some b)
file_for-freeze_bound id d s bs b [] h = refl
file_for-freeze_bound id d s bs b (x ∷ ss) h =
    elim (Option-cases (find (λ c. c.secret_id == x.secret_id) bs)) [
      | inl e ↦ elim (Bool-cases (x.secret_id == s)) [
        | inl same ↦
            let eq : x.secret_id ≡ s = ground arith in
            absurd (ground (arith, ap (λ k. find (λ (c : FileBinding). c.secret_id == k) bs) eq))
        | inr differs ↦ ground (arith, file_for-freeze_bound id d s bs b ss h)
      ]
      | inr (c, e) ↦ elim (Bool-cases (x.secret_id == s)) [
        | inl same ↦
            let eq : x.secret_id ≡ s = ground arith in
            ground (
              arith,
              ap (λ k. find (λ (c : FileBinding). c.secret_id == k) bs) eq,
              file_for-freeze_bound id d s bs b ss h,
            )
        | inr differs ↦ ground (arith, file_for-freeze_bound id d s bs b ss h)
      ]
    ]

pub file_for-freeze :
    (id d s : ℕ) (bs : List FileBinding) (ss : List DraftSelection)
    → file_for s (freeze id bs (selections_of d ss))
      ≡ frozen_file id s (selected_version d s ss) (find (λ c. c.secret_id == s) bs)
file_for-freeze id d s bs ss = elim (Option-cases (find (λ c. c.secret_id == s) bs)) [
  | inl e ↦
      rw (file_for-freeze_unbound id s bs (selections_of d ss) e, e)
        (sym (frozen_file-none id s (selected_version d s ss)))
  | inr (b, e) ↦ rw (file_for-freeze_bound id d s bs b ss e, e)
]

-- What a file of a Revision says, without the Revision that it belongs to.
abbrev pub file_content : RevisionFile → ℕ × ℕ × ℕ × ℕ × ℕ × ℕ
file_content f = (f.secret_id, f.path, f.uid, f.gid, f.mode, f.version_seq)

pub map-copy_to :
    (id : ℕ) (fs : List RevisionFile) → map file_content (copy_to id fs) ≡ map file_content fs
map-copy_to id [] = refl
map-copy_to id (f ∷ fs) = ap (λ t. file_content f ∷ t) (map-copy_to id fs)

pub length-copy_to : (id : ℕ) (fs : List RevisionFile) → length (copy_to id fs) ≡ length fs
length-copy_to id [] = refl
length-copy_to id (f ∷ fs) = ap suc (length-copy_to id fs)

pub All-selections_of :
    (d : ℕ) (bs : List FileBinding) (ss : List DraftSelection)
    → All (HasBinding bs) ss
    → All (HasBinding bs) (selections_of d ss)
All-selections_of d bs ss = All-keep_if (HasBinding bs) (λ s. s.draft_id == d) ss

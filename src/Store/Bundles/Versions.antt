-- ===== src/Store/Bundles/Versions.antt =====
-- domain.go, `CreateSecretWithValue` and `AddSecretVersion`: the numbering of Secret versions.
use autosecrets.Prelude.{
  ℕ, ◌+◌, ◌≤◌, ◌<◌, ◌≡◌, ◌≢◌, refl, ap, Bool, true, false, ◌&&◌, Option, none, some, List, [], ◌∷◌,
  ◌++◌, arith, ◌==◌, any, find, update_if, Bool-cases, Option-cases, inl, inr, All, All-mono,
  find-append_new,
}
use autosecrets.Store.Tx.{ok, transact}
use autosecrets.Store.Rows.{SecretVersion, Secret, Blob, Draft, DraftSelection, Db}
use autosecrets.Store.Queries.Bundles.{max_seq, draft_in, selects}
use autosecrets.Store.Bundles.{add_secret_version}
use autosecrets.Store.Bundles.Selections.{selected_version}
use autosecrets.Store.Bundles.Drafts.{HasDistinctIds, find_by_id, find-bumped, bumped}

-- No version of the Secret has a number above the bound.
abbrev pub NumberedUpTo : ℕ → ℕ → SecretVersion → Type 0
NumberedUpTo k n v = v.secret_id ≡ k → v.seq ≤ n

NumberedUpTo-max_seq : (k : ℕ) (vs : List SecretVersion) → All (NumberedUpTo k (max_seq k vs)) vs
NumberedUpTo-max_seq k [] = tt
NumberedUpTo-max_seq k (v ∷ vs) = (
  λ e. ground arith,
  All-mono (NumberedUpTo k (max_seq k vs)) (NumberedUpTo k (max_seq k (v ∷ vs))) vs
      (λ w h e. ground (arith, h e)) (NumberedUpTo-max_seq k vs),
)

abbrev pub version_row : ℕ → ℕ → ℕ → Blob → SecretVersion
version_row id k seq blob = record { id = id; secret_id = k; seq = seq; blob = blob }

-- The version that `SecretVersionBlob` reads.
abbrev pub blob_of : ℕ → ℕ → List SecretVersion → Option SecretVersion
blob_of k q = find (λ v. v.secret_id == k && v.seq == q)

blob_of-append :
    (k q : ℕ) (vs : List SecretVersion) (w : SecretVersion)
    → blob_of k q vs ≢ none
    → blob_of k q (vs ++ w ∷ []) ≡ blob_of k q vs
blob_of-append k q [] w h = absurd (h refl)
blob_of-append k q (v ∷ vs) w h = ground (arith, blob_of-append k q vs w)

absent_above :
    (k n q : ℕ) (vs : List SecretVersion)
    → All (NumberedUpTo k n) vs
    → n < q
    → any (λ v. v.secret_id == k && v.seq == q) vs ≡ false
absent_above k n q [] all h = refl
absent_above k n q (v ∷ vs) all h = ground (arith, all.0, absent_above k n q vs all.1 h)

own_draft :
    (app env : ℕ) (d : Draft) (ds : List Draft)
    → find (draft_in app env) ds ≡ some d
    → any (λ x. x.id == d.id && draft_in app env x) ds ≡ true
own_draft app env d [] h = cc
own_draft app env d (x ∷ ds) h = ground (arith, own_draft app env d ds)

-- A Draft that selects a version of the Secret, after `UPDATE draft_selections`.
selected_version-moved :
    (d k q : ℕ) (p : ℕ → Bool) (rows : List DraftSelection)
    → p d ≡ true
    → selected_version d k rows ≢ none
    → selected_version d k
        (update_if (λ s. s.secret_id == k && p s.draft_id) (λ s. record s { version_seq = q }) rows)
      ≡ some q
selected_version-moved d k q p [] t h = absurd (h refl)
selected_version-moved d k q p (s ∷ rows) t h = elim (Bool-cases (selects d k s)) [
  | inl own ↦ let e : s.draft_id ≡ d = ground arith in ground (arith, ap p e)
  | inr other ↦ elim (Bool-cases (s.secret_id == k && p s.draft_id)) [
    | inl hit ↦ ground (arith, selected_version-moved d k q p rows t)
    | inr miss ↦ ground (arith, selected_version-moved d k q p rows t)
  ]
]

module _ (id k : ℕ) (blob : Blob) (db : Db) (seq n : ℕ) (db' : Db)
    (done : transact (add_secret_version id k blob) db ≡ (ok (seq, n), db')) where
  appended :
      (seq ≡ max_seq k db.secret_versions + 1)
      × (db'.secret_versions ≡ db.secret_versions ++ version_row id k seq blob ∷ [])
  unfolding add_secret_version
  appended = (ground arith, ground arith)

  -- A new Secret Version gets a number above every number that the Secret has, is what that number
  -- reads back, and leaves every version that could be read before as it was.
  pub add_secret_version-appends :
      All (λ v. v.secret_id ≡ k → v.seq < seq) db.secret_versions
      × (blob_of k seq db'.secret_versions ≡ some (version_row id k seq blob))
      × ((j q : ℕ)
          → blob_of j q db.secret_versions ≢ none
          → blob_of j q db'.secret_versions ≡ blob_of j q db.secret_versions)
  add_secret_version-appends =
      let (next, rows) = appended in
      (
        All-mono (NumberedUpTo k (max_seq k db.secret_versions))
            (λ v. v.secret_id ≡ k → v.seq < seq) db.secret_versions (λ v h e. omega (arith, h e))
            (NumberedUpTo-max_seq k db.secret_versions),
        rw rows (
            find-append_new (λ v. v.secret_id == k && v.seq == seq) db.secret_versions
              (version_row id k seq blob)
              (absent_above k (max_seq k db.secret_versions) seq db.secret_versions
                (NumberedUpTo-max_seq k db.secret_versions) (omega arith))
              (ground arith)),
        λ j q known.
            rw rows (blob_of-append j q db.secret_versions (version_row id k seq blob) known),
      )

  -- A new version of a Secret goes to the Draft of the Secret's environment: that Draft's version goes
  -- up by one, which is the second result, and if it selects the Secret it now selects the new version.
  pub add_secret_version-selects :
      HasDistinctIds db.drafts
      → (s : Secret) × (d : Draft) × (find (λ r. r.id == k) db.secrets ≡ some s)
        × (find (draft_in s.application_id s.environment_id) db.drafts ≡ some d)
        × (find (draft_in s.application_id s.environment_id) db'.drafts
            ≡ some (record d { version = n }))
        × (n ≡ d.version + 1)
        × (selected_version d.id k db.draft_selections ≢ none
            → selected_version d.id k db'.draft_selections ≡ some seq)
  unfolding add_secret_version
  add_secret_version-selects distinct = elim (Option-cases (find (λ r. r.id == k) db.secrets)) [
    | inl e ↦ absurd (ground arith)
    | inr (s, e) ↦
        elim (Option-cases (find (draft_in s.application_id s.environment_id) db.drafts)) [
          | inl none_there ↦ absurd (ground arith)
          | inr (d, f) ↦
              let app : ℕ = s.application_id in
              let env : ℕ = s.environment_id in
              let in_draft : ℕ → Bool = λ j. any (λ x. x.id == j && draft_in app env x) db.drafts in
              let by_id : find (λ x. x.id == d.id) db.drafts ≡ some d =
                find_by_id app env db.drafts d distinct f in
              let version : n ≡ d.version + 1 = ground arith in
              let drafts : db'.drafts ≡ bumped d.id db.drafts = ground arith in
              let rows : db'.draft_selections
                  ≡ update_if (λ x. x.secret_id == k && in_draft x.draft_id)
                      (λ x. record x { version_seq = seq }) db.draft_selections =
                ground arith in
              (
                s,
                d,
                e,
                f,
                rw (drafts, version) (find-bumped app env db.drafts d f),
                version,
                λ selected. rw rows (
                    selected_version-moved d.id k seq in_draft db.draft_selections
                      (own_draft app env d db.drafts f) selected),
              )
        ]
  ]

-- ===== src/Store/Fleet/Assigned.antt =====
-- domain.go, `CreateAssignment` and `AdvanceDesiredRevision`: the Revision that an Assignment points to.
use autosecrets.Prelude.{
  ℕ, ◌≡◌, ◌↔◌, refl, sym, ap, ◌∙◌, subst, Bool, true, false, ◌&&◌, Option, none, some, List, [],
  ◌∷◌, Memᴰ, arith, ◌==◌, keep_if, update_if, mem-keep_if, mem-update_if, Bool-cases, Option-cases,
  inl, inr, All, All-mono, All-mem, mem-update_if_other, mem-keep_if_intro, keep_if_passes,
}
use autosecrets.Store.Tx.{ok, transact}
use autosecrets.Store.Rows.{Assignment, BundleRevision, is_active, Db}
use autosecrets.Store.Queries.Bundles.{revision_in}
use autosecrets.Store.Queries.Fleet.{latest, is_later}
use autosecrets.Store.Fleet.{advance_desired_revision, create_assignment}

-- No row of the list stands before `q` in the order of creation, the latest first.
abbrev pub IsLatest : BundleRevision → List BundleRevision → Type 0
IsLatest q rs = Memᴰ q rs × All (λ r. is_later r q ≡ false) rs

latest-cons :
    (r : BundleRevision) (rs : List BundleRevision) (o : Option BundleRevision)
    → latest rs ≡ o
    → (o ≡ none → rs ≡ [])
    → ((q : BundleRevision) → o ≡ some q → IsLatest q rs)
    → (q : BundleRevision) → latest (r ∷ rs) ≡ some q
    → IsLatest q (r ∷ rs)
latest-cons r rs none e empty l q h =
    let is_r : r ≡ q = ground (arith, e) in
    let no_more : rs ≡ [] = empty refl in
    (Memᴰ.head (sym is_r), (ground arith, subst (All (λ x. is_later x q ≡ false)) (sym no_more) tt))
latest-cons r rs (some p) e empty l q h =
    let (there, upper) = l p refl in
    elim (Bool-cases (is_later p r)) [
      | inl older ↦
          let is_p : p ≡ q = ground (arith, e, older) in
          (
            Memᴰ.tail (subst (λ x. Memᴰ x rs) is_p there),
            (ground arith, subst (λ x. All (λ y. is_later y x ≡ false) rs) is_p upper),
          )
      | inr newer ↦
          let is_r : r ≡ q = ground (arith, e, newer) in
          (
            Memᴰ.head (sym is_r),
            (
              ground arith,
              All-mono (λ x. is_later x p ≡ false) (λ x. is_later x q ≡ false) rs
                  (λ x below. ground arith) upper,
            ),
          )
    ]

latest-IsLatest :
    (rs : List BundleRevision)
    → (latest rs ≡ none → rs ≡ []) × ((q : BundleRevision) → latest rs ≡ some q → IsLatest q rs)
latest-IsLatest [] = (λ h. refl, λ q h. absurd (ground arith))
latest-IsLatest (r ∷ rs) =
    let (empty, l) = latest-IsLatest rs in
    (
      λ h. absurd (ground (arith, Option-cases (latest rs))),
      latest-cons r rs (latest rs) refl empty l,
    )

latest_of :
    (at id group app env : ℕ) (db db' : Db) (row : Assignment)
    → create_assignment at id group app env db ≡ ok (row, db')
    → (q : BundleRevision) × (latest (keep_if (revision_in app env) db.bundle_revisions) ≡ some q)
      × (row.revision_id ≡ q.id)
unfolding create_assignment
latest_of at id group app env db db' row done =
    elim (Option-cases (latest (keep_if (revision_in app env) db.bundle_revisions))) [
      | inl missing ↦ absurd (ground (arith, missing))
      | inr (q, found) ↦ (q, found, ground (arith, found))
    ]

-- An accepted Assignment points to a Revision of its Environment, and no Revision of that Environment
-- is later, by the time of creation and then by the id.
pub create_assignment-pins_latest :
    (at id group app env : ℕ) (db db' : Db) (row : Assignment)
    → create_assignment at id group app env db ≡ ok (row, db')
    → (q : BundleRevision) × (row.revision_id ≡ q.id)
      × Memᴰ q db.bundle_revisions
      × (revision_in app env q ≡ true)
      × ((r : BundleRevision)
          → Memᴰ r db.bundle_revisions
          → revision_in app env r ≡ true
          → is_later r q ≡ false)
create_assignment-pins_latest at id group app env db db' row done =
    let (q, found, pinned) = latest_of at id group app env db db' row done in
    let rows = keep_if (revision_in app env) db.bundle_revisions in
    let (there, upper) = (latest-IsLatest rows).1 q found in
    (
      q,
      pinned,
      mem-keep_if (revision_in app env) db.bundle_revisions there,
      keep_if_passes (revision_in app env) db.bundle_revisions there,
      λ r m t.
          All-mem (λ x. is_later x q ≡ false) rows upper
            (mem-keep_if_intro (revision_in app env) db.bundle_revisions m t),
    )

abbrev pub is_bundle : ℕ → ℕ → Assignment → Bool
is_bundle app env a = (a.application_id == app && a.environment_id == env) && is_active a.status

abbrev pub advanced : ℕ → ℕ → ℕ → Db → Db
advanced app env revision db = record db {
  assignments =
      update_if (is_bundle app env) (λ a. record a { revision_id = revision }) db.assignments;
}

-- Once a Revision is made the desired one of an Environment, the active Assignments of the Environment
-- all point to it, and every other Assignment stands as before.
pub advance_desired_revision-advances :
    (app env revision : ℕ) (db : Db)
    → (transact (advance_desired_revision app env revision) db
        ≡ (ok tt, advanced app env revision db))
      × ((a : Assignment)
          → Memᴰ a (advanced app env revision db).assignments
          → is_bundle app env a ≡ true
          → a.revision_id ≡ revision)
      × ((a : Assignment)
          → is_bundle app env a ≡ false
          → Memᴰ a db.assignments ↔ Memᴰ a (advanced app env revision db).assignments)
unfolding advance_desired_revision
advance_desired_revision-advances app env revision db =
    let f : Assignment → Assignment = λ a. record a { revision_id = revision } in
    let p = is_bundle app env in
    (
      refl,
      λ a m t.
          let (o, there, e) = mem-update_if p f db.assignments m in
          elim (Bool-cases (p o)) [
            | inl hit ↦ ground (arith, e, hit)
            | inr miss ↦ absurd (ground (arith, e, miss, ap p e))
          ],
      λ a out. (
        λ m. mem-update_if_other p f db.assignments m out,
        λ m.
            let (o, there, e) = mem-update_if p f db.assignments m in
            elim (Bool-cases (p o)) [
              | inl hit ↦
                  let moved : a ≡ f o = e ∙ rw hit in absurd (ground (arith, ap p moved, hit, out))
              | inr miss ↦
                  let same : a ≡ o = e ∙ rw miss in
                  subst (λ x. Memᴰ x db.assignments) (sym same) there
            ],
      ),
    )

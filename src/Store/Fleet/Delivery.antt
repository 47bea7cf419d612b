-- ===== src/Store/Fleet/Delivery.antt =====
-- domain.go and unassignment.go: which Revisions a Managed Node is to have.
use autosecrets.Prelude.{
  ℕ, ◌<◌, ◌≡◌, refl, Bool, ◌&&◌, ◌||◌, List, [], ◌∷◌, arith, ◌==◌, ltb, any, Bool-cases, inl, inr,
  All, All-mono,
}
use autosecrets.Store.Tx.{ok, transact}
use autosecrets.Store.Rows.{Assignment, is_active, Db}
use autosecrets.Store.Queries.Fleet.{is_member, insert_distinct, revisions_for}
use autosecrets.Store.Fleet.{assigned_revisions}

abbrev pub holds : ℕ → List ℕ → Bool
holds x = any (λ y. y == x)

-- Sorted with no repetition.
abbrev pub IsAscending : List ℕ → Type 0
IsAscending [] = Unit {0}
IsAscending (x ∷ xs) = All (λ y. x < y) xs × IsAscending xs

holds-insert_distinct :
    (x y : ℕ) (ys : List ℕ) → holds x (insert_distinct y ys) ≡ (y == x || holds x ys)
holds-insert_distinct x y [] = ground arith
holds-insert_distinct x y (z ∷ ys) = ground (arith, holds-insert_distinct x y ys)

All-above :
    (x y : ℕ) (ys : List ℕ) → x < y → All (λ z. x < z) ys → All (λ z. x < z) (insert_distinct y ys)
All-above x y [] lt h = (lt, tt)
All-above x y (z ∷ ys) lt h = elim (Bool-cases (y == z)) [
  | inl same ↦ rw same h
  | inr other ↦ elim (Bool-cases (ltb y z)) [
    | inl less ↦ rw (other, less) (lt, h)
    | inr more ↦ rw (other, more) (h.0, All-above x y ys lt h.1)
  ]
]

insert_distinct-IsAscending :
    (y : ℕ) (ys : List ℕ) → IsAscending ys → IsAscending (insert_distinct y ys)
insert_distinct-IsAscending y [] h = (tt, tt)
insert_distinct-IsAscending y (z ∷ ys) h = elim (Bool-cases (y == z)) [
  | inl same ↦ rw same h
  | inr other ↦ elim (Bool-cases (ltb y z)) [
    | inl less ↦
        rw (other, less)
          ((ground arith, All-mono (λ w. z < w) (λ w. y < w) ys (λ w l. ground arith) h.0), h)
    | inr more ↦
        rw (other, more) (All-above z y ys (ground arith) h.0, insert_distinct-IsAscending y ys h.1)
  ]
]

-- The Assignments that deliver a Revision to a node.
abbrev pub delivers : ℕ → ℕ → Db → Assignment → Bool
delivers node revision db a =
    is_active a.status && is_member a.group_id node db.group_members && a.revision_id == revision

holds-revisions_for :
    (node revision : ℕ) (db : Db) (rows : List Assignment)
    → holds revision (revisions_for node db rows) ≡ any (delivers node revision db) rows
holds-revisions_for node revision db [] = refl
holds-revisions_for node revision db (a ∷ rows) =
    let tail = holds-revisions_for node revision db rows in
    let step = holds-insert_distinct revision a.revision_id (revisions_for node db rows) in
    ground (arith, tail, step)

revisions_for-IsAscending :
    (node : ℕ) (db : Db) (rows : List Assignment) → IsAscending (revisions_for node db rows)
revisions_for-IsAscending node db [] = tt
revisions_for-IsAscending node db (a ∷ rows) =
    let tail = revisions_for-IsAscending node db rows in
    elim (Bool-cases (is_active a.status && is_member a.group_id node db.group_members)) [
      | inl to ↦ rw to (insert_distinct-IsAscending a.revision_id (revisions_for node db rows) tail)
      | inr not_to ↦ rw not_to tail
    ]

-- `AssignedRevisions` answers, without a change and each once in order, exactly the Revisions of the
-- active Assignments to the groups that the node is a member of.
pub assigned_revisions_lem :
    (node : ℕ) (db : Db)
    → (revisions : List ℕ) × (transact (assigned_revisions node) db ≡ (ok revisions, db))
      × IsAscending revisions
      × ((revision : ℕ) → holds revision revisions ≡ any (delivers node revision db) db.assignments)
unfolding assigned_revisions
assigned_revisions_lem node db = (
  revisions_for node db db.assignments,
  refl,
  revisions_for-IsAscending node db db.assignments,
  λ revision. holds-revisions_for node revision db db.assignments,
)

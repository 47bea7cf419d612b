-- ===== src/Store/Fleet/Ambiguity/Joining.antt =====
-- domain.go, `AddGroupMember`: its test for a conflict, read as an invariant of the tables.
use autosecrets.Prelude.{
  ℕ, ◌≡◌, sym, subst, true, false, not, ◌&&◌, ◌⊎◌, inl, inr, List, [], ◌∷◌, ◌++◌, Memᴰ, arith, ◌==◌,
  if◌then◌else◌, any, any-false, any-append, Bool-cases,
}
use autosecrets.Store.Tx.{ok}
use autosecrets.Store.Rows.{Assignment, GroupMember, is_active, Db}
use autosecrets.Store.Queries.Fleet.{is_member, rivals}
use autosecrets.Store.Fleet.{add_group_member}
use autosecrets.Store.Fleet.Ambiguity.{IsListed, IsSameBundle, IsUnambiguous}

-- The state that an accepted member leaves, with the conflict test in that state.
add_group_member_effect :
    (group node : ℕ) (db db' : Db)
    → add_group_member group node db ≡ ok (tt, db')
    → (db'.assignments ≡ db.assignments)
      × (any (λ a. (a.group_id == group && is_active a.status) && rivals node a db') db'.assignments
          ≡ false)
      × (db'.group_members ≡ (
          if is_member group node db.group_members
          then db.group_members
          else db.group_members ++ record { group_id = group; node_id = node } ∷ []))
unfolding add_group_member
add_group_member_effect group node db db' done = ground arith

is_member-new :
    (group node g n : ℕ) (ms : List GroupMember)
    → is_member g n (
        if is_member group node ms
        then ms
        else ms ++ record { group_id = group; node_id = node } ∷ [])
      ≡ true
    → (is_member g n ms ≡ true) ⊎ ((g ≡ group) × (n ≡ node))
is_member-new group node g n ms h = elim (Bool-cases (is_member g n ms)) [
  | inl old ↦ inl old
  | inr fresh ↦ inr (
      ground (
        arith,
        any-append (λ m. m.group_id == g && m.node_id == n) ms
            (record { group_id = group; node_id = node } ∷ []),
      ))
]

module _ (group node : ℕ) (db db' : Db) (v : IsUnambiguous db)
    (done : add_group_member group node db ≡ ok (tt, db')) where
  IsListed-before : (a : Assignment) → IsListed db' a → IsListed db a
  IsListed-before a l =
      let (rows, _, _) = add_group_member_effect group node db db' done in
      (subst (λ t. Memᴰ a t) rows l.0, l.1)

  -- The conflict test, read for an Assignment of the group against another of the same bundle.
  no_rival :
      (a b : Assignment)
      → IsListed db' a
      → IsListed db' b
      → IsSameBundle a b
      → a.group_id ≡ group
      → is_member b.group_id node db'.group_members ≡ true
      → a.group_id ≡ b.group_id
  no_rival a b la lb same ea mb =
      let (rows, free, members) = add_group_member_effect group node db db' done in
      let at_a : ((a.group_id == group && is_active a.status) && rivals node a db') ≡ false =
        any-false _ free la.0 in
      let alone : rivals node a db' ≡ false = ground (arith, la.1) in
      let at_b : (is_active b.status
            && (b.application_id == a.application_id && b.environment_id == a.environment_id)
            && not (b.group_id == a.group_id)
            && is_member b.group_id node db'.group_members)
          ≡ false =
        any-false _ alone lb.0 in
      ground (arith, lb.1)

  pub add_group_member-IsUnambiguous : IsUnambiguous db'
  add_group_member-IsUnambiguous =
      let (rows, free, members) = add_group_member_effect group node db db' done in
      let cases : (g n : ℕ)
          → is_member g n db'.group_members ≡ true
          → (is_member g n db.group_members ≡ true) ⊎ ((g ≡ group) × (n ≡ node)) =
        λ g n h.
          is_member-new group node g n db.group_members
            (subst (λ t. is_member g n t ≡ true) members h) in
      record {
        one_group = λ a b n la lb same ma mb. elim (cases a.group_id n ma) [
          | inl oa ↦ elim (cases b.group_id n mb) [
            | inl ob ↦ v.one_group a b n (IsListed-before a la) (IsListed-before b lb) same oa ob
            | inr nb ↦ sym (
                no_rival b a lb la (sym same.0, sym same.1) nb.0
                  (subst (λ k. is_member a.group_id k db'.group_members ≡ true) nb.1 ma))
          ]
          | inr na ↦
              no_rival a b la lb same na.0
                (subst (λ k. is_member b.group_id k db'.group_members ≡ true) na.1 mb)
        ];
        one_assignment = λ a b la lb same e.
            v.one_assignment a b (IsListed-before a la) (IsListed-before b lb) same e;
      }

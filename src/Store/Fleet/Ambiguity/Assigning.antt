-- ===== src/Store/Fleet/Ambiguity/Assigning.antt =====
-- domain.go, `CreateAssignment`: its two tests for a conflict, read as an invariant of the tables.
use autosecrets.Prelude.{
  ℕ, ◌≡◌, ◌≢◌, sym, ap, ◌∙◌, subst, true, false, not, ◌&&◌, ◌⊎◌, inl, inr, [], ◌∷◌, ◌++◌, Memᴰ,
  arith, ◌==◌, any, any-false, any-mem, mem-append,
}
use autosecrets.Store.Tx.{ok}
use autosecrets.Store.Rows.{Assignment, GroupMember, is_active, Db}
use autosecrets.Store.Queries.Fleet.{is_member, bundle_conflict}
use autosecrets.Store.Fleet.{create_assignment}
use autosecrets.Store.Fleet.Ambiguity.{IsListed, IsUnambiguous}

-- What the conflict test of `CreateAssignment` rules out.
no_conflict_one_group :
    (app env group node : ℕ) (db : Db) (a : Assignment)
    → bundle_conflict app env group db ≡ false
    → IsListed db a
    → a.application_id ≡ app
    → a.environment_id ≡ env
    → is_member a.group_id node db.group_members ≡ true
    → is_member group node db.group_members ≡ true
    → a.group_id ≡ group
no_conflict_one_group app env group node db a free la ea ee ma mg =
    let (m, listed, hit) =
      any-mem (λ (x : GroupMember). x.group_id == a.group_id && x.node_id == node) db.group_members
        ma in
    let blocked : (is_member group m.node_id db.group_members
          && any
              (λ x.
                (x.group_id == m.group_id && is_active x.status)
                && (x.application_id == app && x.environment_id == env)
                && not (x.group_id == group))
              db.assignments)
        ≡ false =
      any-false _ free listed in
    let e : m.node_id ≡ node = ground arith in
    let none_there : any
          (λ x.
            (x.group_id == m.group_id && is_active x.status)
            && (x.application_id == app && x.environment_id == env)
            && not (x.group_id == group))
          db.assignments
        ≡ false =
      ground (arith, ap (λ k. is_member group k db.group_members) e) in
    let at_a : ((a.group_id == m.group_id && is_active a.status)
          && (a.application_id == app && a.environment_id == env)
          && not (a.group_id == group))
        ≡ false =
      any-false _ none_there la.0 in
    ground (arith, la.1)

-- The state that an accepted Assignment leaves.
create_assignment_effect :
    (at id group app env : ℕ) (db db' : Db) (row : Assignment)
    → create_assignment at id group app env db ≡ ok (row, db')
    → (bundle_conflict app env group db ≡ false)
      × (any
            (λ a.
              (a.group_id == group && is_active a.status)
              && (a.application_id == app && a.environment_id == env))
            db.assignments
          ≡ false)
      × (db'.assignments ≡ db.assignments ++ row ∷ [])
      × (db'.group_members ≡ db.group_members)
      × (row.group_id ≡ group)
      × (row.application_id ≡ app)
      × (row.environment_id ≡ env)
unfolding create_assignment
create_assignment_effect at id group app env db db' row done = ground arith

module _ (at id group app env : ℕ) (db db' : Db) (row : Assignment) (v : IsUnambiguous db)
    (done : create_assignment at id group app env db ≡ ok (row, db')) where
  -- An active Assignment of the new table is an old one or the new row.
  IsListed-cases : (a : Assignment) → IsListed db' a → IsListed db a ⊎ (a ≡ row)
  IsListed-cases a l =
      let (free, fresh, rows, members, eg, ea, ee) =
        create_assignment_effect at id group app env db db' row done in
      elim (mem-append db.assignments (row ∷ []) (subst (λ t. Memᴰ a t) rows l.0)) [
        | inl m ↦ inl (m, l.1)
        | inr m ↦ inr (only m)
      ]
    where
      only : Memᴰ a (row ∷ []) → a ≡ row
      only (Memᴰ.head e) = e
      only (Memᴰ.tail m) = elim m [ ]

  -- An old active Assignment of the bundle that shares a node with the group is to the group, and
  -- the index leaves no such one.
  none_in_group :
      (a : Assignment)
      → IsListed db a
      → a.application_id ≡ app
      → a.environment_id ≡ env
      → a.group_id ≢ group
  none_in_group a l ea ee e =
      let (free, fresh, rows, members, _, _, _) =
        create_assignment_effect at id group app env db db' row done in
      let at_a : ((a.group_id == group && is_active a.status)
            && (a.application_id == app && a.environment_id == env))
          ≡ false =
        any-false _ fresh l.0 in
      absurd (ground (arith, l.1))

  pub create_assignment-IsUnambiguous : IsUnambiguous db'
  create_assignment-IsUnambiguous =
      let (free, fresh, rows, members, eg, ea, ee) =
        create_assignment_effect at id group app env db db' row done in
      record {
        one_group = λ a b node la lb same ma mb.
            let ma' : is_member a.group_id node db.group_members ≡ true =
              subst (λ t. is_member a.group_id node t ≡ true) members ma in
            let mb' : is_member b.group_id node db.group_members ≡ true =
              subst (λ t. is_member b.group_id node t ≡ true) members mb in
            elim (IsListed-cases a la) [
              | inl oa ↦ elim (IsListed-cases b lb) [
                | inl ob ↦ v.one_group a b node oa ob same ma' mb'
                | inr nb ↦
                    let gb : b.group_id ≡ group = ground arith in
                    no_conflict_one_group app env group node db a free oa (ground arith)
                      (ground arith) ma'
                      (subst (λ g. is_member g node db.group_members ≡ true) gb mb')
                    ∙ sym gb
              ]
              | inr na ↦ elim (IsListed-cases b lb) [
                | inl ob ↦
                    let ga : a.group_id ≡ group = ground arith in
                    ga
                    ∙ sym (
                        no_conflict_one_group app env group node db b free ob (ground arith)
                          (ground arith) mb'
                          (subst (λ g. is_member g node db.group_members ≡ true) ga ma'))
                | inr nb ↦ ground arith
              ]
            ];
        one_assignment = λ a b la lb same e. elim (IsListed-cases a la) [
          | inl oa ↦ elim (IsListed-cases b lb) [
            | inl ob ↦ v.one_assignment a b oa ob same e
            | inr nb ↦ absurd (none_in_group a oa (ground arith) (ground arith) (ground arith))
          ]
          | inr na ↦ elim (IsListed-cases b lb) [
            | inl ob ↦ absurd (none_in_group b ob (ground arith) (ground arith) (ground arith))
            | inr nb ↦ ground arith
          ]
        ];
      }

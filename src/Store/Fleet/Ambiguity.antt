-- ===== src/Store/Fleet/Ambiguity.antt =====
-- domain.go, the conflict tests of `AddGroupMember` and `CreateAssignment`: when the tables deliver a
-- Secret Bundle to a Managed Node by one active Assignment.
pub mod Assigning
pub mod Joining
use autosecrets.Prelude.{
  ℕ, ◌≡◌, ◌≢◌, refl, sym, ap, ◌∙◌, subst, Bool, true, false, not, ◌&&◌, ◌||◌, ◌⊎◌, inl, inr, List,
  [], ◌∷◌, ◌++◌, Memᴰ, arith, ◌==◌, if◌then◌else◌, any, any-false, any-true, any-append, any-mem,
  mem-append, Bool-cases, ==_refl,
}
use autosecrets.Store.Tx.{Result, ok, err}
use autosecrets.Store.Rows.{Assignment, GroupMember, is_active, active, Db}
use autosecrets.Store.Queries.Fleet.{is_member, rivals, bundle_conflict}
use autosecrets.Store.Fleet.{add_group_member, create_assignment}

-- An active Assignment of the table.
abbrev pub IsListed : Db → Assignment → Type 0
IsListed db a = Memᴰ a db.assignments × (is_active a.status ≡ true)

abbrev pub IsSameBundle : Assignment → Assignment → Type 0
IsSameBundle a b = (a.application_id ≡ b.application_id) × (a.environment_id ≡ b.environment_id)

-- Active Assignments of one bundle reach a node through one group only, and a group has one active
-- Assignment of a bundle.
pub record IsUnambiguous (db : Db) : Type 0 where
  pub one_group :
      (a b : Assignment) (node : ℕ)
      → IsListed db a
      → IsListed db b
      → IsSameBundle a b
      → is_member a.group_id node db.group_members ≡ true
      → is_member b.group_id node db.group_members ≡ true
      → a.group_id ≡ b.group_id
  pub one_assignment :
      (a b : Assignment)
      → IsListed db a
      → IsListed db b
      → IsSameBundle a b
      → a.group_id ≡ b.group_id
      → a.id ≡ b.id

-- A node gets a bundle by one Assignment at most.
pub one_delivery :
    (db : Db) (a b : Assignment) (node : ℕ)
    → IsUnambiguous db
    → IsListed db a
    → IsListed db b
    → IsSameBundle a b
    → is_member a.group_id node db.group_members ≡ true
    → is_member b.group_id node db.group_members ≡ true
    → a.id ≡ b.id
one_delivery db a b node v la lb same ma mb =
    v.one_assignment a b la lb same (v.one_group a b node la lb same ma mb)

-- A change that moves no active Assignment to another group or bundle, and adds no member.
pub record Shrinks (db db' : Db) : Type 0 where
  pub assignment_from :
      (a : Assignment)
      → IsListed db' a
      → (o : Assignment) × IsListed db o
        × IsSameBundle o a
        × (o.group_id ≡ a.group_id)
        × (o.id ≡ a.id)
  pub member_from :
      (group node : ℕ)
      → is_member group node db'.group_members ≡ true
      → is_member group node db.group_members ≡ true

pub Shrinks-IsUnambiguous : (db db' : Db) → Shrinks db db' → IsUnambiguous db → IsUnambiguous db'
Shrinks-IsUnambiguous db db' s v = record {
  one_group = λ a b node la lb same ma mb.
      let (o, lo, so, go, io) = s.assignment_from a la in
      let (p, lp, sp, gp, ip) = s.assignment_from b lb in
      sym go
      ∙ (v.one_group o p node lo lp (ground arith)
            (subst (λ g. is_member g node db.group_members ≡ true) (sym go)
              (s.member_from a.group_id node ma))
            (subst (λ g. is_member g node db.group_members ≡ true) (sym gp)
              (s.member_from b.group_id node mb))
          ∙ gp);
  one_assignment = λ a b la lb same e.
      let (o, lo, so, go, io) = s.assignment_from a la in
      let (p, lp, sp, gp, ip) = s.assignment_from b lb in
      sym io ∙ (v.one_assignment o p lo lp (ground arith) (ground arith) ∙ ip);
}

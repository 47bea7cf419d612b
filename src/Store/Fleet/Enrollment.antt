-- ===== src/Store/Fleet/Enrollment.antt =====
-- domain.go, `ConsumeEnrollmentToken`: its outcomes, and runs of the operations on Enrollment Tokens.
use autosecrets.Prelude.{
  ℕ, ◌≡◌, refl, sym, ap, ◌∙◌, subst, ◌++◌, Bool, true, false, not, ◌&&◌, Option, none, some, List,
  [], ◌∷◌, arith, ◌==◌, ltb, if◌then◌else◌, find, update_if, is_some, Bool-cases, Option-cases, inl,
  inr, find_passes, find-update_if, updated_row, find-append_other, find-any, any,
}
use autosecrets.Store.Tx.{Result, ok, err, conflict, not_found, transact, transact-keeps}
use autosecrets.Store.Rows.{EnrollmentToken, Db}
use autosecrets.Store.Fleet.{
  create_enrollment_token, create_node_enrollment_token, consume_enrollment_token,
}

abbrev pub token_in : ℕ → Db → Option EnrollmentToken
token_in hash db = find (λ t. t.token_hash == hash) db.enrollment_tokens

abbrev pub is_usable : ℕ → EnrollmentToken → Bool
is_usable now t = ltb now t.expires_at && not (is_some t.used_at)

-- The database with every token of the hash used.
abbrev pub spent : ℕ → ℕ → Db → Db
spent hash now db = record db {
  enrollment_tokens =
      update_if (λ t. t.token_hash == hash) (λ t. record t { used_at = some now })
        db.enrollment_tokens;
}

abbrev pub consumption : ℕ → ℕ → Db → Option EnrollmentToken → Result EnrollmentToken × Db
consumption hash now db none = (err not_found, db)
consumption hash now db (some t) =
    if is_usable now t then (ok t, spent hash now db) else (err conflict, db)

-- Consuming a token at a time: with no token of the hash it answers `not_found`, with a token that has
-- expired or is used it answers `conflict`, and both leave the database as it was; else it gives the
-- token, and the token is used from then on.
pub consume_enrollment_token_lem :
    (hash now : ℕ) (db : Db)
    → transact (consume_enrollment_token hash now) db ≡ consumption hash now db (token_in hash db)
unfolding consume_enrollment_token
consume_enrollment_token_lem hash now db = elim (Option-cases (token_in hash db)) [
  | inl missing ↦ ground (arith, missing)
  | inr (t, found) ↦ ground (arith, found)
]

abbrev pub IsUsed : ℕ → Db → Type 0
IsUsed hash db = (t : EnrollmentToken) × (token_in hash db ≡ some t) × (is_some t.used_at ≡ true)

spent-IsUsed : (hash other now : ℕ) (db : Db) → IsUsed other db → IsUsed other (spent hash now db)
spent-IsUsed hash other now db (t, found, used) =
    let after : token_in other (spent hash now db)
        ≡ updated_row (λ x. x.token_hash == hash) (λ x. record x { used_at = some now })
            (token_in other db) =
      find-update_if (λ x. x.token_hash == other) (λ x. x.token_hash == hash)
        (λ x. record x { used_at = some now }) db.enrollment_tokens (λ x. refl) in
    elim (Bool-cases (t.token_hash == hash)) [
      | inl here ↦ (record t { used_at = some now }, ground (arith, after, found, here), refl)
      | inr there ↦ (t, ground (arith, after, found, there), used)
    ]

spends :
    (hash now : ℕ) (db : Db) (t : EnrollmentToken)
    → token_in hash db ≡ some t
    → IsUsed hash (spent hash now db)
spends hash now db t found =
    let here : (t.token_hash == hash) ≡ true =
      find_passes (λ x. x.token_hash == hash) db.enrollment_tokens found in
    let after : token_in hash (spent hash now db)
        ≡ updated_row (λ x. x.token_hash == hash) (λ x. record x { used_at = some now })
            (token_in hash db) =
      find-update_if (λ x. x.token_hash == hash) (λ x. x.token_hash == hash)
        (λ x. record x { used_at = some now }) db.enrollment_tokens (λ x. refl) in
    (record t { used_at = some now }, ground (arith, after, found, here), refl)

pub data TokenOp : Type 0 where
  issues : ℕ → ℕ → ℕ → TokenOp
  issues_for_node : ℕ → ℕ → Option ℕ → ℕ → TokenOp
  consumes : ℕ → ℕ → TokenOp

abbrev pub apply_token : TokenOp → Db → Db
apply_token (issues hash name until) db = (transact (create_enrollment_token hash name until) db).1
apply_token (issues_for_node hash name node until) db =
    (transact (create_node_enrollment_token hash name node until) db).1
apply_token (consumes hash now) db = (transact (consume_enrollment_token hash now) db).1

abbrev pub apply_tokens : List TokenOp → Db → Db
apply_tokens [] db = db
apply_tokens (op ∷ ops) db = apply_tokens ops (apply_token op db)

-- A row is only added when its hash is new, so the token that a hash finds stays.
issued-IsUsed :
    (hash other name until : ℕ) (owner : Option ℕ) (db : Db)
    → any (λ t. t.token_hash == other) db.enrollment_tokens ≡ false
    → IsUsed hash db
    → IsUsed hash (record db {
      enrollment_tokens =
          db.enrollment_tokens
          ++ record {
            token_hash = other;
            name = name;
            expires_at = until;
            used_at = none;
            node_id = owner;
          }
            ∷ [];
    })
issued-IsUsed hash other name until owner db fresh (t, found, used) =
    let present : any (λ x. x.token_hash == hash) db.enrollment_tokens ≡ true =
      find-any (λ x. x.token_hash == hash) db.enrollment_tokens found in
    let differs : (other == hash) ≡ false = elim (Bool-cases (other == hash)) [
      | inl same ↦
          let e : other ≡ hash = ground arith in
          absurd (ground (arith, ap (λ k. any (λ x. x.token_hash == k) db.enrollment_tokens) e))
      | inr miss ↦ miss
    ] in
    (t, find-append_other (λ x. x.token_hash == hash) db.enrollment_tokens _ differs ∙ found, used)

apply_token-IsUsed :
    (hash : ℕ) (op : TokenOp) (db : Db) → IsUsed hash db → IsUsed hash (apply_token op db)
unfolding create_enrollment_token create_node_enrollment_token
apply_token-IsUsed hash (issues other name until) db u =
    transact-keeps (IsUsed hash) (create_enrollment_token other name until) db u (λ a db' e.
      let written : db' ≡ record db {
        enrollment_tokens =
            db.enrollment_tokens
            ++ record {
              token_hash = other;
              name = name;
              expires_at = until;
              used_at = none;
              node_id = none;
            }
              ∷ [];
      } =
        ground arith in
      subst (IsUsed hash) (sym written)
        (issued-IsUsed hash other name until none db (ground arith) u))
apply_token-IsUsed hash (issues_for_node other name node until) db u =
    transact-keeps (IsUsed hash) (create_node_enrollment_token other name node until) db u
      (λ a db' e.
        let written : db' ≡ record db {
          enrollment_tokens =
              db.enrollment_tokens
              ++ record {
                token_hash = other;
                name = name;
                expires_at = until;
                used_at = none;
                node_id = node;
              }
                ∷ [];
        } =
          ground arith in
        subst (IsUsed hash) (sym written)
          (issued-IsUsed hash other name until node db (ground arith) u))
apply_token-IsUsed hash (consumes other now) db u = elim (Option-cases (token_in other db)) [
  | inl missing ↦
      let e : transact (consume_enrollment_token other now) db ≡ (err not_found, db) =
        consume_enrollment_token_lem other now db ∙ ap (consumption other now db) missing in
      subst (IsUsed hash) (sym (ap (λ r. r.1) e)) u
  | inr (t, found) ↦
      let e : transact (consume_enrollment_token other now) db ≡ consumption other now db (some t) =
        consume_enrollment_token_lem other now db ∙ ap (consumption other now db) found in
      elim (Bool-cases (is_usable now t)) [
        | inl hit ↦
            let after : (transact (consume_enrollment_token other now) db).1 ≡ spent other now db =
              ap (λ r. r.1) e ∙ rw hit in
            subst (IsUsed hash) (sym after) (spent-IsUsed other hash now db u)
        | inr miss ↦
            let after : (transact (consume_enrollment_token other now) db).1 ≡ db =
              ap (λ r. r.1) e ∙ rw miss in
            subst (IsUsed hash) (sym after) u
      ]
]

apply_tokens-IsUsed :
    (hash : ℕ) (ops : List TokenOp) (db : Db) → IsUsed hash db → IsUsed hash (apply_tokens ops db)
apply_tokens-IsUsed hash [] db u = u
apply_tokens-IsUsed hash (op ∷ ops) db u =
    apply_tokens-IsUsed hash ops (apply_token op db) (apply_token-IsUsed hash op db u)

used_conflicts :
    (hash now : ℕ) (db : Db)
    → IsUsed hash db
    → transact (consume_enrollment_token hash now) db ≡ (err conflict, db)
used_conflicts hash now db (t, found, used) =
    consume_enrollment_token_lem hash now db ∙ ground (arith, found, used)

consumed-IsUsed :
    (hash now : ℕ) (db db' : Db) (t : EnrollmentToken)
    → transact (consume_enrollment_token hash now) db ≡ (ok t, db')
    → IsUsed hash db'
consumed-IsUsed hash now db db' t done = elim (Option-cases (token_in hash db)) [
  | inl missing ↦ absurd (ground (arith, consume_enrollment_token_lem hash now db, missing, done))
  | inr (u, found) ↦
      let e : consumption hash now db (some u) ≡ (ok t, db') =
        sym (consume_enrollment_token_lem hash now db ∙ ap (consumption hash now db) found)
        ∙ done in
      elim (Bool-cases (is_usable now u)) [
        | inl hit ↦
            let after : spent hash now db ≡ db' = ground arith in
            subst (IsUsed hash) after (spends hash now db u found)
        | inr miss ↦ absurd (ground arith)
      ]
]

-- A token that was consumed is refused with `conflict` ever after, at any time and whatever tokens were
-- issued and consumed since.
pub consumed_once :
    (hash now later : ℕ) (ops : List TokenOp) (db db' : Db) (t : EnrollmentToken)
    → transact (consume_enrollment_token hash now) db ≡ (ok t, db')
    → transact (consume_enrollment_token hash later) (apply_tokens ops db')
      ≡ (err conflict, apply_tokens ops db')
consumed_once hash now later ops db db' t done =
    used_conflicts hash later (apply_tokens ops db')
      (apply_tokens-IsUsed hash ops db' (consumed-IsUsed hash now db db' t done))

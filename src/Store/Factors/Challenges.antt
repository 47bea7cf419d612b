-- ===== src/Store/Factors/Challenges.antt =====
-- identity.go, `CreateLoginChallenge` and `ConsumeLoginChallenge`, in runs of the operations.
use autosecrets.Prelude.{
  ℕ, ◌≤◌, ◌≡◌, refl, ap, ◌∙◌, Bool, false, none, some, List, [], ◌∷◌, ◌++◌, arith, ◌==◌, any, find,
  find-none, drop_if, update_if, Bool-cases, Option-cases, inl, inr, any-append,
}
use autosecrets.Store.Tx.{ok, err, not_found, transact, transact-keeps}
use autosecrets.Store.Identity.Rows.{LoginChallenge, IdentityDb}
use autosecrets.Store.Factors.{
  is_open_challenge, is_stale_challenge, use_totp, consume_recovery_code, create_login_challenge,
  consume_login_challenge, delete_expired_login_challenges, insert_login_challenge,
}
use autosecrets.Store.Factors.Once.{
  FactorOp, uses_totp, consumes_code, challenges, answers, apply_factor, apply_factors,
}

-- Whether the operation issues a challenge with the given token.
abbrev pub issues_token : ℕ → FactorOp → Bool
issues_token hash (challenges now other member source until) = other == hash
issues_token hash _ = false

module _ (hash source now : ℕ) where
  abbrev IsClosed : IdentityDb → Type 0
  IsClosed s = any (is_open_challenge hash source now) s.login_challenges ≡ false

  closed-update :
      (other from at : ℕ) (rows : List LoginChallenge)
      → any (is_open_challenge hash source now) rows ≡ false
      → any
          (is_open_challenge hash source now)
          (update_if (is_open_challenge other from at) (λ c. record c { used_at = some at }) rows)
        ≡ false
  closed-update other from at [] h = refl
  closed-update other from at (c ∷ rows) h = ground (arith, h, closed-update other from at rows)

  closed-used :
      (rows : List LoginChallenge)
      → any (is_open_challenge hash source now) (
          update_if (is_open_challenge hash source now) (λ c. record c { used_at = some now }) rows)
        ≡ false
  closed-used [] = refl
  closed-used (c ∷ rows) = ground (arith, closed-used rows)

  closed-drop :
      (p : LoginChallenge → Bool) (rows : List LoginChallenge)
      → any (is_open_challenge hash source now) rows ≡ false
      → any (is_open_challenge hash source now) (drop_if p rows) ≡ false
  closed-drop p [] h = refl
  closed-drop p (c ∷ rows) h = ground (arith, h, closed-drop p rows, Bool-cases (p c))

  IsClosed-inserted :
      (row : LoginChallenge) (s s' : IdentityDb)
      → (row.token_hash == hash) ≡ false
      → IsClosed s
      → insert_login_challenge row s ≡ ok (tt, s')
      → IsClosed s'
  unfolding insert_login_challenge
  IsClosed-inserted row s s' differs h e =
      let rows : s'.login_challenges ≡ s.login_challenges ++ row ∷ [] = ground (arith, e) in
      ap (any (is_open_challenge hash source now)) rows
      ∙ (any-append (is_open_challenge hash source now) s.login_challenges (row ∷ [])
          ∙ ground (arith, h, differs))

  apply_factor-IsClosed :
      (op : FactorOp) (s : IdentityDb)
      → issues_token hash op ≡ false
      → IsClosed s
      → IsClosed (apply_factor op s)
  unfolding use_totp consume_recovery_code create_login_challenge delete_expired_login_challenges
      insert_login_challenge consume_login_challenge
  apply_factor-IsClosed (uses_totp member c) s n h = h
  apply_factor-IsClosed (consumes_code member code at) s n h = h
  apply_factor-IsClosed (challenges at other member from until) s n h =
      let row : LoginChallenge = record {
        token_hash = other;
        admin_id = member;
        source_hash = from;
        expires_at = until;
        used_at = none;
      } in
      let kept : IdentityDb = (transact (delete_expired_login_challenges at) s).1 in
      transact-keeps IsClosed (insert_login_challenge row) kept
        (closed-drop (is_stale_challenge at) s.login_challenges h)
        (λ a s' e.
          IsClosed-inserted row kept s' n (closed-drop (is_stale_challenge at) s.login_challenges h)
            e)
  apply_factor-IsClosed (answers other from at) s n h =
      transact-keeps IsClosed (consume_login_challenge other from at) s h (λ a s' e.
        let rows : s'.login_challenges
            ≡ update_if (is_open_challenge other from at) (λ c. record c { used_at = some at })
                s.login_challenges =
          ground (arith, e) in
        ap (any (is_open_challenge hash source now)) rows
        ∙ closed-update other from at s.login_challenges h)

  apply_factors-IsClosed :
      (ops : List FactorOp) (s : IdentityDb)
      → any (issues_token hash) ops ≡ false
      → IsClosed s
      → IsClosed (apply_factors ops s)
  apply_factors-IsClosed [] s n h = h
  apply_factors-IsClosed (op ∷ ops) s n h =
      apply_factors-IsClosed ops (apply_factor op s) (ground (arith, n))
        (apply_factor-IsClosed op s (ground (arith, n)) h)

  answered-IsClosed :
      (s s' : IdentityDb) (member : ℕ)
      → transact (consume_login_challenge hash source now) s ≡ (ok member, s')
      → IsClosed s'
  unfolding consume_login_challenge
  answered-IsClosed s s' member e =
      elim (Option-cases (find (is_open_challenge hash source now) s.login_challenges)) [
        | inl missing ↦ absurd (ground (arith, missing, e))
        | inr (c, found) ↦
            let rows : s'.login_challenges
                ≡ update_if (is_open_challenge hash source now)
                    (λ x. record x { used_at = some now }) s.login_challenges =
              ground (arith, found, e) in
            ap (any (is_open_challenge hash source now)) rows ∙ closed-used s.login_challenges
      ]

  closed-later :
      (later : ℕ) (rows : List LoginChallenge)
      → now ≤ later
      → any (is_open_challenge hash source now) rows ≡ false
      → any (is_open_challenge hash source later) rows ≡ false
  closed-later later [] le h = refl
  closed-later later (c ∷ rows) le h = ground (arith, le, h, closed-later later rows le)

closed_refused :
    (hash source now : ℕ) (s : IdentityDb)
    → any (is_open_challenge hash source now) s.login_challenges ≡ false
    → transact (consume_login_challenge hash source now) s ≡ (err not_found, s)
unfolding consume_login_challenge
closed_refused hash source now s h =
    let missing : find (is_open_challenge hash source now) s.login_challenges ≡ none =
      find-none (is_open_challenge hash source now) s.login_challenges h in
    ground (arith, missing)

-- A login challenge that a source has answered is not accepted from it again at that time or later, as
-- long as no challenge with the same token is issued: the answer is `not_found` and nothing changes.
pub challenge_once :
    (hash source now later member : ℕ) (ops : List FactorOp) (s s' : IdentityDb)
    → now ≤ later
    → any (issues_token hash) ops ≡ false
    → transact (consume_login_challenge hash source now) s ≡ (ok member, s')
    → transact (consume_login_challenge hash source later) (apply_factors ops s')
      ≡ (err not_found, apply_factors ops s')
challenge_once hash source now later member ops s s' le n e =
    closed_refused hash source later (apply_factors ops s') (
      closed-later hash source now later (apply_factors ops s').login_challenges le (
        apply_factors-IsClosed hash source now ops s' n
          (answered-IsClosed hash source now s s' member e)))

-- ===== src/Tests/Factors.antt =====
-- Runs of the one-time proofs of core/internal/database/identity.go for one member.
use autosecrets.Prelude.{
  Bool, ◌<◌, ◌↔◌, if◌then◌else◌, ◌≡◌, refl, arith, true, false, none, some, List, [], ◌∷◌,
}
use autosecrets.Store.Tx.{ok, err, not_found, transact}
use autosecrets.Store.Identity.Rows.{
  Admin, IdentityDb, role_administrator, member_active, no_identity,
}
use autosecrets.Store.Factors.{
  use_totp, consume_recovery_code, create_login_challenge, consume_login_challenge,
}
use autosecrets.Store.Factors.Once.{
  FactorOp, uses_totp, consumes_code, challenges, answers, apply_factors, totp_once,
  recovery_code_once, use_totp-accepts,
}
use autosecrets.Store.Factors.Challenges.{challenge_once}

-- The member 7 has one recovery code and no TOTP counter yet.
abbrev the_member : Admin
the_member = record {
  id = 7;
  username = 107;
  password_hash = [];
  role = role_administrator;
  status = member_active;
  activated_at = some 1;
  deactivated_at = none;
  last_totp_counter = none;
}

abbrev one_member : IdentityDb
one_member = record no_identity {
  admins = the_member ∷ [];
  recovery_codes = record { admin_id = 7; code_hash = 40; used_at = none } ∷ [];
}

-- The counter, the code and a challenge are each accepted the first time.
first_use_succeeds :
    ((transact (use_totp 7 100) one_member).0 ≡ ok true)
    × ((transact (consume_recovery_code 7 40 5000) one_member).0 ≡ ok true)
    × ((transact
          (consume_login_challenge 60 61 5000)
          (apply_factors (challenges 4900 60 7 61 5200 ∷ []) one_member)).0
        ≡ ok 7)
unfolding use_totp consume_recovery_code create_login_challenge consume_login_challenge
first_use_succeeds = (refl, refl, refl)

abbrev meanwhile : List FactorOp
meanwhile = challenges 4900 60 7 61 5200 ∷ answers 60 61 5000 ∷ uses_totp 7 102 ∷ []

totp_once_example :
    transact (use_totp 7 100) (apply_factors (uses_totp 7 100 ∷ meanwhile) one_member)
    ≡ (ok false, apply_factors (uses_totp 7 100 ∷ meanwhile) one_member)
totp_once_example = totp_once 7 100 100 meanwhile one_member (omega arith)

-- The member 7 between two others, with the counter 99 stored.
abbrev used_member : Admin
used_member = record the_member { last_totp_counter = some 99 }

abbrev three_members : IdentityDb
three_members = record one_member {
  admins = record the_member { id = 6 } ∷ used_member ∷ record the_member { id = 8 } ∷ [];
}

use_totp-accepts_example :
    (b : Bool) × (transact (use_totp 7 100) three_members ≡ (
      ok b,
      record three_members {
        admins =
            record the_member { id = 6 }
            ∷ (if b then record used_member { last_totp_counter = some 100 } else used_member)
            ∷ record the_member { id = 8 }
            ∷ [];
      },
    ))
    × ((b ≡ true) ↔ (99 < 100))
use_totp-accepts_example =
    use_totp-accepts 100 used_member (record the_member { id = 6 } ∷ [])
      (record the_member { id = 8 } ∷ []) three_members refl refl refl

recovery_code_once_example :
    transact
      (consume_recovery_code 7 40 6000)
      (apply_factors (consumes_code 7 40 5000 ∷ meanwhile) one_member)
    ≡ (ok false, apply_factors (consumes_code 7 40 5000 ∷ meanwhile) one_member)
recovery_code_once_example = recovery_code_once 7 40 5000 6000 meanwhile one_member

challenged : IdentityDb
unfolding create_login_challenge
challenged = apply_factors (challenges 4900 60 7 61 5200 ∷ []) one_member

answered : IdentityDb
unfolding challenged consume_login_challenge
answered = apply_factors (answers 60 61 5000 ∷ []) challenged

abbrev afterwards : List FactorOp
afterwards = uses_totp 7 102 ∷ challenges 5050 62 7 61 5350 ∷ []

challenge_once_example :
    transact (consume_login_challenge 60 61 5100) (apply_factors afterwards answered)
    ≡ (err not_found, apply_factors afterwards answered)
unfolding answered
challenge_once_example =
    challenge_once 60 61 5000 5100 7 afterwards challenged answered (omega arith) refl refl

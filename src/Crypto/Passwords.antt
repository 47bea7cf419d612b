-- ===== src/Crypto/Passwords.antt =====
-- crypto.go, the password policy and the PHC text of a password hash. The salt is an argument.
use autosecrets.Prelude.{
  ℕ, ◌+◌, ◌-◌, ◌*◌, ◌^◌, ◌<◌, ◌≡◌, refl, ap, ◌∙◌, Bool, true, false, not, ◌&&◌, ◌||◌, Option, none,
  some, List, [], ◌∷◌, ◌++◌, map, ◌==◌, ltb, leb, if◌then◌else◌, length, any, codes, is_space,
  text_eq, split_at_each, split_at_each-append, split_at_each-none, All, ◌↔◌,
}
use autosecrets.Crypto.Primitives.{Primitives, IsLawfulBase64, IsLawfulArgon}
use autosecrets.Crypto.Totp.{subtle_constant_time_equal, subtle_constant_time_equal_lem}

abbrev pub common_passwords : List (List ℕ)
common_passwords =
    codes "password"
    ∷ codes "password123"
    ∷ codes "123456789012"
    ∷ codes "qwertyuiop"
    ∷ codes "letmeinletmein"
    ∷ codes "autosecrets"
    ∷ codes "changemechangeme"
    ∷ codes "administrator"
    ∷ codes "correcthorsebattery"
    ∷ []

-- `PasswordValid`
unfoldable pub password_valid : Primitives → List ℕ → Bool
password_valid p password =
    not (ltb (length password) 12 || ltb 128 (length password))
    && not (any (text_eq (map p.rune_lower password)) common_passwords)

abbrev pub argon_time : ℕ
argon_time = 1

abbrev pub argon_memory : ℕ
argon_memory = 64 * 1024

abbrev pub argon_threads : ℕ
argon_threads = 4

abbrev pub argon_key_len : ℕ
argon_key_len = 32

-- `$`
abbrev pub dollar : ℕ
dollar = 36

-- `HashPassword`. The version of golang.org/x/crypto/argon2 is 19.
unfoldable pub hash_password : Primitives → List ℕ → List ℕ → List ℕ
hash_password p password salt =
    let key = p.argon2_id_key password salt argon_time argon_memory argon_threads argon_key_len in
    dollar
    ∷ (codes "argon2id"
        ++ dollar
          ∷ (codes "v=19"
              ++ dollar
                ∷ (codes "m=65536,t=1,p=4"
                    ++ dollar ∷ (p.base64_encode salt ++ dollar ∷ p.base64_encode key))))

abbrev pub is_digit : ℕ → Bool
is_digit c = leb b'0' c && leb c b'9'

-- The digits that `fmt.Sscanf` reads for `%d`, with the number so far and whether there was one.
abbrev pub scan_digits : ℕ → Bool → List ℕ → Option (ℕ × List ℕ)
scan_digits n seen [] = if seen then some (n, []) else none
scan_digits n seen (c ∷ s) =
    let rest = scan_digits (n * 10 + (c - b'0')) true s in
    if is_digit c then rest else if seen then some (n, c ∷ s) else none

-- Blanks before a number are skipped, but no line break is.
abbrev pub skip_blanks : List ℕ → List ℕ
skip_blanks [] = []
skip_blanks (c ∷ s) =
    let rest = skip_blanks s in if is_space c && not (c == 10) then rest else c ∷ s

-- `%d` of an unsigned integer below the bound.
abbrev pub in_range : ℕ → Option (ℕ × List ℕ) → Option (ℕ × List ℕ)
in_range bound none = none
in_range bound (some (n, s)) = if ltb n bound then some (n, s) else none

abbrev pub scan_unsigned : ℕ → List ℕ → Option (ℕ × List ℕ)
scan_unsigned bound s = in_range bound (scan_digits 0 false (skip_blanks s))

-- `%d` of an `int`, of which only the success is used.
abbrev pub scan_signed : List ℕ → Option (ℕ × List ℕ)
scan_signed s = elim (skip_blanks s) [
  | [] ↦ none
  | c ∷ t ↦
      if c == b'-'
      then in_range (2 ^ 63 + 1) (scan_digits 0 false t)
      else if c == b'+'
      then in_range (2 ^ 63) (scan_digits 0 false t)
      else in_range (2 ^ 63) (scan_digits 0 false (c ∷ t))
]

-- A literal of the format.
abbrev pub scan_literal : List ℕ → List ℕ → Option (List ℕ)
scan_literal [] s = some s
scan_literal (c ∷ literal) [] = none
scan_literal (c ∷ literal) (d ∷ s) = if c == d then scan_literal literal s else none

infixl 5 ◌then_scan◌
abbrev pub ◌then_scan◌ : {A B : Type 0} → Option A → (A → Option B) → Option B
none then_scan f = none
(some a) then_scan f = f a

-- `Sscanf(text, "v=%d", …)`
abbrev pub scans_version : List ℕ → Option (ℕ × List ℕ)
scans_version s = scan_literal (codes "v=") s then_scan scan_signed

-- `Sscanf(text, "m=%d,t=%d,p=%d", &memory, &iterations, &parallelism)`
abbrev pub scan_parameters : List ℕ → Option (ℕ × ℕ × ℕ)
scan_parameters s = scan_literal (codes "m=") s then_scan λ s1.
    scan_unsigned (2 ^ 32) s1 then_scan λ m. scan_literal (codes ",t=") m.1 then_scan λ s2.
    scan_unsigned (2 ^ 32) s2 then_scan λ t. scan_literal (codes ",p=") t.1 then_scan λ s3.
    scan_unsigned 256 s3 then_scan λ n. some (m.0, t.0, n.0)

-- The end of `VerifyPassword`, `none` for an error. `argon2.IDKey` panics for no iterations or no threads,
-- so that there is no answer either.
abbrev pub compare_keys : Primitives → List ℕ → ℕ × ℕ × ℕ → List ℕ → List ℕ → Option Bool
compare_keys p password parameters salt_text key_text = p.base64_decode salt_text then_scan λ salt.
    p.base64_decode key_text then_scan λ want.
    if parameters.1 == 0 || parameters.2 == 0
    then none
    else some (
        subtle_constant_time_equal
          (p.argon2_id_key password salt parameters.1 parameters.0 parameters.2 (length want)) want)

abbrev pub verify_parts : Primitives → List ℕ → List (List ℕ) → Option Bool
verify_parts p password (before ∷ name ∷ version ∷ parameters ∷ salt ∷ key ∷ []) =
    if text_eq name (codes "argon2id")
    then (scans_version version then_scan λ _.
        scan_parameters parameters then_scan λ numbers. compare_keys p password numbers salt key)
    else none
verify_parts p password _ = none

-- `VerifyPassword`
unfoldable pub verify_password : Primitives → List ℕ → List ℕ → Option Bool
verify_password p password phc = verify_parts p password (split_at_each dollar phc)

split_phc :
    (p : Primitives) (password salt : List ℕ)
    → IsLawfulBase64 p
    → split_at_each dollar (hash_password p password salt)
      ≡ []
        ∷ codes "argon2id"
        ∷ codes "v=19"
        ∷ codes "m=65536,t=1,p=4"
        ∷ p.base64_encode salt
        ∷ p.base64_encode
            (p.argon2_id_key password salt argon_time argon_memory argon_threads argon_key_len)
        ∷ []
unfolding hash_password
split_phc p password salt law =
    let key = p.argon2_id_key password salt argon_time argon_memory argon_threads argon_key_len in
    let last = split_at_each-none dollar (p.base64_encode key) (law.no_dollar key) in
    let fifth =
      split_at_each-append dollar (p.base64_encode salt) (p.base64_encode key)
        (law.no_dollar salt) in
    let tail5 = p.base64_encode salt ++ dollar ∷ p.base64_encode key in
    let fourth = split_at_each-append dollar (codes "m=65536,t=1,p=4") tail5 refl in
    let tail4 = codes "m=65536,t=1,p=4" ++ dollar ∷ tail5 in
    let third = split_at_each-append dollar (codes "v=19") tail4 refl in
    let tail3 = codes "v=19" ++ dollar ∷ tail4 in
    let second = split_at_each-append dollar (codes "argon2id") tail3 refl in
    ap (λ t. [] ∷ t)
      (second
        ∙ ap (λ t. codes "argon2id" ∷ t)
            (third
              ∙ ap (λ t. codes "v=19" ∷ t)
                  (fourth
                    ∙ ap (λ t. codes "m=65536,t=1,p=4" ∷ t)
                        (fifth ∙ ap (λ t. p.base64_encode salt ∷ t) last))))

-- The text that a password is hashed to is accepted for that password, and for any other entry it is
-- read without an error and accepted exactly if Argon2id derives the same key from the entry.
pub verify_password-hash_password :
    (p : Primitives) (password entry salt : List ℕ)
    → IsLawfulBase64 p
    → IsLawfulArgon p
    → All (λ b. b < 256) salt
    → (verify_password p password (hash_password p password salt) ≡ some true)
      × ((b : Bool) × (verify_password p entry (hash_password p password salt) ≡ some b)
          × ((b ≡ true) ↔ (
              p.argon2_id_key entry salt argon_time argon_memory argon_threads argon_key_len
              ≡ p.argon2_id_key password salt argon_time argon_memory argon_threads argon_key_len)))
unfolding verify_password
verify_password-hash_password p password entry salt law argon bytes =
    let key = p.argon2_id_key password salt argon_time argon_memory argon_threads argon_key_len in
    let length_key =
      argon.key_length password salt argon_time argon_memory argon_threads argon_key_len in
    let key_bytes =
      argon.key_bytes password salt argon_time argon_memory argon_threads argon_key_len in
    let read : (e : List ℕ)
        → verify_password p e (hash_password p password salt)
          ≡ some (
              subtle_constant_time_equal
                (p.argon2_id_key e salt argon_time argon_memory argon_threads argon_key_len) key) =
      λ e.
        ap (verify_parts p e) (split_phc p password salt law)
        ∙ rw (law.decode-encode salt bytes, law.decode-encode key key_bytes, length_key) in
    (
      read password ∙ ap some ((subtle_constant_time_equal_lem key key).1 refl),
      (
        subtle_constant_time_equal
            (p.argon2_id_key entry salt argon_time argon_memory argon_threads argon_key_len) key,
        read entry,
        subtle_constant_time_equal_lem
            (p.argon2_id_key entry salt argon_time argon_memory argon_threads argon_key_len) key,
      ),
    )

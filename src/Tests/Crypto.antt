-- ===== src/Tests/Crypto.antt =====
-- Runs of core/internal/crypto/crypto.go with simple functions in place of the ciphers and digests.
use autosecrets.Prelude.{
  ℕ, zero, suc, ◌+◌, ◌-◌, ◌*◌, ◌%◌, ◌<◌, ◌≡◌, refl, ap, Bool, true, false, ◌&&◌, ◌⊎◌, ◌↔◌, some,
  List, [], ◌∷◌, ◌++◌, map, arith, ◌==◌, leb, if◌then◌else◌, length, has, All, codes, is_some,
}
use autosecrets.Store.Rows.{Blob}
use autosecrets.Crypto.Primitives.{Primitives, IsLawfulGcm, IsLawfulBase64, IsLawfulArgon}
use autosecrets.Crypto.MasterKey.{seal, open_sealed, open_sealed-seal}
use autosecrets.Crypto.Passwords.{
  hash_password, verify_password, verify_password-hash_password, argon_time, argon_memory,
  argon_threads, argon_key_len,
}
use autosecrets.Crypto.Totp.{
  subtle_constant_time_equal, subtle_constant_time_equal_lem, totp_code, totp_counter, totp_period,
  totp_matching_counter, totp_matching_counter_lem, IsFirstTime,
}
use autosecrets.Crypto.RecoveryCodes.{
  recovery_code, recovery_letter, normalize_recovery_code, KeepsCapitals,
  normalize_recovery_code-recovery_code,
}

-- The first `n` bytes of a text, with zeros behind it.
abbrev pub fill : ℕ → List ℕ → List ℕ
fill zero xs = []
fill (suc n) [] = 0 ∷ fill n []
fill (suc n) (x ∷ xs) = x % 256 ∷ fill n xs

length-fill : (n : ℕ) (xs : List ℕ) → length (fill n xs) ≡ n
length-fill zero xs = refl
length-fill (suc n) [] = ap (λ (k : ℕ). suc k) (length-fill n [])
length-fill (suc n) (x ∷ xs) = ap (λ (k : ℕ). suc k) (length-fill n xs)

bytes-fill : (n : ℕ) (xs : List ℕ) → All (λ b. b < 256) (fill n xs)
bytes-fill zero xs = tt
bytes-fill (suc n) [] = (omega arith, bytes-fill n [])
bytes-fill (suc n) (x ∷ xs) = (omega arith, bytes-fill n xs)

abbrev pub text_number_of : List ℕ → ℕ
text_number_of [] = 0
text_number_of (c ∷ s) = suc c + 1114113 * text_number_of s

upper_of : ℕ → ℕ
upper_of c = if leb b'a' c && leb c b'z' then c - 32 else c

lower_of : ℕ → ℕ
lower_of c = if leb b'A' c && leb c b'Z' then c + 32 else c

shift_up : List ℕ → List ℕ
shift_up [] = []
shift_up (b ∷ bytes) = (b + 65) ∷ shift_up bytes

shift_down : List ℕ → List ℕ
shift_down [] = []
shift_down (b ∷ bytes) = (b - 65) ∷ shift_down bytes

shift_down-shift_up : (bytes : List ℕ) → shift_down (shift_up bytes) ≡ bytes
unfolding shift_up shift_down
shift_down-shift_up [] = refl
shift_down-shift_up (b ∷ bytes) =
    let same : b + 65 - 65 ≡ b = omega arith in
    rw same (ap (λ t. b ∷ t) (shift_down-shift_up bytes))

no_dollar_shifted : (bytes : List ℕ) → has 36 (shift_up bytes) ≡ false
unfolding shift_up
no_dollar_shifted [] = refl
no_dollar_shifted (b ∷ bytes) = ground (arith, no_dollar_shifted bytes)

unfoldable pub toys : Primitives
unfolding upper_of lower_of shift_up shift_down
toys = record {
  text_number = text_number_of;
  sha256_hex = λ n. n;
  accepts_key = λ key. length key == 32;
  nonce_size = 2;
  gcm_seal = λ key nonce message. message;
  gcm_open = λ key nonce message. some message;
  argon2_id_key = λ password salt time memory threads n. fill n (password ++ salt);
  base64_encode = shift_up;
  base64_decode = λ s. some (shift_down s);
  base32_decode = some;
  hmac_sha1 = λ key message. fill 20 (message ++ key);
  rune_upper = upper_of;
  rune_lower = lower_of;
}

gcm : IsLawfulGcm toys
unfolding toys
gcm = record {
  accepts_key_32 = λ key h. ground (arith, h);
  open-seal = λ key nonce message k n. refl;
}

pub base64 : IsLawfulBase64 toys
unfolding toys
base64 = record {
  decode-encode = λ bytes h. ap some (shift_down-shift_up bytes);
  no_dollar = no_dollar_shifted;
}

pub argon : IsLawfulArgon toys
unfolding toys
argon = record {
  key_length = λ password salt time memory threads n. length-fill n (password ++ salt);
  key_bytes = λ password salt time memory threads n. bytes-fill n (password ++ salt);
}

capitals : KeepsCapitals toys
unfolding toys
capitals c h = ground (arith, h)

abbrev pub key : List ℕ
key = fill 32 (codes "master")

abbrev data_key : List ℕ
data_key = fill 32 (codes "data")

open_sealed-seal_example :
    (blob : Blob) × (seal toys key data_key (1 ∷ 2 ∷ []) (3 ∷ 4 ∷ []) (codes "value") ≡ some blob)
    × (open_sealed toys key blob ≡ some (codes "value"))
unfolding toys
open_sealed-seal_example =
    open_sealed-seal toys key data_key (1 ∷ 2 ∷ []) (3 ∷ 4 ∷ []) (codes "value") gcm refl refl refl
      refl

verify_password-hash_password_example :
    (verify_password toys
        (codes "correct horse")
        (hash_password toys (codes "correct horse") (7 ∷ 8 ∷ []))
      ≡ some true)
    × ((b : Bool) × (verify_password toys
            (codes "wrong")
            (hash_password toys (codes "correct horse") (7 ∷ 8 ∷ []))
          ≡ some b)
        × ((b ≡ true) ↔ (
            toys.argon2_id_key
              (codes "wrong")
              (7 ∷ 8 ∷ [])
              argon_time
              argon_memory
              argon_threads
              argon_key_len
            ≡ toys.argon2_id_key
                (codes "correct horse")
                (7 ∷ 8 ∷ [])
                argon_time
                argon_memory
                argon_threads
                argon_key_len)))
verify_password-hash_password_example =
    verify_password-hash_password toys (codes "correct horse") (codes "wrong") (7 ∷ 8 ∷ []) base64
      argon (omega arith, (omega arith, tt))

-- A wrong entry is refused.
wrong_password :
    verify_password toys (codes "wrong") (hash_password toys (codes "right") (7 ∷ [])) ≡ some false
unfolding toys verify_password hash_password subtle_constant_time_equal
wrong_password = refl

totp_matching_counter_lem_example :
    ((c : ℕ)
      → totp_matching_counter toys (codes "secret") (codes "123456") 90000000000 ≡ some c
      → (t : ℕ) × IsFirstTime toys (codes "secret") (codes "123456") 90000000000 t
        × (c ≡ totp_counter t))
    × ((t : ℕ)
        → (t ≡ 90000000000 - totp_period) ⊎ ((t ≡ 90000000000) ⊎ (t ≡ 90000000000 + totp_period))
        → totp_code toys (codes "secret") t ≡ some (codes "123456")
        → is_some (totp_matching_counter toys (codes "secret") (codes "123456") 90000000000) ≡ true)
totp_matching_counter_lem_example =
    totp_matching_counter_lem toys (codes "secret") (codes "123456") 90000000000

subtle_constant_time_equal_lem_example :
    (subtle_constant_time_equal (codes "want") (codes "code") ≡ true)
    ↔ (codes "want" ≡ codes "code")
subtle_constant_time_equal_lem_example =
    subtle_constant_time_equal_lem (codes "want") (codes "code")

normalize_recovery_code-recovery_code_example :
    (normalize_recovery_code toys (recovery_code (1 ∷ 2 ∷ 3 ∷ 4 ∷ 5 ∷ []))
      ≡ map recovery_letter (1 ∷ 2 ∷ 3 ∷ 4 ∷ 5 ∷ []))
    × (normalize_recovery_code toys (map recovery_letter (1 ∷ 2 ∷ 3 ∷ 4 ∷ 5 ∷ []))
        ≡ map recovery_letter (1 ∷ 2 ∷ 3 ∷ 4 ∷ 5 ∷ []))
normalize_recovery_code-recovery_code_example =
    normalize_recovery_code-recovery_code toys capitals (1 ∷ 2 ∷ 3 ∷ 4 ∷ 5 ∷ [])

-- ===== src/Crypto/Primitives.antt =====
-- The functions of other packages that core/internal/crypto calls, and what it relies on of them. Keys,
-- nonces, messages and texts are lists of bytes, and a text is one of code points where the code
-- counts or maps them.
use autosecrets.Prelude.{ℕ, ◌<◌, ◌≡◌, Bool, true, false, Option, some, List, length, has, All}

pub record Primitives : Type 0 where
  -- The number that stands for a text where texts are only compared.
  pub text_number : List ℕ → ℕ
  -- SHA-256 in hexadecimal, as the number that stands for it.
  pub sha256_hex : ℕ → ℕ
  -- `aes.NewCipher` with `cipher.NewGCM`: whether the length of the key is accepted.
  pub accepts_key : List ℕ → Bool
  pub nonce_size : ℕ
  pub gcm_seal : List ℕ → List ℕ → List ℕ → List ℕ
  pub gcm_open : List ℕ → List ℕ → List ℕ → Option (List ℕ)
  -- `argon2.IDKey` of a password and a salt at a time, a memory, a number of threads and a length,
  -- for a time and a number of threads that are not 0.
  pub argon2_id_key : List ℕ → List ℕ → ℕ → ℕ → ℕ → ℕ → List ℕ
  -- `base64.RawStdEncoding`
  pub base64_encode : List ℕ → List ℕ
  pub base64_decode : List ℕ → Option (List ℕ)
  -- `base32.StdEncoding.WithPadding(base32.NoPadding)`
  pub base32_decode : List ℕ → Option (List ℕ)
  -- `hmac.New(sha1.New, key)` and the sum of a message
  pub hmac_sha1 : List ℕ → List ℕ → List ℕ
  -- `strings.ToUpper` and `strings.ToLower` of one character
  pub rune_upper : ℕ → ℕ
  pub rune_lower : ℕ → ℕ

-- Authenticated decryption undoes encryption under one key and nonce.
pub record IsLawfulGcm (p : Primitives) : Type 0 where
  pub accepts_key_32 : (key : List ℕ) → length key ≡ 32 → p.accepts_key key ≡ true
  pub open-seal :
      (key nonce message : List ℕ)
      → length key ≡ 32
      → length nonce ≡ p.nonce_size
      → p.gcm_open key nonce (p.gcm_seal key nonce message) ≡ some message

-- Base64 undoes itself on bytes, and its digits are not `$`.
pub record IsLawfulBase64 (p : Primitives) : Type 0 where
  pub decode-encode :
      (bytes : List ℕ)
      → All (λ b. b < 256) bytes
      → p.base64_decode (p.base64_encode bytes) ≡ some bytes
  pub no_dollar : (bytes : List ℕ) → has 36 (p.base64_encode bytes) ≡ false

-- The derived key has the length that was asked for, and consists of bytes.
pub record IsLawfulArgon (p : Primitives) : Type 0 where
  pub key_length :
      (password salt : List ℕ) (time memory threads n : ℕ)
      → length (p.argon2_id_key password salt time memory threads n) ≡ n
  pub key_bytes :
      (password salt : List ℕ) (time memory threads n : ℕ)
      → All (λ b. b < 256) (p.argon2_id_key password salt time memory threads n)

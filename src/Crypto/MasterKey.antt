-- ===== src/Crypto/MasterKey.antt =====
-- crypto.go, `MasterKey.Seal` and `MasterKey.Open`. The random bytes are arguments.
use autosecrets.Prelude.{
  ℕ, zero, suc, ◌≤◌, ◌≡◌, refl, ap, true, false, Option, none, some, List, [], ◌∷◌, ◌++◌, arith,
  ◌==◌, ltb, if◌then◌else◌, length, take, drop,
}
use autosecrets.Store.Rows.{Blob}
use autosecrets.Crypto.Primitives.{Primitives, IsLawfulGcm}

take-append_all : (n : ℕ) (xs ys : List ℕ) → length xs ≡ n → take n (xs ++ ys) ≡ xs
take-append_all zero [] ys h = refl
take-append_all zero (x ∷ xs) ys h = ground arith
take-append_all (suc n) [] ys h = ground arith
take-append_all (suc n) (x ∷ xs) ys h = ap (λ t. x ∷ t) (take-append_all n xs ys (ground arith))

drop-append_all : (n : ℕ) (xs ys : List ℕ) → length xs ≡ n → drop n (xs ++ ys) ≡ ys
drop-append_all zero [] ys h = refl
drop-append_all zero (x ∷ xs) ys h = ground arith
drop-append_all (suc n) [] ys h = ground arith
drop-append_all (suc n) (x ∷ xs) ys h = drop-append_all n xs ys (ground arith)

length-append_le : (xs ys : List ℕ) → length xs ≤ length (xs ++ ys)
length-append_le [] ys = omega arith
length-append_le (x ∷ xs) ys = omega (arith, length-append_le xs ys)

module _ (p : Primitives) where
  -- `Seal`: the wrapped data key, the two nonces after one another, and the ciphertext.
  unfoldable pub seal : List ℕ → List ℕ → List ℕ → List ℕ → List ℕ → Option Blob
  seal key data_key wrap_nonce data_nonce value =
      if p.accepts_key key
      then if p.accepts_key data_key
        then some (record {
          wrapped_key = p.gcm_seal key wrap_nonce data_key;
          nonce = wrap_nonce ++ data_nonce;
          ciphertext = p.gcm_seal data_key data_nonce value;
        })
        else none
      else none

  -- The part of `Open` that follows the unwrapped data key.
  abbrev pub open_value : List ℕ → List ℕ → Option (List ℕ) → Option (List ℕ)
  open_value data_nonce ciphertext none = none
  open_value data_nonce ciphertext (some data_key) =
      if p.accepts_key data_key
      then if length data_nonce == p.nonce_size
        then p.gcm_open data_key data_nonce ciphertext
        else none
      else none

  -- `Open`
  unfoldable pub open_sealed : List ℕ → Blob → Option (List ℕ)
  open_sealed key blob =
      if p.accepts_key key
      then if ltb (length blob.nonce) p.nonce_size
        then none
        else open_value (drop p.nonce_size blob.nonce) blob.ciphertext
            (p.gcm_open key (take p.nonce_size blob.nonce) blob.wrapped_key)
      else none

  -- What is sealed under a 32-byte master key, with a fresh 32-byte data key and two nonces of the size
  -- of the cipher, is sealed successfully and opens to the same value under the same master key.
  pub open_sealed-seal :
      (key data_key wrap_nonce data_nonce value : List ℕ)
      → IsLawfulGcm p
      → length key ≡ 32
      → length data_key ≡ 32
      → length wrap_nonce ≡ p.nonce_size
      → length data_nonce ≡ p.nonce_size
      → (blob : Blob) × (seal key data_key wrap_nonce data_nonce value ≡ some blob)
        × (open_sealed key blob ≡ some value)
  unfolding seal open_sealed
  open_sealed-seal key data_key wrap_nonce data_nonce value law lk ld lw ln =
      let blob : Blob = record {
        wrapped_key = p.gcm_seal key wrap_nonce data_key;
        nonce = wrap_nonce ++ data_nonce;
        ciphertext = p.gcm_seal data_key data_nonce value;
      } in
      let front = take-append_all p.nonce_size wrap_nonce data_nonce lw in
      let back = drop-append_all p.nonce_size wrap_nonce data_nonce lw in
      let outer = law.accepts_key_32 key lk in
      let inner = law.accepts_key_32 data_key ld in
      let unwrapped = law.open-seal key wrap_nonce data_key lk lw in
      let opened = law.open-seal data_key data_nonce value ld ln in
      let long : ltb (length (wrap_nonce ++ data_nonce)) p.nonce_size ≡ false =
        ground (arith, length-append_le wrap_nonce data_nonce, lw) in
      let exact : (length data_nonce == p.nonce_size) ≡ true = ground (arith, ln) in
      (blob, rw (outer, inner), rw (outer, long, front, back, unwrapped) (rw (inner, exact) opened))

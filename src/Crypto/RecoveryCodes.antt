-- ===== src/Crypto/RecoveryCodes.antt =====
-- crypto.go, `NewRecoveryCodes` and `NormalizeRecoveryCode`. The random bytes are arguments.
use autosecrets.Prelude.{
  ℕ, zero, suc, ◌%◌, ◌<◌, ◌≡◌, refl, ap, ◌∙◌, Bool, true, false, not, ◌&&◌, ◌||◌, List, [], ◌∷◌,
  map, arith, ◌==◌, leb, if◌then◌else◌, any, drop_if, codes, is_space, trim, trim-none, Bool-cases,
  inl, inr,
}
use autosecrets.Crypto.Primitives.{Primitives}
use autosecrets.Crypto.Totp.{byte_at}

abbrev pub recovery_alphabet : List ℕ
recovery_alphabet = codes "ABCDEFGHJKLMNPQRSTUVWXYZ23456789"

abbrev pub recovery_letter : ℕ → ℕ
recovery_letter value = byte_at recovery_alphabet (value % 32)

-- The loop over the random bytes from the index `j`.
abbrev pub recovery_code_from : ℕ → List ℕ → List ℕ
recovery_code_from j [] = []
recovery_code_from j (value ∷ bytes) =
    let rest = recovery_code_from (suc j) bytes in
    if j == 4 || j == 8 then b'-' ∷ recovery_letter value ∷ rest else recovery_letter value ∷ rest

-- One code of `NewRecoveryCodes`.
unfoldable pub recovery_code : List ℕ → List ℕ
recovery_code bytes = recovery_code_from 0 bytes

-- `NormalizeRecoveryCode`
unfoldable pub normalize_recovery_code : Primitives → List ℕ → List ℕ
normalize_recovery_code p code = map p.rune_upper (drop_if (λ c. c == b'-') (trim code))

-- A capital letter or a digit, which `strings.ToUpper` keeps.
abbrev pub is_capital : ℕ → Bool
is_capital c = leb b'A' c && leb c b'Z' || leb b'0' c && leb c b'9'

abbrev pub KeepsCapitals : Primitives → Type 0
KeepsCapitals p = (c : ℕ) → is_capital c ≡ true → p.rune_upper c ≡ c

all_below : ℕ → (ℕ → Bool) → Bool
all_below zero q = true
all_below (suc n) q = q n && all_below n q

all_below_sound : (n : ℕ) (q : ℕ → Bool) (x : ℕ) → all_below n q ≡ true → x < n → q x ≡ true
unfolding all_below
all_below_sound zero q x h lt = absurd (omega arith)
all_below_sound (suc n) q x h lt = ground (arith, all_below_sound n q x)

letters_table :
    all_below 32 (λ k.
      is_capital (byte_at recovery_alphabet k)
      && (not (is_space (byte_at recovery_alphabet k))
          && not (byte_at recovery_alphabet k == b'-')))
    ≡ true
unfolding all_below
letters_table = refl

both : (a b : Bool) → (a && b) ≡ true → (a ≡ true) × (b ≡ true)
both true b h = (refl, h)
both false b h = ground arith

not-true : (a : Bool) → not a ≡ true → a ≡ false
not-true true h = ground arith
not-true false h = refl

letter_facts :
    (value : ℕ)
    → (is_capital (recovery_letter value) ≡ true)
      × (is_space (recovery_letter value) ≡ false)
      × ((recovery_letter value == b'-') ≡ false)
letter_facts value =
    let row = all_below_sound 32 _ (value % 32) letters_table (omega arith) in
    let (capital, rest) = both _ _ row in
    let (not_space, not_dash) = both _ _ rest in
    (capital, not-true _ not_space, not-true _ not_dash)

letters_no_space : (bytes : List ℕ) → any is_space (map recovery_letter bytes) ≡ false
letters_no_space [] = refl
letters_no_space (value ∷ bytes) = rw (letter_facts value).1 (letters_no_space bytes)

code_no_space : (j : ℕ) (bytes : List ℕ) → any is_space (recovery_code_from j bytes) ≡ false
code_no_space j [] = refl
code_no_space j (value ∷ bytes) = elim (Bool-cases (j == 4 || j == 8)) [
  | inl dash ↦ rw (dash, (letter_facts value).1) (code_no_space (suc j) bytes)
  | inr plain ↦ rw (plain, (letter_facts value).1) (code_no_space (suc j) bytes)
]

letters_no_dash :
    (bytes : List ℕ)
    → drop_if (λ c. c == b'-') (map recovery_letter bytes) ≡ map recovery_letter bytes
letters_no_dash [] = refl
letters_no_dash (value ∷ bytes) =
    rw (letter_facts value).2 (ap (λ t. recovery_letter value ∷ t) (letters_no_dash bytes))

code_without_dashes :
    (j : ℕ) (bytes : List ℕ)
    → drop_if (λ c. c == b'-') (recovery_code_from j bytes) ≡ map recovery_letter bytes
code_without_dashes j [] = refl
code_without_dashes j (value ∷ bytes) = elim (Bool-cases (j == 4 || j == 8)) [
  | inl dash ↦
      rw (dash, (letter_facts value).2)
        (ap (λ t. recovery_letter value ∷ t) (code_without_dashes (suc j) bytes))
  | inr plain ↦
      rw (plain, (letter_facts value).2)
        (ap (λ t. recovery_letter value ∷ t) (code_without_dashes (suc j) bytes))
]

module _ (p : Primitives) (keeps : KeepsCapitals p) where
  upper_letters :
      (bytes : List ℕ) → map p.rune_upper (map recovery_letter bytes) ≡ map recovery_letter bytes
  upper_letters [] = refl
  upper_letters (value ∷ bytes) =
      rw (keeps (recovery_letter value) (letter_facts value).0)
        (ap (λ t. recovery_letter value ∷ t) (upper_letters bytes))

  -- A recovery code, entered as it is displayed or without its separators, is normalised to its
  -- letters, provided that upper-casing keeps capitals and digits.
  pub normalize_recovery_code-recovery_code :
      (bytes : List ℕ)
      → (normalize_recovery_code p (recovery_code bytes) ≡ map recovery_letter bytes)
        × (normalize_recovery_code p (map recovery_letter bytes) ≡ map recovery_letter bytes)
  unfolding normalize_recovery_code recovery_code
  normalize_recovery_code-recovery_code bytes = (
    ap (λ t. map p.rune_upper (drop_if (λ c. c == b'-') t))
          (trim-none (recovery_code_from 0 bytes) (code_no_space 0 bytes))
        ∙ (ap (map p.rune_upper) (code_without_dashes 0 bytes) ∙ upper_letters bytes),
    ap (λ t. map p.rune_upper (drop_if (λ c. c == b'-') t))
          (trim-none (map recovery_letter bytes) (letters_no_space bytes))
        ∙ (ap (map p.rune_upper) (letters_no_dash bytes) ∙ upper_letters bytes),
  )

-- ===== src/Crypto/Totp.antt =====
-- crypto.go, the one-time codes of RFC 6238. A time counts nanoseconds since 1970, as `time.Time` does.
use autosecrets.Prelude.{
  ℕ, zero, suc, ◌+◌, ◌-◌, ◌*◌, ◌/◌, ◌%◌, ◌^◌, ◌≡◌, ◌≢◌, refl, sym, ap, ◌∙◌, Bool, true, false,
  Option, none, some, List, [], ◌∷◌, ◌++◌, map, arith, ◌==◌, if◌then◌else◌, length, get_elem?, trim,
  is_empty, is_some, bit_or, bit_xor, bit_or-zero, bit_xor-zero, bit_xor-same, Bool-cases, inl, inr,
  ◌⊎◌, ◌↔◌,
}
use autosecrets.Crypto.Primitives.{Primitives}

-- The loop of `subtleConstantTimeEqual` over two slices of one length.
abbrev pub differences : ℕ → List ℕ → List ℕ → ℕ
differences v [] b = v
differences v (x ∷ a) [] = v
differences v (x ∷ a) (y ∷ b) = differences (bit_or v (bit_xor x y)) a b

-- `subtleConstantTimeEqual`
unfoldable pub subtle_constant_time_equal : List ℕ → List ℕ → Bool
subtle_constant_time_equal a b = if length a == length b then differences 0 a b == 0 else false

differences-zero :
    (v : ℕ) (a b : List ℕ) → length a ≡ length b → differences v a b ≡ 0 → (v ≡ 0) × (a ≡ b)
differences-zero v [] [] l h = (h, refl)
differences-zero v [] (y ∷ b) l h = absurd (omega arith)
differences-zero v (x ∷ a) [] l h = absurd (omega arith)
differences-zero v (x ∷ a) (y ∷ b) l h =
    let (zero_so_far, tails) = differences-zero (bit_or v (bit_xor x y)) a b (omega arith) h in
    let (v_zero, same) = bit_or-zero v (bit_xor x y) zero_so_far in
    (v_zero, ground (arith, bit_xor-zero x y same, tails))

differences-same : (a : List ℕ) → differences 0 a a ≡ 0
differences-same [] = refl
differences-same (x ∷ a) = rw (bit_xor-same x) (differences-same a)

-- The constant-time comparison answers true exactly if the two byte sequences are equal.
pub subtle_constant_time_equal_lem :
    (a b : List ℕ) → (subtle_constant_time_equal a b ≡ true) ↔ (a ≡ b)
unfolding subtle_constant_time_equal
subtle_constant_time_equal_lem a b = (
  λ h. (differences-zero 0 a b (ground (arith, h)) (ground (arith, h))).1,
  λ e. rw (sym e) (ground (arith, differences-same a)),
)

abbrev pub totp_period : ℕ
totp_period = 30 * 10 ^ 9

abbrev pub totp_digits : ℕ
totp_digits = 6

-- `at.UTC().Unix() / int64(totpPeriod/time.Second)`
abbrev pub totp_counter : ℕ → ℕ
totp_counter at = at / 10 ^ 9 / 30

-- The bytes of the counter, the highest first.
abbrev pub counter_bytes : ℕ → ℕ → List ℕ
counter_bytes zero counter = []
counter_bytes (suc n) counter = counter_bytes n (counter / 256) ++ (counter % 256) ∷ []

abbrev pub byte_at : List ℕ → ℕ → ℕ
byte_at bytes i = elim (get_elem? bytes i) [ none ↦ 0 | some b ↦ b ]

-- The truncated digest: 31 bits from the offset that its last four bits say.
abbrev pub truncated : List ℕ → ℕ
truncated digest =
    let offset = byte_at digest (length digest - 1) % 16 in
    byte_at digest offset % 128 * 2 ^ 24
    + (byte_at digest (offset + 1) * 2 ^ 16
        + (byte_at digest (offset + 2) * 2 ^ 8 + byte_at digest (offset + 3)))

-- `fmt.Sprintf("%0*d", n, value)` for a value below `10 ^ n`
abbrev pub padded_digits : ℕ → ℕ → List ℕ
padded_digits zero value = []
padded_digits (suc n) value = padded_digits n (value / 10) ++ (b'0' + value % 10) ∷ []

length-snoc : (xs : List ℕ) (x : ℕ) → length (xs ++ x ∷ []) ≡ suc (length xs)
length-snoc [] x = refl
length-snoc (y ∷ xs) x = ap (λ (k : ℕ). suc k) (length-snoc xs x)

length-padded_digits : (n value : ℕ) → length (padded_digits n value) ≡ n
length-padded_digits zero value = refl
length-padded_digits (suc n) value =
    length-snoc (padded_digits n (value / 10)) (b'0' + value % 10)
    ∙ ap (λ (k : ℕ). suc k) (length-padded_digits n (value / 10))

module _ (p : Primitives) where
  abbrev pub code_of_key : Option (List ℕ) → ℕ → Option (List ℕ)
  code_of_key none counter = none
  code_of_key (some key) counter =
      if is_empty key
      then none
      else some (
          padded_digits totp_digits
            (truncated (p.hmac_sha1 key (counter_bytes 8 counter)) % 10 ^ 6))

  -- `TOTPCode`
  unfoldable pub totp_code : List ℕ → ℕ → Option (List ℕ)
  totp_code secret at =
      code_of_key (p.base32_decode (map p.rune_upper (trim secret))) (totp_counter at)

  abbrev pub agrees : List ℕ → Option (List ℕ) → Bool
  agrees code none = false
  agrees code (some want) = subtle_constant_time_equal want code

  -- The loop of `TOTPMatchingCounter` over the candidate times.
  abbrev pub first_match : List ℕ → List ℕ → List ℕ → Option ℕ
  first_match secret code [] = none
  first_match secret code (at ∷ candidates) =
      let rest = first_match secret code candidates in
      if agrees code (totp_code secret at) then some (totp_counter at) else rest

  -- `TOTPMatchingCounter`: the counter of the period before, of this one, or of the one after.
  unfoldable pub totp_matching_counter : List ℕ → List ℕ → ℕ → Option ℕ
  totp_matching_counter secret code at =
      if length code == totp_digits
      then first_match secret code ((at - totp_period) ∷ at ∷ (at + totp_period) ∷ [])
      else none

  -- `VerifyTOTP`
  unfoldable pub verify_totp : List ℕ → List ℕ → ℕ → Bool
  unfolding totp_matching_counter
  verify_totp secret code at = is_some (totp_matching_counter secret code at)

  agrees_same : (want : List ℕ) → agrees want (some want) ≡ true
  agrees_same want = (subtle_constant_time_equal_lem want want).1 refl

  -- The code of an accepted entry is the one of the counter that is returned.
  agrees_path : (code : List ℕ) (o : Option (List ℕ)) → agrees code o ≡ true → o ≡ some code
  agrees_path code none h = ground arith
  agrees_path code (some want) h = ap some ((subtle_constant_time_equal_lem want code).0 h)

  -- Two times of one period have one code.
  totp_code-counter :
      (secret : List ℕ) (s t : ℕ)
      → totp_counter s ≡ totp_counter t
      → totp_code secret s ≡ totp_code secret t
  unfolding totp_code
  totp_code-counter secret s t e =
      ap (code_of_key (p.base32_decode (map p.rune_upper (trim secret)))) e

  length-totp_code :
      (secret code : List ℕ) (at : ℕ) → totp_code secret at ≡ some code → length code ≡ totp_digits
  unfolding totp_code
  length-totp_code secret code at e = of_key (p.base32_decode (map p.rune_upper (trim secret))) e
    where
      of_key :
          (key : Option (List ℕ))
          → code_of_key key (totp_counter at) ≡ some code
          → length code ≡ totp_digits
      of_key none h = ground arith
      of_key (some []) h = ground arith
      of_key (some (k ∷ ks)) h =
          let value =
            truncated (p.hmac_sha1 (k ∷ ks) (counter_bytes 8 (totp_counter at))) % 10 ^ 6 in
          let same : padded_digits totp_digits value ≡ code = cc h in
          ap length (sym same) ∙ length-padded_digits totp_digits value

  -- The first of the three times at which the code is right, in the order: one period earlier, the time
  -- of the check, one period later.
  abbrev pub IsFirstTime : List ℕ → List ℕ → ℕ → ℕ → Type 0
  IsFirstTime secret code at t =
      (totp_code secret t ≡ some code)
      × ((t ≡ at - totp_period)
          ⊎ (((t ≡ at) × (totp_code secret (at - totp_period) ≢ some code))
              ⊎ ((t ≡ at + totp_period)
                  × (totp_code secret (at - totp_period) ≢ some code)
                  × (totp_code secret at ≢ some code))))

  -- A code that does not agree is another one.
  differs : (code : List ℕ) (o : Option (List ℕ)) → agrees code o ≡ false → o ≢ some code
  differs code o h e = absurd (ground (arith, h, ap (agrees code) e, agrees_same code))

  -- A code is accepted exactly if it is the code of one period earlier, of the time of the check or of
  -- one period later, and the counter that is returned is that of the first of these times, in this
  -- order, at which the code is right.
  pub totp_matching_counter_lem :
      (secret code : List ℕ) (at : ℕ)
      → ((c : ℕ)
          → totp_matching_counter secret code at ≡ some c
          → (t : ℕ) × IsFirstTime secret code at t × (c ≡ totp_counter t))
        × ((t : ℕ)
            → (t ≡ at - totp_period) ⊎ ((t ≡ at) ⊎ (t ≡ at + totp_period))
            → totp_code secret t ≡ some code
            → is_some (totp_matching_counter secret code at) ≡ true)
  unfolding totp_matching_counter
  totp_matching_counter_lem secret code at = (sound, complete)
    where
      sound :
          (c : ℕ)
          → totp_matching_counter secret code at ≡ some c
          → (t : ℕ) × IsFirstTime secret code at t × (c ≡ totp_counter t)
      sound c h = elim (Bool-cases (agrees code (totp_code secret (at - totp_period)))) [
        | inl first ↦
            (at - totp_period, (agrees_path code _ first, inl refl), ground (arith, h, first))
        | inr not_first ↦ elim (Bool-cases (agrees code (totp_code secret at))) [
          | inl second ↦ (
            at,
            (agrees_path code _ second, inr (inl (refl, differs code _ not_first))),
            ground (arith, h, not_first, second),
          )
          | inr not_second ↦ elim (Bool-cases (agrees code (totp_code secret (at + totp_period)))) [
            | inl third ↦ (
              at + totp_period,
              (
                agrees_path code _ third,
                inr (inr (refl, differs code _ not_first, differs code _ not_second)),
              ),
              ground (arith, h, not_first, not_second, third),
            )
            | inr none_left ↦ absurd (ground (arith, h, not_first, not_second, none_left))
          ]
        ]
      ]

      complete :
          (t : ℕ)
          → (t ≡ at - totp_period) ⊎ ((t ≡ at) ⊎ (t ≡ at + totp_period))
          → totp_code secret t ≡ some code
          → is_some (totp_matching_counter secret code at) ≡ true
      complete t which e =
          let hit : agrees code (totp_code secret t) ≡ true = rw e (agrees_same code) in
          let long : (length code == totp_digits) ≡ true =
            ground (arith, length-totp_code secret code t e) in
          elim which [
            | inl a ↦ ground (arith, hit, long, ap (λ k. agrees code (totp_code secret k)) a)
            | inr (inl b) ↦ ground (arith, hit, long, ap (λ k. agrees code (totp_code secret k)) b)
            | inr (inr c) ↦ ground (arith, hit, long, ap (λ k. agrees code (totp_code secret k)) c)
          ]

-- ===== src/Prelude/Texts.antt =====
-- Texts as lists of code points (or of bytes), and what the code uses of package strings.
use Prim.Native.Nat.{ℕ, ◌+◌}
use Prim.Native.Char.{code}
use Prim.Native.String.{String}
use mathlib.Core.Path.{◌≡◌, refl, ap, ◌∙◌}
use mathlib.Core.Bool.{Bool, true, false, ◌&&◌, ◌||◌}
use mathlib.Core.List.{List, [], ◌∷◌, ◌++◌}
use native.Mathlib.Omega.{arith}
use autosecrets.Prelude.Tests.{◌==◌, ltb, leb, if◌then◌else◌}
use autosecrets.Prelude.Lists.{any}

-- The code points of a literal.
abbrev pub codes : String → List ℕ
codes String.[] = []
codes (String.◌∷◌ c s) = code c ∷ codes s

-- `unicode.IsSpace`
abbrev pub is_space : ℕ → Bool
is_space c =
    (leb 9 c && leb c 13 || c == 32 || c == 0x85 || c == 0xA0)
    || (c == 0x1680 || leb 0x2000 c && leb c 0x200A)
    || (c == 0x2028 || c == 0x2029 || c == 0x202F || c == 0x205F || c == 0x3000)

abbrev pub trim_left : List ℕ → List ℕ
trim_left [] = []
trim_left (c ∷ s) = let rest = trim_left s in if is_space c then rest else c ∷ s

abbrev pub is_empty : List ℕ → Bool
is_empty [] = true
is_empty (_ ∷ _) = false

abbrev pub trim_right : List ℕ → List ℕ
trim_right [] = []
trim_right (c ∷ s) = let rest = trim_right s in if is_space c && is_empty rest then [] else c ∷ rest

-- `strings.TrimSpace`
abbrev pub trim : List ℕ → List ℕ
trim s = trim_right (trim_left s)

-- `len` of a text: the bytes of its code points in UTF-8.
abbrev pub utf8_width : ℕ → ℕ
utf8_width c = if ltb c 0x80 then 1 else if ltb c 0x800 then 2 else if ltb c 0x10000 then 3 else 4

abbrev pub utf8_length : List ℕ → ℕ
utf8_length [] = 0
utf8_length (c ∷ s) = utf8_width c + utf8_length s

abbrev pub text_eq : List ℕ → List ℕ → Bool
text_eq [] [] = true
text_eq [] (_ ∷ _) = false
text_eq (_ ∷ _) [] = false
text_eq (c ∷ s) (d ∷ t) = c == d && text_eq s t

abbrev pub add_to_first : ℕ → List (List ℕ) → List (List ℕ)
add_to_first c [] = (c ∷ []) ∷ []
add_to_first c (p ∷ ps) = (c ∷ p) ∷ ps

-- `strings.Split` at one character
abbrev pub split_at_each : ℕ → List ℕ → List (List ℕ)
split_at_each sep [] = [] ∷ []
split_at_each sep (c ∷ s) =
    let rest = split_at_each sep s in if c == sep then [] ∷ rest else add_to_first c rest

abbrev pub has : ℕ → List ℕ → Bool
has x = any (λ c. c == x)

pub text_eq_refl : (s : List ℕ) → text_eq s s ≡ true
text_eq_refl [] = refl
text_eq_refl (c ∷ s) = ground (arith, text_eq_refl s)

pub text_eq-path : (s t : List ℕ) → text_eq s t ≡ true → s ≡ t
text_eq-path [] [] h = refl
text_eq-path [] (d ∷ t) h = ground arith
text_eq-path (c ∷ s) [] h = ground arith
text_eq-path (c ∷ s) (d ∷ t) h = ground (arith, text_eq-path s t)

pub split_at_each-none : (sep : ℕ) (s : List ℕ) → has sep s ≡ false → split_at_each sep s ≡ s ∷ []
split_at_each-none sep [] h = refl
split_at_each-none sep (c ∷ s) h = ground (arith, split_at_each-none sep s)

pub split_at_each-append :
    (sep : ℕ) (s t : List ℕ)
    → has sep s ≡ false
    → split_at_each sep (s ++ sep ∷ t) ≡ s ∷ split_at_each sep t
split_at_each-append sep [] t h = ground arith
split_at_each-append sep (c ∷ s) t h = ground (arith, split_at_each-append sep s t)

or_false : (a b : Bool) → (a || b) ≡ false → (a ≡ false) × (b ≡ false)
or_false true b h = ground arith
or_false false b h = (refl, h)

trim_left-none : (s : List ℕ) → any is_space s ≡ false → trim_left s ≡ s
trim_left-none [] h = refl
trim_left-none (c ∷ s) h = rw (or_false (is_space c) (any is_space s) h).0

trim_right-none : (s : List ℕ) → any is_space s ≡ false → trim_right s ≡ s
trim_right-none [] h = refl
trim_right-none (c ∷ s) h =
    let (here, later) = or_false (is_space c) (any is_space s) h in
    rw (here) (ap (λ t. c ∷ t) (trim_right-none s later))

-- A text with no white space is its own trimmed text.
pub trim-none : (s : List ℕ) → any is_space s ≡ false → trim s ≡ s
trim-none s h = ap trim_right (trim_left-none s h) ∙ trim_right-none s h

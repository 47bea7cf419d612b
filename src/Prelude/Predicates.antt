-- ===== src/Prelude/Predicates.antt =====
-- A predicate of every row of a table, and how the row operations keep it.
use mathlib.Core.Path.{◌≡◌, refl, subst}
use mathlib.Core.Bool.{Bool, true, false, not}
use mathlib.Core.Logic.{◌⊎◌, inl, inr}
use mathlib.Core.List.{List, [], ◌∷◌, ◌++◌, Memᴰ}
use native.Mathlib.Omega.{arith}
use autosecrets.Prelude.Tests.{if◌then◌else◌, Bool-cases}
use mathlib.Core.Option.{Option, none, some}
use autosecrets.Prelude.Lists.{any, any-false, find, keep_if, update_if}

abbrev pub All {ℓ κ} : {A : Type ℓ} → (A → Type κ) → List A → Type κ
All P [] = Unit
All P (x ∷ xs) = P x × All P xs

module _ {ℓ κ} {A : Type ℓ} (P : A → Type κ) where
  pub All-append : (xs ys : List A) → All P xs → All P ys → All P (xs ++ ys)
  All-append [] ys hx hy = hy
  All-append (x ∷ xs) ys hx hy = (hx.0, All-append xs ys hx.1 hy)

  pub All-mono {μ} : (Q : A → Type μ) (xs : List A) → ((x : A) → P x → Q x) → All P xs → All Q xs
  All-mono Q [] f h = tt
  All-mono Q (x ∷ xs) f h = (f x h.0, All-mono Q xs f h.1)

  pub All-mem : {x : A} (xs : List A) → All P xs → Memᴰ x xs → P x
  All-mem [] h m = elim m [ ]
  All-mem (y ∷ ys) h (Memᴰ.head e) = rw e h.0
  All-mem (y ∷ ys) h (Memᴰ.tail m) = All-mem ys h.1 m

  pub All-update_if :
      (p : A → Bool) (f : A → A) (xs : List A)
      → ((x : A) → P x → P (f x))
      → All P xs
      → All P (update_if p f xs)
  All-update_if p f [] keep h = tt
  All-update_if p f (x ∷ xs) keep h = elim (Bool-cases (p x)) [
    | inl t ↦ (rw t (keep x h.0), All-update_if p f xs keep h.1)
    | inr t ↦ (rw t h.0, All-update_if p f xs keep h.1)
  ]

  pub All-keep_if : (p : A → Bool) (xs : List A) → All P xs → All P (keep_if p xs)
  All-keep_if p [] h = tt
  All-keep_if p (x ∷ xs) h = elim (Bool-cases (p x)) [
    | inl t ↦ rw t (h.0, All-keep_if p xs h.1)
    | inr t ↦ rw t (All-keep_if p xs h.1)
  ]

-- A test that an update does not change passes as often as before.
module _ {ℓ} {A : Type ℓ} where
  pub any-update_if :
      (q p : A → Bool) (f : A → A) (xs : List A)
      → ((x : A) → q (f x) ≡ q x)
      → any q (update_if p f xs) ≡ any q xs
  any-update_if q p f [] same = refl
  any-update_if q p f (x ∷ xs) same = elim (Bool-cases (p x)) [
    | inl t ↦ rw (t, same, any-update_if q p f xs same)
    | inr t ↦ rw (t, any-update_if q p f xs same)
  ]

  -- The row that is found after an update which keeps what the search reads.
  abbrev pub updated_row : (A → Bool) → (A → A) → Option A → Option A
  updated_row p f none = none
  updated_row p f (some x) = some (if p x then f x else x)

  pub find-update_if :
      (q p : A → Bool) (f : A → A) (xs : List A)
      → ((x : A) → q (f x) ≡ q x)
      → find q (update_if p f xs) ≡ updated_row p f (find q xs)
  find-update_if q p f [] same = refl
  find-update_if q p f (x ∷ xs) same =
      ground (arith, find-update_if q p f xs same, same x, Bool-cases (p x))

-- Membership of a row in a table, through each row operation.
module _ {ℓ} {A : Type ℓ} where
  pub any-mem : (p : A → Bool) (xs : List A) → any p xs ≡ true → (x : A) × Memᴰ x xs × (p x ≡ true)
  any-mem p [] h = cc
  any-mem p (x ∷ xs) h = elim (Bool-cases (p x)) [
    | inl t ↦ (x, Memᴰ.head refl, t)
    | inr f ↦ let (y, m, t) = any-mem p xs (ground arith) in (y, Memᴰ.tail m, t)
  ]

  pub mem-append : (xs ys : List A) {x : A} → Memᴰ x (xs ++ ys) → Memᴰ x xs ⊎ Memᴰ x ys
  mem-append [] ys m = inr m
  mem-append (y ∷ xs) ys (Memᴰ.head e) = inl (Memᴰ.head e)
  mem-append (y ∷ xs) ys (Memᴰ.tail m) = elim (mem-append xs ys m) [
    | inl l ↦ inl (Memᴰ.tail l)
    | inr r ↦ inr r
  ]

  pub mem-keep_if : (p : A → Bool) (xs : List A) {x : A} → Memᴰ x (keep_if p xs) → Memᴰ x xs
  mem-keep_if p [] m = elim m [ ]
  mem-keep_if p (y ∷ xs) {x} m = elim (Bool-cases (p y)) [
    | inl t ↦
        kept (mem-keep_if p xs)
          (subst (λ b. Memᴰ x (if b then y ∷ keep_if p xs else keep_if p xs)) t m)
    | inr f ↦
        Memᴰ.tail (
          mem-keep_if p xs (subst (λ b. Memᴰ x (if b then y ∷ keep_if p xs else keep_if p xs)) f m))
  ]
    where
      kept : (Memᴰ x (keep_if p xs) → Memᴰ x xs) → Memᴰ x (y ∷ keep_if p xs) → Memᴰ x (y ∷ xs)
      kept later (Memᴰ.head e) = Memᴰ.head e
      kept later (Memᴰ.tail r) = Memᴰ.tail (later r)

  pub mem-update_if :
      (p : A → Bool) (f : A → A) (xs : List A) {x : A}
      → Memᴰ x (update_if p f xs)
      → (o : A) × Memᴰ o xs × (x ≡ (if p o then f o else o))
  mem-update_if p f [] m = elim m [ ]
  mem-update_if p f (y ∷ xs) (Memᴰ.head e) = (y, Memᴰ.head refl, e)
  mem-update_if p f (y ∷ xs) (Memᴰ.tail m) =
      let (o, r, e) = mem-update_if p f xs m in (o, Memᴰ.tail r, e)

  pub any-keep_if : (q p : A → Bool) (xs : List A) → any q (keep_if p xs) ≡ true → any q xs ≡ true
  any-keep_if q p [] h = h
  any-keep_if q p (x ∷ xs) h = ground (arith, any-keep_if q p xs)

  pub mem-update_if_other :
      (p : A → Bool) (f : A → A) (xs : List A) {x : A}
      → Memᴰ x xs
      → p x ≡ false
      → Memᴰ x (update_if p f xs)
  mem-update_if_other p f [] m out = elim m [ ]
  mem-update_if_other p f (y ∷ xs) (Memᴰ.head e) out =
      let here : p y ≡ false = subst (λ z. p z ≡ false) e out in rw here (Memᴰ.head e)
  mem-update_if_other p f (y ∷ xs) (Memᴰ.tail m) out = Memᴰ.tail (mem-update_if_other p f xs m out)

  pub mem-keep_if_intro :
      (p : A → Bool) (xs : List A) {x : A} → Memᴰ x xs → p x ≡ true → Memᴰ x (keep_if p xs)
  mem-keep_if_intro p [] m t = elim m [ ]
  mem-keep_if_intro p (y ∷ xs) (Memᴰ.head e) t =
      let here : p y ≡ true = subst (λ z. p z ≡ true) e t in rw here (Memᴰ.head e)
  mem-keep_if_intro p (y ∷ xs) (Memᴰ.tail m) t = elim (Bool-cases (p y)) [
    | inl hit ↦ rw hit (Memᴰ.tail (mem-keep_if_intro p xs m t))
    | inr miss ↦ rw miss (mem-keep_if_intro p xs m t)
  ]

  none_kept : (p : A → Bool) (xs : List A) → any (λ z. not (p z)) (keep_if p xs) ≡ false
  none_kept p [] = refl
  none_kept p (y ∷ xs) = ground (arith, none_kept p xs, Bool-cases (p y))

  pub keep_if_passes : (p : A → Bool) (xs : List A) {x : A} → Memᴰ x (keep_if p xs) → p x ≡ true
  keep_if_passes p xs {x = x} m =
      let kept : not (p x) ≡ false = any-false (λ z. not (p z)) (none_kept p xs) m in
      ground (arith, kept)

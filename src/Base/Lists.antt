-- ===== src/Base/Lists.antt =====
-- Lists over the native numbers: length, membership as a Boolean, distinctness, the last element
-- and the part before it.
use Prim.Native.Nat.{ℕ, zero, suc, ◌+◌}
use mathlib.Core.Path.{◌≡◌, refl, sym, ap, ◌∙◌}
use mathlib.Core.Bool.{Bool, true, false, ◌||◌, false≢true}
use mathlib.Core.Logic.{inl, inr}
use mathlib.Core.Option.{Option, none, some}
use mathlib.Core.List.{List, [], ◌∷◌, ◌++◌, reverse, reverse-append, append_assoc}
use native.Mathlib.Omega.{arith}
use door_rtos.Base.Tests.{◌==◌, Bool-cases}

module _ {ℓ} {A : Type ℓ} where
  abbrev pub length : List A → ℕ
  length [] = 0
  length (x ∷ xs) = suc (length xs)

  abbrev pub get_elem? : List A → ℕ → Option A
  get_elem? [] i = none
  get_elem? (x ∷ xs) zero = some x
  get_elem? (x ∷ xs) (suc i) = get_elem? xs i

  pub length-append : (xs ys : List A) → length (xs ++ ys) ≡ length xs + length ys
  length-append [] ys = omega arith
  length-append (x ∷ xs) ys = omega (arith, length-append xs ys)

  -- The last element of `x ∷ xs`, and what stands before it.
  abbrev pub last : A → List A → A
  last x [] = x
  last x (y ∷ ys) = last y ys

  abbrev pub front : A → List A → List A
  front x [] = []
  front x (y ∷ ys) = x ∷ front y ys

  pub length-front : (x : A) (xs : List A) → length (front x xs) ≡ length xs
  length-front x [] = refl
  length-front x (y ∷ ys) = omega (arith, length-front y ys)

  pub front-append-last : (x : A) (xs : List A) → front x xs ++ last x xs ∷ [] ≡ x ∷ xs
  front-append-last x [] = refl
  front-append-last x (y ∷ ys) = rw (front-append-last y ys)

  pub front-last-append : (x : A) (xs fs : List A) → front x xs ++ last x xs ∷ fs ≡ (x ∷ xs) ++ fs
  front-last-append x xs fs =
      sym (append_assoc (front x xs) (last x xs ∷ []) fs)
      ∙ ap (λ l. l ++ fs) (front-append-last x xs)

  pub reverse-last : (x : A) (xs : List A) → reverse (x ∷ xs) ≡ last x xs ∷ reverse (front x xs)
  reverse-last x xs =
      ap reverse (sym (front-append-last x xs)) ∙ reverse-append (front x xs) (last x xs ∷ [])

abbrev pub mem : ℕ → List ℕ → Bool
mem a [] = false
mem a (x ∷ xs) = (a == x) || mem a xs

infix 40 ◌∈◌ ◌∉◌
abbrev pub ◌∈◌ : ℕ → List ℕ → Type 0
a ∈ xs = mem a xs ≡ true

abbrev pub ◌∉◌ : ℕ → List ℕ → Type 0
a ∉ xs = mem a xs ≡ false

pub mem-last : (x : ℕ) (xs : List ℕ) → last x xs ∈ x ∷ xs
mem-last x [] = ground arith
mem-last x (y ∷ ys) = ground (arith, mem-last y ys)

pub not-mem-front : (a x : ℕ) (xs : List ℕ) → a ∉ x ∷ xs → a ∉ front x xs
not-mem-front a x [] h = refl
not-mem-front a x (y ∷ ys) h = ground (arith, not-mem-front a y ys)

pub not-mem-last : (a x : ℕ) (xs : List ℕ) → a ∉ x ∷ xs → (a == last x xs) ≡ false
not-mem-last a x [] h = ground arith
not-mem-last a x (y ∷ ys) h = ground (arith, not-mem-last a y ys)

-- A property of every element, as a tuple.
abbrev pub All {κ} : (ℕ → Type κ) → List ℕ → Type κ
All P [] = Unit
All P (x ∷ xs) = P x × All P xs

pub All-mem {κ} : (P : ℕ → Type κ) (a : ℕ) (xs : List ℕ) → All P xs → a ∈ xs → P a
All-mem P a [] h m = absurd (false≢true m)
All-mem P a (x ∷ xs) h m = elim (Bool-cases (a == x)) [
  | inl s ↦ (let t : a ≡ x = ground arith in rw t h.0)
  | inr s ↦ All-mem P a xs h.1 (rw s at m)
]

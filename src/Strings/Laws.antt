-- ===== src/Strings/Laws.antt =====
-- Copying, measuring and comparing strings (kernel/string.c).
use door_rtos.Base.{
  ℕ, zero, suc, ◌+◌, ◌≤◌, ◌<◌, ◌≡◌, ◌↔◌, refl, true, List, [], ◌∷◌, ◌++◌, arith, length, ap,
}
use door_rtos.Strings.{strncpy, str_length, str_length_from, compare_loop, str_compare}

str_length_from-eq : (n : ℕ) (s : List ℕ) → str_length_from n s ≡ n + length s + 1
unfolding str_length_from
str_length_from-eq n [] = omega arith
str_length_from-eq n (c ∷ s) = omega (arith, str_length_from-eq (n + 1) s)

-- `StrLength` counts the bytes and the NUL.
pub str_length_lem : (s : List ℕ) → str_length s ≡ length s + 1
unfolding str_length
str_length_lem s = omega (arith, str_length_from-eq 0 s)

compare_loop_iff : (s t : List ℕ) → (compare_loop s t ≡ true) ↔ (s ≡ t)
unfolding compare_loop
compare_loop_iff [] [] = (λ e. refl, λ e. refl)
compare_loop_iff [] (d ∷ t) = (λ e. cc, λ e. cc)
compare_loop_iff (c ∷ s) [] = (λ e. cc, λ e. cc)
compare_loop_iff (c ∷ s) (d ∷ t) = ground (arith, compare_loop_iff s t)

-- `StrCompare` holds for equal strings and for no others.
pub str_compare_iff : (s t : List ℕ) → (str_compare s t ≡ true) ↔ (s ≡ t)
unfolding str_compare
str_compare_iff s t = ground (arith, compare_loop_iff s t, ap str_length)

-- The first `n` elements.
abbrev pub take : ℕ → List ℕ → List ℕ
take zero s = []
take (suc n) [] = []
take (suc n) (c ∷ s) = c ∷ take n s

-- `Strncpy` stores the first `n` bytes of the source, or all of a shorter one, and a NUL behind
-- them.
pub strncpy-take : (s : List ℕ) (n : ℕ) → strncpy s n ≡ take n s ++ 0 ∷ []
unfolding strncpy
strncpy-take [] zero = refl
strncpy-take [] (suc n) = refl
strncpy-take (c ∷ s) zero = refl
strncpy-take (c ∷ s) (suc n) = rw (strncpy-take s n)

-- `Strncpy` with the limit `n` stores `n + 1` bytes of a source of `n` bytes or more, and the
-- source's length and the NUL of a shorter one.
pub length-strncpy :
    (s : List ℕ) (n : ℕ)
    → (n ≤ length s → length (strncpy s n) ≡ n + 1)
      × (length s < n → length (strncpy s n) ≡ length s + 1)
unfolding strncpy
length-strncpy [] zero = omega arith
length-strncpy [] (suc n) = omega arith
length-strncpy (c ∷ s) zero = omega arith
length-strncpy (c ∷ s) (suc n) =
    let ih = length-strncpy s n in (λ h. omega (arith, ih.0), λ h. omega (arith, ih.1))

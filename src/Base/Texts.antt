-- ===== src/Base/Texts.antt =====
-- Bytes as a map from indices, with a text at its start.
use Prim.Native.Nat.{ℕ, zero, suc, ◌<◌, ◌≤◌, ◌+◌}
use mathlib.Core.Path.{◌≡◌, refl, ap, ◌∙◌}
use mathlib.Core.List.{List, [], ◌∷◌, ◌++◌, reverse, reverse-cons}
use native.Mathlib.Omega.{arith}
use door_rtos.Base.Lists.{length, length-append}
use door_rtos.Base.Memory.{write}

-- A text written over what a block holds.
abbrev pub stored : List ℕ → (ℕ → ℕ) → ℕ → ℕ
stored [] block i = block i
stored (c ∷ s) block zero = c
stored (c ∷ s) block (suc i) = stored s (λ j. block (suc j)) i

-- A text with NULs behind it.
abbrev pub text_at : List ℕ → ℕ → ℕ
text_at s = stored s (λ i. 0)

-- A byte behind a text of that length.
pub write-stored :
    (s : List ℕ) (c : ℕ) (block : ℕ → ℕ) (i : ℕ)
    → write (stored s block) (length s) c i ≡ stored (s ++ c ∷ []) block i
unfolding write
write-stored [] c block zero = refl
write-stored [] c block (suc i) = ground arith
write-stored (d ∷ s) c block zero = ground arith
write-stored (d ∷ s) c block (suc i) = ground (arith, write-stored s c (λ j. block (suc j)) i)

text_at-append_left : (s t : List ℕ) (i : ℕ) → i < length s → text_at (s ++ t) i ≡ text_at s i
text_at-append_left [] t i h = absurd (omega arith)
text_at-append_left (c ∷ s) t zero h = refl
text_at-append_left (c ∷ s) t (suc i) h = text_at-append_left s t i (omega arith)

text_at-append_right : (s t : List ℕ) (i : ℕ) → text_at (s ++ t) (length s + i) ≡ text_at t i
text_at-append_right [] t i = ap (text_at t) (omega arith)
text_at-append_right (c ∷ s) t i =
    ap (text_at (c ∷ s ++ t)) (shift (length s) i) ∙ text_at-append_right s t i
  where
    shift : (n i : ℕ) → suc n + i ≡ suc (n + i)
    shift n i = omega arith

pub length-reverse : (s : List ℕ) → length (reverse s) ≡ length s
length-reverse [] = refl
length-reverse (c ∷ s) =
    ap length (reverse-cons c s)
    ∙ length-append (reverse s) (c ∷ [])
    ∙ omega (arith, length-reverse s)

-- The byte at an index of a text that has been turned round.
pub text_at-reverse :
    (s : List ℕ) (i j : ℕ) → suc (i + j) ≡ length s → text_at (reverse s) i ≡ text_at s j
text_at-reverse [] i j h = absurd (omega arith)
text_at-reverse (c ∷ s) i zero h =
    let e : i ≡ length (reverse s) + 0 = omega (arith, length-reverse s) in
    ap (λ l. text_at l i) (reverse-cons c s)
    ∙ ap (text_at (reverse s ++ c ∷ [])) e
    ∙ text_at-append_right (reverse s) (c ∷ []) 0
text_at-reverse (c ∷ s) i (suc j) h =
    ap (λ l. text_at l i) (reverse-cons c s)
    ∙ text_at-append_left (reverse s) (c ∷ []) i (omega (arith, length-reverse s))
    ∙ text_at-reverse s i j (omega arith)

pub text_at-end : (s : List ℕ) (i : ℕ) → length s ≤ i → text_at s i ≡ 0
text_at-end [] i h = refl
text_at-end (c ∷ s) zero h = absurd (omega arith)
text_at-end (c ∷ s) (suc i) h = text_at-end s i (omega arith)

-- A text with its NUL over a block.
pub stored-text_at :
    (s : List ℕ) (block : ℕ → ℕ) (j : ℕ) → j ≤ length s → stored (s ++ 0 ∷ []) block j ≡ text_at s j
stored-text_at [] block zero h = refl
stored-text_at [] block (suc j) h = absurd (omega arith)
stored-text_at (c ∷ s) block zero h = refl
stored-text_at (c ∷ s) block (suc j) h = stored-text_at s (λ i. block (suc i)) j (omega arith)

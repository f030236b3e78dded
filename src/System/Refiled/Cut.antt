-- ===== src/System/Refiled/Cut.antt =====
-- A queue with an element in the middle, and without it.
use door_rtos.Base.{
  ◌≡◌, ◌≢◌, sym, refl, ◌∙◌, inl, inr, Bool-cases, List, [], ◌∷◌, ◌++◌, arith, ◌==◌, Ptr, Links, ◌∉◌,
  ◌∈◌,
}
use door_rtos.Queue.Chain.{Chain}

pub mem-middle : (a : Ptr) (xs ys : List Ptr) → a ∈ xs ++ a ∷ ys
mem-middle a [] ys = ground arith
mem-middle a (x ∷ xs) ys = ground (arith, mem-middle a xs ys)

pub mem-cut : (b a : Ptr) (xs ys : List Ptr) → b ≢ a → b ∈ xs ++ a ∷ ys → b ∈ xs ++ ys
mem-cut b a [] ys ne m = ground arith
mem-cut b a (x ∷ xs) ys ne m = ground (arith, mem-cut b a xs ys)

pub Chain-distinct :
    (next : Links) (p a : Ptr) (xs ys : List Ptr) → Chain next p (xs ++ a ∷ ys) → a ∉ xs ++ ys
Chain-distinct next p a [] ys c = c.2
Chain-distinct next p a (x ∷ xs) ys c =
    let ih = Chain-distinct next (next x) a xs ys c.3 in
    let out = c.2 in
    let m = mem-middle a xs ys in
    elim (Bool-cases (a == x)) [
      | inl s ↦ (let t : a ≡ x = ground arith in absurd (let m' = rw t at m in cc))
      | inr s ↦ rw s ih
    ]

-- Only one list of elements follows the links from `p`.
pub Chain-unique :
    (next : Links) (p : Ptr) (xs ys : List Ptr) → Chain next p xs → Chain next p ys → xs ≡ ys
Chain-unique next p [] [] c d = refl
Chain-unique next p [] (y ∷ ys) c d = absurd (d.1 (sym d.0 ∙ c))
Chain-unique next p (x ∷ xs) [] c d = absurd (c.1 (sym c.0 ∙ d))
Chain-unique next p (x ∷ xs) (y ∷ ys) c d =
    let e : x ≡ y = sym c.0 ∙ d.0 in
    let ih = Chain-unique next (next y) xs ys (rw e at c.3) d.3 in rw (e, ih) refl

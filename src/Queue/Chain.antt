-- ===== src/Queue/Chain.antt =====
-- What it is for pointers to form a queue: the links lead from the head through distinct elements
-- to NULL, and the tail is the last of them.
use door_rtos.Base.{
  ◌≡◌, ◌==◌, Bool-cases, inl, inr, mem, ◌≢◌, List, [], ◌∷◌, arith, Ptr, null, Links, write, last,
  ◌∈◌, ◌∉◌,
}
use door_rtos.Queue.{Queue}

abbrev pub Chain : Links → Ptr → List Ptr → Type 0
Chain next p [] = p ≡ null
Chain next p (x ∷ xs) = (p ≡ x) × (x ≢ null) × (x ∉ xs) × Chain next (next x) xs

-- The tail of an empty queue is arbitrary.
abbrev pub TailIs : List Ptr → Ptr → Type 0
TailIs [] t = Unit {0}
TailIs (x ∷ xs) t = t ≡ last x xs

-- The list has the newest element first.
pub record IsQueue (next : Links) (q : Queue) (xs : List Ptr) : Type 0 where
  pub chain : Chain next q.head xs
  pub tail_is : TailIs xs q.tail

-- A chain is what it was after a write outside it.
pub Chain-write :
    (next : Links) (p e v : Ptr) (xs : List Ptr)
    → e ∉ xs
    → Chain next p xs
    → Chain (write next e v) p xs
unfolding write
Chain-write next p e v [] out c = c
Chain-write next p e v (x ∷ xs) out c =
    let same : write next e v x ≡ next x = ground arith in
    (c.0, c.1, c.2, rw same (Chain-write next (next x) e v xs (ground arith) c.3))

pub IsQueue-write :
    {next : Links} {q : Queue} (e v : Ptr) (xs : List Ptr)
    → e ∉ xs
    → IsQueue next q xs
    → IsQueue (write next e v) q xs
IsQueue-write {next} {q} e v xs out is = record {
  chain = Chain-write next q.head e v xs out is.chain;
  tail_is = is.tail_is;
}

-- `next'` differs from `next` at most at the elements of `xs`.
abbrev pub SameOutside : List Ptr → Links → Links → Type 0
SameOutside xs next next' = (a : Ptr) → a ∉ xs → next' a ≡ next a

abbrev pub Disjoint : List Ptr → List Ptr → Type 0
Disjoint xs ys = (a : Ptr) → a ∈ xs → a ∉ ys

pub Chain-frame :
    (next next' : Links) (p : Ptr) (xs : List Ptr)
    → ((a : Ptr) → a ∈ xs → next' a ≡ next a)
    → Chain next p xs
    → Chain next' p xs
Chain-frame next next' p [] same c = c
Chain-frame next next' p (x ∷ xs) same c = (
  c.0,
  c.1,
  c.2,
  rw (same x (ground arith))
      (Chain-frame next next' (next x) xs (λ a i. same a (ground arith)) c.3),
)

-- A queue is what it was after changes to the elements of another one.
pub IsQueue-frame :
    {next next' : Links} {q : Queue} (xs ys : List Ptr)
    → SameOutside xs next next'
    → Disjoint ys xs
    → IsQueue next q ys
    → IsQueue next' q ys
IsQueue-frame {next} {next'} {q} xs ys same apart is = record {
  chain = Chain-frame next next' q.head ys (λ a i. same a (apart a i)) is.chain;
  tail_is = is.tail_is;
}

pub Disjoint-symm : (xs ys : List Ptr) → Disjoint xs ys → Disjoint ys xs
Disjoint-symm xs ys apart a m = elim (Bool-cases (mem a xs)) [
  | inl i ↦ absurd (let o = apart a i in cc)
  | inr o ↦ o
]

pub Disjoint-single : (e : Ptr) (xs : List Ptr) → e ∉ xs → Disjoint xs (e ∷ [])
Disjoint-single e xs out a m = elim (Bool-cases (a == e)) [
  | inl s ↦ (let t : a ≡ e = ground arith in absurd (let o = rw t at m in cc))
  | inr s ↦ rw s
]

pub Disjoint-cons : (e : Ptr) (xs ys : List Ptr) → e ∉ ys → Disjoint xs ys → Disjoint (e ∷ xs) ys
Disjoint-cons e xs ys out apart a m = elim (Bool-cases (a == e)) [
  | inl s ↦ (let t : a ≡ e = ground arith in rw t out)
  | inr s ↦ apart a (rw s at m)
]

-- ===== src/System/Table.antt =====
-- Queues of entries of the table `pcbs` are no longer than the table (include/task.h).
use door_rtos.Base.{
  ℕ, zero, suc, ◌+◌, ◌≤◌, ◌<◌, ◌≡◌, ◌≢◌, refl, ◌⊎◌, inl, inr, Bool-cases, List, [], ◌∷◌, arith,
  ◌==◌, if◌then◌else◌, Ptr, null, Links, ◌∈◌, ◌∉◌, length,
}
use native.Mathlib.Decide.{dec_lt}
use door_rtos.Task.{max_processes, num_prio}
use door_rtos.Queue.Chain.{Chain}
use door_rtos.MetaQueue.{MetaQueue}
use door_rtos.MetaQueue.Invariant.{Lists, IsMeta}
use door_rtos.Kernel.Monad.{walk_fuel}
use door_rtos.Kernel.Ready.{IsFirst}

abbrev IsDistinct : List ℕ → Type 0
IsDistinct [] = Unit {0}
IsDistinct (x ∷ xs) = (x ∉ xs) × IsDistinct xs

-- The list without the first `a`.
remove : ℕ → List ℕ → List ℕ
remove a [] = []
remove a (x ∷ xs) = let rest = remove a xs in if x == a then xs else x ∷ rest

length-remove : (a : ℕ) (xs : List ℕ) → length xs ≤ suc (length (remove a xs))
unfolding remove
length-remove a [] = omega arith
length-remove a (x ∷ xs) = ground (arith, length-remove a xs)

mem-remove : (a b : ℕ) (xs : List ℕ) → b ∈ remove a xs → b ∈ xs
unfolding remove
mem-remove a b [] m = m
mem-remove a b (x ∷ xs) m = ground (arith, mem-remove a b xs)

not-mem-remove : (a b : ℕ) (xs : List ℕ) → b ∉ xs → b ∉ remove a xs
unfolding remove
not-mem-remove a b [] out = out
not-mem-remove a b (x ∷ xs) out = ground (arith, not-mem-remove a b xs)

not-mem-remove_self : (a : ℕ) (xs : List ℕ) → IsDistinct xs → a ∉ remove a xs
unfolding remove
not-mem-remove_self a [] d = refl
not-mem-remove_self a (x ∷ xs) d = ground (arith, d.0, not-mem-remove_self a xs d.1)

remove-IsDistinct : (a : ℕ) (xs : List ℕ) → IsDistinct xs → IsDistinct (remove a xs)
unfolding remove
remove-IsDistinct a [] d = tt
remove-IsDistinct a (x ∷ xs) d = elim (Bool-cases (x == a)) [
  | inl s ↦ rw s d.1
  | inr s ↦ rw s (not-mem-remove a x xs d.0, remove-IsDistinct a xs d.1)
]

-- As many distinct numbers as there are from 1 to `n`, at most.
length-le :
    (n : ℕ) (xs : List ℕ) → IsDistinct xs → ((b : ℕ) → b ∈ xs → (0 < b) × (b ≤ n)) → length xs ≤ n
length-le n [] d h = omega arith
length-le zero (x ∷ xs) d h = absurd (let low = h x (ground arith) in omega arith)
length-le (suc n) (x ∷ xs) d h =
    let rest = length-le n (remove (suc n) (x ∷ xs)) (remove-IsDistinct (suc n) (x ∷ xs) d) (λ b m.
      let in_range = h b (mem-remove (suc n) b (x ∷ xs) m) in
      let out = not-mem-remove_self (suc n) (x ∷ xs) d in
      let other : b ≢ suc n = λ s. (let m' = rw s at m in cc) in omega arith) in
    omega (arith, length-remove (suc n) (x ∷ xs))

Chain-IsDistinct : (next : Links) (p : Ptr) (xs : List Ptr) → Chain next p xs → IsDistinct xs
Chain-IsDistinct next p [] c = tt
Chain-IsDistinct next p (x ∷ xs) c = (c.2, Chain-IsDistinct next (next x) xs c.3)

Chain-some : (next : Links) (p : Ptr) (xs : List Ptr) → Chain next p xs → (b : Ptr) → b ∈ xs → 0 < b
Chain-some next p [] c b m = absurd (ground arith)
Chain-some next p (x ∷ xs) c b m = elim (Bool-cases (b == x)) [
  | inl s ↦ (let t : b ≡ x = ground arith in let ne : x ≢ null = c.1 in omega arith)
  | inr s ↦ Chain-some next (next x) xs c.3 b (rw s at m)
]

-- Every process in the queues is an entry of the table.
abbrev pub Tabled : Lists → Type 0
Tabled xss = (i : ℕ) → i ≤ num_prio → (a : Ptr) → a ∈ xss i → a ≤ max_processes

pub length-Tabled :
    (next : Links) (p : Ptr) (n : ℕ) (xs : List Ptr)
    → Chain next p xs
    → ((a : Ptr) → a ∈ xs → a ≤ n)
    → length xs ≤ n
length-Tabled next p n xs c tabled =
    length-le n xs (Chain-IsDistinct next p xs c) (λ b m. (Chain-some next p xs c b m, tabled b m))

abbrev AllEmpty : Lists → ℕ → Type 0
AllEmpty xss n = (i : ℕ) → i < n → xss i ≡ []

-- The smallest number below `n` with a process, if there is one.
abbrev Smallest : Lists → ℕ → Type 0
Smallest xss n = (p : ℕ) × (x : Ptr) × (xs : List Ptr) × (p < n) × (xss p ≡ x ∷ xs) × AllEmpty xss p

at_last :
    (xss : Lists) (n : ℕ) (xs : List Ptr)
    → xss n ≡ xs
    → AllEmpty xss n
    → AllEmpty xss (suc n) ⊎ Smallest xss (suc n)
at_last xss n [] e none =
    inl (λ i h. elim (dec_lt i n) [
      | yes l ↦ none i l
      | no g ↦ (let s : i ≡ n = omega arith in rw s e)
    ])
at_last xss n (x ∷ xs) e none = inr (n, x, xs, omega arith, e, none)

find-Smallest : (xss : Lists) (n : ℕ) → AllEmpty xss n ⊎ Smallest xss n
find-Smallest xss zero = inl (λ i h. absurd (omega arith))
find-Smallest xss (suc n) = elim (find-Smallest xss n) [
  | inr (p, x, xs, h, e, low) ↦ inr (p, x, xs, omega arith, e, low)
  | inl none ↦ at_last xss n (xss n) refl none
]

-- Well-formed queues of entries of the table are all empty, or there is an oldest process of the
-- smallest number.
pub IsFirst-cases :
    {next : Links} {mq : MetaQueue} {xss : Lists}
    → IsMeta next mq xss
    → Tabled xss
    → ((i : ℕ) → i ≤ num_prio → xss i ≡ [])
      ⊎ ((p : ℕ) × (x : Ptr) × (xs : List Ptr) × IsFirst xss p x xs)
unfolding walk_fuel
IsFirst-cases {next} {mq} {xss} is tabled = elim (find-Smallest xss (num_prio + 1)) [
  | inl none ↦ inl (λ i h. none i (omega arith))
  | inr (p, x, xs, h, e, low) ↦
      let b : p ≤ num_prio = omega arith in
      let small : length (x ∷ xs) ≤ max_processes =
        length-Tabled next _ max_processes (x ∷ xs) (rw e at (is.family.queues p b).chain)
          (rw e at (tabled p b)) in
      inr (p, x, xs, record { bound = b; holds = e; low = low; enough = omega arith })
]

-- ===== src/MetaQueue/Remove/Keeps.antt =====
-- `remove_element` of kernel/queue.c at the head, in the middle, and for the only process of a
-- queue.
use door_rtos.Base.{
  ℕ, ◌≤◌, ◌<◌, ◌≡◌, ◌≢◌, sym, refl, ◌⊎◌, inl, inr, List, [], ◌∷◌, ◌++◌, arith, ◌==◌, Bool-cases,
  Ptr, null, Links, Outcome, ok, write, write_ne, ◌∈◌, length, last, not-mem-last,
}
use door_rtos.Queue.{Queue, queue}
use door_rtos.Queue.Chain.{IsQueue, Disjoint, SameOutside}
use door_rtos.Task.{num_prio, rtx_success}
use door_rtos.MetaQueue.{MetaQueue, raise_fuel, remove_element}
use door_rtos.MetaQueue.Invariant.{
  Lists, IsMeta, IsFamily, IsHighest, IsFamily-write, raise_highest-Raised,
}
use door_rtos.MetaQueue.Dequeue.{IsHighest-Raised}
use door_rtos.MetaQueue.Remove.{
  find_element-mem, not-mem-before, Chain-at, ne-last, mem-skip, unlink-head, unlink-middle,
  remove_element-unlink,
}

-- The process is gone from its queue, and the others are as they were.
abbrev pub Removed : Links → Lists → ℕ → List Ptr → Outcome (ℕ × MetaQueue × Links) → Type 0
Removed next xss i zs r =
    (mq' : MetaQueue) × (next' : Links) × (r ≡ ok (rtx_success, mq', next'))
    × IsMeta next' mq' (write xss i zs)
    × SameOutside (xss i) next next'

IsHighest-replace :
    {p : ℕ} {xss : Lists} (i : ℕ) (zs : List Ptr)
    → xss i ≢ []
    → zs ≢ []
    → IsHighest p xss
    → IsHighest p (write xss i zs)
unfolding write
IsHighest-replace {p} i zs ne ne' is = record {
  bound = is.bound;
  below = λ j l. elim (Bool-cases (j == i)) [
    | inl s ↦ (let t : i ≡ j = ground arith in absurd (ne (rw t (is.below j l))))
    | inr s ↦ rw s (is.below j l)
  ];
  top = λ b. elim (Bool-cases (p == i)) [ inl s ↦ rw s ne' | inr s ↦ rw s (is.top b) ];
}

write-nil : (xss : Lists) (i j : ℕ) → xss j ≡ [] → write xss i [] j ≡ []
unfolding write
write-nil xss i j e = ground arith

Disjoint-sub :
    (xs zs ys : List Ptr) → ((a : Ptr) → a ∈ zs → a ∈ xs) → Disjoint xs ys → Disjoint zs ys
Disjoint-sub xs zs ys sub apart a m = apart a (sub a m)

module _ {next next' : Links} {mq : MetaQueue} {xss : Lists} (is : IsMeta next mq xss) where
  IsFamily-replace :
      {q' : Queue} (i : ℕ) (zs : List Ptr)
      → i ≤ num_prio
      → SameOutside (xss i) next next'
      → IsQueue next' q' zs
      → ((a : Ptr) → a ∈ zs → a ∈ xss i)
      → IsFamily next' (write mq.subqueues i q') (write xss i zs)
  IsFamily-replace i zs h same new sub = IsFamily-write i (xss i) is.family same new (λ j b n. (
    is.family.apart j i b h n,
    Disjoint-sub (xss i) zs (xss j) sub (is.family.apart i j h b (λ t. n (sym t))),
  ))

nil-IsQueue : (next : Links) → IsQueue next (queue null null) []
nil-IsQueue next = record { chain = refl; tail_is = tt }

module _ {next : Links} {mq : MetaQueue} {xss : Lists} (is : IsMeta next mq xss) (fuel i : ℕ)
    (pcb : Ptr) (bound : i ≤ num_prio) where
  remove-only :
      xss i ≡ pcb ∷ [] → 0 < fuel → Removed next xss i [] (remove_element fuel mq i pcb next)
  unfolding remove_element
  remove-only e h =
      let here : IsQueue next (mq.subqueues i) (pcb ∷ []) = rw e at (is.family.queues i bound) in
      let found =
        find_element-mem next pcb fuel null (mq.subqueues i).head [] [] here.chain refl h in
      let family = IsFamily-replace is i [] bound (λ a o. refl) (nil-IsQueue next) (λ a m. cc) in
      let (p', up, raised) =
        raise_highest-Raised raise_fuel mq.highest_prio (write mq.subqueues i (queue null null))
          (omega arith) is.highest.bound in
      (
        record { highest_prio = p'; subqueues = write mq.subqueues i (queue null null) },
        next,
        ground (arith, here.chain.1, here.chain.0, here.tail_is, found, up),
        record {
          family = family;
          highest =
              IsHighest-Raised family (λ j l. write-nil xss i j (is.highest.below j l)) raised;
        },
        λ a o. refl,
      )

  remove-head :
      (y : Ptr) (ys : List Ptr)
      → xss i ≡ pcb ∷ y ∷ ys
      → 0 < fuel
      → Removed next xss i (y ∷ ys) (remove_element fuel mq i pcb next)
  remove-head y ys e h =
      let here : IsQueue next (mq.subqueues i) (pcb ∷ y ∷ ys) =
        rw e at (is.family.queues i bound) in
      let (cut, isq) = unlink-head next (mq.subqueues i) pcb y ys here in
      let found =
        find_element-mem next pcb fuel null (mq.subqueues i).head [] (y ∷ ys) here.chain refl h in
      (
        record mq { subqueues = write mq.subqueues i (queue (next pcb) (mq.subqueues i).tail) },
        next,
        remove_element-unlink fuel i next mq pcb here.chain.1 found
            (inr (ground (arith, here.tail_is, not-mem-last pcb y ys here.chain.2))) cut,
        record {
          family =
              IsFamily-replace is i (y ∷ ys) bound (λ a o. refl) isq (λ a m. rw e (ground arith));
          highest = IsHighest-replace i (y ∷ ys) (rw e (λ t. cc)) (λ t. cc) is.highest;
        },
        λ a o. refl,
      )

  remove-middle :
      (x z : Ptr) (xs ys : List Ptr)
      → xss i ≡ x ∷ xs ++ pcb ∷ z ∷ ys
      → length (x ∷ xs) < fuel
      → Removed next xss i (x ∷ xs ++ z ∷ ys) (remove_element fuel mq i pcb next)
  remove-middle x z xs ys e h =
      let here : IsQueue next (mq.subqueues i) (x ∷ xs ++ pcb ∷ z ∷ ys) =
        rw e at (is.family.queues i bound) in
      let (cut, isq) = unlink-middle next (mq.subqueues i) pcb x z xs ys here in
      let out = not-mem-before next (mq.subqueues i).head pcb (x ∷ xs) (z ∷ ys) here.chain in
      let found =
        find_element-mem next pcb fuel null (mq.subqueues i).head (x ∷ xs) (z ∷ ys) here.chain out
          h in
      let at = Chain-at next (mq.subqueues i).head pcb (x ∷ xs) (z ∷ ys) here.chain in
      let same : SameOutside (xss i) next (write next (last x xs) z) = λ a o.
        write_ne next (last x xs) z a (ground (arith, ne-last a x pcb xs (z ∷ ys) (rw e at o))) in
      (
        record mq { subqueues = write mq.subqueues i (mq.subqueues i) },
        write next (last x xs) z,
        remove_element-unlink fuel i next mq pcb at.0 found
            (inl (ground (arith, here.chain.0, out))) cut,
        record {
          family =
              IsFamily-replace is i (x ∷ xs ++ z ∷ ys) bound same isq
                (λ a m. rw e (mem-skip a pcb (x ∷ xs) (z ∷ ys) m));
          highest = IsHighest-replace i (x ∷ xs ++ z ∷ ys) (rw e (λ t. cc)) (λ t. cc) is.highest;
        },
        same,
      )

  -- On well-formed queues, `remove_element` of a process that stands in the queue of a priority
  -- in range, within the fuel, and is not the last of several takes it out, keeps the order of
  -- the rest and the queues well formed, and writes no link outside that queue.
  pub remove_element-IsMeta :
      (xs ys : List Ptr)
      → xss i ≡ xs ++ pcb ∷ ys
      → (xs ≡ []) ⊎ (ys ≢ [])
      → length xs < fuel
      → Removed next xss i (xs ++ ys) (remove_element fuel mq i pcb next)
  remove_element-IsMeta [] [] e k h = remove-only e h
  remove_element-IsMeta [] (y ∷ ys) e k h = remove-head y ys e h
  remove_element-IsMeta (x ∷ xs) [] e (inl k) h = absurd (cc)
  remove_element-IsMeta (x ∷ xs) [] e (inr k) h = absurd (k refl)
  remove_element-IsMeta (x ∷ xs) (z ∷ ys) e k h = remove-middle x z xs ys e h

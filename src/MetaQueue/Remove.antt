-- ===== src/MetaQueue/Remove.antt =====
-- The search and the relinking of `remove_element` (kernel/queue.c), on one queue.
pub mod Keeps
pub mod Tail
use door_rtos.Base.{
  ℕ, zero, suc, ◌+◌, ◌≤◌, ◌<◌, ◌≡◌, ◌≢◌, sym, refl, Bool, true, false, ◌⊎◌, inl, inr, List, [], ◌∷◌,
  ◌++◌, arith, ltb, ◌==◌, if◌then◌else◌, Bool-cases, Ptr, null, Links, Outcome, ok, fault, write,
  write_self, write_ne, ◌∈◌, ◌∉◌, mem, length, last, ◌>>=◌, not-mem-last, ◌∙◌,
}
use door_rtos.Queue.{Queue, queue, seek, dequeue_fifo}
use door_rtos.Queue.Chain.{
  Chain, TailIs, IsQueue, Disjoint, SameOutside, IsQueue-frame, Chain-write,
}
use door_rtos.Task.{num_prio, rtx_success, rtx_error}
use door_rtos.MetaQueue.{MetaQueue, raise_highest, raise_fuel, find_element, unlink, remove_element}
use door_rtos.MetaQueue.Invariant.{
  Lists, IsMeta, IsFamily, IsHighest, IsFamily-write, Raised, raise_highest-Raised,
}

module _ (next : Links) (pcb : Ptr) where
  pub find_element-mem :
      (fuel : ℕ) (previous p : Ptr) (xs ys : List Ptr)
      → Chain next p (xs ++ pcb ∷ ys)
      → pcb ∉ xs
      → length xs < fuel
      → find_element fuel previous p pcb next ≡ ok (last previous xs, pcb)
  unfolding find_element
  find_element-mem zero previous p xs ys c out h = absurd (omega arith)
  find_element-mem (suc fuel) previous p [] ys c out h = ground (arith, c.0)
  find_element-mem (suc fuel) previous p (x ∷ xs) ys c out h =
      ground (arith, c.0, c.1, find_element-mem fuel x (next x) xs ys c.3)

  find_element-absent :
      (fuel : ℕ) (previous p : Ptr) (xs : List Ptr)
      → pcb ≢ null
      → Chain next p xs
      → pcb ∉ xs
      → length xs < fuel
      → find_element fuel previous p pcb next ≡ ok (last previous xs, null)
  unfolding find_element
  find_element-absent zero previous p xs ne c out h = absurd (omega arith)
  find_element-absent (suc fuel) previous p [] ne c out h = ground (arith, c)
  find_element-absent (suc fuel) previous p (x ∷ xs) ne c out h =
      ground (arith, c.0, c.1, find_element-absent fuel x (next x) xs ne c.3)

-- `remove_element` of a process that is not in the given well-formed queue, within the fuel,
-- returns the error code and changes nothing.
pub remove_element-absent :
    (fuel i : ℕ) (next : Links) (mq : MetaQueue) (pcb : Ptr) (xs : List Ptr)
    → IsQueue next (mq.subqueues i) xs
    → pcb ∉ xs
    → length xs < fuel
    → remove_element fuel mq i pcb next ≡ ok (rtx_error, mq, next)
unfolding remove_element
remove_element-absent fuel i next mq pcb xs is out h = elim (Bool-cases (pcb == null)) [
  | inl n ↦ rw n
  | inr n ↦ rw (n, find_element-absent next pcb fuel null _ xs (ground arith) is.chain out h)
]

-- Cutting one element out of the middle.
pub not-mem-skip : (a e : Ptr) (xs ys : List Ptr) → a ∉ xs ++ e ∷ ys → (a ∉ xs ++ ys) × (a ∉ e ∷ ys)
not-mem-skip a e [] ys h = ground arith
not-mem-skip a e (x ∷ xs) ys h = ground (arith, not-mem-skip a e xs ys)

pub ne-last : (a x e : Ptr) (xs ys : List Ptr) → a ∉ x ∷ xs ++ e ∷ ys → (a == last x xs) ≡ false
ne-last a x e [] ys h = ground arith
ne-last a x e (y ∷ xs) ys h = ground (arith, ne-last a y e xs ys)

pub mem-skip : (a e : Ptr) (xs ys : List Ptr) → a ∈ xs ++ ys → a ∈ xs ++ e ∷ ys
mem-skip a e [] ys h = ground arith
mem-skip a e (x ∷ xs) ys h = ground (arith, mem-skip a e xs ys)

pub last-append : (x e : Ptr) (xs ys : List Ptr) → last x (xs ++ e ∷ ys) ≡ last e ys
last-append x e [] ys = refl
last-append x e (y ∷ xs) ys = last-append y e xs ys

pub Chain-at :
    (next : Links) (p e : Ptr) (xs ys : List Ptr)
    → Chain next p (xs ++ e ∷ ys)
    → (e ≢ null) × (e ∉ ys) × Chain next (next e) ys
Chain-at next p e [] ys c = (c.1, c.2, c.3)
Chain-at next p e (x ∷ xs) ys c = Chain-at next (next x) e xs ys c.3

Chain-unlink :
    (next : Links) (p e y z : Ptr) (xs ys : List Ptr)
    → Chain next p (y ∷ xs ++ e ∷ z ∷ ys)
    → Chain (write next (last y xs) z) p (y ∷ xs ++ z ∷ ys)
Chain-unlink next p e y z [] ys (a, ne, out, (b, ne', out', (c, ne'', out'', rest))) =
    let far : y ∉ z ∷ ys = ground arith in
    let here : write next y z y ≡ z = write_self next y z in
    let there : write next y z z ≡ next z = write_ne next y z z (ground arith) in
    (
      a,
      ne,
      far,
      rw here (refl, ne'', out'', rw there (Chain-write next (next z) y z ys (ground arith) rest)),
    )
Chain-unlink next p e y z (x ∷ xs) ys (a, ne, out, rest) =
    let same : write next (last x xs) z y ≡ next y =
      write_ne next (last x xs) z y (ground (arith, ne-last y x e xs (z ∷ ys) out)) in
    (
      a,
      ne,
      (not-mem-skip y e (x ∷ xs) (z ∷ ys) out).0,
      rw same (Chain-unlink next (next y) e x z xs ys rest),
    )

-- What stands around a removed element.
module _ (next : Links) (q : Queue) (pcb : Ptr) where
  pub unlink-head :
      (y : Ptr) (ys : List Ptr)
      → IsQueue next q (pcb ∷ y ∷ ys)
      → (unlink q null pcb next ≡ (queue (next pcb) q.tail, next))
        × IsQueue next (queue (next pcb) q.tail) (y ∷ ys)
  unfolding unlink
  unlink-head y ys is =
      (ground (arith, is.chain.0), record { chain = is.chain.3; tail_is = is.tail_is })

  pub unlink-middle :
      (x z : Ptr) (xs ys : List Ptr)
      → IsQueue next q (x ∷ xs ++ pcb ∷ z ∷ ys)
      → (unlink q (last x xs) pcb next ≡ (q, write next (last x xs) z))
        × IsQueue (write next (last x xs) z) q (x ∷ xs ++ z ∷ ys)
  unfolding unlink
  unlink-middle x z xs ys is =
      let (ne, out, (e, _, _, _)) = Chain-at next q.head pcb (x ∷ xs) (z ∷ ys) is.chain in
      let apart : x ∉ pcb ∷ z ∷ ys = (not-mem-skip x pcb xs (z ∷ ys) is.chain.2).1 in
      let tail : q.tail ≡ last z ys = is.tail_is ∙ last-append x pcb xs (z ∷ ys) in
      (
        ground (arith, e, apart, tail, is.chain.0, not-mem-last pcb z ys out),
        record {
          chain = Chain-unlink next q.head pcb x z xs ys is.chain;
          tail_is = tail ∙ sym (last-append x z xs ys);
        },
      )

  -- The tail moves, but the link to the removed process stays.
  pub unlink-tail :
      (x : Ptr) (xs : List Ptr)
      → IsQueue next q (x ∷ xs ++ pcb ∷ [])
      → unlink q (last x xs) pcb next ≡ (queue q.head (last x xs), next)
  unfolding unlink
  unlink-tail x xs is =
      let apart : x ∉ pcb ∷ [] = (not-mem-skip x pcb xs [] is.chain.2).1 in
      ground (arith, apart, is.chain.0, is.tail_is ∙ last-append x pcb xs [])

pub not-mem-before :
    (next : Links) (p e : Ptr) (xs ys : List Ptr) → Chain next p (xs ++ e ∷ ys) → e ∉ xs
not-mem-before next p e [] ys c = refl
not-mem-before next p e (x ∷ xs) ys c =
    ground (arith, (not-mem-skip x e xs ys c.2).1, not-mem-before next (next x) e xs ys c.3)

-- With more than one element in the queue, `remove_element` relinks it.
pub remove_element-unlink :
    {previous : Ptr} {q' : Queue} {next' : Links} (fuel i : ℕ) (next : Links) (mq : MetaQueue)
    (pcb : Ptr)
    → pcb ≢ null
    → find_element fuel null (mq.subqueues i).head pcb next ≡ ok (previous, pcb)
    → (pcb ≢ (mq.subqueues i).head) ⊎ (pcb ≢ (mq.subqueues i).tail)
    → unlink (mq.subqueues i) previous pcb next ≡ (q', next')
    → remove_element fuel mq i pcb next
      ≡ ok (rtx_success, record mq { subqueues = write mq.subqueues i q' }, next')
unfolding remove_element
remove_element-unlink fuel i next mq pcb ne found more cut = ground (arith, found, more, cut)

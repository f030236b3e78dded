-- ===== src/Queue/Twice.antt =====
-- What becomes of a queue when the element at its head is put in again (kernel/queue.c).
use door_rtos.Base.{
  ℕ, zero, suc, ◌≡◌, ◌≢◌, refl, false, List, ◌∷◌, arith, ◌==◌, Ptr, null, Links, ok, out_of_fuel,
  write, write_self, last, not-mem-last,
}
use door_rtos.Queue.{Queue, queue, is_empty, enqueue, seek, cut_tail, dequeue_fifo}
use door_rtos.Queue.Chain.{IsQueue}

seek_self :
    (next : Links) (e t : Ptr) (fuel : ℕ)
    → e ≢ null
    → next e ≡ e
    → e ≢ t
    → seek fuel e t next ≡ out_of_fuel
unfolding seek
seek_self next e t zero ne loop other = refl
seek_self next e t (suc fuel) ne loop other =
    let rest = seek_self next e t fuel ne loop other in ground (arith, ne, loop, other, rest)

cut_tail_self :
    (next : Links) (e t : Ptr) (fuel : ℕ)
    → e ≢ null
    → next e ≡ e
    → e ≢ t
    → cut_tail fuel (queue e t) next ≡ out_of_fuel
unfolding cut_tail
cut_tail_self next e t fuel ne loop other = rw (seek_self next e t fuel ne loop other)

-- Putting in the head of a queue of two or more makes its link lead to itself, and then
-- `dequeue_PCB_FIFO` does not come to an end: no fuel is enough.
pub enqueue-hangs :
    (next : Links) (q : Queue) (e y : Ptr) (ys : List Ptr)
    → IsQueue next q (e ∷ y ∷ ys)
    → (q' : Queue) × (next' : Links) × (enqueue q e next ≡ ok (q', next'))
      × (next' e ≡ e)
      × ((fuel : ℕ) → dequeue_fifo fuel q' next' ≡ out_of_fuel)
unfolding enqueue write dequeue_fifo is_empty
enqueue-hangs next q e y ys is =
    let (at, ne, out, _) = is.chain in
    let tail : q.tail ≡ last y ys = is.tail_is in
    let other : (e == last y ys) ≡ false = not-mem-last e y ys out in
    let loop : write next e e e ≡ e = write_self next e e in
    (
      queue e q.tail,
      write next e e,
      ground (arith, at, ne),
      loop,
      λ fuel.
          let hang = cut_tail_self (write next e e) e q.tail fuel ne loop (ground arith) in
          ground (arith, hang, ne, loop),
    )

-- ===== src/Queue/Fifo.antt =====
-- Putting elements in at the head and taking them out at the tail, against the list that a queue
-- stands for.
use door_rtos.Base.{
  ℕ, zero, suc, ◌<◌, ◌≡◌, ◌≢◌, refl, false, List, [], ◌∷◌, arith, ◌==◌, Ptr, null, Links, Outcome,
  ok, write, write_self, length, ◌≤◌, last, front, ◌∈◌, ◌∉◌, not-mem-last,
}
use door_rtos.Queue.{Queue, queue, init_queue, enqueue, seek, dequeue_fifo, dequeue_lifo}
use door_rtos.Queue.Chain.{Chain, TailIs, IsQueue, SameOutside, Chain-write}

-- The last element but one of `x ∷ y ∷ ys`.
abbrev pub penult : Ptr → Ptr → List Ptr → Ptr
penult x y [] = x
penult x y (z ∷ zs) = penult y z zs

pub mem-penult : (x y : Ptr) (ys : List Ptr) → penult x y ys ∈ x ∷ front y ys
mem-penult x y [] = ground arith
mem-penult x y (z ∷ zs) = ground (arith, mem-penult y z zs)

last-front : (x y : Ptr) (ys : List Ptr) → penult x y ys ≡ last x (front y ys)
last-front x y [] = refl
last-front x y (z ∷ zs) = last-front y z zs

mem-front : (a y : Ptr) (ys : List Ptr) → a ∈ front y ys → a ∈ y ∷ ys
mem-front a y [] h = ground arith
mem-front a y (z ∷ zs) h = ground (arith, mem-front a z zs)

-- The last element but one is the first element or stands further on.
penult-ne : (x y z : Ptr) (zs : List Ptr) → x ∉ y ∷ z ∷ zs → (x == penult y z zs) ≡ false
penult-ne x y z [] h = ground arith
penult-ne x y z (w ∷ ws) h = ground (arith, penult-ne x z w ws)

not-mem-penult : (x y : Ptr) (ys : List Ptr) → x ∉ y ∷ ys → x ∉ front y ys
not-mem-penult x y [] h = refl
not-mem-penult x y (z ∷ zs) h = ground (arith, not-mem-penult x z zs)

module _ (next : Links) where
  seek-penult :
      (fuel : ℕ) (x y : Ptr) (ys : List Ptr)
      → Chain next x (x ∷ y ∷ ys)
      → length ys < fuel
      → seek fuel x (last y ys) next ≡ ok (penult x y ys)
  unfolding seek
  seek-penult zero x y ys c h = absurd (omega arith)
  seek-penult (suc fuel) x y [] c h = ground arith
  seek-penult (suc fuel) x y (z ∷ zs) (_, ne, out, (e, ne', out', c)) h =
      ground (arith, e, not-mem-last y z zs out', seek-penult fuel y z zs (refl, ne', out', c))

  Chain-cut :
      (x y : Ptr) (ys : List Ptr)
      → Chain next x (x ∷ y ∷ ys)
      → Chain (write next (penult x y ys) null) x (front x (y ∷ ys))
  unfolding write
  Chain-cut x y [] c = ground arith
  Chain-cut x y (z ∷ zs) (_, ne, out, (e, ne', out', c)) =
      let step : write next (penult y z zs) null x ≡ y = ground (arith, penult-ne x y z zs out) in
      (refl, ne, not-mem-penult x y (z ∷ zs) out, rw step (Chain-cut y z zs (refl, ne', out', c)))

  -- Taking from a queue of two or more.
  dequeue_fifo-cons :
      (fuel : ℕ) (q : Queue) (x y : Ptr) (ys : List Ptr)
      → IsQueue next q (x ∷ y ∷ ys)
      → length ys < fuel
      → dequeue_fifo fuel q next
        ≡ ok (last y ys, queue x (penult x y ys), write next (penult x y ys) null)
  unfolding dequeue_fifo
  dequeue_fifo-cons fuel q x y ys is h =
      let (e, ne, out, c) = is.chain in
      ground (arith, c.0, c.1, seek-penult fuel x y ys (refl, ne, out, c) h)

-- What taking from the queue of `x ∷ xs` leaves: the last element is handed out, the others stay
-- in their order, and no link of another structure changes.
abbrev pub Taken : Links → Ptr → List Ptr → Outcome (Ptr × Queue × Links) → Type 0
Taken next x xs r =
    (q' : Queue) × (next' : Links) × (r ≡ ok (last x xs, q', next'))
    × IsQueue next' q' (front x xs)
    × SameOutside (x ∷ xs) next next'

-- `dequeue_PCB_FIFO` on a well-formed queue that is not empty and within the fuel returns its
-- oldest element, leaves the others in order and the queue well formed, and writes no link
-- outside the queue.
pub dequeue_fifo-Taken :
    (fuel : ℕ) (next : Links) (q : Queue) (x : Ptr) (xs : List Ptr)
    → IsQueue next q (x ∷ xs)
    → length xs ≤ fuel
    → Taken next x xs (dequeue_fifo fuel q next)
unfolding dequeue_fifo init_queue write
dequeue_fifo-Taken fuel next q x [] is h =
    (init_queue, next, ground arith, record { chain = refl; tail_is = tt }, λ a o. refl)
dequeue_fifo-Taken fuel next q x (y ∷ ys) is h =
    let (e, ne, out, c) = is.chain in
    (
      queue x (penult x y ys),
      write next (penult x y ys) null,
      dequeue_fifo-cons next fuel q x y ys is h,
      record { chain = Chain-cut next x y ys (refl, ne, out, c); tail_is = last-front x y ys },
      λ a o. ground (arith, penult-ne a x y ys o),
    )

pub dequeue_fifo-nil :
    (fuel : ℕ) (next : Links) (q : Queue)
    → IsQueue next q []
    → dequeue_fifo fuel q next ≡ ok (null, q, next)
unfolding dequeue_fifo
dequeue_fifo-nil fuel next q is = ground (arith, is.chain)

TailIs-rest : {t : Ptr} (x : Ptr) (xs : List Ptr) → t ≡ last x xs → TailIs xs t
TailIs-rest x [] e = tt
TailIs-rest x (y ∷ ys) e = e

dequeue_lifo_ne :
    (next : Links) (q : Queue) (x : Ptr)
    → q.head ≡ x
    → x ≢ null
    → dequeue_lifo q next ≡ (x, queue (next x) q.tail)
unfolding dequeue_lifo
dequeue_lifo_ne next q x e ne = ground arith

-- `dequeue_PCB_LIFO` on a well-formed queue that is not empty returns its newest element and
-- leaves a well-formed queue of the others.
pub dequeue_lifo-IsQueue :
    (next : Links) (q : Queue) (x : Ptr) (xs : List Ptr)
    → IsQueue next q (x ∷ xs)
    → ((dequeue_lifo q next).0 ≡ x) × IsQueue next (dequeue_lifo q next).1 xs
unfolding dequeue_lifo
dequeue_lifo-IsQueue next q x xs is =
    let (e, ne, out, c) = is.chain in
    (
      ground (arith, e, ne),
      rw (dequeue_lifo_ne next q x e ne)
          (record { chain = c; tail_is = TailIs-rest x xs is.tail_is }),
    )

-- `enqueue_PCB` of an element that is not NULL and not in the well-formed queue makes it the
-- newest, and writes no link but its own.
pub enqueue-IsQueue :
    (next : Links) (q : Queue) (e : Ptr) (xs : List Ptr)
    → IsQueue next q xs
    → e ≢ null
    → e ∉ xs
    → (q' : Queue) × (next' : Links) × (enqueue q e next ≡ ok (q', next'))
      × IsQueue next' q' (e ∷ xs)
      × SameOutside (e ∷ []) next next'
unfolding enqueue write
enqueue-IsQueue next q e [] is ne out = (
  queue e e,
  write next e null,
  ground arith,
  record { chain = (refl, ne, refl, ground arith); tail_is = refl },
  ground arith,
)
enqueue-IsQueue next q e (x ∷ xs) is ne out = (
  queue e q.tail,
  write next e q.head,
  ground arith,
  record {
    chain = (
      refl,
      ne,
      out,
      rw (write_self next e q.head) (Chain-write next q.head e q.head (x ∷ xs) out is.chain),
    );
    tail_is = is.tail_is;
  },
  ground arith,
)

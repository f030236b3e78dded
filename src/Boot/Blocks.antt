-- ===== src/Boot/Blocks.antt =====
-- The free memory after `init_free_memory` of kernel/init.c.
use door_rtos.Base.{
  ℕ, zero, suc, ◌+◌, ◌<◌, ◌≡◌, refl, Bool-cases, inl, inr, List, [], ◌∷◌, arith, ◌==◌, Ptr, Links,
  ok, ◌∈◌, ◌∉◌, mem, length,
}
use door_rtos.Queue.{Queue, init_queue, enqueue}
use door_rtos.Queue.Chain.{IsQueue}
use door_rtos.Queue.Fifo.{enqueue-IsQueue}
use door_rtos.Kernel.Monad.{Kernel, Run, done}
use door_rtos.Kernel.Queues.{enqueue_free_memory_queue, init_free_memory_queue}
use door_rtos.Boot.{num_mem_blocks, memory_block_size, add_blocks, init_free_memory}

-- The blocks from `temp` on in front of `xs`, the last one first.
unfoldable pub block_list : (rounds : ℕ) (temp : Ptr) → List Ptr → List Ptr
block_list zero temp xs = xs
block_list (suc rounds) temp xs = block_list rounds (temp + memory_block_size) (temp ∷ xs)

length-block_list :
    (rounds temp : ℕ) (xs : List Ptr) → length (block_list rounds temp xs) ≡ rounds + length xs
unfolding block_list
length-block_list zero temp xs = omega arith
length-block_list (suc rounds) temp xs =
    omega (arith, length-block_list rounds (temp + memory_block_size) (temp ∷ xs))

abbrev Below : Ptr → List Ptr → Type 0
Below temp xs = (a : Ptr) → a ∈ xs → a < temp

not-mem-Below : (temp : Ptr) (xs : List Ptr) → Below temp xs → temp ∉ xs
not-mem-Below temp xs low = elim (Bool-cases (mem temp xs)) [
  | inr o ↦ o
  | inl m ↦ absurd (omega (arith, low temp m))
]

Below-cons :
    (temp size : Ptr) (xs : List Ptr) → 0 < size → Below temp xs → Below (temp + size) (temp ∷ xs)
Below-cons temp size xs h low a m = elim (Bool-cases (a == temp)) [
  | inl s ↦ ground arith
  | inr s ↦ omega (arith, low a (rw s at m))
]

-- What the loop leaves: only the free queue and its links have changed.
abbrev pub Freed : Kernel → List Ptr → Run (Unit {0}) → Type 0
Freed k xs r =
    (q : Queue) × (next : Links) × (r ≡ done tt (record k { free_mem_q = q; block_next = next }))
    × IsQueue next q xs

enqueue_free-eq :
    (k : Kernel) (e : Ptr) (q : Queue) (next : Links)
    → enqueue k.free_mem_q e k.block_next ≡ ok (q, next)
    → enqueue_free_memory_queue e k ≡ done tt (record k { free_mem_q = q; block_next = next })
unfolding enqueue_free_memory_queue
enqueue_free-eq k e q next h = rw h

add_blocks-Freed :
    (rounds temp : ℕ) (k : Kernel) (xs : List Ptr)
    → IsQueue k.block_next k.free_mem_q xs
    → 0 < temp
    → Below temp xs
    → Freed k (block_list rounds temp xs) (add_blocks rounds temp k)
unfolding add_blocks block_list
add_blocks-Freed zero temp k xs is pos low = (k.free_mem_q, k.block_next, refl, is)
add_blocks-Freed (suc rounds) temp k xs is pos low =
    let (q, next, r, is', same) =
      enqueue-IsQueue k.block_next k.free_mem_q temp xs is (omega arith)
        (not-mem-Below temp xs low) in
    let (q', next', r', is'') =
      add_blocks-Freed rounds (temp + memory_block_size)
        (record k { free_mem_q = q; block_next = next }) (temp ∷ xs) is' (omega arith)
        (Below-cons temp memory_block_size xs (omega arith) low) in
    (q', next', rw (enqueue_free-eq k temp q next r) r', is'')

-- From a program's end that is not NULL on, `init_free_memory` makes 256 blocks, 260 bytes
-- apart, a well-formed free queue, the last one newest, and changes nothing else.
pub init_free_memory-Freed :
    (k : Kernel) (end_of_program : Ptr)
    → 0 < end_of_program
    → Freed k (block_list num_mem_blocks end_of_program []) (init_free_memory end_of_program k)
      × (length (block_list num_mem_blocks end_of_program []) ≡ 256)
unfolding init_free_memory init_free_memory_queue init_queue
init_free_memory-Freed k end_of_program pos = (
  add_blocks-Freed num_mem_blocks end_of_program (record k { free_mem_q = init_queue }) []
      (record { chain = refl; tail_is = tt }) pos (λ a m. cc),
  length-block_list num_mem_blocks end_of_program [],
)

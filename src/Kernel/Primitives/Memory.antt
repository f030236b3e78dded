-- ===== src/Kernel/Primitives/Memory.antt =====
-- Requests and releases of memory blocks (kernel/primitives.c): the free blocks are a queue.
pub mod Waits
pub mod Wakes
use door_rtos.Base.{
  ℕ, ◌≤◌, ◌≡◌, ◌≢◌, true, Bool-cases, inl, inr, List, [], ◌∷◌, arith, if◌then◌else◌, Ptr, null,
  Links, ok, length, last, front, ◌∉◌,
}
use door_rtos.Task.{rtx_success, num_prio}
use door_rtos.Queue.{Queue, enqueue, dequeue_fifo}
use door_rtos.Queue.Chain.{IsQueue}
use door_rtos.Queue.Fifo.{dequeue_fifo-Taken, dequeue_fifo-nil, enqueue-IsQueue}
use door_rtos.MetaQueue.{is_meta_empty}
use door_rtos.MetaQueue.Invariant.{Lists, IsMeta, is_meta_empty_iff}
use door_rtos.Kernel.Monad.{Kernel, done, walk_fuel}
use door_rtos.Kernel.Queues.{dequeue_memory_block_fifo, enqueue_free_memory_queue}
use door_rtos.Kernel.Primitives.{
  kernel_request_memory_block, kernel_release_memory_block, wait_for_memory,
}
use door_rtos.Kernel.Invariant.{Chain-last}

abbrev pub with_blocks : Kernel → Queue → Links → Kernel
with_blocks k q next = record k { free_mem_q = q; block_next = next }

module _ (k : Kernel) where
  request-eq :
      (b : Ptr) (q : Queue) (next : Links)
      → b ≢ null
      → dequeue_fifo walk_fuel k.free_mem_q k.block_next ≡ ok (b, q, next)
      → kernel_request_memory_block k ≡ done b (with_blocks k q next)
  unfolding kernel_request_memory_block dequeue_memory_block_fifo
  request-eq b q next ne r = ground (arith, r)

  request_empty-eq :
      dequeue_fifo walk_fuel k.free_mem_q k.block_next ≡ ok (null, k.free_mem_q, k.block_next)
      → kernel_request_memory_block k ≡ (if k.in_i_process then done null k else wait_for_memory k)
  unfolding kernel_request_memory_block dequeue_memory_block_fifo
  request_empty-eq r = elim (Bool-cases k.in_i_process) [ inl i ↦ rw (r, i) | inr o ↦ rw (r, o) ]

  -- When the free queue is not empty and within the walk's fuel, `kernel_request_memory_block`
  -- returns the block that has been free for longest, which is no longer in the queue, keeps the
  -- others in order, and changes only the free queue and its links.
  pub kernel_request_memory_block-last :
      (x : Ptr) (xs : List Ptr)
      → IsQueue k.block_next k.free_mem_q (x ∷ xs)
      → length xs ≤ walk_fuel
      → (q : Queue) × (next : Links) × (kernel_request_memory_block k
          ≡ done (last x xs) (with_blocks k q next))
        × IsQueue next q (front x xs)
        × (last x xs ∉ front x xs)
  kernel_request_memory_block-last x xs is h =
      let (q, next, r, is', same) =
        dequeue_fifo-Taken walk_fuel k.block_next k.free_mem_q x xs is h in
      let (out, ne) = Chain-last k.block_next k.free_mem_q.head x xs is.chain in
      (q, next, request-eq (last x xs) q next ne r, is', out)

  -- With no block left an i-process gets NULL, and any other process waits.
  pub kernel_request_memory_block-nil :
      IsQueue k.block_next k.free_mem_q []
      → kernel_request_memory_block k ≡ (if k.in_i_process then done null k else wait_for_memory k)
  kernel_request_memory_block-nil is =
      request_empty-eq (dequeue_fifo-nil walk_fuel k.block_next k.free_mem_q is)

  release-eq :
      (b : Ptr) (q : Queue) (next : Links)
      → enqueue k.free_mem_q b k.block_next ≡ ok (q, next)
      → is_meta_empty k.memory_wait_queue ≡ true
      → kernel_release_memory_block b k ≡ done rtx_success (with_blocks k q next)
  unfolding kernel_release_memory_block enqueue_free_memory_queue
  release-eq b q next r e = ground (arith, r, e)

  -- When no process waits for memory, `kernel_release_memory_block` of a block that is not NULL
  -- and not free succeeds, makes it the newest free block, and changes only the free queue and
  -- its links.
  pub kernel_release_memory_block-cons :
      (b : Ptr) (xs : List Ptr) (ws : Lists)
      → IsQueue k.block_next k.free_mem_q xs
      → IsMeta k.pcb_next k.memory_wait_queue ws
      → ((i : ℕ) → i ≤ num_prio → ws i ≡ [])
      → b ≢ null
      → b ∉ xs
      → (q : Queue) × (next : Links) × (kernel_release_memory_block b k
          ≡ done rtx_success (with_blocks k q next))
        × IsQueue next q (b ∷ xs)
  kernel_release_memory_block-cons b xs ws is waiting none_left ne out =
      let (q, next, r, is', same) = enqueue-IsQueue k.block_next k.free_mem_q b xs is ne out in
      (q, next, release-eq b q next r ((is_meta_empty_iff waiting).1 none_left), is')

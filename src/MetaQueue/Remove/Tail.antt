-- ===== src/MetaQueue/Remove/Tail.antt =====
-- `remove_element` of kernel/queue.c for the last process of several, and the queue that it leaves.
use door_rtos.Base.{
  ℕ, zero, suc, ◌+◌, ◌<◌, ◌≡◌, ◌≢◌, refl, inl, List, [], ◌∷◌, ◌++◌, arith, Ptr, null, Links, ok,
  fault, write, ◌∉◌, length, last,
}
use door_rtos.Queue.{queue, seek, dequeue_fifo}
use door_rtos.Queue.Chain.{Chain, IsQueue}
use door_rtos.Task.{rtx_success}
use door_rtos.MetaQueue.{MetaQueue, remove_element}
use door_rtos.MetaQueue.Remove.{
  find_element-mem, not-mem-before, Chain-at, unlink-tail, remove_element-unlink,
}

module _ (next : Links) (mq : MetaQueue) (fuel i : ℕ) (pcb : Ptr) where
  -- `remove_element` of the last of several processes of a well-formed queue, within the fuel,
  -- succeeds, makes the process before it the tail, and writes no link: that to the removed
  -- process stays.
  pub remove_element-tail :
      (x : Ptr) (xs : List Ptr)
      → IsQueue next (mq.subqueues i) (x ∷ xs ++ pcb ∷ [])
      → length (x ∷ xs) < fuel
      → remove_element fuel mq i pcb next
        ≡ ok (
          rtx_success,
          record mq { subqueues = write mq.subqueues i (queue (mq.subqueues i).head (last x xs)) },
          next,
        )
  remove_element-tail x xs is h =
      let out = not-mem-before next (mq.subqueues i).head pcb (x ∷ xs) [] is.chain in
      let found =
        find_element-mem next pcb fuel null (mq.subqueues i).head (x ∷ xs) [] is.chain out h in
      remove_element-unlink fuel i next mq pcb
        (Chain-at next (mq.subqueues i).head pcb (x ∷ xs) [] is.chain).0 found
        (inl (ground (arith, is.chain.0, out))) (unlink-tail next (mq.subqueues i) pcb x xs is)

-- A walk for an element that the chain does not lead to runs into NULL.
seek-fault :
    (next : Links) (fuel : ℕ) (p temp : Ptr) (zs : List Ptr)
    → Chain next p zs
    → temp ≢ null
    → temp ∉ zs
    → length zs < fuel
    → seek fuel p temp next ≡ fault
unfolding seek
seek-fault next zero p temp zs c ne out h = absurd (omega arith)
seek-fault next (suc fuel) p temp [] c ne out h = ground (arith, c)
seek-fault next (suc fuel) p temp (z ∷ []) c ne out h =
    ground (arith, c, c.3, seek-fault next fuel (next z) temp [] c.3 ne refl)
seek-fault next (suc fuel) p temp (z ∷ w ∷ ws) c ne out h =
    ground (arith, c, c.3.0, seek-fault next fuel (next z) temp (w ∷ ws) c.3 ne)

seek-fault_self :
    (next : Links) (fuel : ℕ) (x pcb : Ptr) (zs : List Ptr)
    → x ≢ null
    → next x ≡ pcb
    → Chain next pcb (pcb ∷ zs)
    → x ∉ pcb ∷ zs
    → length zs + 2 < fuel
    → seek fuel x x next ≡ fault
unfolding seek
seek-fault_self next zero x pcb zs ne e c out h = absurd (omega arith)
seek-fault_self next (suc fuel) x pcb zs ne e c out h =
    ground (arith, seek-fault next fuel pcb x (pcb ∷ zs) c ne out)

-- Where the one process `x` of a queue is its head and tail and still links to a process `pcb`
-- that begins a chain without `x`, within the fuel, `dequeue_PCB_FIFO` follows that chain to its
-- end and dereferences NULL.
pub dequeue_fifo-fault :
    (next : Links) (fuel : ℕ) (x pcb : Ptr) (zs : List Ptr)
    → x ≢ null
    → next x ≡ pcb
    → Chain next pcb (pcb ∷ zs)
    → x ∉ pcb ∷ zs
    → length zs + 2 < fuel
    → dequeue_fifo fuel (queue x x) next ≡ fault
unfolding dequeue_fifo
dequeue_fifo-fault next fuel x pcb zs ne e c out h =
    let lost : seek fuel x x next ≡ fault = seek-fault_self next fuel x pcb zs ne e c out h in
    ground (arith, e, ne, c.1, lost)

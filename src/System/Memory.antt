-- ===== src/System/Memory.antt =====
-- Requests and releases of memory blocks in a kernel that runs (kernel/primitives.c).
use door_rtos.Base.{
  ℕ, ◌≤◌, ◌≢◌, ◌∙◌, ap, inl, inr, Bool-cases, List, [], ◌∷◌, arith, ltb, if◌then◌else◌, Ptr, null,
  Links, length, last, ◌∉◌,
}
use door_rtos.Task.{pcb_at, rtx_success}
use door_rtos.Queue.{Queue}
use door_rtos.Queue.Chain.{IsQueue}
use door_rtos.MetaQueue.Invariant.{Lists}
use door_rtos.MetaQueue.Enqueue.{push_at}
use door_rtos.Kernel.Monad.{Kernel, done, walk_fuel}
use door_rtos.Kernel.Process.{current, process_switch}
use door_rtos.Kernel.Invariant.{Absent-push}
use door_rtos.Kernel.Ready.{IsFirst, pop_at}
use door_rtos.Kernel.Primitives.{
  wait_for_memory, kernel_request_memory_block, kernel_release_memory_block,
}
use door_rtos.Kernel.Primitives.Memory.{
  with_blocks, kernel_request_memory_block-last, kernel_request_memory_block-nil,
  kernel_release_memory_block-cons,
}
use door_rtos.Kernel.Primitives.Memory.Waits.{HasWaited, kernel_request_memory_block-HasWaited}
use door_rtos.Kernel.Primitives.Memory.Wakes.{Released, release-Released, with_blocks-IsScheduled}
use door_rtos.System.Table.{IsFirst-cases}
use door_rtos.System.Running.{
  IsRunning, HasIdle-pop, mem-push_other, Keeps, Keeps-done, Keeps-switched, Keeps-and_then,
  Tabled-pop, Tabled-push, first-Tabled, first_ne, Absent-pop,
}
use door_rtos.System.Switching.{process_switch-Keeps}

-- While another process than the null process runs, the null process at least is ready.
pub some_ready :
    {k : Kernel} {rs ws : Lists}
    → IsRunning k rs ws
    → k.current_pcb ≢ pcb_at 0
    → (p : ℕ) × (x : Ptr) × (xs : List Ptr) × IsFirst rs p x xs
some_ready {k} {rs} is busy = elim (IsFirst-cases is.scheduled.ready is.ready_tabled) [
  | inr first ↦ first
  | inl none ↦
      absurd (elim is.idle [ inl s ↦ busy s | inr (i, h, m) ↦ (let m' = rw (none i h) at m in cc) ])
]

with_blocks-IsRunning :
    {k : Kernel} {rs ws : Lists} (q : Queue) (next : Links)
    → IsRunning k rs ws
    → IsRunning (with_blocks k q next) rs ws
with_blocks-IsRunning q next is = record {
  scheduled = with_blocks-IsScheduled q next is.scheduled;
  ready_tabled = is.ready_tabled;
  waiting_tabled = is.waiting_tabled;
  current_tabled = is.current_tabled;
  parks = is.parks;
  idle = is.idle;
}

module _ {k : Kernel} {rs ws : Lists} (is : IsRunning k rs ws) where
  waited-IsRunning :
      {p : ℕ} {x : Ptr} {xs : List Ptr} {k' : Kernel}
      → k.current_pcb ≢ pcb_at 0
      → IsFirst rs p x xs
      → HasWaited k (pop_at rs p x xs) ws (last x xs) k'
      → IsRunning k' (pop_at rs p x xs) (push_at ws (current k).priority k.current_pcb)
  waited-IsRunning {p} {x} {xs} {k'} busy f s =
      let prio : ℕ = (current k).priority in
      record {
        scheduled = s.scheduled;
        ready_tabled = Tabled-pop rs p x xs f.holds is.ready_tabled;
        waiting_tabled = Tabled-push ws prio k.current_pcb is.waiting_tabled is.current_tabled;
        current_tabled = rw s.runs (first-Tabled f is.ready_tabled);
        parks = λ a e.
            let (ne, out, out') = is.parks a (s.parked a e) in
            (
              λ t. first_ne f a out (t ∙ s.runs),
              Absent-pop f a out,
              Absent-push ws prio k.current_pcb a out' ne,
            );
        idle = HasIdle-pop k k' f s.runs busy is.idle;
      }

  request_nil-Keeps :
      IsQueue k.block_next k.free_mem_q []
      → k.current_pcb ≢ pcb_at 0
      → Keeps (kernel_request_memory_block k)
  request_nil-Keeps free busy = elim (Bool-cases k.in_i_process) [
    | inl i ↦
        Keeps-done rs ws
          (kernel_request_memory_block-nil k free
            ∙ ap (λ b. if b then done null k else wait_for_memory k) i)
          is
    | inr o ↦
        let (p, x, xs, f) = some_ready is busy in
        let (k', r, s) = kernel_request_memory_block-HasWaited p x xs is.scheduled f free o in
        Keeps-switched _ _ r (waited-IsRunning busy f s)
  ]

  -- In a kernel that runs a process other than the null process, with the free blocks a queue of at
  -- most 257, `kernel_request_memory_block` neither crashes nor gets stuck, and leaves a kernel
  -- that runs, on every branch.
  pub kernel_request_memory_block-Keeps :
      (bs : List Ptr)
      → IsQueue k.block_next k.free_mem_q bs
      → length bs ≤ walk_fuel
      → k.current_pcb ≢ pcb_at 0
      → Keeps (kernel_request_memory_block k)
  kernel_request_memory_block-Keeps [] free h busy = request_nil-Keeps free busy
  kernel_request_memory_block-Keeps (x ∷ xs) free h busy =
      let (q, next, r, free', out) = kernel_request_memory_block-last k x xs free (omega arith) in
      Keeps-done rs ws r (with_blocks-IsRunning q next is)

  Released-IsRunning :
      {b : Ptr} {bs : List Ptr} {p : ℕ} {x : Ptr} {xs : List Ptr} {k' : Kernel}
      → IsFirst ws p x xs
      → Released k (push_at rs p (last x xs)) (pop_at ws p x xs) (b ∷ bs) (last x xs) k'
      → IsRunning k' (push_at rs p (last x xs)) (pop_at ws p x xs)
  Released-IsRunning {b} {bs} {p} {x} {xs} {k'} f s = record {
    scheduled = s.scheduled;
    ready_tabled = Tabled-push rs p (last x xs) is.ready_tabled (first-Tabled f is.waiting_tabled);
    waiting_tabled = Tabled-pop ws p x xs f.holds is.waiting_tabled;
    current_tabled = rw s.runs is.current_tabled;
    parks = λ a e.
        let (ne, out, out') = is.parks a (s.parked a e) in
        (
          λ t. ne (t ∙ s.runs),
          Absent-push rs p (last x xs) a out (first_ne f a out'),
          Absent-pop f a out',
        );
    idle = elim is.idle [
      | inl t ↦ inl (s.runs ∙ t)
      | inr (i, h, m) ↦ inr (i, h, mem-push_other rs p (last x xs) (pcb_at 0) i m)
    ];
  }

  -- In a kernel that runs, `kernel_release_memory_block` of a block that is not NULL and not in the
  -- queue of free blocks neither crashes nor gets stuck, and leaves a kernel that runs, on every
  -- branch.
  pub kernel_release_memory_block-Keeps :
      (b : Ptr) (bs : List Ptr)
      → IsQueue k.block_next k.free_mem_q bs
      → b ≢ null
      → b ∉ bs
      → Keeps (kernel_release_memory_block b k)
  kernel_release_memory_block-Keeps b bs free ne out =
      elim (IsFirst-cases is.scheduled.waiting is.waiting_tabled) [
        | inl none ↦
            let (q, next, r, free') =
              kernel_release_memory_block-cons k b bs ws free is.scheduled.waiting none ne out in
            Keeps-done rs ws r (with_blocks-IsRunning q next is)
        | inr (p, x, xs, f) ↦
            let (k', r, s) = release-Released b bs p x xs is.scheduled f free ne out in
            let is' = Released-IsRunning f s in
            elim (Bool-cases (ltb p (current k).priority)) [
              | inl l ↦
                  rw (r, l)
                    (Keeps-and_then (process_switch k') (λ _. done rtx_success)
                      (process_switch-Keeps is') (λ a k2 rs2 ws2 is2. (rs2, ws2, is2)))
              | inr g ↦ Keeps-done _ _ (rw g at r) is'
            ]
      ]

-- ===== src/System/Switching.antt =====
-- Calls that only move processes between the processor and the ready queue: release_processor
-- (`process_switch` of kernel/primitives.c) and the interrupts.
use door_rtos.Base.{ℕ, ◌≤◌, ◌≡◌, ◌≢◌, sym, ◌∙◌, inl, inr, List, [], arith, ap, Ptr, last}
use native.Mathlib.Decide.{dec_lt}
use door_rtos.Task.{message_wait, max_processes, num_prio, pcb_at}
use door_rtos.MetaQueue.Invariant.{Lists, highest_empty}
use door_rtos.MetaQueue.Enqueue.{push_at}
use door_rtos.Kernel.Monad.{Kernel, done}
use door_rtos.Kernel.Process.{current, process_switch}
use door_rtos.Kernel.Invariant.{IsScheduled, Absent-push}
use door_rtos.Kernel.Ready.{IsFirst, pop_at}
use door_rtos.Kernel.Switch.{Switched, process_switch_stays, process_switch-Switched}
use door_rtos.Kernel.Interrupts.{timer_pid, uart_pid, timer_handler, uart_handler}
use door_rtos.Kernel.Interrupts.Scheduled.{
  IsIdle, Interrupted, timer_handler-Interrupted, uart_handler-Interrupted,
}
use door_rtos.System.Table.{IsFirst-cases}
use door_rtos.System.Running.{
  IsRunning, HasIdle-push, HasIdle-switch, Keeps, Keeps-done, Keeps-switched, Tabled-pop,
  Tabled-push, first-Tabled, first_ne, Absent-pop,
}

-- With no process ready, the highest ready priority is past every number.
process_switch_alone :
    {k : Kernel} {rs ws : Lists}
    → IsScheduled k rs ws
    → ((i : ℕ) → i ≤ num_prio → rs i ≡ [])
    → process_switch k ≡ done tt k
unfolding process_switch
process_switch_alone is none =
    let past = highest_empty is.ready none in let b = is.current_bound in ground arith

module _ {k : Kernel} {rs ws : Lists} (is : IsRunning k rs ws) where
  pub Switched-IsRunning :
      {p : ℕ} {x : Ptr} {xs : List Ptr} {k' : Kernel}
      → IsFirst rs p x xs
      → Switched k (pop_at rs p x xs) ws (last x xs) k'
      → IsRunning k' (push_at (pop_at rs p x xs) (current k).priority k.current_pcb) ws
  Switched-IsRunning {p} {x} {xs} {k'} f s =
      let prio : ℕ = (current k).priority in
      let rs' = pop_at rs p x xs in
      record {
        scheduled = s.scheduled;
        ready_tabled =
            Tabled-push rs' prio k.current_pcb (Tabled-pop rs p x xs f.holds is.ready_tabled)
              is.current_tabled;
        waiting_tabled = is.waiting_tabled;
        current_tabled = rw s.runs (first-Tabled f is.ready_tabled);
        parks = λ a e.
            let (ne, out, out') = is.parks a (s.parked a e) in
            (
              λ t. first_ne f a out (t ∙ s.runs),
              Absent-push rs' prio k.current_pcb a (Absent-pop f a out) ne,
              out',
            );
        idle = HasIdle-switch k k' prio f s.runs is.scheduled.current_bound is.idle;
      }

  process_switch_goes-Keeps :
      (p : ℕ) (x : Ptr) (xs : List Ptr)
      → IsFirst rs p x xs
      → p ≤ (current k).priority
      → Keeps (process_switch k)
  process_switch_goes-Keeps p x xs f h =
      let (k', r, s) = process_switch-Switched p x xs is.scheduled f h in
      Keeps-switched _ ws r (Switched-IsRunning f s)

  -- In a kernel that runs, release_processor's `process_switch` neither crashes nor gets stuck,
  -- and leaves a kernel that runs, whether it switches or not.
  pub process_switch-Keeps : Keeps (process_switch k)
  process_switch-Keeps = elim (IsFirst-cases is.scheduled.ready is.ready_tabled) [
    | inl none ↦ Keeps-done rs ws (process_switch_alone is.scheduled none) is
    | inr (p, x, xs, f) ↦ elim (dec_lt (current k).priority p) [
      | yes l ↦ Keeps-done rs ws (process_switch_stays p x xs is.scheduled f l) is
      | no g ↦ process_switch_goes-Keeps p x xs f (omega arith)
    ]
  ]

  Interrupted-IsRunning :
      {sp t : Ptr} {k' : Kernel}
      → IsIdle k rs ws t
      → t ≤ max_processes
      → (k.pcbs t).state ≢ message_wait
      → Interrupted k rs ws sp t k'
      → IsRunning k' (push_at rs (current k).priority k.current_pcb) ws
  Interrupted-IsRunning {sp} {t} {k'} idle tabled awake s =
      let prio : ℕ = (current k).priority in
      record {
        scheduled = s.scheduled;
        ready_tabled = Tabled-push rs prio k.current_pcb is.ready_tabled is.current_tabled;
        waiting_tabled = is.waiting_tabled;
        current_tabled = rw s.runs tabled;
        parks = λ a e.
            let (ne, out, out') = is.parks a (s.parked a e) in
            (
              λ at. awake (ap (λ b. (k.pcbs b).state) (sym (at ∙ s.runs)) ∙ s.parked a e),
              Absent-push rs prio k.current_pcb a out ne,
              out',
            );
        idle = HasIdle-push k k' rs prio is.scheduled.current_bound is.idle;
      }

  -- In a kernel that runs, an interrupt of the timer or of the UART leaves a kernel that runs, when
  -- the i-process that it starts is not running, in no queue, and does not wait for a message.
  pub timer_handler-Keeps :
      (sp : Ptr)
      → IsIdle k rs ws (pcb_at timer_pid)
      → (k.pcbs (pcb_at timer_pid)).state ≢ message_wait
      → Keeps (timer_handler sp k)
  timer_handler-Keeps sp idle awake =
      let (k', r, s) = timer_handler-Interrupted is.scheduled sp idle in
      Keeps-switched _ ws r (Interrupted-IsRunning idle (omega arith) awake s)

  pub uart_handler-Keeps :
      (sp : Ptr)
      → IsIdle k rs ws (pcb_at uart_pid)
      → (k.pcbs (pcb_at uart_pid)).state ≢ message_wait
      → Keeps (uart_handler sp k)
  uart_handler-Keeps sp idle awake =
      let (k', r, s) = uart_handler-Interrupted is.scheduled sp idle in
      Keeps-switched _ ws r (Interrupted-IsRunning idle (omega arith) awake s)

-- ===== src/System/Messages.antt =====
-- Receiving messages in a kernel that runs (kernel/primitives.c).
use door_rtos.Base.{
  ℕ, ◌≤◌, ◌≡◌, ◌≢◌, ◌∙◌, inl, inr, Bool-cases, List, [], ◌∷◌, arith, true, ◌==◌, Ptr, null, Links,
  length, last,
}
use door_rtos.Task.{pcb_at}
use door_rtos.Message.{Messages}
use door_rtos.Queue.{Queue, is_empty}
use door_rtos.Queue.Chain.{IsQueue}
use door_rtos.MetaQueue.Invariant.{Lists}
use door_rtos.Kernel.Monad.{Kernel, Swi, walk_fuel}
use door_rtos.Kernel.Ready.{IsFirst, pop_at}
use door_rtos.Kernel.Primitives.{kernel_receive_message}
use door_rtos.Kernel.Primitives.Receive.{inbox, receive_none-eq, receive-received}
use door_rtos.Kernel.Primitives.Receive.Wait.{HasLeft, kernel_receive_message-HasLeft}
use door_rtos.System.Running.{
  IsRunning, HasIdle-pop, Keeps, Keeps-done, Keeps-switched, Tabled-pop, first-Tabled, first_ne,
  Absent-pop,
}
use door_rtos.System.Memory.{some_ready}

-- Changes to messages and to the trap interface are nothing to the scheduler.
abbrev pub with_messages : Messages → Links → (Ptr → Queue) → Swi → Kernel → Kernel
with_messages m next qs s k = record k { messages = m; mess_next = next; mess_queues = qs; swi = s }

pub with_messages-IsRunning :
    {k : Kernel} {rs ws : Lists} (m : Messages) (next : Links) (qs : Ptr → Queue) (s : Swi)
    → IsRunning k rs ws
    → IsRunning (with_messages m next qs s k) rs ws
with_messages-IsRunning m next qs s is = record {
  scheduled = record {
    ready = is.scheduled.ready;
    waiting = is.scheduled.waiting;
    apart = is.scheduled.apart;
    ready_filed = is.scheduled.ready_filed;
    waiting_filed = is.scheduled.waiting_filed;
    current_ne = is.scheduled.current_ne;
    current_bound = is.scheduled.current_bound;
    current_ready = is.scheduled.current_ready;
    current_waiting = is.scheduled.current_waiting;
  };
  ready_tabled = is.ready_tabled;
  waiting_tabled = is.waiting_tabled;
  current_tabled = is.current_tabled;
  parks = is.parks;
  idle = is.idle;
}

module _ {k : Kernel} {rs ws : Lists} (is : IsRunning k rs ws) where
  left-IsRunning :
      {p : ℕ} {x : Ptr} {xs : List Ptr} {k' : Kernel}
      → k.current_pcb ≢ pcb_at 0
      → IsFirst rs p x xs
      → HasLeft k (pop_at rs p x xs) ws (last x xs) k'
      → IsRunning k' (pop_at rs p x xs) ws
  left-IsRunning {p} {x} {xs} {k'} busy f s = record {
    scheduled = s.scheduled;
    ready_tabled = Tabled-pop rs p x xs f.holds is.ready_tabled;
    waiting_tabled = is.waiting_tabled;
    current_tabled = rw s.runs (first-Tabled f is.ready_tabled);
    parks = λ a e. elim (Bool-cases (a == k.current_pcb)) [
      | inl t ↦
          let r = s.receiver in
          let same : a ≡ k.current_pcb = ground arith in
          rw same (r.ne_current, r.absent_ready, r.absent_waiting)
      | inr t ↦
          let (ne, out, out') = is.parks a (s.parked a (ground arith) e) in
          (λ u. first_ne f a out (u ∙ s.runs), Absent-pop f a out, out')
    ];
    idle = HasIdle-pop k k' f s.runs busy is.idle;
  }

  receive_nil-Keeps :
      IsQueue k.mess_next (k.mess_queues (inbox k)) []
      → inbox k ≢ null
      → k.current_pcb ≢ pcb_at 0
      → Keeps (kernel_receive_message k)
  unfolding is_empty
  receive_nil-Keeps box ne busy =
      let none : is_empty (k.mess_queues (inbox k)) ≡ true = ground (arith, box.chain) in
      elim (Bool-cases k.in_i_process) [
        | inl i ↦
            Keeps-done rs ws (receive_none-eq k ne none i)
              (with_messages-IsRunning k.messages k.mess_next k.mess_queues _ is)
        | inr o ↦
            let (p, x, xs, f) = some_ready is busy in
            let (k', r, s) =
              kernel_receive_message-HasLeft k rs ws p x xs is.scheduled f ne none o in
            Keeps-switched _ ws r (left-IsRunning busy f s)
      ]

  -- In a kernel that runs a process other than the null process, whose queue of messages is well
  -- formed and within the walk's fuel, `kernel_receive_message` neither crashes nor gets stuck, and
  -- leaves a kernel that runs, on every branch.
  pub kernel_receive_message-Keeps :
      (xs : List Ptr)
      → IsQueue k.mess_next (k.mess_queues (inbox k)) xs
      → length xs ≤ walk_fuel
      → inbox k ≢ null
      → k.current_pcb ≢ pcb_at 0
      → Keeps (kernel_receive_message k)
  kernel_receive_message-Keeps [] box h ne busy = receive_nil-Keeps box ne busy
  kernel_receive_message-Keeps (x ∷ xs) box h ne busy =
      let (q, next, r, box', same) = receive-received k ne x xs box (omega arith) in
      Keeps-done rs ws r (with_messages-IsRunning k.messages next _ _ is)

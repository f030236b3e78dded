-- ===== src/System/Sends.antt =====
-- Sending messages in a kernel that runs (kernel/primitives.c).
use door_rtos.Base.{
  ℕ, ◌≤◌, ◌≡◌, ◌≢◌, sym, refl, ◌∙◌, ap, ◌⊎◌, inl, inr, Bool, Bool-cases, List, arith, ltb, true,
  false, not, ◌&&◌, Ptr, last,
}
use door_rtos.Task.{message_wait, max_processes, num_prio, pcb_at, is_state}
use door_rtos.Task.Find.{get_pcb-le, is_state-eq}
use door_rtos.MetaQueue.Invariant.{Lists}
use door_rtos.MetaQueue.Enqueue.{Absent, push_at}
use door_rtos.Kernel.Monad.{Kernel}
use door_rtos.Kernel.Process.{current}
use door_rtos.Kernel.Invariant.{IsScheduled, NoneParked, Absent-push}
use door_rtos.Kernel.Ready.{IsFirst, pop_at}
use door_rtos.Kernel.Primitives.{kernel_send_message}
use door_rtos.Kernel.Primitives.Send.{
  addressed, kernel_send_message-deliver, deliver_ready-eq, IsSendable, enqueue-IsSent,
}
use door_rtos.Kernel.Primitives.Wake.{IsReceiver, woken-IsScheduled, kernel_send_message-wakes}
use door_rtos.Kernel.Primitives.Wake.Lost.{IsLost, kernel_send_message-IsLost}
use door_rtos.System.Table.{IsFirst-cases}
use door_rtos.System.Running.{
  IsRunning, HasIdle-pop, mem-push_other, mem-push_self, Keeps, Keeps-done, Keeps-switched,
  Tabled-pop, Tabled-push, first-Tabled, first_ne, Absent-pop,
}
use door_rtos.System.Messages.{with_messages-IsRunning}

stays-cases : (m n : ℕ) (i : Bool) → (ltb m n && not i) ≡ false → (n ≤ m) ⊎ (i ≡ true)
stays-cases m n true e = inr refl
stays-cases m n false e = inl (ground arith)

module _ {k : Kernel} {rs ws : Lists} {process_id : ℕ} {envelope dest : Ptr} {xs : List Ptr}
    (is : IsRunning k rs ws) (s : IsSendable k process_id envelope dest xs)
    (bound : (k.pcbs dest).priority ≤ num_prio) where
  dest-tabled : dest ≤ max_processes
  dest-tabled = rw s.found at (get_pcb-le process_id k.pcbs)

  waiting-IsReceiver : (k.pcbs dest).state ≡ message_wait → IsReceiver k rs ws dest
  waiting-IsReceiver e =
      let (ne, out, out') = is.parks dest e in
      record {
        ne_null = s.dest_ne;
        ne_current = ne;
        bound = bound;
        waits = e;
        absent_ready = out;
        absent_waiting = out';
      }

  -- The process `dest` is ready now, and the running process is the same.
  woken-IsRunning :
      {k' : Kernel}
      → Absent dest ws
      → IsScheduled k' (push_at rs (k.pcbs dest).priority dest) ws
      → NoneParked k.pcbs k'.pcbs
      → k'.current_pcb ≡ k.current_pcb
      → (k'.pcbs dest).state ≢ message_wait
      → IsRunning k' (push_at rs (k.pcbs dest).priority dest) ws
  woken-IsRunning {k'} out_w is' parked same awake =
      let prio : ℕ = (k.pcbs dest).priority in
      record {
        scheduled = is';
        ready_tabled = Tabled-push rs prio dest is.ready_tabled dest-tabled;
        waiting_tabled = is.waiting_tabled;
        current_tabled = rw same is.current_tabled;
        parks = λ a e.
            let (ne, out, out') = is.parks a (parked a e) in
            (
              λ t. ne (t ∙ same),
              Absent-push rs prio dest a out (λ t. awake (ap (λ b. (k'.pcbs b).state) (sym t) ∙ e)),
              out',
            );
        idle = elim is.idle [
          | inl t ↦ inl (same ∙ t)
          | inr (i, h, m) ↦ inr (i, h, mem-push_other rs prio dest (pcb_at 0) i m)
        ];
      }

  lost-IsRunning :
      {p : ℕ} {y : Ptr} {ys : List Ptr} {k' : Kernel}
      → k.current_pcb ≢ pcb_at 0
      → IsFirst (push_at rs (k.pcbs dest).priority dest) p y ys
      → k'.current_pcb ≡ last y ys
      → IsLost k k' (pop_at (push_at rs (k.pcbs dest).priority dest) p y ys) ws
      → (k'.pcbs dest).state ≢ message_wait
      → IsRunning k' (pop_at (push_at rs (k.pcbs dest).priority dest) p y ys) ws
  lost-IsRunning {p} {y} {ys} {k'} busy f runs l awake =
      let prio : ℕ = (k.pcbs dest).priority in
      let rs1 = push_at rs prio dest in
      let tabled = Tabled-push rs prio dest is.ready_tabled dest-tabled in
      record {
        scheduled = l.scheduled;
        ready_tabled = Tabled-pop rs1 p y ys f.holds tabled;
        waiting_tabled = is.waiting_tabled;
        current_tabled = rw runs (first-Tabled f tabled);
        parks = λ a e.
            let (ne, out, out') = is.parks a (l.parked a e) in
            let out1 =
              Absent-push rs prio dest a out
                (λ t. awake (ap (λ b. (k'.pcbs b).state) (sym t) ∙ e)) in
            (λ t. first_ne f a out1 (t ∙ runs), Absent-pop f a out1, out');
        idle = HasIdle-pop k k' f runs busy (elim is.idle [
          | inl t ↦ inl t
          | inr (i, h, m) ↦ inr (i, h, mem-push_other rs prio dest (pcb_at 0) i m)
        ]);
      }

  -- The receiver is among the ready processes, so that there is a first one.
  woken-IsFirst :
      IsReceiver k rs ws dest
      → (p : ℕ) × (y : Ptr) × (ys : List Ptr) × IsFirst
          (push_at rs (k.pcbs dest).priority dest)
          p
          y
          ys
  woken-IsFirst r =
      let prio : ℕ = (k.pcbs dest).priority in
      let (mq, next, enq, is') = woken-IsScheduled is.scheduled r in
      elim (IsFirst-cases is'.ready (Tabled-push rs prio dest is.ready_tabled dest-tabled)) [
        | inr first ↦ first
        | inl none ↦ absurd (let m = rw (none prio bound) at (mem-push_self rs prio dest) in cc)
      ]

  send_waiting-Keeps :
      (k.pcbs dest).state ≡ message_wait
      → k.current_pcb ≢ pcb_at 0
      → Keeps (kernel_send_message process_id envelope k)
  send_waiting-Keeps e busy =
      let r = waiting-IsReceiver e in
      elim (Bool-cases (ltb (current k).priority (k.pcbs dest).priority && not k.in_i_process)) [
        | inr stay ↦
            let (k', eq, is', sent, state, same, parked) =
              kernel_send_message-wakes is.scheduled s r (stays-cases _ _ _ stay) in
            Keeps-done _ ws eq (
              woken-IsRunning r.absent_waiting is' parked same (λ t. (let u = sym state ∙ t in cc)))
        | inl leave ↦
            let (p, y, ys, f) = woken-IsFirst r in
            let (k', eq, runs, l, old, state) =
              kernel_send_message-IsLost is.scheduled s r p y ys (ground arith) (ground arith) f in
            Keeps-switched _ ws eq
              (lost-IsRunning busy f runs l (λ t. (let u = sym state ∙ t in cc)))
      ]

  send_busy-Keeps :
      is_state message_wait (k.pcbs dest).state ≡ false
      → Keeps (kernel_send_message process_id envelope k)
  send_busy-Keeps e =
      let (q, next, r, sent) = enqueue-IsSent s in
      Keeps-done rs ws
        (kernel_send_message-deliver k process_id envelope s.envelope_ne s.found s.dest_ne
          ∙ deliver_ready-eq (addressed process_id envelope k) _ dest envelope q next s.queue_ne r
              e)
        (with_messages-IsRunning _ _ _ k.swi is)

  -- In a kernel that runs a process other than the null process, `kernel_send_message` of a message
  -- that can be sent, to a process with a number in range, neither crashes nor gets stuck, and
  -- leaves a kernel that runs, on every branch.
  pub kernel_send_message-Keeps :
      k.current_pcb ≢ pcb_at 0 → Keeps (kernel_send_message process_id envelope k)
  kernel_send_message-Keeps busy = elim (Bool-cases (is_state message_wait (k.pcbs dest).state)) [
    | inl e ↦ send_waiting-Keeps (is_state-eq (k.pcbs dest).state e) busy
    | inr e ↦ send_busy-Keeps e
  ]

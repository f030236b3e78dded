-- ===== src/System/Refiled.antt =====
-- A ready process that gets another priority moves to another queue (kernel/primitives.c, the last
-- branch of `kernel_set_process_priority`).
pub mod Cut
use door_rtos.Base.{
  ℕ, ◌≤◌, ◌<◌, ◌≡◌, ◌≢◌, sym, refl, ◌∙◌, ap, ◌⊎◌, inl, inr, Bool-cases, false, List, [], ◌∷◌, ◌++◌,
  arith, ◌==◌, ltb, if◌then◌else◌, Ptr, null, Links, length, write, write_self, write_ne, ◌∉◌, ◌∈◌,
}
use door_rtos.Task.{Pcb, num_prio, pcb_at, rtx_success}
use door_rtos.Queue.Chain.{Chain, IsQueue, Disjoint, Disjoint-symm}
use door_rtos.MetaQueue.{MetaQueue, remove_element_by_priority}
use door_rtos.MetaQueue.Invariant.{Lists, IsMeta}
use door_rtos.MetaQueue.Enqueue.{Absent, push_at}
use door_rtos.MetaQueue.Remove.{mem-skip}
use door_rtos.MetaQueue.Remove.Keeps.{remove_element-IsMeta}
use door_rtos.Kernel.Monad.{Kernel, done, and_then, walk_fuel, M, pure, gets, skip, ◌>>=◌, ◌>>◌}
use door_rtos.Kernel.Queues.{remove_ready, enqueue_ready}
use door_rtos.Kernel.Process.{current, update_pcb, set_priority, process_switch}
use door_rtos.Kernel.Invariant.{
  IsScheduled, Filed, Filed-within, Within, Absent-within, Apart-within, Absent-push, Filed-push,
  Apart-push, IsMeta-frame,
}
use door_rtos.Kernel.Ready.{enqueue_ready-Pushed}
use door_rtos.Kernel.Priority.{set_ready_priority}
use door_rtos.System.Running.{
  IsRunning, HasIdle, Keeps, Keeps-and_then, Tabled-push, mem_of_eq, mem-push_self, mem-push_other,
}
use door_rtos.System.Refiled.Cut.{mem-middle, mem-cut, Chain-distinct, Chain-unique}
use door_rtos.System.Switching.{process_switch-Keeps}

-- The process `a` is ready, with `xs` behind it in its queue and `ys` in front of it, and is not the
-- last of several.
pub record IsReady (k : Kernel) (a : Ptr) (xs ys : List Ptr) : Type 0 where
  pub place : IsQueue k.pcb_next (k.ready_queue.subqueues (k.pcbs a).priority) (xs ++ a ∷ ys)
  pub bound : (k.pcbs a).priority ≤ num_prio
  pub not_last : (xs ≡ []) ⊎ (ys ≢ [])
  pub few : length xs < walk_fuel

-- A queue that holds the same processes but `a`, whose number has changed.
pub Filed-changed :
    (k : Kernel) (a : Ptr) (n : ℕ) (xss : Lists)
    → Absent a xss
    → Filed k.pcbs xss
    → Filed (write k.pcbs a (set_priority n (k.pcbs a))) xss
Filed-changed k a n xss out filed i h b m =
    let ne : b ≢ a = λ e. (let m' = rw e at m in let o = out i h in cc) in
    ap (λ (p : Pcb). p.priority) (write_ne k.pcbs a (set_priority n (k.pcbs a)) b ne)
    ∙ filed i h b m

module _ {k : Kernel} {rs ws : Lists} (is : IsRunning k rs ws) (a : Ptr) (xs ys : List Ptr)
    (r : IsReady k a xs ys) where
  place : rs (k.pcbs a).priority ≡ xs ++ a ∷ ys
  place =
      Chain-unique k.pcb_next (k.ready_queue.subqueues (k.pcbs a).priority).head
        (rs (k.pcbs a).priority) (xs ++ a ∷ ys)
        (is.scheduled.ready.family.queues (k.pcbs a).priority r.bound).chain r.place.chain

  abbrev without : Lists
  without = write rs (k.pcbs a).priority (xs ++ ys)

  without-Within : Within without rs
  unfolding write
  without-Within i h b m = elim (Bool-cases (i == (k.pcbs a).priority)) [
    | inr s ↦ rw s at m
    | inl s ↦
        let t : i ≡ (k.pcbs a).priority = ground arith in
        rw (t, place) (mem-skip b a xs ys (rw s at m))
  ]

  a-mem : a ∈ rs (k.pcbs a).priority
  a-mem = rw place (mem-middle a xs ys)

  without-Absent : Absent a without
  unfolding write
  without-Absent i h = elim (Bool-cases (i == (k.pcbs a).priority)) [
    | inl s ↦ rw s (
        Chain-distinct k.pcb_next (k.ready_queue.subqueues (k.pcbs a).priority).head a xs ys
          (rw place at (is.scheduled.ready.family.queues (k.pcbs a).priority r.bound).chain))
    | inr s ↦ rw s (
        is.scheduled.ready.family.apart (k.pcbs a).priority i r.bound h (λ t. ground arith) a a-mem)
  ]

  a-Absent : Absent a ws
  a-Absent j h = is.scheduled.apart (k.pcbs a).priority j r.bound h a a-mem

  mem-without : (b : Ptr) (i : ℕ) → b ≢ a → b ∈ rs i → b ∈ without i
  unfolding write
  mem-without b i ne m = elim (Bool-cases (i == (k.pcbs a).priority)) [
    | inr s ↦ rw s m
    | inl s ↦
        let t : i ≡ (k.pcbs a).priority = ground arith in
        rw s (mem-cut b a xs ys ne (rw (t, place) at m))
  ]

  -- With the number `n`, and the links and the ready queue as they are after both moves.
  abbrev refiled : (n : ℕ) → MetaQueue → Links → Kernel
  refiled n mq next = record k {
    pcbs = write k.pcbs a (set_priority n (k.pcbs a));
    ready_queue = mq;
    pcb_next = next;
  }

  module _ (n : ℕ) (bound : n ≤ num_prio) where
    refiled-state :
        (b : Ptr) → (write k.pcbs a (set_priority n (k.pcbs a)) b).state ≡ (k.pcbs b).state
    unfolding write
    refiled-state b = ground arith

    refiled-prio : (write k.pcbs a (set_priority n (k.pcbs a)) a).priority ≡ n
    refiled-prio = ap (λ (p : Pcb). p.priority) (write_self k.pcbs a (set_priority n (k.pcbs a)))

    pub current_ne : k.current_pcb ≢ a
    current_ne e =
        let m = mem_of_eq k.current_pcb a (rs (k.pcbs a).priority) e a-mem in
        let o = is.scheduled.current_ready (k.pcbs a).priority r.bound in absurd (cc)

    HasIdle-refiled : HasIdle k rs → HasIdle k (push_at without n a)
    HasIdle-refiled (inl e) = inl e
    HasIdle-refiled (inr (i, h, m)) = elim (Bool-cases (pcb_at 0 == a)) [
      | inl s ↦ inr (n, bound, mem_of_eq (pcb_at 0) a _ (ground arith) (mem-push_self without n a))
      | inr s ↦ inr (
        i,
        h,
        mem-push_other without n a (pcb_at 0) i (mem-without (pcb_at 0) i (ground arith) m),
      )
    ]

    refiled-IsScheduled :
        (mq : MetaQueue) (next : Links)
        → IsMeta next mq (push_at without n a)
        → IsMeta next k.memory_wait_queue ws
        → IsScheduled (refiled n mq next) (push_at without n a) ws
    refiled-IsScheduled mq next ready waiting =
        let same = write_ne k.pcbs a (set_priority n (k.pcbs a)) k.current_pcb current_ne in
        record {
          ready = ready;
          waiting = waiting;
          apart =
              Apart-push without n a ws
                (Apart-within without rs without-Within ws is.scheduled.apart) a-Absent;
          ready_filed =
              Filed-push without n a (refiled n mq next).pcbs
                (Filed-changed k a n without without-Absent
                  (Filed-within without rs without-Within k.pcbs is.scheduled.ready_filed))
                refiled-prio;
          waiting_filed = Filed-changed k a n ws a-Absent is.scheduled.waiting_filed;
          current_ne = is.scheduled.current_ne;
          current_bound = rw same is.scheduled.current_bound;
          current_ready =
              Absent-push without n a k.current_pcb
                (Absent-within without rs without-Within k.current_pcb is.scheduled.current_ready)
                current_ne;
          current_waiting = is.scheduled.current_waiting;
        }

    refiled-IsRunning :
        (mq : MetaQueue) (next : Links)
        → IsMeta next mq (push_at without n a)
        → IsMeta next k.memory_wait_queue ws
        → IsRunning (refiled n mq next) (push_at without n a) ws
    refiled-IsRunning mq next ready waiting = record {
      scheduled = refiled-IsScheduled mq next ready waiting;
      ready_tabled =
          Tabled-push without n a (λ i h b m. is.ready_tabled i h b (without-Within i h b m))
            (is.ready_tabled (k.pcbs a).priority r.bound a a-mem);
      waiting_tabled = is.waiting_tabled;
      current_tabled = is.current_tabled;
      parks = λ b e.
          let (ne, out, out') = is.parks b (sym (refiled-state b) ∙ e) in
          (
            ne,
            Absent-push without n a b (Absent-within without rs without-Within b out) (λ t.
                (let m = rw (sym t) at a-mem in let o = out (k.pcbs a).priority r.bound in cc)),
            out',
          );
      idle = HasIdle-refiled is.idle;
    }

    -- What follows the second move.
    abbrev after : Unit {0} → M ℕ
    after u = do
      k ← gets λ k. k
      if ltb n (current k).priority then process_switch else skip
      pure rtx_success

    set_ready_priority-after :
        (mq : MetaQueue) (next : Links)
        → remove_ready a k ≡ done rtx_success (record k { ready_queue = mq; pcb_next = next })
        → a ≢ null
        → set_ready_priority a n k ≡ and_then (enqueue_ready a (refiled n mq next)) after
    unfolding set_ready_priority update_pcb
    set_ready_priority-after mq next e ne =
        let live : (a == null) ≡ false = ground arith in rw (e, live) refl

    after-Keeps : (k' : Kernel) (rs' ws' : Lists) → IsRunning k' rs' ws' → Keeps (after tt k')
    after-Keeps k' rs' ws' is' = elim (Bool-cases (ltb n (current k').priority)) [
      | inl s ↦ rw s (
          Keeps-and_then (process_switch k') (λ _. done rtx_success) (process_switch-Keeps is')
            (λ c k'' rs'' ws'' is''. (rs'', ws'', is'')))
      | inr s ↦ rw s (rs', ws', is')
    ]

    pub set_ready_priority-Keeps : a ≢ null → Keeps (set_ready_priority a n k)
    unfolding remove_ready remove_element_by_priority
    set_ready_priority-Keeps ne =
        let (mq, next, e, ready, same) =
          remove_element-IsMeta is.scheduled.ready walk_fuel (k.pcbs a).priority a r.bound xs ys
            place r.not_last r.few in
        let apart : (j : ℕ) → j ≤ num_prio → Disjoint (ws j) (rs (k.pcbs a).priority) = λ j h.
          Disjoint-symm (rs (k.pcbs a).priority) (ws j)
            (is.scheduled.apart (k.pcbs a).priority j r.bound h) in
        let waiting = IsMeta-frame (rs (k.pcbs a).priority) same apart is.scheduled.waiting in
        let (mq', next', p) =
          enqueue_ready-Pushed (refiled n mq next) without ws a ready waiting ne
            (rw refiled-prio bound) without-Absent a-Absent in
        let is' = refiled-IsRunning mq' next' (rw refiled-prio at p.ready) p.waiting in
        let eq =
          set_ready_priority-after mq next (rw e refl) ne ∙ ap (λ m. and_then m after) p.result in
        rw eq (after-Keeps (refiled n mq' next') (push_at without n a) ws is')

-- ===== src/Examples/Queues.antt =====
-- Queues of PCBs, and of PCBs by priority.
use door_rtos.Base.{
  ℕ, zero, suc, ◌≤◌, ◌<◌, ◌≡◌, ◌≢◌, refl, inr, List, [], ◌∷◌, arith, ◌==◌, if◌then◌else◌, Ptr, null,
  Links, ok, fault, out_of_fuel, write,
}
use door_rtos.Task.{num_prio, rtx_success, rtx_error}
use door_rtos.Queue.{Queue, queue, enqueue, dequeue_fifo}
use door_rtos.Queue.Chain.{IsQueue, Disjoint}
use door_rtos.Queue.Fifo.{Taken, dequeue_fifo-Taken}
use door_rtos.Queue.Twice.{enqueue-hangs}
use door_rtos.MetaQueue.{MetaQueue, dequeue_by_priority, enqueue_by_priority, remove_element}
use door_rtos.MetaQueue.Invariant.{Lists, IsMeta}
use door_rtos.MetaQueue.Enqueue.{Enqueued, enqueue_by_priority-IsMeta}
use door_rtos.MetaQueue.Dequeue.{Dequeued, dequeue_by_priority-IsMeta}
use door_rtos.MetaQueue.Remove.{remove_element-absent}
use door_rtos.MetaQueue.Remove.Keeps.{Removed, remove_element-IsMeta}
use door_rtos.MetaQueue.Remove.Tail.{remove_element-tail, dequeue_fifo-fault}
use door_rtos.Examples.World.{no_links, one_ready, ready_one, ready_one-IsMeta, world, absent_ready}

-- Three PCBs of priority 1, and what stands in the other queues of a `MetaQueue`.
abbrev three : List Ptr
three = 4 ∷ 5 ∷ 6 ∷ []

abbrev three_links : Links
three_links n = if n == 4 then 5 else if n == 5 then 6 else null

abbrev three_lists : Lists
three_lists (suc zero) = three
three_lists n = []

abbrev three_queues : ℕ → Queue
three_queues (suc zero) = queue 4 6
three_queues n = queue null null

abbrev three_meta : MetaQueue
three_meta = record { highest_prio = 1; subqueues = three_queues }

three-IsQueue : IsQueue three_links (queue 4 6) three
three-IsQueue = record { chain = ground arith; tail_is = refl }

three_queues-IsQueue : (i : ℕ) → i ≤ num_prio → IsQueue three_links (three_queues i) (three_lists i)
three_queues-IsQueue zero h = record { chain = refl; tail_is = tt }
three_queues-IsQueue (suc zero) h = three-IsQueue
three_queues-IsQueue (suc (suc n)) h = record { chain = refl; tail_is = tt }

three_lists-apart :
    (i j : ℕ) → i ≤ num_prio → j ≤ num_prio → i ≢ j → Disjoint (three_lists i) (three_lists j)
three_lists-apart zero j h k ne a m = absurd (ground arith)
three_lists-apart (suc zero) zero h k ne a m = refl
three_lists-apart (suc zero) (suc zero) h k ne a m = absurd (ne refl)
three_lists-apart (suc zero) (suc (suc n)) h k ne a m = refl
three_lists-apart (suc (suc i)) j h k ne a m = absurd (ground arith)

three_lists_below : (i : ℕ) → i < 1 → three_lists i ≡ []
three_lists_below zero h = refl
three_lists_below (suc n) h = absurd (omega arith)

three_meta-IsMeta : IsMeta three_links three_meta three_lists
three_meta-IsMeta = record {
  family = record { queues = three_queues-IsQueue; apart = three_lists-apart };
  highest = record { bound = omega arith; below = three_lists_below; top = λ h t. cc };
}

dequeue_fifo-Taken_example :
    Taken three_links 4 (5 ∷ 6 ∷ []) (dequeue_fifo 9 (queue 4 6) three_links)
dequeue_fifo-Taken_example =
    dequeue_fifo-Taken 9 three_links (queue 4 6) 4 (5 ∷ 6 ∷ []) three-IsQueue (omega arith)

-- Priority 1 of the running process of `world` is smaller than that of its ready one.
enqueue_by_priority-IsMeta_example :
    (mq' : MetaQueue) × (next' : Links) × (enqueue_by_priority world.pcbs ready_one 2 no_links
      ≡ ok (mq', next'))
    × Enqueued world.pcbs no_links one_ready 2 mq' next'
enqueue_by_priority-IsMeta_example =
    enqueue_by_priority-IsMeta world.pcbs no_links ready_one 2 one_ready ready_one-IsMeta
      (omega arith) (omega arith) (absent_ready 2 (omega arith))

dequeue_by_priority-IsMeta_example :
    (mq' : MetaQueue) × (next' : Links) × (dequeue_by_priority 9 three_meta three_links
      ≡ ok (6, mq', next'))
    × Dequeued three_links three_lists 1 (4 ∷ 5 ∷ []) mq' next'
dequeue_by_priority-IsMeta_example =
    dequeue_by_priority-IsMeta three_meta-IsMeta 9 1 4 (5 ∷ 6 ∷ []) (omega arith) refl
      three_lists_below (omega arith)

remove_element-IsMeta_example :
    Removed three_links three_lists 1 (4 ∷ 6 ∷ []) (remove_element 9 three_meta 1 5 three_links)
remove_element-IsMeta_example =
    remove_element-IsMeta three_meta-IsMeta 9 1 5 (omega arith) (4 ∷ []) (6 ∷ []) refl
      (inr (λ t. cc)) (omega arith)

remove_element-absent_example :
    remove_element 9 three_meta 1 7 three_links ≡ ok (rtx_error, three_meta, three_links)
remove_element-absent_example =
    remove_element-absent 9 1 three_links three_meta 7 three three-IsQueue refl (omega arith)

remove_element-tail_example :
    remove_element 9 three_meta 1 6 three_links
    ≡ ok (
      rtx_success,
      record three_meta { subqueues = write three_meta.subqueues 1 (queue 4 5) },
      three_links,
    )
remove_element-tail_example =
    remove_element-tail three_links three_meta 9 1 6 4 (5 ∷ []) three-IsQueue (omega arith)

-- What is left of 4 and 5 when 5 has been removed: the link from 4 still leads to it.
dequeue_fifo-fault_example : dequeue_fifo 9 (queue 4 4) three_links ≡ fault
dequeue_fifo-fault_example =
    dequeue_fifo-fault three_links 9 4 5 (6 ∷ []) (omega arith) refl (ground arith) refl
      (omega arith)

enqueue-hangs_example :
    (q' : Queue) × (next' : Links) × (enqueue (queue 4 6) 4 three_links ≡ ok (q', next'))
    × (next' 4 ≡ 4)
    × ((fuel : ℕ) → dequeue_fifo fuel q' next' ≡ out_of_fuel)
enqueue-hangs_example = enqueue-hangs three_links (queue 4 6) 4 5 (6 ∷ []) three-IsQueue

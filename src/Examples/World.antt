-- ===== src/Examples/World.antt =====
-- A kernel with five processes: pid 1 runs, 2 and 4 wait for messages, 3 is ready, 0 is unused.
use door_rtos.Base.{
  ℕ, zero, suc, ◌≤◌, ◌<◌, ◌≡◌, ◌≢◌, refl, false, [], ◌∷◌, arith, Ptr, null, Links, ◌∉◌,
}
use door_rtos.Task.{Pcb, Pcbs, State, ready, running, message_wait, num_prio}
use door_rtos.Queue.{Queue, queue}
use door_rtos.Queue.Chain.{IsQueue}
use door_rtos.Message.{Messages, m_queue_at}
use door_rtos.MetaQueue.{MetaQueue, init_meta}
use door_rtos.MetaQueue.Invariant.{Lists, IsMeta, init_meta-IsMeta}
use door_rtos.Kernel.Monad.{Kernel}
use door_rtos.Boot.Scheduler.{Program}
use door_rtos.Kernel.Invariant.{IsScheduled, Filed, Filed-apart}

abbrev pub no_links : Links
no_links p = null

abbrev pub no_queues : ℕ → Queue
no_queues p = queue null null

abbrev a_pcb : ℕ → State → ℕ → Pcb
a_pcb n s prio = record {
  pid = n;
  state = s;
  priority = prio;
  stack_pointer = 0x8000;
  stack_size = 512;
  mess_queue = m_queue_at n;
  entry = 0x1000;
}

abbrev some_pcbs : Pcbs
some_pcbs zero = a_pcb 0 ready 0
some_pcbs (suc zero) = a_pcb 0 ready 4
some_pcbs (suc (suc zero)) = a_pcb 1 running 1
some_pcbs (suc (suc (suc zero))) = a_pcb 2 message_wait 0
some_pcbs (suc (suc (suc (suc zero)))) = a_pcb 3 ready 2
some_pcbs (suc (suc (suc (suc (suc zero))))) = a_pcb 4 message_wait 3
some_pcbs (suc (suc (suc (suc (suc (suc n)))))) = a_pcb 100 ready 4

abbrev pub some_messages : Messages
some_messages p = record {
  sender_pid = 0;
  dest_pid = 0;
  kind = 0;
  delay = p;
  size = 0;
  content = λ i. 0;
}

-- The ready processes.
abbrev pub one_ready : Lists
one_ready (suc (suc zero)) = 4 ∷ []
one_ready n = []

abbrev pub one_queue : ℕ → Queue
one_queue (suc (suc zero)) = queue 4 4
one_queue n = queue null null

abbrev pub ready_one : MetaQueue
ready_one = record { highest_prio = 2; subqueues = one_queue }

abbrev pub none_waiting : MetaQueue
none_waiting = init_meta (record { highest_prio = 0; subqueues = no_queues })

abbrev pub world : Kernel
world = record {
  pcbs = some_pcbs;
  pcb_next = no_links;
  current_pcb = 2;
  ready_queue = ready_one;
  memory_wait_queue = none_waiting;
  messages = some_messages;
  mess_next = no_links;
  mess_queues = no_queues;
  free_mem_q = queue null null;
  block_next = no_links;
  in_i_process = false;
  tmp_sp = 0x9000;
  swi = record {
    kernel_code = 0;
    param_1 = 0;
    param_2 = 0;
    param_3 = 0;
    ret_code = 0;
    ret_code_recv = 0;
    ret_code_get_prio = 0;
    msg_return = 0;
  };
}

ready_queues : (i : ℕ) → i ≤ num_prio → IsQueue no_links (ready_one.subqueues i) (one_ready i)
ready_queues zero h = record { chain = refl; tail_is = tt }
ready_queues (suc zero) h = record { chain = refl; tail_is = tt }
ready_queues (suc (suc zero)) h = record { chain = ground arith; tail_is = refl }
ready_queues (suc (suc (suc n))) h = record { chain = refl; tail_is = tt }

one_ready-Filed : Filed some_pcbs one_ready
one_ready-Filed zero h a m = absurd (ground arith)
one_ready-Filed (suc zero) h a m = absurd (ground arith)
one_ready-Filed (suc (suc zero)) h a m = let is : a ≡ 4 = ground arith in rw is refl
one_ready-Filed (suc (suc (suc n))) h a m = absurd (ground arith)

pub one_ready_below : (i : ℕ) → i < 2 → one_ready i ≡ []
one_ready_below zero h = refl
one_ready_below (suc zero) h = refl
one_ready_below (suc (suc n)) h = absurd (omega arith)

pub ready_one-IsMeta : IsMeta no_links ready_one one_ready
ready_one-IsMeta = record {
  family = record {
    queues = ready_queues;
    apart = Filed-apart some_pcbs one_ready one_ready-Filed;
  };
  highest = record { bound = omega arith; below = one_ready_below; top = λ h t. cc };
}

pub absent_ready : (a : Ptr) → a ≢ 4 → (i : ℕ) → i ≤ num_prio → a ∉ one_ready i
absent_ready a ne zero h = refl
absent_ready a ne (suc zero) h = refl
absent_ready a ne (suc (suc zero)) h = ground arith
absent_ready a ne (suc (suc (suc n))) h = refl

pub world-IsScheduled : IsScheduled world one_ready (λ i. [])
world-IsScheduled = record {
  ready = ready_one-IsMeta;
  waiting = init_meta-IsMeta no_links (record { highest_prio = 0; subqueues = no_queues });
  apart = λ i j h k a m. refl;
  ready_filed = one_ready-Filed;
  waiting_filed = λ i h a m. absurd (ground arith);
  current_ne = λ t. ground arith;
  current_bound = omega arith;
  current_ready = absent_ready 2 (omega arith);
  current_waiting = λ i h. refl;
}

abbrev pub program : Program
program = record { end_of_program = 0x10000; entry_of = λ n. n }

-- ===== src/Process/Uart/Inbox.antt =====
-- The calls of the kernel that the UART i-process (process/uart_i_process.c) makes for the messages
-- that wait for it.
use door_rtos.Base.{
  ℕ, ◌≤◌, ◌≡◌, ◌≢◌, refl, true, ==_refl, List, [], ◌∷◌, length, last, front, length-front,
  not-mem-front, write, ◌∉◌, Ptr, null, Links, arith,
}
use door_rtos.Task.{rtx_success}
use door_rtos.Queue.{Queue, is_empty}
use door_rtos.Queue.Chain.{IsQueue, Disjoint, Disjoint-cons}
use door_rtos.MetaQueue.Invariant.{IsMeta}
use door_rtos.Kernel.Monad.{Kernel, Swi, done, walk_fuel}
use door_rtos.Kernel.Primitives.{kernel_receive_message, kernel_release_memory_block}
use door_rtos.Kernel.Primitives.Memory.{with_blocks, kernel_release_memory_block-cons}
use door_rtos.Kernel.Primitives.Receive.{inbox, received, receive-received, receive_none-eq}
use door_rtos.Kernel.Swi.{
  swi_trap_handler, dispatch, receive_loop, receive_message, release_memory_block,
}
use door_rtos.Process.Uart.{receive_fuel}

-- An i-process with these messages, the newest first, and these free blocks, when no process waits
-- for memory. No message is a free block.
pub record Inbox (k : Kernel) (xs fs : List Ptr) : Type 0 where
  pub i_process : k.in_i_process ≡ true
  pub has_inbox : inbox k ≢ null
  pub messages : IsQueue k.mess_next (k.mess_queues (inbox k)) xs
  pub few : length xs ≤ walk_fuel
  pub free : IsQueue k.block_next k.free_mem_q fs
  pub no_waiter : IsMeta k.pcb_next k.memory_wait_queue (λ i. [])
  pub apart : Disjoint fs xs

-- The kernel in which a trap's primitive starts.
abbrev pub trapped : (sp : Ptr) → Swi → Kernel → Kernel
trapped sp s k = record k { tmp_sp = sp; swi = s }

abbrev pub receiving : Kernel → Swi
receiving k = record k.swi { msg_return = 0; ret_code_recv = null; param_1 = null; kernel_code = 2 }

abbrev releasing : (b : Ptr) → Kernel → Swi
releasing b k = record k.swi { kernel_code = 4; param_1 = b }

pub receive-eq :
    (sp : Ptr) (k k1 : Kernel) (e : Ptr)
    → kernel_receive_message (trapped sp (receiving k) k) ≡ done e k1
    → k1.swi.msg_return ≡ 1
    → receive_message receive_fuel sp null k ≡ done k1.swi.ret_code_recv k1
unfolding receive_message receive_loop swi_trap_handler dispatch
receive-eq sp k k1 e r one = rw (r, one) refl

release-eq :
    (sp b : Ptr) (k k1 : Kernel) (c : ℕ)
    → kernel_release_memory_block b (trapped sp (releasing b k) k) ≡ done c k1
    → release_memory_block sp b k ≡ done c (record k1 { swi = record k1.swi { ret_code = c } })
unfolding release_memory_block swi_trap_handler dispatch
release-eq sp b k k1 c r = rw r refl

pub received-Inbox :
    (sp : Ptr) (k : Kernel) (x : Ptr) (xs fs : List Ptr)
    → Inbox k (x ∷ xs) fs
    → (q : Queue) × (next : Links) × (receive_message receive_fuel sp null k
        ≡ done (last x xs) (received (inbox k) (last x xs) q next (trapped sp (receiving k) k)))
      × Inbox (received (inbox k) (last x xs) q next (trapped sp (receiving k) k)) (front x xs) fs
unfolding write
received-Inbox sp k x xs fs is =
    let k0 = trapped sp (receiving k) k in
    let (q, next, r, is', same) =
      receive-received k0 is.has_inbox x xs is.messages (omega (arith, is.few)) in
    (
      q,
      next,
      receive-eq sp k (received (inbox k) (last x xs) q next k0) (last x xs) r refl,
      record {
        i_process = is.i_process;
        has_inbox = is.has_inbox;
        messages = rw (==_refl (inbox k)) is';
        few = omega (arith, length-front x xs, is.few);
        free = is.free;
        no_waiter = is.no_waiter;
        apart = λ a m. not-mem-front a x xs (is.apart a m);
      },
    )

pub none-Inbox :
    (sp : Ptr) (k : Kernel) (fs : List Ptr)
    → Inbox k [] fs
    → (k' : Kernel) × (receive_message receive_fuel sp null k ≡ done null k') × Inbox k' [] fs
unfolding is_empty
none-Inbox sp k fs is =
    let k0 = trapped sp (receiving k) k in
    let k1 = record k0 { swi = record k0.swi { msg_return = 1 } } in
    let none_left : is_empty (k.mess_queues (inbox k)) ≡ true = ground (arith, is.messages.chain) in
    (
      k1,
      receive-eq sp k k1 null (receive_none-eq k0 is.has_inbox none_left is.i_process) refl,
      record {
        i_process = is.i_process;
        has_inbox = is.has_inbox;
        messages = is.messages;
        few = is.few;
        free = is.free;
        no_waiter = is.no_waiter;
        apart = is.apart;
      },
    )

abbrev pub freed : (sp b : Ptr) → Queue → Links → Kernel → Kernel
freed sp b q next k = record k {
  tmp_sp = sp;
  free_mem_q = q;
  block_next = next;
  swi = record k.swi { kernel_code = 4; param_1 = b; ret_code = rtx_success };
}

pub released-Inbox :
    (sp b : Ptr) (k : Kernel) (xs fs : List Ptr)
    → Inbox k xs fs
    → b ≢ null
    → b ∉ fs
    → b ∉ xs
    → (q : Queue) × (next : Links) × (release_memory_block sp b k
        ≡ done rtx_success (freed sp b q next k))
      × Inbox (freed sp b q next k) xs (b ∷ fs)
released-Inbox sp b k xs fs is ne out away =
    let k0 = trapped sp (releasing b k) k in
    let (q, next, r, is') =
      kernel_release_memory_block-cons k0 b fs (λ i. []) is.free is.no_waiter (λ i h. refl) ne
        out in
    (
      q,
      next,
      release-eq sp b k (with_blocks k0 q next) rtx_success r,
      record {
        i_process = is.i_process;
        has_inbox = is.has_inbox;
        messages = is.messages;
        few = is.few;
        free = is';
        no_waiter = is.no_waiter;
        apart = Disjoint-cons b fs xs away is.apart;
      },
    )

-- ===== src/Process/Uart.antt =====
-- The UART i-process (process/uart_i_process.c): one round of its loop, the listings of the queues
-- that the keys `Q` and `M` ask for, and what it writes to the serial port.
pub mod Inbox
pub mod Transmit
use door_rtos.Base.{
  ℕ, zero, suc, ◌+◌, ◌/◌, ◌%◌, Bool, true, false, ◌&&◌, ◌==◌, if◌then◌else◌, List, [], ◌∷◌, Ptr,
  null,
}
use door_rtos.Task.{num_prio}
use door_rtos.Queue.{Queue}
use door_rtos.MetaQueue.{MetaQueue}
use door_rtos.Message.{Mess, mess_data_size}
use door_rtos.Strings.{strncpy, int_to_str}
use door_rtos.Kernel.Monad.{Kernel, crashed, stuck, M, walk_fuel, pure, gets, skip, ◌>>=◌, ◌>>◌}
use door_rtos.Kernel.Process.{update_mess}
use door_rtos.Kernel.Swi.{
  release_processor, send_message, receive_message, request_memory_block, release_memory_block,
}
use door_rtos.Process.Text.{stored, kcd_pid, keyboard_input, crt_display_no_prompt}

abbrev pub crt_pid : ℕ
crt_pid = 0x20

-- What is written to the registers of the serial port.
pub data Serial : Type 0 where
  serial1_wd : ℕ → Serial
  serial1_imr : ℕ → Serial

-- The block is not compared with NULL.
unfoldable pub uart_print_string : (sp : Ptr) (string : List ℕ) → M (Unit {0})
uart_print_string sp string = do
  q ← request_memory_block sp
  update_mess q λ m. record m {
    kind = crt_display_no_prompt;
    content = stored (strncpy string mess_data_size) m.content;
  }
  send_message sp crt_pid q
  skip

unfoldable pub uart_print_integer : (sp : Ptr) (num : ℕ) → M (Unit {0})
uart_print_integer sp num = uart_print_string sp (int_to_str num)

-- "PID ", "  |  PRIORITY : ", "QUEUE ", "IS EMPTY\r" and " IS EMPTY\n\r".
abbrev pid_text : List ℕ
pid_text = 0x50 ∷ 0x49 ∷ 0x44 ∷ 0x20 ∷ []

abbrev priority_text : List ℕ
priority_text =
    0x20 ∷ 0x20 ∷ 0x7c ∷ 0x20 ∷ 0x20 ∷ 0x50 ∷ 0x52 ∷ 0x49 ∷ 0x4f ∷ 0x52 ∷ 0x49 ∷ 0x54 ∷ 0x59 ∷ 0x20
    ∷ 0x3a ∷ 0x20 ∷ []

abbrev queue_text : List ℕ
queue_text = 0x51 ∷ 0x55 ∷ 0x45 ∷ 0x55 ∷ 0x45 ∷ 0x20 ∷ []

abbrev is_empty_text : List ℕ → List ℕ
is_empty_text end = 0x49 ∷ 0x53 ∷ 0x20 ∷ 0x45 ∷ 0x4d ∷ 0x50 ∷ 0x54 ∷ 0x59 ∷ end

unfoldable pub print_pcb_infos : (sp pcb : Ptr) → M (Unit {0})
print_pcb_infos sp pcb = do
  if pcb == null then (λ k. crashed) else skip
  uart_print_string sp pid_text
  pid ← gets λ k. (k.pcbs pcb).pid
  uart_print_integer sp pid
  uart_print_string sp priority_text
  priority ← gets λ k. (k.pcbs pcb).priority
  uart_print_integer sp priority
  uart_print_string sp (13 ∷ [])

-- `while (seekpcb != tail)`, and the last one. The tail and the links are read anew each time.
unfoldable pub print_from : ℕ → (sp seekpcb : Ptr) → (tail : Kernel → Ptr) → M (Unit {0})
print_from zero sp seekpcb tail = λ k. stuck
print_from (suc fuel) sp seekpcb tail = do
  last ← gets tail
  if seekpcb == last then print_pcb_infos sp seekpcb else (do
    print_pcb_infos sp seekpcb
    next ← gets λ k. k.pcb_next seekpcb
    print_from fuel sp next tail)

-- The loop over the priorities from `i`, with so many rounds left, for a queue and the text that
-- stands behind the number of an empty one.
unfoldable pub print_queues :
    (rounds i : ℕ) (sp : Ptr) → (Kernel → MetaQueue) → List ℕ → M (Unit {0})
print_queues zero i sp of_kernel empty_text = skip
print_queues (suc rounds) i sp of_kernel empty_text = do
  q ← gets λ k. (of_kernel k).subqueues i
  if (q.head == null) && (q.tail == null)
      then (do
        uart_print_string sp queue_text
        uart_print_integer sp i
        uart_print_string sp empty_text)
      else print_from walk_fuel sp q.head (λ k. ((of_kernel k).subqueues i).tail)
  print_queues rounds (suc i) sp of_kernel empty_text

unfoldable pub print_ready_queue : (sp : Ptr) → M (Unit {0})
print_ready_queue sp =
    print_queues (num_prio + 1) 0 sp (λ k. k.ready_queue) (is_empty_text (13 ∷ []))

unfoldable pub print_memory_queue : (sp : Ptr) → M (Unit {0})
print_memory_queue sp =
    print_queues (num_prio + 1) 0 sp (λ k. k.memory_wait_queue)
      (0x20 ∷ is_empty_text (10 ∷ 13 ∷ []))

unfoldable pub parse_hotkey : (sp : Ptr) (recv : ℕ) → M (Unit {0})
parse_hotkey sp recv =
    if recv == 0x51
    then print_ready_queue sp
    else if recv == 0x4d
    then print_memory_queue sp
    else skip

abbrev key_message : (recv : ℕ) → Mess → Mess
key_message recv m = record m { kind = keyboard_input; content = stored (recv ∷ 0 ∷ []) m.content }

-- The key goes to the keyboard decoder, unless there is no block for it.
unfoldable pub take_key : (sp : Ptr) (recv : ℕ) → M (Unit {0})
take_key sp recv = do
  parse_hotkey sp recv
  env_ptr ← request_memory_block sp
  if env_ptr == null
      then skip
      else (do update_mess env_ptr (key_message recv); send_message sp kcd_pid env_ptr; skip)

-- In an i-process a second trap finds `msg_return` set.
abbrev pub receive_fuel : ℕ
receive_fuel = 2

-- `while (env_ptr != NULL)`
unfoldable pub transmit_from : ℕ → (sp env_ptr : Ptr) → M (List Serial)
transmit_from zero sp env_ptr = λ k. stuck
transmit_from (suc fuel) sp env_ptr = if env_ptr == null then pure [] else (do
  byte ← gets λ k. (k.messages env_ptr).content 0
  release_memory_block sp env_ptr
  env_ptr' ← receive_message receive_fuel sp null
  rest ← transmit_from fuel sp env_ptr'
  pure (serial1_wd byte ∷ serial1_imr 2 ∷ rest))

unfoldable pub transmit : (sp : Ptr) → M (List Serial)
transmit sp = do
  env_ptr ← receive_message receive_fuel sp null
  transmit_from (suc walk_fuel) sp env_ptr

-- A round, for what is read from `SERIAL1_UCSR` and `SERIAL1_RD`.
unfoldable pub uart_i_process_round : (sp : Ptr) (temp recv : ℕ) → M (List Serial)
uart_i_process_round sp temp recv = do
  if temp % 2 == 1 then take_key sp recv else skip
  out ← (if (temp / 4) % 2 == 1 then transmit sp else pure [])
  release_processor sp
  pure out

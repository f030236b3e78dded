-- ===== src/Examples/Devices.antt =====
-- The processes that talk to the user, at short texts.
use door_rtos.Base.{
  ℕ, ◌≤◌, ◌≡◌, ◌≢◌, Ptr, refl, true, false, some, [], ◌∷◌, ◌++◌, reverse, null, arith, ◌%◌, ◌^◌,
  if◌then◌else◌, List, ok, ◌==◌,
}
use door_rtos.Task.{get_pcb}
use door_rtos.Message.{Messages}
use door_rtos.Queue.{queue}
use door_rtos.MetaQueue.Invariant.{init_meta-IsMeta}
use door_rtos.Kernel.Monad.{Kernel, done, walk_fuel}
use door_rtos.Process.Text.{
  stored, text_at, kcd_pid, crt_display_request, crt_display_no_prompt, keyboard_input,
}
use door_rtos.Process.Crt.{on_message}
use door_rtos.Process.Crt.Echo.{sent, lost_blocks, prompt_text, on_message-expand}
use door_rtos.Process.Kcd as Kcd
use door_rtos.Process.Kcd.Typing.{idle, key, types, echoes, types-forward}
use door_rtos.Process.Kcd.Bounds.{IsKcd, on_messages-IsKcd}
use door_rtos.Process.WallClock as WallClock
use door_rtos.Process.WallClock.Print.{typed_time}
use door_rtos.Process.SetPriority as SetPriority
use door_rtos.Process.SetPriority.Command.{
  command_text, on_message-command_text, on_message-negative,
}
use door_rtos.Process.ProcessC as ProcessC
use door_rtos.Process.ProcessC.Order.{handled, Handled, on_message-Handled}
use door_rtos.Process.Uart.{transmit}
use door_rtos.Process.Uart.Inbox.{Inbox}
use door_rtos.Process.Uart.Transmit.{written, transmit-written}
use door_rtos.Process.ProcessA.{process_a1, count_rounds}
use door_rtos.Process.ProcessA.Reports.{envelopes as reports_of, readings, count_rounds-numbers}
use door_rtos.Process.Session.{set_command, types-sent}
use door_rtos.Examples.World.{some_messages, world, no_links, no_queues}

-- `a`, a carriage return and `b`.
on_message-expand_example :
    (sent (on_message crt_display_request (text_at (0x61 ∷ 13 ∷ 0x62 ∷ [])))
      ≡ 0x61 ∷ 13 ∷ 10 ∷ prompt_text ++ 0x62 ∷ [])
    × (lost_blocks (on_message crt_display_request (text_at (0x61 ∷ 13 ∷ 0x62 ∷ []))) ≡ 1)
on_message-expand_example =
    on_message-expand true (text_at (0x61 ∷ 13 ∷ 0x62 ∷ [])) (0x61 ∷ 13 ∷ 0x62 ∷ [])
      ((λ t. omega arith), ((λ t. omega arith), ((λ t. omega arith), tt))) (omega arith)
      (λ j h l. refl)

abbrev no_bytes : ℕ → ℕ
no_bytes i = 0

-- The decoder sends what is typed behind `%` to the process of pid 7.
types-forward_example :
    types (λ n. no_bytes) (0x25 ∷ 0x57 ∷ 0x54 ∷ 13 ∷ []) (idle (λ c. 7) 0 no_bytes)
    ≡ some (
      idle (λ c. 7) 0 (stored (0x57 ∷ 0x54 ∷ []) no_bytes),
      echoes (0x25 ∷ 0x57 ∷ 0x54 ∷ [])
          ++ Kcd.forward 7 (stored (0x57 ∷ 0x54 ∷ []) no_bytes) ∷ Kcd.echo (key 13) ∷ [],
    )
types-forward_example =
    types-forward (λ n. no_bytes) (λ c. 7) 0 no_bytes 0x57 (0x54 ∷ []) (omega arith)
      ((λ t. omega arith), ((λ t. omega arith), tt)) (omega arith)

-- A process registers for the command `W`, `%W` and a carriage return are typed.
abbrev typed_w : List Kcd.Incoming
typed_w =
    Kcd.incoming 0x10 0x22 (key 0x57) no_bytes
    ∷ Kcd.incoming keyboard_input 0x31 (key 0x25) no_bytes
    ∷ Kcd.incoming keyboard_input 0x31 (key 0x57) no_bytes
    ∷ Kcd.incoming keyboard_input 0x31 (key 13) no_bytes
    ∷ []

on_messages-IsKcd_example :
    (k : Kcd.Kcd) × (acts : List Kcd.Action) × (Kcd.on_messages typed_w
        (Kcd.start (λ c. 0) no_bytes)
      ≡ some (k, acts))
    × IsKcd k
on_messages-IsKcd_example =
    on_messages-IsKcd (λ c. 0) no_bytes typed_w
      ((refl, refl), ((refl, refl), ((refl, refl), ((refl, refl), tt))))

-- The process of pid 4 stands in the table.
world_pid : get_pcb 4 world.pcbs ≢ null
unfolding get_pcb
world_pid t = omega arith

on_message-command_text_example :
    SetPriority.on_message world.pcbs kcd_pid (stored (command_text 4 0x32) no_bytes)
    ≡ SetPriority.set_priority 4 2 ∷ SetPriority.release_message ∷ []
on_message-command_text_example =
    on_message-command_text world.pcbs 4 2 no_bytes (omega arith) (omega arith) (omega arith)
      world_pid

-- A space in place of the priority.
on_message-negative_example :
    (SetPriority.on_message world.pcbs kcd_pid (stored (command_text 4 0x20) no_bytes)
      ≡ SetPriority.set_priority 4 (SetPriority.priority_of 0x20)
        ∷ SetPriority.release_message
        ∷ [])
    × (208 ≤ SetPriority.priority_of 0x20 % 2 ^ 8)
on_message-negative_example =
    on_message-negative world.pcbs 4 0x20 no_bytes (omega arith) (omega arith) (omega arith)
      world_pid

-- One message waits for the process.
abbrev sending : Kernel
sending = record world { in_i_process = true; mess_queues = λ a. queue 300 300 }

sending-Inbox : Inbox sending (300 ∷ []) []
unfolding walk_fuel
sending-Inbox = record {
  i_process = refl;
  has_inbox = λ t. omega arith;
  messages = record { chain = ground arith; tail_is = refl };
  few = omega arith;
  free = record { chain = refl; tail_is = tt };
  no_waiter = init_meta-IsMeta no_links (record { highest_prio = 0; subqueues = no_queues });
  apart = λ a m. absurd (ground arith);
}

transmit-written_example :
    (k' : Kernel) × (transmit 0x9000 sending
      ≡ done (written sending.messages (reverse (300 ∷ []))) k')
    × Inbox k' [] (300 ∷ [])
transmit-written_example = transmit-written 0x9000 sending (300 ∷ []) [] sending-Inbox

-- A wake-up at 300, and a report of the number 3 that came before it at 400.
abbrev envelopes : Messages
envelopes p = record {
  sender_pid = 0;
  dest_pid = 9;
  kind = if p == 300 then 0x11 else 0x10;
  delay = 0;
  size = 0;
  content = stored (0 ∷ 0 ∷ 0 ∷ 3 ∷ []) no_bytes;
}

abbrev sleeper : ProcessC.ProcessC
sleeper = record {
  msg_queue_c1 = queue 400 400;
  mess_next = no_links;
  messages = envelopes;
  sleeps = true;
}

on_message-Handled_example :
    (c' : ProcessC.ProcessC) × (ys : List Ptr) × (ProcessC.on_message 300 sleeper
      ≡ ok (c', ProcessC.release 300 ∷ handled envelopes (reverse (400 ∷ []))))
    × Handled envelopes (reverse (400 ∷ [])) ys c'
on_message-Handled_example =
    on_message-Handled 300 sleeper (400 ∷ []) refl refl
      (record { chain = ground arith; tail_is = refl }) (omega arith)

-- The clock is set to a second before midnight.
types-sent_example :
    (bytes : ℕ → ℕ) × (types
        (λ n. no_bytes)
        (0x25 ∷ set_command 23 59 59 ++ 13 ∷ [])
        (idle (λ c. 0x22) 0 no_bytes)
      ≡ some (
        idle (λ c. 0x22) 0 bytes,
        echoes (0x25 ∷ set_command 23 59 59) ++ Kcd.forward 0x22 bytes ∷ Kcd.echo (key 13) ∷ [],
      ))
    × (WallClock.on_message kcd_pid bytes (WallClock.clock 1 2 3 false) ≡ (
      WallClock.clock 23 59 59 true,
      WallClock.output_clock (WallClock.clock_bytes 23 59 59) ∷ WallClock.delay_100 ∷ [],
    ))
    × (sent (on_message crt_display_no_prompt (stored (WallClock.clock_bytes 23 59 59) no_bytes))
        ≡ 13 ∷ 10 ∷ typed_time 23 59 59 ++ 13 ∷ 10 ∷ [])
types-sent_example =
    types-sent (λ n. no_bytes) (λ c. 0x22) 0 no_bytes no_bytes (WallClock.clock 1 2 3 false) 23 59
      59 (omega arith) (omega arith) (omega arith)

count_rounds-numbers_example :
    readings (reports_of (some_messages 0) (count_rounds 2 process_a1 (λ n. no_bytes) 19))
    ≡ (8, 0x10, 19, false) ∷ (8, 0x10, 20, true) ∷ []
count_rounds-numbers_example =
    count_rounds-numbers 2 process_a1 (λ n. no_bytes) (some_messages 0) 19 (omega arith)

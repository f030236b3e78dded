-- ===== src/Examples/Relays.antt =====
-- A process that passes two messages on.
use door_rtos.Base.{◌≡◌, ◌==◌, if◌then◌else◌, refl, [], ◌∷◌, ◌++◌, null, arith}
use door_rtos.Task.{get_pcb}
use door_rtos.Message.{m_queue_at}
use door_rtos.Queue.{queue}
use door_rtos.Kernel.Monad.{Kernel, done, walk_fuel}
use door_rtos.Process.ProcessB.{pass_all}
use door_rtos.Process.ProcessB.Relay.{Relay, pass_all-Relay}
use door_rtos.Examples.World.{world}

-- The messages 100 and 101, of which 101 came first, wait for pid 1, and 300 for pid 3.
abbrev relaying : Kernel
relaying = record world {
  mess_queues = λ a. if a == m_queue_at 1 then queue 100 101 else queue 300 300;
  mess_next = λ a. if a == 100 then 101 else null;
}

relaying-Relay : Relay 3 relaying (100 ∷ 101 ∷ []) (300 ∷ [])
unfolding get_pcb
relaying-Relay = record {
  found = λ t. omega arith;
  awake = refl;
  has_inbox = λ t. omega arith;
  has_outbox = λ t. omega arith;
  other = λ t. omega arith;
  mine = record { chain = ground arith; tail_is = refl };
  theirs = record { chain = ground arith; tail_is = refl };
  apart = λ a m. ground arith;
}

pass_all-Relay_example :
    (k' : Kernel) × (pass_all 2 0x9000 3 relaying ≡ done tt k')
    × Relay 3 k' [] ((100 ∷ 101 ∷ []) ++ 300 ∷ [])
unfolding walk_fuel
pass_all-Relay_example =
    pass_all-Relay 0x9000 3 relaying (100 ∷ 101 ∷ []) (300 ∷ []) relaying-Relay (omega arith)

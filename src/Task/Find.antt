-- ===== src/Task/Find.antt =====
-- `get_pcb` of kernel/task.c finds entries of the table only.
use door_rtos.Base.{ℕ, zero, suc, ◌+◌, ◌≤◌, ◌≡◌, refl, arith, true}
use door_rtos.Task.{
  Pcbs, State, ready, message_wait, memory_wait, running, max_processes, get_pcb_from, get_pcb,
  is_state,
}

get_pcb_from-le : (rounds i pid : ℕ) (pcbs : Pcbs) → get_pcb_from rounds i pid pcbs ≤ i + rounds
unfolding get_pcb_from
get_pcb_from-le zero i pid pcbs = omega arith
get_pcb_from-le (suc rounds) i pid pcbs = ground (arith, get_pcb_from-le rounds (suc i) pid pcbs)

pub get_pcb-le : (pid : ℕ) (pcbs : Pcbs) → get_pcb pid pcbs ≤ max_processes
unfolding get_pcb
get_pcb-le pid pcbs = omega (arith, get_pcb_from-le max_processes 0 pid pcbs)

pub is_state-eq : (s : State) → is_state message_wait s ≡ true → s ≡ message_wait
is_state-eq ready e = absurd (cc)
is_state-eq message_wait e = refl
is_state-eq memory_wait e = absurd (cc)
is_state-eq running e = absurd (cc)

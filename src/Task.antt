-- ===== src/Task.antt =====
-- Process control blocks: include/task.h, the numbers of include/rtx.h, the error codes of
-- include/rtx_inc.h, and `get_pcb` of kernel/task.c. The table `pcbs` is a map from addresses;
-- `pcbs + i` is the address `i + 1`, so that no entry is NULL. The `next` fields stand apart, as
-- links.
pub mod Find
use door_rtos.Base.{ℕ, zero, suc, Bool, true, false, ◌==◌, if◌then◌else◌, Ptr, null}

-- `enum states`
pub data State : Type 0 where
  ready : State
  message_wait : State
  memory_wait : State
  running : State

abbrev pub max_processes : ℕ
max_processes = 0x40

abbrev pub num_prio : ℕ
num_prio = 5

abbrev pub high : ℕ
high = 0

abbrev pub medium : ℕ
medium = 1

abbrev pub low : ℕ
low = 2

abbrev pub null_priority : ℕ
null_priority = 4

-- The codes as the kernel's 32-bit words: `RTX_ERROR` is -1.
abbrev pub rtx_success : ℕ
rtx_success = 0

abbrev pub rtx_error : ℕ
rtx_error = 0xffff_ffff

-- `entry` names the function that a process starts in, `mess_queue` is an address in `m_queues`.
pub record Pcb : Type 0 where
  pub pid : ℕ
  pub state : State
  pub priority : ℕ
  pub stack_pointer : Ptr
  pub stack_size : ℕ
  pub mess_queue : Ptr
  pub entry : ℕ

abbrev pub Pcbs : Type 0
Pcbs = Ptr → Pcb

-- `pcbs + i`
abbrev pub pcb_at : ℕ → Ptr
pcb_at i = suc i

-- The loop of `get_pcb` at index `i`, with so many rounds left.
get_pcb_from : (rounds i pid : ℕ) → Pcbs → Ptr
get_pcb_from zero i pid pcbs = null
get_pcb_from (suc rounds) i pid pcbs =
    let rest = get_pcb_from rounds (suc i) pid pcbs in
    if (pcbs (pcb_at i)).pid == pid then pcb_at i else rest

unfoldable pub get_pcb : ℕ → Pcbs → Ptr
unfolding get_pcb_from
get_pcb pid pcbs = get_pcb_from max_processes 0 pid pcbs

-- `a == b` on states.
abbrev pub is_state : State → State → Bool
is_state ready ready = true
is_state message_wait message_wait = true
is_state memory_wait memory_wait = true
is_state running running = true
is_state _ _ = false

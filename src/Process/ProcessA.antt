-- ===== src/Process/ProcessA.antt =====
-- The test producers (process/process_a1.c, process_a2.c, process_a3.c), which differ in their
-- command and in the process that they report to. Blocks and messages are requested, sent and
-- released through the calls of the kernel. The prints to the debug port are left out.
pub mod Reports
use door_rtos.Base.{
  ℕ, zero, suc, ◌+◌, ◌/◌, ◌%◌, ◌^◌, ◌==◌, if◌then◌else◌, List, [], ◌∷◌, ◌++◌, Ptr, stored,
}
use door_rtos.Process.ProcessC.{count_report}

-- The letter of the command, and the pid that the reports go to.
pub record Producer : Type 0 where
  pub command : ℕ
  pub dest_pid : ℕ

abbrev pub process_a1 : Producer
process_a1 = record { command = 0x58; dest_pid = 8 }

abbrev pub process_a2 : Producer
process_a2 = record { command = 0x59; dest_pid = 11 }

abbrev pub process_a3 : Producer
process_a3 = record { command = 0x5a; dest_pid = 11 }

-- In the first loop, or in the second one with this number.
pub data Phase : Type 0 where
  waiting : Phase
  counting : (num : ℕ) → Phase

pub data Action : Type 0 where
  -- A block is requested, and nothing is done with it.
  unused_block : Action
  register : (command : ℕ) → Action
  release_message : Action
  -- A new block of this type and with these data is sent to a process.
  report : (pid kind : ℕ) → (bytes : ℕ → ℕ) → Action
  yield_processor : Action

-- Before the first loop.
abbrev pub start_up : Producer → List Action
start_up a = unused_block ∷ register a.command ∷ []

-- A round of the first loop.
unfoldable pub on_message : Producer → (bytes : ℕ → ℕ) → Phase × List Action
on_message a bytes = (if bytes 0 == a.command then counting 0 else waiting, release_message ∷ [])

-- The four bytes of a number, the highest one first, over what the block holds.
abbrev pub report_bytes : (num : ℕ) (block : ℕ → ℕ) → ℕ → ℕ
report_bytes num block =
    stored
      ((num / 2 ^ 24) % 0x100 ∷ (num / 2 ^ 16) % 0x100 ∷ (num / 2 ^ 8) % 0x100 ∷ num % 0x100 ∷ [])
      block

-- A round of the second loop, with what the new block holds.
unfoldable pub count_round : Producer → (block : ℕ → ℕ) → (num : ℕ) → ℕ × List Action
count_round a block num = (
  (num + 1) % 2 ^ 32,
  report a.dest_pid count_report (report_bytes num block) ∷ yield_processor ∷ [],
)

-- So many rounds of the second loop.
unfoldable pub count_rounds : ℕ → Producer → (blocks : ℕ → ℕ → ℕ) → (num : ℕ) → List Action
count_rounds zero a blocks num = []
count_rounds (suc n) a blocks num =
    let (num', acts) = count_round a (blocks 0) num in
    acts ++ count_rounds n a (λ i. blocks (suc i)) num'

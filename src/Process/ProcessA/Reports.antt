-- ===== src/Process/ProcessA/Reports.antt =====
-- The numbers that the producers (process/process_a1.c) send and the consumers
-- (process/process_c1.c, process_c2.c) read.
use door_rtos.Base.{ℕ, zero, suc, ◌+◌, ◌%◌, ◌^◌, ◌<◌, ◌≡◌, refl, Bool, ◌==◌, List, [], ◌∷◌, arith}
use door_rtos.Message.{Mess}
use door_rtos.Process.ProcessA.{
  Producer, Action, unused_block, register, release_message, report, yield_processor, report_bytes,
  count_round, count_rounds,
}
use door_rtos.Process.ProcessC.{num_of, is_twentieth, count_report}

-- An envelope with the data of a report.
abbrev pub reported : (num : ℕ) (block : ℕ → ℕ) → Mess → Mess
reported num block m = record m { kind = count_report; content = report_bytes num block }

pub num_of-reported :
    (num : ℕ) (block : ℕ → ℕ) (m : Mess) → num < 2 ^ 32 → num_of (reported num block m) ≡ num
num_of-reported num block m h = omega arith

-- The reports among what a producer does, as the envelopes that arrive, and where they go.
abbrev pub envelopes : Mess → List Action → List (ℕ × Mess)
envelopes m [] = []
envelopes m (unused_block ∷ r) = envelopes m r
envelopes m (register c ∷ r) = envelopes m r
envelopes m (release_message ∷ r) = envelopes m r
envelopes m (report pid kind bytes ∷ r) =
    (pid, record m { kind = kind; content = bytes }) ∷ envelopes m r
envelopes m (yield_processor ∷ r) = envelopes m r

-- Where they go and their type, and what a consumer makes of them: the number, and whether it sleeps
-- on it.
abbrev pub readings : List (ℕ × Mess) → List (ℕ × ℕ × ℕ × Bool)
readings [] = []
readings ((pid, m) ∷ r) = (pid, m.kind, num_of m, is_twentieth m) ∷ readings r

-- Reports to one process of the numbers from `num` on, and which of them are multiples of 20.
abbrev pub numbers : (pid n num : ℕ) → List (ℕ × ℕ × ℕ × Bool)
numbers pid zero num = []
numbers pid (suc n) num = (pid, count_report, num, num % 20 == 0) ∷ numbers pid n (suc num)

-- In `n` rounds from `num` on, with `num + n` below 2 ^ 32, a producer sends exactly one message in
-- each, all to its one process and of the type COUNT_REPORT. A consumer that reads them in that order
-- finds the numbers from `num` on and sleeps on exactly the multiples of 20, whatever the blocks held.
pub count_rounds-numbers :
    (n : ℕ) (a : Producer) (blocks : ℕ → ℕ → ℕ) (m : Mess) (num : ℕ)
    → num + n < 2 ^ 32
    → readings (envelopes m (count_rounds n a blocks num)) ≡ numbers a.dest_pid n num
unfolding count_rounds count_round
count_rounds-numbers zero a blocks m num h = refl
count_rounds-numbers (suc n) a blocks m num h =
    let e = num_of-reported num (blocks 0) m (omega arith) in
    let next : (num + 1) % 2 ^ 32 ≡ suc num = omega arith in
    let ih = count_rounds-numbers n a (λ i. blocks (suc i)) m (suc num) (omega arith) in
    rw (e, next, ih) refl

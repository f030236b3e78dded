-- ===== src/Message.antt =====
-- Message envelopes (include/messages.h).
-- An envelope fills a memory block, so it is named by the block's address; `next` stands apart.
use door_rtos.Base.{ℕ, suc, ◌+◌, Ptr}
use door_rtos.Task.{max_processes}

pub record Mess : Type 0 where
  pub sender_pid : ℕ
  pub dest_pid : ℕ
  pub kind : ℕ
  pub delay : ℕ
  pub size : ℕ
  pub content : ℕ → ℕ

abbrev pub Messages : Type 0
Messages = Ptr → Mess

abbrev pub mess_data_size : ℕ
mess_data_size = 128

-- `m_queues + i`
abbrev pub m_queue_at : ℕ → Ptr
m_queue_at i = suc i

-- The address of `delayed_send_queue_s`, behind those of `m_queues`.
abbrev pub delayed_send_queue : Ptr
delayed_send_queue = max_processes + 1

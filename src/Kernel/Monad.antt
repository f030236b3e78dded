-- ===== src/Kernel/Monad.antt =====
-- The kernel's globals and the monad of the code that runs in it.
use door_rtos.Base.{ℕ, Bool, Ptr, Links, Outcome, ok, fault, out_of_fuel}
use door_rtos.Task.{Pcbs}
use door_rtos.Queue.{Queue}
use door_rtos.MetaQueue.{MetaQueue}
use door_rtos.Message.{Messages}

-- The globals of the trap interface.
pub record Swi : Type 0 where
  pub kernel_code : ℕ
  pub param_1 : ℕ
  pub param_2 : ℕ
  pub param_3 : ℕ
  pub ret_code : ℕ
  pub ret_code_recv : ℕ
  pub ret_code_get_prio : ℕ
  pub msg_return : ℕ

pub record Kernel : Type 0 where
  pub pcbs : Pcbs
  pub pcb_next : Links
  pub current_pcb : Ptr
  pub ready_queue : MetaQueue
  pub memory_wait_queue : MetaQueue
  pub messages : Messages
  pub mess_next : Links
  pub mess_queues : Ptr → Queue
  pub free_mem_q : Queue
  pub block_next : Links
  pub in_i_process : Bool
  pub tmp_sp : Ptr
  pub swi : Swi

-- The rounds that a walk along a queue may take: no queue has more elements than there are memory
-- blocks or processes.
unfoldable pub walk_fuel : ℕ
walk_fuel = 256

-- `done`: the code returns. `switched`: it has left for another process and does not return here.
pub data Run (A : Type 0) : Type 0 where
  done : A → Kernel → Run A
  switched : Kernel → Run A
  crashed : Run A
  stuck : Run A

abbrev pub M : Type 0 → Type 0
M A = Kernel → Run A

module _ {A B : Type 0} where
  abbrev pub and_then : Run A → (A → M B) → Run B
  and_then (done a k) f = f a k
  and_then (switched k) f = switched k
  and_then crashed f = crashed
  and_then stuck f = stuck

  infixl 5 ◌>>=◌ ◌>>◌
  abbrev pub ◌>>=◌ : M A → (A → M B) → M B
  m >>= f = λ k. and_then (m k) f

  abbrev pub ◌>>◌ : M A → M B → M B
  m >> n = m >>= λ _. n

abbrev pub pure : {A : Type 0} → A → M A
pure = done

abbrev pub gets : {A : Type 0} → (Kernel → A) → M A
gets f k = done (f k) k

abbrev pub modify : (Kernel → Kernel) → M (Unit {0})
modify f k = done tt (f k)

abbrev pub skip : M (Unit {0})
skip = done tt

-- The outcome of an operation on a part of the state, and where its result goes.
abbrev pub lift_to : {A B : Type 0} → Outcome A → (A → M B) → M B
lift_to (ok a) g k = g a k
lift_to fault g k = crashed
lift_to out_of_fuel g k = stuck

abbrev pub lift : {A B : Type 0} → (Kernel → Outcome A) → (A → M B) → M B
lift f g k = lift_to (f k) g k

abbrev pub set_swi : (Swi → Swi) → M (Unit {0})
set_swi f = modify λ k. record k { swi = f k.swi }

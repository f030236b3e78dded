-- ===== src/Boot/Stack.antt =====
-- The stack that a process starts with (`init_local_stack` of kernel/init.c): what
-- `RESTORE_CONTEXT` and `rte` read.
use door_rtos.Base.{ℕ, ◌-◌, Bool, if◌then◌else◌, List, [], ◌∷◌, Ptr}

-- The words are stored from `sp` down, four bytes apart.
unfoldable pub store_words : (sp : Ptr) → List ℕ → List (Ptr × ℕ)
store_words sp [] = []
store_words sp (w ∷ ws) = (sp, w) ∷ store_words (sp - 4) ws

abbrev pub initial_registers : List ℕ
initial_registers =
    0xd0 ∷ 0xd1 ∷ 0xd2 ∷ 0xd3 ∷ 0xd4 ∷ 0xd5 ∷ 0xd6 ∷ 0xd7 ∷ 0xa0 ∷ 0xa1 ∷ 0xa2 ∷ 0xa3 ∷ 0xa4 ∷ 0xa5
    ∷ 0xa6 ∷ []

-- The format word and status register: supervisor with interrupts masked, or user mode.
abbrev pub frame_word : Bool → ℕ
frame_word is_i_process = if is_i_process then 0x41002700 else 0x41000000

-- The stores, and the stack pointer returned: the address of the last one.
unfoldable pub init_local_stack :
    (stack_pointer : Ptr) (proc_entry : ℕ) (is_i_process : Bool) → List (Ptr × ℕ) × Ptr
init_local_stack sp proc_entry is_i_process =
    (store_words sp (proc_entry ∷ frame_word is_i_process ∷ initial_registers), sp - 64)

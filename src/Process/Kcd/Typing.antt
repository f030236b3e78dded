-- ===== src/Process/Kcd/Typing.antt =====
-- Typing at the keyboard decoder (process/kcd_process.c), one message for each key.
use mathlib.Core.Path.{fun_ext, ap₂}
use door_rtos.Base.{
  ℕ, suc, ◌+◌, ◌≤◌, ◌<◌, ◌≡◌, ◌≢◌, refl, true, false, ◌&&◌, ◌==◌, ltb, Option, none, some, List, [],
  ◌∷◌, ◌++◌, length, length-append, All, arith,
}
use mathlib.Core.List.{append-nil, append_assoc}
use door_rtos.Kernel.Interrupts.{uart_pid}
use door_rtos.Process.Text.{stored, text_at, write-stored, keyboard_input}
use door_rtos.Process.Kcd.{
  Kcd, Action, forward, echo, max_command_size, is_index, on_key, on_message,
}

-- Where no command is being typed.
abbrev pub idle : (map : ℕ → ℕ) (char_typed : ℕ) (tosend : ℕ → ℕ) → Kcd
idle m n t = record { map = m; i = 0; char_typed = n; buffer_flag = false; tosend = t }

-- Where these bytes of a command have been typed.
abbrev filling : (map : ℕ → ℕ) (char_typed : ℕ) (block : ℕ → ℕ) → List ℕ → Kcd
filling m n block s = record {
  map = m;
  i = length s;
  char_typed = n;
  buffer_flag = true;
  tosend = stored s block;
}

-- The message for a key, with a block for each round that may request one.
abbrev pub key : ℕ → ℕ → ℕ
key c = text_at (c ∷ [])

unfoldable pub types : (blocks : ℕ → ℕ → ℕ) → List ℕ → Kcd → Option (Kcd × List Action)
types blocks [] k = some (k, [])
types blocks (c ∷ s) k = elim (on_message keyboard_input uart_pid (key c) (blocks 0) k) [
  | none ↦ none
  | some (k1, acts) ↦ elim (types (λ n. blocks (suc n)) s k1) [
    | none ↦ none
    | some (k2, more) ↦ some (k2, acts ++ more)
  ]
]

abbrev pub echoes : List ℕ → List Action
echoes [] = []
echoes (c ∷ s) = echo (key c) ∷ echoes s

types-key :
    (blocks : ℕ → ℕ → ℕ) (c : ℕ) (s : List ℕ) (k k1 k2 : Kcd) (acts more : List Action)
    → on_message keyboard_input uart_pid (key c) (blocks 0) k ≡ some (k1, acts)
    → types (λ n. blocks (suc n)) s k1 ≡ some (k2, more)
    → types blocks (c ∷ s) k ≡ some (k2, acts ++ more)
unfolding types
types-key blocks c s k k1 k2 acts more e h = rw (types, e, h) refl

filling-snoc :
    (m : ℕ → ℕ) (n : ℕ) (block : ℕ → ℕ) (s : List ℕ) (c : ℕ) (b : ℕ → ℕ)
    → length s < max_command_size
    → c ≢ 13
    → on_message keyboard_input uart_pid (key c) b (filling m n block s)
      ≡ some (filling m n block (s ++ c ∷ []), echo (key c) ∷ [])
unfolding on_message on_key
filling-snoc m n block s c b h ne =
    let closed : ((c == 0x25) && false) ≡ false = ground arith in
    let plain : (c == 13) ≡ false = ground arith in
    let fits : ltb (length s) max_command_size ≡ true = ground arith in
    rw (closed, plain, fits)
      (ap₂
        (λ n' t. some (
          record { map = m; i = n'; char_typed = n; buffer_flag = true; tosend = t },
          echo (key c) ∷ [],
        ))
        (omega (arith, length-append s (c ∷ []))) (fun_ext λ j. write-stored s c block j))

filling-return :
    (m : ℕ → ℕ) (n : ℕ) (block : ℕ → ℕ) (c : ℕ) (s : List ℕ) (b : ℕ → ℕ)
    → c < 128
    → on_message keyboard_input uart_pid (key 13) b (filling m n block (c ∷ s))
      ≡ some (
        idle m n (stored (c ∷ s) block),
        forward (m c) (stored (c ∷ s) block) ∷ echo (key 13) ∷ [],
      )
unfolding on_message on_key
filling-return m n block c s b h = let e : is_index c ≡ true = ground arith in rw e refl

idle-percent :
    (m : ℕ → ℕ) (n : ℕ) (t b : ℕ → ℕ)
    → on_message keyboard_input uart_pid (key 0x25) b (idle m n t)
      ≡ some (filling m n b [], echo (key 0x25) ∷ [])
unfolding on_message on_key
idle-percent m n t b = refl

types-rest :
    (blocks : ℕ → ℕ → ℕ) (m : ℕ → ℕ) (n : ℕ) (block : ℕ → ℕ) (c : ℕ) (xs s : List ℕ)
    → c < 128
    → All (λ d. d ≢ 13) s
    → length (c ∷ xs) + length s ≤ max_command_size
    → types blocks (s ++ 13 ∷ []) (filling m n block (c ∷ xs))
      ≡ some (
        idle m n (stored (c ∷ xs ++ s) block),
        echoes s ++ forward (m c) (stored (c ∷ xs ++ s) block) ∷ echo (key 13) ∷ [],
      )
unfolding types
types-rest blocks m n block c xs [] small plain fits =
    let e : c ∷ xs ++ [] ≡ c ∷ xs = append-nil (c ∷ xs) in
    rw e (types-key blocks 13 [] _ _ _ _ _ (filling-return m n block c xs (blocks 0) small) refl)
types-rest blocks m n block c xs (d ∷ s) small plain fits =
    let ih =
      types-rest (λ i. blocks (suc i)) m n block c (xs ++ d ∷ []) s small plain.1
        (omega (arith, length-append xs (d ∷ []))) in
    types-key blocks d (s ++ 13 ∷ []) _ _ _ _ _
      (filling-snoc m n block (c ∷ xs) d (blocks 0) (omega arith) plain.0)
      (rw (append_assoc xs (d ∷ []) s) at ih)

-- From a state in which no command is being typed, the key `%`, then at most 32 keys without a
-- carriage return, the first of which is `c`, and then a carriage return send a block to the
-- process that is registered for `c`, once, with the bytes of the keys in order and behind them
-- what the block held. Each key is echoed, and again no command is being typed.
pub types-forward :
    (blocks : ℕ → ℕ → ℕ) (m : ℕ → ℕ) (n : ℕ) (t : ℕ → ℕ) (c : ℕ) (s : List ℕ)
    → c < 128
    → All (λ d. d ≢ 13) (c ∷ s)
    → length (c ∷ s) ≤ max_command_size
    → types blocks (0x25 ∷ c ∷ s ++ 13 ∷ []) (idle m n t)
      ≡ some (
        idle m n (stored (c ∷ s) (blocks 0)),
        echoes (0x25 ∷ c ∷ s) ++ forward (m c) (stored (c ∷ s) (blocks 0)) ∷ echo (key 13) ∷ [],
      )
types-forward blocks m n t c s small plain fits =
    types-key blocks 0x25 (c ∷ s ++ 13 ∷ []) _ _ _ _ _ (idle-percent m n t (blocks 0)) (
      types-key (λ i. blocks (suc i)) c (s ++ 13 ∷ []) _ _ _ _ _
        (filling-snoc m n (blocks 0) [] c (blocks 1) (omega arith) plain.0)
        (types-rest (λ i. blocks (suc (suc i))) m n (blocks 0) c [] s small plain.1 (omega arith)))

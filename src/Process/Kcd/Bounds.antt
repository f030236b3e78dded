-- ===== src/Process/Kcd/Bounds.antt =====
-- How many bytes of a command the keyboard decoder (process/kcd_process.c) holds.
use door_rtos.Base.{
  ℕ, ◌≤◌, ◌≡◌, refl, Bool, true, false, ◌&&◌, Bool-cases, inl, inr, ◌==◌, ltb, Option, none, some,
  List, [], ◌∷◌, ◌++◌, write, arith,
}
use door_rtos.Process.Text.{command_registration, keyboard_input}
use door_rtos.Process.Kcd.{
  Kcd, Action, max_command_size, is_index, is_long, register, on_key, and_echo, on_message,
  Incoming, on_messages, start,
}

-- A command has at most 32 bytes, none between two commands, and its first byte is an index.
pub record IsKcd (k : Kcd) : Type 0 where
  pub bounded : k.i ≤ max_command_size
  pub empty : k.buffer_flag ≡ false → k.i ≡ 0
  pub indexed : k.buffer_flag ≡ true → is_index (k.tosend 0) ≡ true

-- The round does not go outside `map`, and the state after it.
abbrev pub Leaves : (Kcd → Type 0) → Option (Kcd × List Action) → Type 0
Leaves P none = ⊥
Leaves P (some (k, acts)) = P k

register-IsKcd :
    (sender_pid : ℕ) (bytes : ℕ → ℕ) (k : Kcd)
    → is_index (bytes 0) ≡ true
    → IsKcd k
    → Leaves IsKcd (register sender_pid bytes k)
unfolding register
register-IsKcd sender_pid bytes k h is =
    rw h (record { bounded = is.bounded; empty = is.empty; indexed = is.indexed })

-- Where no command is being typed.
outside-IsKcd :
    (block : ℕ → ℕ) (c : ℕ) (m : ℕ → ℕ) (i n : ℕ) (t : ℕ → ℕ)
    → i ≡ 0
    → is_index (block 0) ≡ true
    → Leaves IsKcd (
        on_key block c (record { map = m; i = i; char_typed = n; buffer_flag = false; tosend = t }))
unfolding on_key
outside-IsKcd block c m i n t z new = elim (Bool-cases ((c == 0x25) && true)) [
  | inl a ↦ rw a (record { bounded = omega arith; empty = λ e. z; indexed = λ e. new })
  | inr a ↦ elim (Bool-cases (is_long n && (c == 13))) [
    | inl b ↦
        rw (a, b) (record { bounded = omega arith; empty = λ e. z; indexed = λ e. absurd (cc) })
    | inr b ↦ elim (Bool-cases (c == 13)) [
      | inl d ↦
          rw (a, b, d)
            (record { bounded = omega arith; empty = λ e. z; indexed = λ e. absurd (cc) })
      | inr d ↦
          rw (a, b, d)
            (record { bounded = omega arith; empty = λ e. z; indexed = λ e. absurd (cc) })
    ]
  ]
]

write-is_index :
    (t : ℕ → ℕ) (i c : ℕ)
    → is_index (t 0) ≡ true
    → is_index c ≡ true
    → is_index (write t i c 0) ≡ true
unfolding write
write-is_index t i c b low = ground arith

inside-IsKcd :
    (block : ℕ → ℕ) (c : ℕ) (m : ℕ → ℕ) (i n : ℕ) (t : ℕ → ℕ)
    → i ≤ max_command_size
    → is_index (t 0) ≡ true
    → is_index c ≡ true
    → Leaves IsKcd
        (on_key block c (record { map = m; i = i; char_typed = n; buffer_flag = true; tosend = t }))
unfolding on_key
inside-IsKcd block c m i n t h b low =
    let closed : ((c == 0x25) && false) ≡ false = ground arith in
    elim (Bool-cases (c == 13)) [
      | inl d ↦
          rw (closed, d, b)
            (record { bounded = omega arith; empty = λ e. refl; indexed = λ e. absurd (cc) })
      | inr d ↦ elim (Bool-cases (ltb i max_command_size)) [
        | inl l ↦
            rw (closed, d, l)
              (record {
                bounded = ground arith;
                empty = λ e. absurd (cc);
                indexed = λ e. write-is_index t i c b low;
              })
        | inr l ↦
            rw (closed, d, l) (record { bounded = h; empty = λ e. absurd (cc); indexed = λ e. b })
      ]
    ]

on_key_at-IsKcd :
    (block : ℕ → ℕ) (c : ℕ) (m : ℕ → ℕ) (i n : ℕ) (flag : Bool) (t : ℕ → ℕ)
    → i ≤ max_command_size
    → (flag ≡ false → i ≡ 0)
    → (flag ≡ true → is_index (t 0) ≡ true)
    → is_index c ≡ true
    → is_index (block 0) ≡ true
    → Leaves IsKcd
        (on_key block c (record { map = m; i = i; char_typed = n; buffer_flag = flag; tosend = t }))
on_key_at-IsKcd block c m i n true t h e b low new = inside-IsKcd block c m i n t h (b refl) low
on_key_at-IsKcd block c m i n false t h e b low new = outside-IsKcd block c m i n t (e refl) new

on_key-IsKcd :
    (block : ℕ → ℕ) (c : ℕ) (k : Kcd)
    → IsKcd k
    → is_index c ≡ true
    → is_index (block 0) ≡ true
    → Leaves IsKcd (on_key block c k)
on_key-IsKcd block c k is low new =
    on_key_at-IsKcd block c k.map k.i k.char_typed k.buffer_flag k.tosend is.bounded is.empty
      is.indexed low new

Leaves-echo :
    (P : Kcd → Type 0) (bytes : ℕ → ℕ) (o : Option (Kcd × List Action))
    → Leaves P o
    → Leaves P (elim o [ none ↦ none | some r ↦ some (and_echo bytes r) ])
Leaves-echo P bytes none h = h
Leaves-echo P bytes (some (k, [])) h = h
Leaves-echo P bytes (some (k, a ∷ acts)) h = h

on_message-IsKcd :
    (kind sender_pid : ℕ) (bytes block : ℕ → ℕ) (k : Kcd)
    → IsKcd k
    → is_index (bytes 0) ≡ true
    → is_index (block 0) ≡ true
    → Leaves IsKcd (on_message kind sender_pid bytes block k)
unfolding on_message
on_message-IsKcd kind sender_pid bytes block k is low new =
    elim (Bool-cases (kind == command_registration)) [
      | inl a ↦ rw a (register-IsKcd sender_pid bytes k low is)
      | inr a ↦ elim (Bool-cases (kind == keyboard_input)) [
        | inl b ↦ rw (a, b) (Leaves-echo IsKcd bytes _ (on_key-IsKcd block (bytes 0) k is low new))
        | inr b ↦ rw (a, b) is
      ]
    ]

-- The first byte of the message, and of a block that is new, can be an index of the map.
abbrev pub IsPlain : Incoming → Type 0
IsPlain m = (is_index (m.bytes 0) ≡ true) × (is_index (m.block 0) ≡ true)

abbrev pub ArePlain : List Incoming → Type 0
ArePlain [] = Unit {0}
ArePlain (m ∷ ms) = IsPlain m × ArePlain ms

abbrev Goes : Option (Kcd × List Action) → Type 0
Goes o = (k : Kcd) × (acts : List Action) × (o ≡ some (k, acts)) × IsKcd k

Leaves-Goes : (o : Option (Kcd × List Action)) → Leaves IsKcd o → Goes o
Leaves-Goes none h = absurd h
Leaves-Goes (some (k, acts)) h = (k, acts, refl, h)

on_messages-cons :
    (m : Incoming) (ms : List Incoming) (k k1 k2 : Kcd) (acts more : List Action)
    → on_message m.kind m.sender_pid m.bytes m.block k ≡ some (k1, acts)
    → on_messages ms k1 ≡ some (k2, more)
    → on_messages (m ∷ ms) k ≡ some (k2, acts ++ more)
unfolding on_messages
on_messages-cons m ms k k1 k2 acts more r r' = rw (on_messages, r, r') refl

on_messages_from-Goes :
    (ms : List Incoming) (k : Kcd) → IsKcd k → ArePlain ms → Goes (on_messages ms k)
unfolding on_messages
on_messages_from-Goes [] k is plain = (k, [], refl, is)
on_messages_from-Goes (m ∷ ms) k is (p, ps) =
    let (k1, acts, r, is1) =
      Leaves-Goes (on_message m.kind m.sender_pid m.bytes m.block k)
        (on_message-IsKcd m.kind m.sender_pid m.bytes m.block k is p.0 p.1) in
    let (k2, more, r', is2) = on_messages_from-Goes ms k1 is1 ps in
    (k2, acts ++ more, on_messages-cons m ms k k1 k2 acts more r r', is2)

-- From its start, with anything in its map, the decoder never goes outside the map, holds at most 32
-- bytes of a command and none between two commands, whatever messages it gets in whatever order, as
-- long as the first byte of each message is below 128, and that of each new block too.
pub on_messages-IsKcd :
    (map tosend : ℕ → ℕ) (ms : List Incoming)
    → ArePlain ms
    → (k : Kcd) × (acts : List Action) × (on_messages ms (start map tosend) ≡ some (k, acts))
      × IsKcd k
on_messages-IsKcd map tosend ms plain =
    on_messages_from-Goes ms (start map tosend)
      (record { bounded = omega arith; empty = λ e. refl; indexed = λ e. absurd (cc) }) plain

-- ===== src/Kernel/Delayed/Due.antt =====
-- What the queue of delayed messages (kernel/primitives.c) stands for: each message with its time, the
-- sum of the delays up to it. The timer i-process (process/timer_i_process.c) compares the first of
-- them with the ticks since its last release, so a time is counted from there, and not from the call
-- that files the message.
use door_rtos.Base.{
  ℕ, zero, suc, ◌+◌, ◌-◌, ◌<◌, ◌≡◌, refl, ◌∙◌, ap, true, false, inl, inr, Bool-cases, List, [], ◌∷◌,
  ◌++◌, arith, ltb, if◌then◌else◌, Ptr, null, Links, ok, length, last, ◌∈◌,
}
use door_rtos.Message.{Messages}
use door_rtos.Queue.Chain.{Chain}
use door_rtos.Kernel.Delayed.{find_place}

-- The delays of messages.
abbrev pub Delays : Type 0
Delays = Ptr → ℕ

abbrev pub delays_of : Messages → Delays
delays_of messages p = (messages p).delay

-- Delays are counted from the message before, the first one from `now`.
unfoldable pub dues : Delays → (now : ℕ) → List Ptr → List (Ptr × ℕ)
dues d now [] = []
dues d now (x ∷ xs) = (x, now + d x) ∷ dues d (now + d x) xs

-- A message goes in front of the first one whose time is not smaller.
unfoldable pub insert_due : Ptr → ℕ → List (Ptr × ℕ) → List (Ptr × ℕ)
insert_due e t [] = (e, t) ∷ []
insert_due e t ((x, u) ∷ r) = if ltb u t then (x, u) ∷ insert_due e t r else (e, t) ∷ (x, u) ∷ r

module _ (d : Delays) where
  -- The messages in front of the place for a delay `n`, those behind it, and what is left of `n`.
  pub before : (n : ℕ) → List Ptr → List Ptr
  before n [] = []
  before n (x ∷ xs) = let rest = before (n - d x) xs in if ltb (d x) n then x ∷ rest else []

  pub behind : (n : ℕ) → List Ptr → List Ptr
  behind n [] = []
  behind n (x ∷ xs) = let rest = behind (n - d x) xs in if ltb (d x) n then rest else x ∷ xs

  pub left : (n : ℕ) → List Ptr → ℕ
  left n [] = n
  left n (x ∷ xs) = let rest = left (n - d x) xs in if ltb (d x) n then rest else n

  pub before-behind : (n : ℕ) (xs : List Ptr) → before n xs ++ behind n xs ≡ xs
  unfolding before behind
  before-behind n [] = refl
  before-behind n (x ∷ xs) = elim (Bool-cases (ltb (d x) n)) [
    | inl l ↦ rw (l, before-behind (n - d x) xs)
    | inr g ↦ rw g
  ]

-- The first element, or NULL.
abbrev pub first : List Ptr → Ptr
first [] = null
first (x ∷ xs) = x

pub find_place_lem :
    (messages : Messages) (next : Links) (fuel n : ℕ) (prev p : Ptr) (xs : List Ptr)
    → Chain next p xs
    → length xs < fuel
    → find_place fuel n prev p messages next
      ≡ ok (
        left (delays_of messages) n xs,
        last prev (before (delays_of messages) n xs),
        first (behind (delays_of messages) n xs),
      )
unfolding find_place before behind left
find_place_lem messages next zero n prev p xs c h = absurd (omega arith)
find_place_lem messages next (suc fuel) n prev p [] c h = ground (arith, c)
find_place_lem messages next (suc fuel) n prev p (x ∷ xs) c h =
    elim (Bool-cases (ltb (messages x).delay n)) [
      | inl l ↦ ground (
        arith,
        l,
        c.0,
        c.1,
        find_place_lem messages next fuel (n - (messages x).delay) x (next x) xs c.3,
      )
      | inr g ↦ ground (arith, g, c.0, c.1)
    ]

dues-same :
    (d d' : Delays) (now : ℕ) (xs : List Ptr)
    → ((a : Ptr) → a ∈ xs → d' a ≡ d a)
    → dues d' now xs ≡ dues d now xs
unfolding dues
dues-same d d' now [] same = refl
dues-same d d' now (x ∷ xs) same =
    let e : d' x ≡ d x = same x (ground arith) in
    rw (e, dues-same d d' (now + d x) xs (λ a m. same a (ground arith)))

-- Only the first message behind the place has its delay shortened.
abbrev pub Shortened : Delays → Delays → ℕ → List Ptr → Type 0
Shortened d d' n [] = Unit {0}
Shortened d d' n (v ∷ vs) = (d' v ≡ d v - n) × ((a : Ptr) → a ∈ vs → d' a ≡ d a)

-- The new message has the time that is asked for, and every other one its time from before.
pub dues-insert :
    (d d' : Delays) (e : Ptr) (now n : ℕ) (xs : List Ptr)
    → d' e ≡ left d n xs
    → ((a : Ptr) → a ∈ before d n xs → d' a ≡ d a)
    → Shortened d d' (left d n xs) (behind d n xs)
    → dues d' now (before d n xs ++ e ∷ behind d n xs) ≡ insert_due e (now + n) (dues d now xs)
unfolding dues insert_due before behind left
dues-insert d d' e now n [] new same short = rw new
dues-insert d d' e now n (x ∷ xs) new same short = elim (Bool-cases (ltb (d x) n)) [
  | inl l ↦
      let sum : now + d x + (n - d x) ≡ now + n = ground arith in
      let less : ltb (now + d x) (now + n) ≡ true = ground arith in
      let unchanged : d' x ≡ d x = same x (rw l (ground arith)) in
      let ih =
        dues-insert d d' e (now + d x) (n - d x) xs (rw l at new)
          (λ a m. same a (rw l (ground arith))) (rw l at short) in
      rw (l, less, unchanged)
        (ap (λ r. (x, now + d x) ∷ r) (ih ∙ ap (λ t. insert_due e t (dues d (now + d x) xs)) sum))
  | inr g ↦
      let more : ltb (now + d x) (now + n) ≡ false = ground arith in
      let (cut, rest) = rw g at short in
      let sum : now + n + (d x - n) ≡ now + d x = ground arith in
      let new' : d' e ≡ n = rw g at new in
      rw (g, more, new', cut, sum, dues-same d d' (now + d x) xs rest)
]

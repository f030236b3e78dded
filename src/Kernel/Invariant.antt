-- ===== src/Kernel/Invariant.antt =====
-- The invariant of the scheduler's state: both queues by priority are well formed over the one map
-- of links, no process is in two queues, each stands in the queue of its priority, and the running
-- process is in none.
use door_rtos.Base.{
  ℕ, ◌≤◌, ◌≡◌, ◌≢◌, sym, refl, ◌∙◌, false, ◌⊎◌, inl, inr, List, [], ◌∷◌, arith, ◌==◌, Bool-cases,
  Ptr, null, Links, write, ◌∈◌, ◌∉◌, mem, last, front, mem-last,
}
use door_rtos.Task.{message_wait, Pcb, Pcbs, num_prio}
use door_rtos.Queue.Chain.{Chain, Disjoint, SameOutside, IsQueue-frame}
use door_rtos.MetaQueue.{MetaQueue}
use door_rtos.MetaQueue.Invariant.{Lists, IsMeta}
use door_rtos.MetaQueue.Enqueue.{Absent, push_at}
use door_rtos.Kernel.Monad.{Kernel}

-- Every process in the queue of priority `i` has that priority.
abbrev pub Filed : Pcbs → Lists → Type 0
Filed pcbs xss = (i : ℕ) → i ≤ num_prio → (a : Ptr) → a ∈ xss i → (pcbs a).priority ≡ i

-- No process is in both queues.
abbrev pub Apart : Lists → Lists → Type 0
Apart rs ws = (i j : ℕ) → i ≤ num_prio → j ≤ num_prio → Disjoint (rs i) (ws j)

-- No process waits for a message that did not before.
abbrev pub NoneParked : Pcbs → Pcbs → Type 0
NoneParked pcbs pcbs' = (a : Ptr) → (pcbs' a).state ≡ message_wait → (pcbs a).state ≡ message_wait

pub NoneParked-write :
    (pcbs0 pcbs : Pcbs) (p : Ptr) (c : Pcb)
    → NoneParked pcbs0 pcbs
    → (c.state ≡ message_wait → (pcbs p).state ≡ message_wait)
    → NoneParked pcbs0 (write pcbs p c)
unfolding write
NoneParked-write pcbs0 pcbs p c before same a h = elim (Bool-cases (a == p)) [
  | inl s ↦ (let t : a ≡ p = ground arith in before a (rw t (same (rw s at h))))
  | inr s ↦ before a (rw s at h)
]

-- `rs` are the ready processes, `ws` those that wait for memory.
pub record IsScheduled (k : Kernel) (rs ws : Lists) : Type 0 where
  pub ready : IsMeta k.pcb_next k.ready_queue rs
  pub waiting : IsMeta k.pcb_next k.memory_wait_queue ws
  pub apart : Apart rs ws
  pub ready_filed : Filed k.pcbs rs
  pub waiting_filed : Filed k.pcbs ws
  pub current_ne : k.current_pcb ≢ null
  pub current_bound : (k.pcbs k.current_pcb).priority ≤ num_prio
  pub current_ready : Absent k.current_pcb rs
  pub current_waiting : Absent k.current_pcb ws

-- A queue by priority is what it was after changes to processes in none of its queues.
pub IsMeta-frame :
    {next next' : Links} {mq : MetaQueue} {xss : Lists} (ys : List Ptr)
    → SameOutside ys next next'
    → ((i : ℕ) → i ≤ num_prio → Disjoint (xss i) ys)
    → IsMeta next mq xss
    → IsMeta next' mq xss
IsMeta-frame {xss} ys same out is = record {
  family = record {
    queues = λ i h. IsQueue-frame ys (xss i) same (out i h) (is.family.queues i h);
    apart = is.family.apart;
  };
  highest = is.highest;
}

-- The last element of a chain is not among the others, and is not NULL.
pub Chain-last :
    (next : Links) (p x : Ptr) (xs : List Ptr)
    → Chain next p (x ∷ xs)
    → (last x xs ∉ front x xs) × (last x xs ≢ null)
Chain-last next p x [] c = (refl, c.1)
Chain-last next p x (y ∷ ys) c =
    let ih = Chain-last next (next x) y ys c.3 in
    (ground (arith, ih.0, c.2, mem-last y ys, not_last x y ys c.2), ih.1)
  where
    not_last : (x y : Ptr) (ys : List Ptr) → x ∉ y ∷ ys → (last y ys == x) ≡ false
    not_last x y [] h = ground arith
    not_last x y (z ∷ zs) h = not_last x z zs (ground arith)

-- What is in the lists after a process has been put in.
pub mem-push :
    (xss : Lists) (p : ℕ) (e a : Ptr) (i : ℕ)
    → a ∈ push_at xss p e i
    → ((a ≡ e) × (i ≡ p)) ⊎ (a ∈ xss i)
unfolding write
mem-push xss p e a i m = elim (Bool-cases (i == p)) [
  | inr s ↦ inr (rw s at m)
  | inl s ↦
      let t : i ≡ p = ground arith in
      elim (Bool-cases (a == e)) [
        | inl u ↦ inl (ground arith, t)
        | inr u ↦ inr (rw t (rw (s, u) at m))
      ]
]

mem-front : (a x : Ptr) (xs : List Ptr) → a ∈ front x xs → a ∈ x ∷ xs
mem-front a x [] h = ground arith
mem-front a x (y ∷ ys) h = ground (arith, mem-front a y ys)

-- `zss` holds nothing that `xss` does not.
abbrev pub Within : Lists → Lists → Type 0
Within zss xss = (i : ℕ) → i ≤ num_prio → (a : Ptr) → a ∈ zss i → a ∈ xss i

pub Within-pop :
    (xss : Lists) (p : ℕ) (x : Ptr) (xs : List Ptr)
    → xss p ≡ x ∷ xs
    → Within (write xss p (front x xs)) xss
unfolding write
Within-pop xss p x xs e i b a m = elim (Bool-cases (i == p)) [
  | inr s ↦ rw s at m
  | inl s ↦ let t : i ≡ p = ground arith in rw (t, e) (mem-front a x xs (rw s at m))
]

module _ (zss xss : Lists) (within : Within zss xss) where
  pub Absent-within : (a : Ptr) → Absent a xss → Absent a zss
  Absent-within a out i h = elim (Bool-cases (mem a (zss i))) [
    | inr o ↦ o
    | inl m ↦ absurd (let m' = within i h a m in let o = out i h in cc)
  ]

  pub Filed-within : (pcbs : Pcbs) → Filed pcbs xss → Filed pcbs zss
  Filed-within pcbs filed i h a m = filed i h a (within i h a m)

  pub Apart-within : (ws : Lists) → Apart xss ws → Apart zss ws
  Apart-within ws apart i j h k a m = apart i j h k a (within i h a m)

module _ (xss : Lists) (p : ℕ) (e : Ptr) where
  pub Absent-push : (a : Ptr) → Absent a xss → a ≢ e → Absent a (push_at xss p e)
  Absent-push a out ne i h = elim (Bool-cases (mem a (push_at xss p e i))) [
    | inr o ↦ o
    | inl m ↦ elim (mem-push xss p e a i m) [
      | inl both ↦ absurd (ne both.0)
      | inr m' ↦ absurd (let o = out i h in cc)
    ]
  ]

  pub Filed-push :
      (pcbs : Pcbs) → Filed pcbs xss → (pcbs e).priority ≡ p → Filed pcbs (push_at xss p e)
  Filed-push pcbs filed h i b a m = elim (mem-push xss p e a i m) [
    | inl both ↦ rw (both.0, both.1) h
    | inr m' ↦ filed i b a m'
  ]

  pub Apart-push : (ws : Lists) → Apart xss ws → Absent e ws → Apart (push_at xss p e) ws
  Apart-push ws apart out i j h k a m = elim (mem-push xss p e a i m) [
    | inl both ↦ rw both.0 (out j k)
    | inr m' ↦ apart i j h k a m'
  ]

-- PCBs that differ in no priority.
pub Filed-same :
    (pcbs pcbs' : Pcbs) (xss : Lists)
    → ((a : Ptr) → (pcbs' a).priority ≡ (pcbs a).priority)
    → Filed pcbs xss
    → Filed pcbs' xss
Filed-same pcbs pcbs' xss same filed i h a m = same a ∙ filed i h a m

-- Queues whose processes have the queue's priority share no process.
pub Filed-apart :
    (pcbs : Pcbs) (xss : Lists)
    → Filed pcbs xss
    → (i j : ℕ) → i ≤ num_prio
    → j ≤ num_prio
    → i ≢ j
    → Disjoint (xss i) (xss j)
Filed-apart pcbs xss filed i j h h' ne a m = elim (Bool-cases (mem a (xss j))) [
  | inr o ↦ o
  | inl m' ↦ absurd (ne (sym (filed i h a m) ∙ filed j h' a m'))
]

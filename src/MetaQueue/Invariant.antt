-- ===== src/MetaQueue/Invariant.antt =====
-- What a queue by priority stands for: a list of processes for each priority, newest first.
use door_rtos.Base.{
  ℕ, ◌↔◌, zero, suc, ◌+◌, ◌≤◌, ◌<◌, ◌≡◌, ◌≢◌, refl, true, false, inl, inr, List, [], ◌∷◌, arith,
  ltb, ◌==◌, Bool-cases, Ptr, Links, ok, write,
}
use native.Mathlib.Decide.{dec_lt}
use door_rtos.Queue.{Queue, is_empty, init_queue}
use door_rtos.Queue.Chain.{IsQueue, Disjoint, Disjoint-symm, SameOutside, IsQueue-frame}
use door_rtos.Task.{num_prio}
use door_rtos.MetaQueue.{MetaQueue, init_meta, is_meta_empty, raise_highest}

abbrev pub Lists : Type 0
Lists = ℕ → List Ptr

-- The queues are well formed and no process is in two of them.
pub record IsFamily (next : Links) (qs : ℕ → Queue) (xss : Lists) : Type 0 where
  pub queues : (i : ℕ) → i ≤ num_prio → IsQueue next (qs i) (xss i)
  pub apart : (i j : ℕ) → i ≤ num_prio → j ≤ num_prio → i ≢ j → Disjoint (xss i) (xss j)

-- `highest_prio` is the smallest priority with a process, or `NUM_PRIO + 1`.
pub record IsHighest (p : ℕ) (xss : Lists) : Type 0 where
  pub bound : p ≤ num_prio + 1
  pub below : (i : ℕ) → i < p → xss i ≡ []
  pub top : p ≤ num_prio → xss p ≢ []

pub record IsMeta (next : Links) (mq : MetaQueue) (xss : Lists) : Type 0 where
  pub family : IsFamily next mq.subqueues xss
  pub highest : IsHighest mq.highest_prio xss

-- One queue is replaced; the elements `ys` whose links have changed are in no other queue.
pub IsFamily-write :
    {next next' : Links} {qs : ℕ → Queue} {xss : Lists} {q' : Queue} {xs' : List Ptr} (p : ℕ)
    (ys : List Ptr)
    → IsFamily next qs xss
    → SameOutside ys next next'
    → IsQueue next' q' xs'
    → ((i : ℕ) → i ≤ num_prio → i ≢ p → Disjoint (xss i) ys × Disjoint xs' (xss i))
    → IsFamily next' (write qs p q') (write xss p xs')
unfolding write
IsFamily-write {xss} p ys is same new outside = record {
  queues = λ i h. elim (Bool-cases (i == p)) [
    | inl s ↦ rw s new
    | inr s ↦ rw s (IsQueue-frame ys (xss i) same (outside i h (ground arith)).0 (is.queues i h))
  ];
  apart = λ i j h k ne a m. elim (Bool-cases (i == p)) [
    | inl s ↦
        let t : (j == p) ≡ false = ground arith in
        rw t ((outside j k (ground arith)).1 a (rw s at m))
    | inr s ↦ elim (Bool-cases (j == p)) [
      | inl t ↦ rw t (Disjoint-symm _ _ (outside i h (ground arith)).1 a (rw s at m))
      | inr t ↦ rw t (is.apart i j h k ne a (rw s at m))
    ]
  ];
}

module _ {next : Links} {q : Queue} where
  pub eq-nil_of_empty : (xs : List Ptr) → IsQueue next q xs → is_empty q ≡ true → xs ≡ []
  unfolding is_empty
  eq-nil_of_empty [] is h = refl
  eq-nil_of_empty (x ∷ xs) is h = absurd (ground (arith, is.chain.0, is.chain.1))

  pub ne-nil_of_full : (xs : List Ptr) → IsQueue next q xs → is_empty q ≡ false → xs ≢ []
  unfolding is_empty
  ne-nil_of_full [] is h = absurd (ground (arith, is.chain))
  ne-nil_of_full (x ∷ xs) is h = λ e. cc

-- What the loop that raises `highest_prio` finds: the first full queue from `p` on.
pub record Raised (qs : ℕ → Queue) (p p' : ℕ) : Type 0 where
  pub from : p ≤ p'
  pub bound : p' ≤ num_prio + 1
  pub skipped : (i : ℕ) → p ≤ i → i < p' → is_empty (qs i) ≡ true
  pub full : p' ≤ num_prio → is_empty (qs p') ≡ false

pub raise_highest-Raised :
    (fuel p : ℕ) (qs : ℕ → Queue)
    → num_prio + 2 ≤ fuel + p
    → p ≤ num_prio + 1
    → (p' : ℕ) × (raise_highest fuel p qs ≡ ok p') × Raised qs p p'
unfolding raise_highest
raise_highest-Raised zero p qs h b = absurd (omega arith)
raise_highest-Raised (suc fuel) p qs h b = elim (Bool-cases (is_empty (qs p))) [
  | inr full ↦ (
    p,
    rw full,
    record {
      from = omega arith;
      bound = b;
      skipped = λ i l g. absurd (omega arith);
      full = λ g. full;
    },
  )
  | inl e ↦ elim (Bool-cases (ltb p (num_prio + 1))) [
    | inr stop ↦ (
      p,
      rw (e, stop),
      record {
        from = omega arith;
        bound = b;
        skipped = λ i l g. absurd (omega arith);
        full = λ g. absurd (ground arith);
      },
    )
    | inl go ↦
        let (p', r, rest) = raise_highest-Raised fuel (suc p) qs (omega arith) (ground arith) in
        (
          p',
          rw (e, go, r),
          record {
            from = omega (arith, rest.from);
            bound = rest.bound;
            skipped = λ i l g. elim (Bool-cases (i == p)) [
              | inl same ↦ (let s : i ≡ p = ground arith in rw s e)
              | inr other ↦ rest.skipped i (ground arith) g
            ];
            full = rest.full;
          },
        )
  ]
]

init_meta_subqueues :
    (q : MetaQueue) (i : ℕ) → i ≤ num_prio → (init_meta q).subqueues i ≡ init_queue
unfolding init_meta write init_queue
init_meta_subqueues q i h = ground arith

-- `init_METAPCB_queue` leaves no process in any queue.
pub init_meta-IsMeta : (next : Links) (q : MetaQueue) → IsMeta next (init_meta q) (λ i. [])
unfolding init_meta init_queue
init_meta-IsMeta next q = record {
  family = record {
    queues = λ i h. rw (init_meta_subqueues q i h) (record { chain = refl; tail_is = tt });
    apart = λ i j h k ne a m. cc;
  };
  highest = record { bound = omega arith; below = λ i h. refl; top = λ h. absurd (omega arith) };
}

module _ {next : Links} {mq : MetaQueue} {xss : Lists} (is : IsMeta next mq xss) where
  -- The highest priority is the smallest one with a process.
  pub highest-eq :
      (p : ℕ) → p ≤ num_prio → xss p ≢ [] → ((i : ℕ) → i < p → xss i ≡ []) → mq.highest_prio ≡ p
  highest-eq p h full low = elim (dec_lt p mq.highest_prio) [
    | yes l ↦ absurd (full (is.highest.below p l))
    | no ge ↦ elim (dec_lt mq.highest_prio p) [
      | yes l ↦ absurd (is.highest.top (omega arith) (low _ l))
      | no ge' ↦ omega arith
    ]
  ]

  pub highest_empty : ((i : ℕ) → i ≤ num_prio → xss i ≡ []) → num_prio < mq.highest_prio
  highest_empty none_left = elim (dec_lt num_prio mq.highest_prio) [
    | yes l ↦ l
    | no ge ↦ absurd (is.highest.top (omega arith) (none_left _ (omega arith)))
  ]

  -- On well-formed queues, `is_METAPCB_queue_empty` holds exactly when no priority has a
  -- process.
  pub is_meta_empty_iff : (is_meta_empty mq ≡ true) ↔ ((i : ℕ) → i ≤ num_prio → xss i ≡ [])
  unfolding is_meta_empty
  is_meta_empty_iff = (
    λ e i h. elim (Bool-cases (ltb num_prio mq.highest_prio)) [
      | inl past ↦ is.highest.below i (ground arith)
      | inr inside ↦
          let b : mq.highest_prio ≤ num_prio = ground arith in
          absurd (is.highest.top b (eq-nil_of_empty _ (is.family.queues _ b) (rw inside at e)))
    ],
    λ none_left. let past = highest_empty none_left in ground arith,
  )

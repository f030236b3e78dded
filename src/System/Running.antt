-- ===== src/System/Running.antt =====
-- What the kernel keeps while processes run: the scheduler's invariant, that every process in a
-- queue is an entry of the table, and that a process that waits for a message is in no queue.
use door_rtos.Base.{
  ℕ, ◌≤◌, ◌≡◌, ◌≢◌, sym, ◌∙◌, ◌⊎◌, inl, inr, List, [], ◌∷◌, Ptr, last, front, ◌∈◌, mem-last, write,
  ◌==◌, Bool-cases, arith,
}
use door_rtos.Task.{message_wait, max_processes, num_prio, pcb_at}
use door_rtos.MetaQueue.Invariant.{Lists}
use door_rtos.MetaQueue.Enqueue.{Absent, push_at}
use door_rtos.Kernel.Monad.{Kernel, Run, done, switched, crashed, stuck, and_then}
use door_rtos.Kernel.Invariant.{IsScheduled, Within-pop, Absent-within, mem-push}
use door_rtos.Kernel.Ready.{IsFirst, pop_at}
use door_rtos.System.Table.{Tabled}

-- A process that waits for a message does not run and is in no queue by priority.
abbrev pub Parks : Kernel → Lists → Lists → Type 0
Parks k rs ws =
    (a : Ptr) → (k.pcbs a).state ≡ message_wait → (a ≢ k.current_pcb) × Absent a rs × Absent a ws

-- The null process, pid 0, runs or is ready.
abbrev pub HasIdle : Kernel → Lists → Type 0
HasIdle k rs = (k.current_pcb ≡ pcb_at 0) ⊎ ((i : ℕ) × (i ≤ num_prio) × (pcb_at 0 ∈ rs i))

pub record IsRunning (k : Kernel) (rs ws : Lists) : Type 0 where
  pub scheduled : IsScheduled k rs ws
  pub ready_tabled : Tabled rs
  pub waiting_tabled : Tabled ws
  pub current_tabled : k.current_pcb ≤ max_processes
  pub parks : Parks k rs ws
  pub idle : HasIdle k rs

-- The code returns, or leaves for another process, in a kernel that runs: it neither crashes nor
-- gets stuck.
abbrev pub Keeps : {A : Type 0} → Run A → Type 0
Keeps (done a k) = (rs : Lists) × (ws : Lists) × IsRunning k rs ws
Keeps (switched k) = (rs : Lists) × (ws : Lists) × IsRunning k rs ws
Keeps crashed = ⊥
Keeps stuck = ⊥

pub Keeps-and_then :
    {A B : Type 0} (r : Run A) (f : A → Kernel → Run B)
    → Keeps r
    → ((a : A) (k : Kernel) (rs ws : Lists) → IsRunning k rs ws → Keeps (f a k))
    → Keeps (and_then r f)
Keeps-and_then (done a k) f (rs, ws, is) next = next a k rs ws is
Keeps-and_then (switched k) f keeps next = keeps
Keeps-and_then crashed f keeps next = absurd keeps
Keeps-and_then stuck f keeps next = absurd keeps

pub Keeps-switched :
    {A : Type 0} {r : Run A} {k' : Kernel} (rs ws : Lists)
    → r ≡ switched k'
    → IsRunning k' rs ws
    → Keeps r
Keeps-switched rs ws e is = rw e (rs, ws, is)

pub Keeps-done :
    {A : Type 0} {r : Run A} {a : A} {k' : Kernel} (rs ws : Lists)
    → r ≡ done a k'
    → IsRunning k' rs ws
    → Keeps r
Keeps-done rs ws e is = rw e (rs, ws, is)

pub Tabled-pop :
    (xss : Lists) (p : ℕ) (x : Ptr) (xs : List Ptr)
    → xss p ≡ x ∷ xs
    → Tabled xss
    → Tabled (pop_at xss p x xs)
Tabled-pop xss p x xs e tabled i h a m = tabled i h a (Within-pop xss p x xs e i h a m)

pub Tabled-push :
    (xss : Lists) (p : ℕ) (e : Ptr) → Tabled xss → e ≤ max_processes → Tabled (push_at xss p e)
Tabled-push xss p e tabled small i h a m = elim (mem-push xss p e a i m) [
  | inl both ↦ rw both.0 small
  | inr m' ↦ tabled i h a m'
]

-- The oldest process of a number is in the queues.
module _ {xss : Lists} {p : ℕ} {x : Ptr} {xs : List Ptr} (f : IsFirst xss p x xs) where
  pub first-mem : last x xs ∈ xss p
  first-mem = rw f.holds (mem-last x xs)

  pub first-Tabled : Tabled xss → last x xs ≤ max_processes
  first-Tabled tabled = tabled p f.bound (last x xs) first-mem

  pub first_ne : (a : Ptr) → Absent a xss → a ≢ last x xs
  first_ne a out s = let m = rw (sym s) at first-mem in let o = out p f.bound in cc

  pub Absent-pop : (a : Ptr) → Absent a xss → Absent a (pop_at xss p x xs)
  Absent-pop = Absent-within (pop_at xss p x xs) xss (Within-pop xss p x xs f.holds)

mem-front_ne : (a x : Ptr) (xs : List Ptr) → a ∈ x ∷ xs → a ≢ last x xs → a ∈ front x xs
mem-front_ne a x [] m ne = absurd (ne (ground arith))
mem-front_ne a x (y ∷ ys) m ne = ground (arith, mem-front_ne a y ys)

-- A process other than the one taken stays in the queues.
pub mem-pop :
    {xss : Lists} {p : ℕ} {x : Ptr} {xs : List Ptr} (a : Ptr) (i : ℕ)
    → IsFirst xss p x xs
    → a ≢ last x xs
    → a ∈ xss i
    → a ∈ pop_at xss p x xs i
unfolding write
mem-pop {p} {x} {xs} a i f ne m = elim (Bool-cases (i == p)) [
  | inr s ↦ rw s m
  | inl s ↦ let t : i ≡ p = ground arith in rw s (mem-front_ne a x xs (rw (t, f.holds) at m) ne)
]

pub mem_of_eq : (a b : Ptr) (xs : List Ptr) → a ≡ b → b ∈ xs → a ∈ xs
mem_of_eq a b xs e m = rw e m

pub mem-push_self : (xss : Lists) (p : ℕ) (e : Ptr) → e ∈ push_at xss p e p
unfolding write
mem-push_self xss p e = ground arith

pub mem-push_other : (xss : Lists) (p : ℕ) (e a : Ptr) (i : ℕ) → a ∈ xss i → a ∈ push_at xss p e i
unfolding write
mem-push_other xss p e a i m = elim (Bool-cases (i == p)) [
  | inr s ↦ rw s m
  | inl s ↦ (let t : i ≡ p = ground arith in rw s (let m' = rw t at m in ground arith))
]

-- The running process `cur` goes back to the ready queue.
pub HasIdle-push :
    (k k' : Kernel) (rs : Lists) (p : ℕ)
    → p ≤ num_prio
    → HasIdle k rs
    → HasIdle k' (push_at rs p k.current_pcb)
HasIdle-push k k' rs p bound (inl s) =
    inr (p, bound, mem_of_eq (pcb_at 0) k.current_pcb _ (sym s) (mem-push_self rs p k.current_pcb))
HasIdle-push k k' rs p bound (inr (i, h, m)) =
    inr (i, h, mem-push_other rs p k.current_pcb (pcb_at 0) i m)

-- The null process after a process has been taken to run: it runs, or it is still ready.
pub HasIdle-pop :
    (k k' : Kernel) {rs : Lists} {p : ℕ} {x : Ptr} {xs : List Ptr}
    → IsFirst rs p x xs
    → k'.current_pcb ≡ last x xs
    → k.current_pcb ≢ pcb_at 0
    → HasIdle k rs
    → HasIdle k' (pop_at rs p x xs)
HasIdle-pop k k' {x} {xs} f runs busy (inl s) = absurd (busy s)
HasIdle-pop k k' {x} {xs} f runs busy (inr (i, h, m)) = elim (Bool-cases (pcb_at 0 == last x xs)) [
  | inl s ↦ inl (let t : pcb_at 0 ≡ last x xs = ground arith in runs ∙ sym t)
  | inr s ↦ inr (i, h, mem-pop (pcb_at 0) i f (ground arith) m)
]

-- The same, when the running process has gone back to the ready queue in between.
pub HasIdle-switch :
    (k k' : Kernel) {rs : Lists} {p : ℕ} {x : Ptr} {xs : List Ptr} (q : ℕ)
    → IsFirst rs p x xs
    → k'.current_pcb ≡ last x xs
    → q ≤ num_prio
    → HasIdle k rs
    → HasIdle k' (push_at (pop_at rs p x xs) q k.current_pcb)
HasIdle-switch k k' {rs} {p} {x} {xs} q f runs bound idle =
    elim (Bool-cases (k.current_pcb == pcb_at 0)) [
      | inl s ↦ HasIdle-push k k' (pop_at rs p x xs) q bound (inl (ground arith))
      | inr s ↦ elim (HasIdle-pop k k' f runs (ground arith) idle) [
        | inl t ↦ inl t
        | inr (i, h, m) ↦
            inr (i, h, mem-push_other (pop_at rs p x xs) q k.current_pcb (pcb_at 0) i m)
      ]
    ]

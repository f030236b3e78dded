-- ===== src/System/Fair.antt =====
-- Round robin: how long a ready process of the highest priority waits for the processor.
use door_rtos.Base.{
  ℕ, zero, suc, ◌≤◌, ◌<◌, ◌≡◌, refl, ◌∙◌, ap, List, [], ◌∷◌, ◌++◌, arith, Ptr, length, length-front,
  last, front, write,
}
use door_rtos.Task.{max_processes, num_prio}
use door_rtos.MetaQueue.Invariant.{Lists}
use door_rtos.MetaQueue.Enqueue.{push_at}
use door_rtos.Kernel.Monad.{Kernel, switched, walk_fuel}
use door_rtos.Kernel.Process.{current, process_switch}
use door_rtos.Kernel.Ready.{IsFirst, pop_at}
use door_rtos.Kernel.Switch.{process_switch-Switched}
use door_rtos.System.Table.{length-Tabled}
use door_rtos.System.Running.{IsRunning, first-mem}
use door_rtos.System.Switching.{Switched-IsRunning}

-- So many calls of `release_processor`, each by the process that runs then, and each switches.
pub data Yields : ℕ → Kernel → Kernel → Type 0 where
  none : {k : Kernel} → Yields zero k k
  more :
      {n : ℕ} {k k1 k2 : Kernel}
      → process_switch k ≡ switched k1
      → Yields n k1 k2
      → Yields (suc n) k k2

-- A list with `t` in it, as a first element and the rest.
head_of : (us : List Ptr) (t : Ptr) → Ptr
head_of [] t = t
head_of (u ∷ us) t = u

rest_of : (us : List Ptr) (t : Ptr) (vs : List Ptr) → List Ptr
rest_of [] t vs = vs
rest_of (u ∷ us) t vs = us ++ t ∷ vs

cons-rest_of :
    (us : List Ptr) (t : Ptr) (vs : List Ptr) → us ++ t ∷ vs ≡ head_of us t ∷ rest_of us t vs
unfolding head_of rest_of
cons-rest_of [] t vs = refl
cons-rest_of (u ∷ us) t vs = refl

last-append :
    (u : Ptr) (us : List Ptr) (t : Ptr) (vs : List Ptr) → last u (us ++ t ∷ vs) ≡ last t vs
last-append u [] t vs = refl
last-append u (w ∷ us) t vs = last-append w us t vs

front-append :
    (u : Ptr) (us : List Ptr) (t : Ptr) (vs : List Ptr)
    → front u (us ++ t ∷ vs) ≡ u ∷ us ++ front t vs
front-append u [] t vs = refl
front-append u (w ∷ us) t vs = ap (λ r. u ∷ r) (front-append w us t vs)

last-rest_of :
    (us : List Ptr) (t : Ptr) (vs : List Ptr) → last (head_of us t) (rest_of us t vs) ≡ last t vs
unfolding head_of rest_of
last-rest_of [] t vs = refl
last-rest_of (u ∷ us) t vs = last-append u us t vs

front-rest_of :
    (us : List Ptr) (t : Ptr) (vs : List Ptr)
    → front (head_of us t) (rest_of us t vs) ≡ us ++ front t vs
unfolding head_of rest_of
front-rest_of [] t vs = refl
front-rest_of (u ∷ us) t vs = front-append u us t vs

-- The queue of `p` after its oldest process has been taken and `c` has been put in.
rotated :
    (rs : Lists) (p q : ℕ) (c : Ptr) (ys : List Ptr)
    → q ≡ p
    → push_at (write rs p ys) q c p ≡ c ∷ ys
unfolding write
rotated rs p q c ys e = ground arith

rotated_below :
    (rs : Lists) (p q : ℕ) (c : Ptr) (ys : List Ptr) (i : ℕ)
    → q ≡ p
    → i < p
    → rs i ≡ []
    → push_at (write rs p ys) q c i ≡ []
unfolding write
rotated_below rs p q c ys i e h empty = ground arith

head_of-IsFirst :
    {k : Kernel} {rs ws : Lists} (p : ℕ) (x : Ptr) (xs : List Ptr)
    → IsRunning k rs ws
    → p ≤ num_prio
    → rs p ≡ x ∷ xs
    → ((i : ℕ) → i < p → rs i ≡ [])
    → IsFirst rs p x xs
unfolding walk_fuel
head_of-IsFirst p x xs is h e low =
    let small : length (x ∷ xs) ≤ max_processes =
      length-Tabled _ _ max_processes (x ∷ xs)
        (rw e at (is.scheduled.ready.family.queues p h).chain) (rw e at (is.ready_tabled p h)) in
    record { bound = h; holds = e; low = low; enough = omega arith }

-- Where a process yields and the one that runs then.
abbrev Turn : Kernel → Lists → Lists → (p : ℕ) → (us : List Ptr) → Ptr → List Ptr → Type 0
Turn k rs ws p us t vs =
    IsRunning k rs ws
    × (p ≤ num_prio)
    × (rs p ≡ us ++ t ∷ vs)
    × ((i : ℕ) → i < p → rs i ≡ [])
    × ((current k).priority ≡ p)

-- One call: the oldest process of `p` runs, and the one that ran is the newest.
turn :
    {k : Kernel} {rs ws : Lists} {p : ℕ} (us : List Ptr) (t : Ptr) (vs : List Ptr)
    → Turn k rs ws p us t vs
    → (k' : Kernel) × (rs' : Lists) × (process_switch k ≡ switched k')
      × (k'.current_pcb ≡ last t vs)
      × IsRunning k' rs' ws
      × (rs' p ≡ k.current_pcb ∷ us ++ front t vs)
      × ((i : ℕ) → i < p → rs' i ≡ [])
      × ((current k').priority ≡ p)
turn {k} {rs} {ws} {p} us t vs (is, h, e, low, prio) =
    let x = head_of us t in
    let xs = rest_of us t vs in
    let f = head_of-IsFirst p x xs is h (e ∙ cons-rest_of us t vs) low in
    let (k', r, s) = process_switch-Switched p x xs is.scheduled f (omega (arith, prio)) in
    let runs = s.runs in
    (
      k',
      push_at (pop_at rs p x xs) (current k).priority k.current_pcb,
      r,
      runs ∙ last-rest_of us t vs,
      Switched-IsRunning is f s,
      rotated rs p (current k).priority k.current_pcb (front x xs) prio
          ∙ ap (λ l. k.current_pcb ∷ l) (front-rest_of us t vs),
      λ i l. rotated_below rs p (current k).priority k.current_pcb (front x xs) i prio l (low i l),
      ap (λ a. (k'.pcbs a).priority) runs
          ∙ s.priority (last x xs)
          ∙ is.scheduled.ready_filed p h (last x xs) (first-mem f),
    )

-- `n` are the processes of `p` in front of `t`.
turns :
    (n : ℕ) {k : Kernel} {rs ws : Lists} {p : ℕ} (us : List Ptr) (t : Ptr) (vs : List Ptr)
    → length vs ≡ n
    → Turn k rs ws p us t vs
    → (k' : Kernel) × Yields (suc n) k k' × (k'.current_pcb ≡ t)
turns zero us t [] e now =
    let (k', rs', r, runs, is', at', low', prio') = turn us t [] now in (k', more r none, runs)
turns (suc n) us t [] e now = absurd (omega (arith, e))
turns zero us t (v ∷ vs) e now = absurd (omega (arith, e))
turns (suc n) {k} {rs} {ws} {p} us t (v ∷ vs) e now =
    let (is, h, at, low, prio) = now in
    let (k1, rs1, r, runs, is1, at1, low1, prio1) = turn us t (v ∷ vs) now in
    let left : length (front v vs) ≡ n = length-front v vs ∙ omega (arith, e) in
    let (k2, ys, e2) =
      turns n (k.current_pcb ∷ us) t (front v vs) left (is1, h, at1, low1, prio1) in
    (k2, more r ys, e2)

-- When no ready process has a smaller number than the running one, a ready process of the running
-- one's priority with `n` processes in front of it in its queue runs after `n + 1` calls of
-- `release_processor`, each of which returns and switches.
pub process_switch-fair :
    {k : Kernel} {rs ws : Lists} (p : ℕ) (us : List Ptr) (t : Ptr) (vs : List Ptr)
    → IsRunning k rs ws
    → p ≤ num_prio
    → rs p ≡ us ++ t ∷ vs
    → ((i : ℕ) → i < p → rs i ≡ [])
    → (current k).priority ≡ p
    → (k' : Kernel) × Yields (suc (length vs)) k k' × (k'.current_pcb ≡ t)
process_switch-fair p us t vs is h at low prio =
    turns (length vs) us t vs refl (is, h, at, low, prio)

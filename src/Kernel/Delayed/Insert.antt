-- ===== src/Kernel/Delayed/Insert.antt =====
-- `kernel_delayed_send` of kernel/primitives.c: the queue behind its loop and its four cases.
use door_rtos.Base.{
  ℕ, ◌+◌, ◌<◌, ◌≡◌, ◌≢◌, sym, refl, ◌∙◌, ap, inl, inr, Bool-cases, List, [], ◌∷◌, ◌++◌, arith, ◌==◌,
  Ptr, null, Links, length, last, ◌∈◌, ◌∉◌,
}
use door_rtos.Message.{delayed_send_queue}
use door_rtos.Queue.Chain.{Chain, Chain-frame}
use door_rtos.Kernel.Monad.{Kernel, Run, done, walk_fuel}
use door_rtos.Kernel.Delayed.{place, insert_delayed}
use door_rtos.Kernel.Delayed.Due.{
  delays_of, dues, insert_due, before, behind, left, before-behind, first, find_place_lem,
  Shortened, dues-insert,
}
use door_rtos.Kernel.Delayed.Place.{
  IsPlaced, Placed, place_only, place_first, place_last, place_between,
}

Chain-first : (next : Links) (p : Ptr) (vs : List Ptr) → Chain next p vs → p ≡ first vs
Chain-first next p [] c = c
Chain-first next p (v ∷ vs) c = c.0

not-mem-insert : (a e : Ptr) (us vs : List Ptr) → a ∉ us ++ vs → a ≢ e → a ∉ us ++ e ∷ vs
not-mem-insert a e [] vs h ne = ground arith
not-mem-insert a e (u ∷ us) vs h ne = ground (arith, not-mem-insert a e us vs)

ne-last : (a x : Ptr) (xs ys : List Ptr) → a ∉ x ∷ xs ++ ys → a ≢ last x xs
ne-last a x [] ys h = ground arith
ne-last a x (y ∷ xs) ys h = ne-last a y xs ys (ground arith)

ne_of_mem : (a b : Ptr) (xs : List Ptr) → a ∈ xs → b ∉ xs → a ≢ b
ne_of_mem a b xs m out s = let m' = rw s at m in cc

-- What stands behind the new message is as it was.
Chain-rest :
    (next next' : Links) (p u e : Ptr) (vs : List Ptr)
    → Chain next p vs
    → u ∉ vs
    → e ∉ vs
    → ((a : Ptr) → a ≢ e → a ≢ u → next' a ≡ next a)
    → Chain next' (first vs) vs
Chain-rest next next' p u e vs c out out' other =
    Chain-frame next next' (first vs) vs
      (λ a m. other a (ne_of_mem a e vs m out') (ne_of_mem a u vs m out))
      (rw (Chain-first next p vs c) at c)

-- The links lead through `us`, the new message and `vs`.
Chain-insert :
    (next next' : Links) (p e u : Ptr) (us vs : List Ptr)
    → Chain next p (u ∷ us ++ vs)
    → e ≢ null
    → e ∉ u ∷ us ++ vs
    → next' e ≡ first vs
    → next' (last u us) ≡ e
    → ((a : Ptr) → a ≢ e → a ≢ last u us → next' a ≡ next a)
    → Chain next' p (u ∷ us ++ e ∷ vs)
Chain-insert next next' p e u [] vs c ne out at link other =
    let out' : e ∉ vs = ground arith in
    let rest : Chain next' (next' e) vs =
      rw at (Chain-rest next next' (next u) u e vs c.3 c.2 out' other) in
    (c.0, c.1, ground arith, (link, ne, out', rest))
Chain-insert next next' p e u (w ∷ us) vs c ne out at link other =
    let apart : u ≢ e = ground arith in
    let same : next' u ≡ next u = other u apart (ne-last u w us vs c.2) in
    (
      c.0,
      c.1,
      not-mem-insert u e (w ∷ us) vs c.2 apart,
      rw same (Chain-insert next next' (next u) e w us vs c.3 ne (ground arith) at link other),
    )

-- The delayed messages `xs` of a kernel, from the head of the queue. (The tail is not kept.)
abbrev pub IsDelayed : Kernel → List Ptr → Type 0
IsDelayed k xs = Chain k.mess_next (k.mess_queues delayed_send_queue).head xs

null-out : (next : Links) (p : Ptr) (xs : List Ptr) → Chain next p xs → null ∉ xs
null-out next p [] c = refl
null-out next p (x ∷ xs) c =
    let rest = null-out next (next x) xs c.3 in let ne : x ≢ null = c.1 in ground (arith, rest)

last-some :
    (next : Links) (p u : Ptr) (us vs : List Ptr) → Chain next p (u ∷ us ++ vs) → last u us ≢ null
last-some next p u [] vs c = c.1
last-some next p u (w ∷ us) vs c = last-some next (next u) w us vs c.3

placed-chain :
    (k k' : Kernel) (e n : ℕ) (us vs : List Ptr)
    → IsDelayed k (us ++ vs)
    → e ≢ null
    → e ∉ us ++ vs
    → IsPlaced e n (last null us) (first vs) k k'
    → IsDelayed k' (us ++ e ∷ vs)
placed-chain k k' e n [] vs c ne out pl = rw (pl.head_new refl) (
  refl,
  ne,
  out,
  rw pl.link_new
      (Chain-rest k.mess_next k'.mess_next _ null e vs c (null-out _ _ vs c) out pl.link_other),
)
placed-chain k k' e n (u ∷ us) vs c ne out pl =
    let some_prev : last u us ≢ null = last-some _ _ u us vs c in
    rw (pl.head_old some_prev) (
      Chain-insert k.mess_next k'.mess_next _ e u us vs c ne out pl.link_new
        (pl.link_before some_prev) pl.link_other)

mem-left : (a : Ptr) (us vs : List Ptr) → a ∉ us ++ vs → a ∉ us
mem-left a [] vs h = refl
mem-left a (u ∷ us) vs h = ground (arith, mem-left a us vs)

mem-right : (a : Ptr) (us vs : List Ptr) → a ∉ us ++ vs → a ∉ vs
mem-right a [] vs h = h
mem-right a (u ∷ us) vs h = mem-right a us vs (ground arith)

Chain-apart :
    (next : Links) (p : Ptr) (us vs : List Ptr)
    → Chain next p (us ++ vs)
    → (a : Ptr) → a ∈ us
    → a ∉ vs
Chain-apart next p [] vs c a m = absurd (ground arith)
Chain-apart next p (u ∷ us) vs c a m = elim (Bool-cases (a == u)) [
  | inl s ↦ (let t : a ≡ u = ground arith in rw t (mem-right u us vs c.2))
  | inr s ↦ Chain-apart next (next u) us vs c.3 a (rw s at m)
]

Chain-behind :
    (next : Links) (p : Ptr) (us vs : List Ptr)
    → Chain next p (us ++ vs)
    → (q : Ptr) × Chain next q vs
Chain-behind next p [] vs c = (p, c)
Chain-behind next p (u ∷ us) vs c = Chain-behind next (next u) us vs c.3

placed-Shortened :
    (k k' : Kernel) (e n prev : ℕ) (q : Ptr) (vs : List Ptr)
    → Chain k.mess_next q vs
    → e ∉ vs
    → IsPlaced e n prev (first vs) k k'
    → Shortened (delays_of k.messages) (delays_of k'.messages) n vs
placed-Shortened k k' e n prev q [] c out pl = tt
placed-Shortened k k' e n prev q (v ∷ vs) c out pl = (
  pl.delay_behind c.1,
  λ a m.
      pl.delay_other a (ne_of_mem a e vs m (mem-right e (v ∷ []) vs out)) (ne_of_mem a v vs m c.2),
)

ne_first : (a : Ptr) (vs : List Ptr) → a ∉ vs → a ≢ null → a ≢ first vs
ne_first a [] out ne = ne
ne_first a (v ∷ vs) out ne = ground arith

placed-before :
    (k k' : Kernel) (e n : ℕ) (us vs : List Ptr)
    → IsDelayed k (us ++ vs)
    → e ∉ us ++ vs
    → IsPlaced e n (last null us) (first vs) k k'
    → (a : Ptr) → a ∈ us
    → (k'.messages a).delay ≡ (k.messages a).delay
placed-before k k' e n us vs c out pl a m =
    let some_a : a ≢ null =
      ne_of_mem a null us m (mem-left null us vs (null-out _ _ (us ++ vs) c)) in
    pl.delay_other a (ne_of_mem a e us m (mem-left e us vs out))
      (ne_first a vs (Chain-apart _ _ us vs c a m) some_a)

-- Whatever the neighbours of the place, the source's four cases write what `IsPlaced` says.
place_lem :
    (e n : ℕ) (k : Kernel) (us vs : List Ptr)
    → IsDelayed k (us ++ vs)
    → e ≢ null
    → e ∉ us ++ vs
    → Placed e n (last null us) (first vs) k (place e n (last null us) (first vs) k)
place_lem e n k [] [] c ne out = place_only e n k ne c
place_lem e n k [] (v ∷ vs) c ne out = place_first e n k ne v c.1 (ground arith)
place_lem e n k (u ∷ us) [] c ne out =
    place_last e n k ne (last u us) (last-some _ _ u us [] c) (λ s. ne-last e u us [] out (sym s))
place_lem e n k (u ∷ us) (v ∷ vs) c ne out =
    let (q, c') = Chain-behind _ _ (u ∷ us) (v ∷ vs) c in
    place_between e n k ne (last u us) v (last-some _ _ u us (v ∷ vs) c) c'.1
      (λ s. ne-last e u us (v ∷ vs) out (sym s))
      (λ s. ne_first e (v ∷ vs) (mem-right e (u ∷ us) (v ∷ vs) out) ne (sym s))

-- What a delayed send leaves: the message at its place, due when it asked to be, and every other
-- message due when it was.
abbrev pub Inserted : (e n : ℕ) → List Ptr → Kernel → Run (Unit {0}) → Type 0
Inserted e n xs k r =
    (k' : Kernel) × (ys : List Ptr) × (r ≡ done tt k')
    × IsDelayed k' ys
    × (dues (delays_of k'.messages) 0 ys ≡ insert_due e n (dues (delays_of k.messages) 0 xs))

insert-at :
    (e n : ℕ) (k : Kernel) (xs : List Ptr) (us vs : List Ptr)
    → us ≡ before (delays_of k.messages) n xs
    → vs ≡ behind (delays_of k.messages) n xs
    → us ++ vs ≡ xs
    → IsDelayed k xs
    → e ≢ null
    → e ∉ xs
    → Inserted e n xs k (place e (left (delays_of k.messages) n xs) (last null us) (first vs) k)
insert-at e n k xs us vs is_us is_vs all c ne out =
    let c' : IsDelayed k (us ++ vs) = rw all c in
    let out' : e ∉ us ++ vs = rw all out in
    let m : ℕ = left (delays_of k.messages) n xs in
    let (k', step, pl) = place_lem e m k us vs c' ne out' in
    let (q, cv) = Chain-behind _ _ us vs c' in
    let from_now : 0 + n ≡ n = omega arith in
    let sum =
      dues-insert (delays_of k.messages) (delays_of k'.messages) e 0 n xs pl.delay_new
        (rw is_us at (placed-before k k' e m us vs c' out' pl))
        (rw is_vs at
          (placed-Shortened k k' e m (last null us) q vs cv (mem-right e us vs out') pl)) in
    (
      k',
      us ++ e ∷ vs,
      step,
      placed-chain k k' e m us vs c' ne out' pl,
      rw (is_us, is_vs)
          (sum ∙ ap (λ t. insert_due e t (dues (delays_of k.messages) 0 xs)) from_now),
    )

-- The walk finds the place and the four cases fill it.
pub insert_delayed-Inserted :
    (e n : ℕ) (k : Kernel) (xs : List Ptr)
    → IsDelayed k xs
    → length xs < walk_fuel
    → e ≢ null
    → e ∉ xs
    → Inserted e n xs k (insert_delayed e n k)
unfolding insert_delayed
insert_delayed-Inserted e n k xs c h ne out =
    rw (find_place_lem k.messages k.mess_next walk_fuel n null _ xs c h)
      (insert-at e n k xs _ _ refl refl (before-behind (delays_of k.messages) n xs) c ne out)

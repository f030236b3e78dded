-- ===== src/Strings/Turned.antt =====
-- `ReverseStr` and `StrNConcat` of kernel/string.c: turning a text round, and joining two.
use mathlib.Core.List.{reverse-cons}
use door_rtos.Base.{
  ℕ, zero, suc, ◌+◌, ◌-◌, ◌^◌, ◌≤◌, ◌<◌, ◌≡◌, ◌≢◌, refl, sym, ◌∙◌, ap, true, false, inl, inr, ◌==◌,
  List, [], ◌∷◌, ◌++◌, reverse, ok, write, write_self, write_ne, text_at, text_at-end, ◌⊎◌,
  text_at-reverse, length, length-reverse, All, arith,
}
use native.Mathlib.Decide.{dec_lt}
use door_rtos.Strings.Laws.{str_length_lem}
use door_rtos.Strings.Literals.{
  below_n, copy_while, str_n_concat, fill_back, copy_array, reverse_str,
}

-- The loop leaves the array below the indices that it still writes, and above the last one.
fill_back-out :
    (counter size at : ℕ) (text a : ℕ → ℕ) (i : ℕ)
    → (i + 1 + counter < size) ⊎ (size ≤ i + 1)
    → counter < size
    → fill_back counter size at text a i ≡ a i
unfolding fill_back
fill_back-out zero size at text a i out h = refl
fill_back-out (suc counter) size at text a i (inl low) h =
    fill_back-out counter size (at - 1) text _ i (inl (omega arith)) (omega arith)
    ∙ write_ne a (size - suc counter - 1) (text at) i (omega arith)
fill_back-out (suc counter) size at text a i (inr high) h =
    fill_back-out counter size (at - 1) text _ i (inr high) (omega arith)
    ∙ write_ne a (size - suc counter - 1) (text at) i (omega arith)

fill_back-in :
    (counter size at : ℕ) (text a : ℕ → ℕ) (i j : ℕ)
    → i + j + 2 ≡ size
    → j < counter
    → counter < size
    → at + 1 ≡ counter
    → fill_back counter size at text a i ≡ text j
unfolding fill_back
fill_back-in zero size at text a i j e l h t = absurd (omega arith)
fill_back-in (suc counter) size at text a i j e l h t = elim (dec_lt j counter) [
  | yes m ↦ fill_back-in counter size (at - 1) text _ i j e m (omega arith) (omega arith)
  | no g ↦
      let here : i ≡ size - suc counter - 1 = omega arith in
      fill_back-out counter size (at - 1) text _ i (inl (omega arith)) (omega arith)
      ∙ ap (write a (size - suc counter - 1) (text at)) here
      ∙ write_self a (size - suc counter - 1) (text at)
      ∙ ap text (omega arith)
]

-- An array that holds a text and its NUL from an index on is copied up to the NUL.
copy_array-eq :
    (s : List ℕ) (k : ℕ) (a : ℕ → ℕ)
    → All (λ c. c ≢ 0) s
    → ((i : ℕ) → i ≤ length s → a (k + i) ≡ text_at s i)
    → copy_array (suc (length s)) k a ≡ ok s
unfolding copy_array
copy_array-eq [] k a live at =
    let e : a k ≡ 0 = ap a (omega arith) ∙ at 0 (omega arith) in rw e refl
copy_array-eq (c ∷ s) k a live at =
    let e : a k ≡ c = ap a (omega arith) ∙ at 0 (omega arith) in
    let ne : (c == 0) ≡ false = ground (arith, live.0) in
    let ih =
      copy_array-eq s (suc k) a live.1 (λ i h. ap a (omega arith) ∙ at (suc i) (omega arith)) in
    rw (e, ne, ih) refl

All-reverse : (P : ℕ → Type 0) (s : List ℕ) → All P s → All P (reverse s)
All-reverse P [] h = tt
All-reverse P (c ∷ s) h = rw (reverse-cons c s) (snoc (reverse s) (All-reverse P s h.1))
  where
    snoc : (t : List ℕ) → All P t → All P (t ++ c ∷ [])
    snoc [] k = (h.0, tt)
    snoc (d ∷ t) k = (k.0, snoc t k.1)

-- `ReverseStr` of a text without NUL returns it turned round, whatever the array held.
pub reverse_str-reverse :
    (a : ℕ → ℕ) (text : List ℕ) → All (λ c. c ≢ 0) text → reverse_str a text ≡ ok (reverse text)
unfolding reverse_str
reverse_str-reverse a text live =
    let n = length text in
    let filled = fill_back n (n + 1) (n - 1) (text_at text) (write a n 0) in
    let at : (i : ℕ) → i ≤ length (reverse text) → filled i ≡ text_at (reverse text) i = λ i h.
      elim (dec_lt i n) [
        | yes l ↦
            fill_back-in n (n + 1) (n - 1) (text_at text) (write a n 0) i (n - 1 - i) (omega arith)
              (omega arith) (omega arith) (omega arith)
            ∙ sym (text_at-reverse text i (n - 1 - i) (omega arith))
        | no g ↦
            let e : i ≡ n = omega (arith, length-reverse text) in
            fill_back-out n (n + 1) (n - 1) (text_at text) (write a n 0) i (inr (omega arith))
              (omega arith)
            ∙ ap (write a n 0) e
            ∙ write_self a n 0
            ∙ sym (text_at-end (reverse text) i (omega (arith, length-reverse text)))
      ] in
    let done =
      copy_array-eq (reverse text) 0 filled (All-reverse (λ c. c ≢ 0) text live)
        (λ i h. ap filled (omega arith) ∙ at i h) in
    let size : suc (length (reverse text)) ≡ n + 1 = omega (arith, length-reverse text) in
    ap (λ l. copy_array l 0 (fill_back n l (n - 1) (text_at text) (write a n 0)))
      (str_length_lem text)
    ∙ ap (λ f. copy_array f 0 filled) (sym size)
    ∙ done

copy_while-append : (n : ℕ) (s r : List ℕ) → below_n 0 n ≡ true → copy_while 0 n s r ≡ s ++ r
unfolding copy_while
copy_while-append n [] r go = refl
copy_while-append n (c ∷ s) r go = rw go (ap (λ t. c ∷ t) (copy_while-append n s r go))

-- `StrNConcat` stores both texts and a NUL whatever its bound is, when that is positive.
pub str_n_concat-append :
    (text1 text2 : List ℕ) (n : ℕ)
    → 0 < n
    → n < 2 ^ 31
    → str_n_concat text1 text2 n ≡ text1 ++ (text2 ++ 0 ∷ [])
unfolding str_n_concat
str_n_concat-append text1 text2 n pos small =
    let go : below_n 0 n ≡ true = ground arith in
    copy_while-append n text1 (copy_while 0 n text2 (0 ∷ [])) go
    ∙ ap (λ r. text1 ++ r) (copy_while-append n text2 (0 ∷ []) go)

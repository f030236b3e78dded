-- ===== src/Base/Memory.antt =====
-- The outcome of C code over pointers: a result, an access through NULL, or a loop that outruns
-- its fuel. Pointers are numbers with 0 for NULL; a field of the structures behind them is a map.
use Prim.Native.Nat.{ℕ}
use mathlib.Core.Path.{◌≡◌}
use mathlib.Core.Logic.{◌≢◌}
use native.Mathlib.Omega.{arith}
use door_rtos.Base.Tests.{◌==◌, if◌then◌else◌}

abbrev pub Ptr : Type 0
Ptr = ℕ

abbrev pub null : Ptr
null = 0

pub data Outcome {ℓ} (A : Type ℓ) : Type ℓ where
  ok : A → Outcome A
  fault : Outcome A
  out_of_fuel : Outcome A

module _ {ℓ} {A : Type ℓ} where
  -- `m[p] = v`
  unfoldable pub write : (ℕ → A) → ℕ → A → ℕ → A
  write m p v a = if a == p then v else m a

  pub write_self : (m : ℕ → A) (p : ℕ) (v : A) → write m p v p ≡ v
  unfolding write
  write_self m p v = ground arith

  pub write_ne : (m : ℕ → A) (p : ℕ) (v : A) (a : ℕ) → a ≢ p → write m p v a ≡ m a
  unfolding write
  write_ne m p v a h = ground arith

-- The `next` fields of one kind of structure.
abbrev pub Links : Type 0
Links = Ptr → Ptr

infixl 5 ◌>>=◌ ◌>>◌
abbrev pub ◌>>=◌ {ℓ κ} : {A : Type ℓ} {B : Type κ} → Outcome A → (A → Outcome B) → Outcome B
ok a >>= f = f a
fault >>= f = fault
out_of_fuel >>= f = out_of_fuel

abbrev pub ◌>>◌ {ℓ κ} : {A : Type ℓ} {B : Type κ} → Outcome A → Outcome B → Outcome B
m >> n = m >>= λ _. n

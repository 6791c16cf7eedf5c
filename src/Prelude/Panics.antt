-- ===== src/Prelude/Panics.antt =====
-- Code that may panic: `unwrap`, `expect` and slices out of range.
use Prim.Native.Nat.{ℕ}
use mathlib.Core.Option.{Option, none, some}
use mathlib.Core.List.{List}
use verfploeter.Prelude.Lists.{length, drop}
use verfploeter.Prelude.Tests.{leb, if◌then◌else◌}

pub data Outcome {ℓ} (A : Type ℓ) : Type ℓ where
  value : A → Outcome A
  panic : Outcome A

infixl 5 ◌>>=◌
abbrev pub ◌>>=◌ {ℓ κ} : {A : Type ℓ} {B : Type κ} → Outcome A → (A → Outcome B) → Outcome B
value a >>= f = f a
panic >>= f = panic

abbrev pub unwrap {ℓ} : {A : Type ℓ} → Option A → Outcome A
unwrap none = panic
unwrap (some a) = value a

-- `&xs[n..]`
abbrev pub slice_from {ℓ} : {A : Type ℓ} → ℕ → List A → Outcome (List A)
slice_from n xs = if leb n (length xs) then value (drop n xs) else panic

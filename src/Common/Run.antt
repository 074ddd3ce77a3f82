-- ===== src/Common/Run.antt =====
-- How a Go call ends: with a value, with an error, or with a run-time panic.
use Prim.Native.Nat.{ℕ}
use mathlib.Core.Option.{Option, none, some}

pub data Error : Type 0 where
  unknown_opcode_type : Error
  nil_instruction : ℕ → Error
  empty_program : Error
  nil_strategy : Error
  other : Error

pub data Run {ℓ} (A : Type ℓ) : Type ℓ where
  panic : Run A
  ok : A → Run A
  err : Error → Run A

-- What follows a call runs only on the value that it returned.
infixl 5 ◌>>=◌
abbrev pub ◌>>=◌ {ℓ κ} : {A : Type ℓ} {B : Type κ} → Run A → (A → Run B) → Run B
call >>= k = elim call [ panic ↦ panic | ok value ↦ k value | err e ↦ err e ]

-- An index or a pointer that is read without a check.
abbrev pub or_panic {ℓ} : {A : Type ℓ} → Option A → Run A
or_panic none = panic
or_panic (some value) = ok value

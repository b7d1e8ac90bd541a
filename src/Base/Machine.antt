-- ===== src/Base/Machine.antt =====
-- 64-bit arithmetic (`u64`, and `usize` on the 64-bit targets of the program) and decimal numbers.
use Prim.Native.Nat.{ℕ, ◌+◌, ◌-◌, ◌*◌, ◌^◌, ◌≤◌, ◌<◌}
use mathlib.Core.Path.{◌≡◌}
use mathlib.Core.Option.{Option, none, some}
use mathlib.Core.List.{[], ◌∷◌}
use native.Mathlib.Omega.{arith}
use github_oras_packages.Base.Tests.{ltb, if◌then◌else◌}
use github_oras_packages.Base.Text.{Bytes}

abbrev pub u64_bound : ℕ
u64_bound = 2 ^ 64

-- `checked_add` and `checked_mul`
abbrev pub checked : ℕ → Option ℕ
checked n = if ltb n u64_bound then some n else none

abbrev pub checked_add : ℕ → ℕ → Option ℕ
checked_add a b = checked (a + b)

abbrev pub checked_mul : ℕ → ℕ → Option ℕ
checked_mul a b = checked (a * b)

-- `Option::and_then`
abbrev pub and_then {ℓ} : {A B : Type ℓ} → Option A → (A → Option B) → Option B
and_then none f = none
and_then (some a) f = f a

-- One round of the fold over the digits: `checked_mul(10)`, then `checked_add(digit)`.
abbrev pub push_digit : ℕ → ℕ → Option ℕ
push_digit value c = and_then (checked_mul value 10) (λ scaled. checked_add scaled (c - b'0'))

-- `try_fold(0_u64, …)` over the digits
unfoldable pub fold_digits : ℕ → Bytes → Option ℕ
fold_digits value [] = some value
fold_digits value (c ∷ s) = and_then (push_digit value c) (λ next. fold_digits next s)

-- The number that a text of digits denotes, behind the digits of `value`.
abbrev pub decimal_from : ℕ → Bytes → ℕ
decimal_from value [] = value
decimal_from value (c ∷ s) = decimal_from (value * 10 + (c - b'0')) s

abbrev pub decimal : Bytes → ℕ
decimal s = decimal_from 0 s

pub le-decimal_from : (value : ℕ) (s : Bytes) → value ≤ decimal_from value s
le-decimal_from value [] = omega arith
le-decimal_from value (c ∷ s) = omega (arith, le-decimal_from (value * 10 + (c - b'0')) s)

-- The checked fold returns the number that the digits denote, or nothing if it has no 64 bits.
pub fold_digits_lem :
    (value : ℕ) (s : Bytes)
    → value < u64_bound
    → fold_digits value s ≡ checked (decimal_from value s)
unfolding fold_digits
fold_digits_lem value [] h = ground arith
fold_digits_lem value (c ∷ s) h = ground (
  arith,
  fold_digits_lem (value * 10 + (c - b'0')) s,
  le-decimal_from (value * 10 + (c - b'0')) s,
)

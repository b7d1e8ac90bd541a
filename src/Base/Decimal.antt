-- ===== src/Base/Decimal.antt =====
-- `to_string` of an unsigned number.
use Prim.Native.Nat.{ℕ, zero, suc, ◌+◌, ◌/◌, ◌%◌, ◌<◌}
use mathlib.Core.Path.{◌≡◌, refl, ap, ◌∙◌}
use mathlib.Core.Logic.{inl, inr}
use mathlib.Core.Bool.{true, false}
use mathlib.Core.List.{[], ◌∷◌}
use native.Mathlib.Omega.{arith}
use github_oras_packages.Base.Tests.{ltb, if◌then◌else◌, Bool-cases}
use github_oras_packages.Base.Lists.{all}
use github_oras_packages.Base.Text.{Bytes, is_empty, is_ascii_digit}
use github_oras_packages.Base.Machine.{decimal, decimal_from}

-- The digits of a number before those of `after`; the first argument bounds their count.
unfoldable pub digits : ℕ → ℕ → Bytes → Bytes
digits zero n after = after
digits (suc k) n after =
    let rest = digits k (n / 10) ((n % 10 + b'0') ∷ after) in
    if ltb n 10 then (n % 10 + b'0') ∷ after else rest

unfoldable pub to_string : ℕ → Bytes
to_string n = digits (suc n) n []

same_last :
    (n : ℕ) (after : Bytes)
    → n < 10
    → decimal_from 0 ((n % 10 + b'0') ∷ after) ≡ decimal_from n after
same_last n after h = ap (λ t. decimal_from t after) (omega arith)

push_last :
    (n : ℕ) (after : Bytes) → decimal_from (n / 10) ((n % 10 + b'0') ∷ after) ≡ decimal_from n after
push_last n after = ap (λ t. decimal_from t after) (omega arith)

digits_lem :
    (k n : ℕ) (after : Bytes) → n < k → decimal_from 0 (digits k n after) ≡ decimal_from n after
unfolding digits
digits_lem zero n after h = absurd (omega arith)
digits_lem (suc k) n after h = elim (Bool-cases (ltb n 10)) [
  | inl e ↦ rw e (same_last n after (ground arith))
  | inr e ↦
      rw e (digits_lem k (n / 10) ((n % 10 + b'0') ∷ after) (ground arith) ∙ push_last n after)
]

-- The text of a number denotes that number.
pub decimal-to_string : (n : ℕ) → decimal (to_string n) ≡ n
unfolding to_string
decimal-to_string n = digits_lem (suc n) n [] (omega arith)

all_digits :
    (k n : ℕ) (after : Bytes)
    → all is_ascii_digit after ≡ true
    → all is_ascii_digit (digits k n after) ≡ true
unfolding digits
all_digits zero n after h = h
all_digits (suc k) n after h =
    let here : is_ascii_digit (n % 10 + b'0') ≡ true = ground arith in
    elim (Bool-cases (ltb n 10)) [
      | inl e ↦ rw e (ground (arith, here, h))
      | inr e ↦ rw e (all_digits k (n / 10) ((n % 10 + b'0') ∷ after) (ground (arith, here, h)))
    ]

nonempty_digits :
    (k n : ℕ) (after : Bytes) → is_empty after ≡ false → is_empty (digits k n after) ≡ false
unfolding digits
nonempty_digits zero n after h = h
nonempty_digits (suc k) n after h = elim (Bool-cases (ltb n 10)) [
  | inl e ↦ rw e refl
  | inr e ↦ rw e (nonempty_digits k (n / 10) ((n % 10 + b'0') ∷ after) refl)
]

-- The text is made of digits, one at least.
pub to_string-all_digits :
    (n : ℕ) → (is_empty (to_string n) ≡ false) × (all is_ascii_digit (to_string n) ≡ true)
unfolding to_string digits
to_string-all_digits n = (
  elim (Bool-cases (ltb n 10)) [
    | inl e ↦ rw e refl
    | inr e ↦ rw e (nonempty_digits n (n / 10) ((n % 10 + b'0') ∷ []) refl)
  ],
  all_digits (suc n) n [] refl,
)

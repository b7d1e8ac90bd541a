-- ===== src/Base/Results.antt =====
-- Rust's `Result<A, E>`, with `?` as a bind.
use native.Mathlib.Omega.{arith}
use mathlib.Core.Path.{◌≡◌, refl}
use mathlib.Core.Logic.{◌⊎◌, inl, inr}
use mathlib.Core.Bool.{Bool, true, false}
use mathlib.Core.Option.{Option, none, some}

pub data Result {ℓ} (E A : Type ℓ) : Type ℓ where
  ok : A → Result E A
  err : E → Result E A

-- `map_err`
unfoldable pub map_err {ℓ} : {D E A : Type ℓ} → (D → E) → Result D A → Result E A
map_err f (ok a) = ok a
map_err f (err d) = err (f d)

-- `Option::ok_or`
unfoldable pub ok_or {ℓ} : {E A : Type ℓ} → E → Option A → Result E A
ok_or e none = err e
ok_or e (some a) = ok a

-- `if test { return Err(e); }`
unfoldable pub fail_if {ℓ} : {E : Type ℓ} → Bool → E → Result E (Unit {ℓ})
fail_if true e = err e
fail_if false e = ok tt

infixl 5 ◌>>=◌ ◌>>◌
-- Opening this opens the steps above too.
unfoldable pub ◌>>=◌ {ℓ} : {E A B : Type ℓ} → Result E A → (A → Result E B) → Result E B
unfolding map_err ok_or fail_if
ok a >>= f = f a
err e >>= f = err e

abbrev pub ◌>>◌ {ℓ} : {E B : Type ℓ} → Result E (Unit {ℓ}) → Result E B → Result E B
m >> k = m >>= λ _. k

-- A successful chain has a successful first step.
pub >>=-eq-ok {ℓ} :
    {E A B : Type ℓ} (m : Result E A) (f : A → Result E B) {b : B}
    → (m >>= f) ≡ ok b
    → (a : A) × (m ≡ ok a) × (f a ≡ ok b)
unfolding ◌>>=◌
>>=-eq-ok (ok a) f h = (a, refl, h)
>>=-eq-ok (err e) f h = cc

pub ok_or-eq-ok {ℓ} : {E A : Type ℓ} (e : E) (o : Option A) {a : A} → ok_or e o ≡ ok a → o ≡ some a
unfolding ok_or
ok_or-eq-ok e none h = cc
ok_or-eq-ok e (some x) h = cc

pub map_err-eq-ok {ℓ} :
    {D E A : Type ℓ} (f : D → E) (r : Result D A) {a : A} → map_err f r ≡ ok a → r ≡ ok a
unfolding map_err
map_err-eq-ok f (ok x) h = cc
map_err-eq-ok f (err d) h = cc

pub ok-inj {ℓ} : {E A : Type ℓ} {a b : A} → ◌≡◌ {A = Result E A} (ok a) (ok b) → a ≡ b
ok-inj h = ground (arith, h)

pub Result-cases {ℓ} :
    {E A : Type ℓ} (r : Result E A) → ((a : A) × (r ≡ ok a)) ⊎ ((e : E) × (r ≡ err e))
Result-cases (ok a) = inl (a, refl)
Result-cases (err e) = inr (e, refl)

-- A chain that succeeds has passed its guard.
pub fail_if-eq-ok {ℓ} :
    {E A : Type ℓ} (b : Bool) (e : E) (k : Result E A) {a : A}
    → (fail_if b e >> k) ≡ ok a
    → (b ≡ false) × (k ≡ ok a)
unfolding ◌>>=◌
fail_if-eq-ok true e k h = cc
fail_if-eq-ok false e k h = (refl, h)

-- Inversion of `let x = o.ok_or(e)?; …`.
pub ok_or->>=-eq-ok {ℓ} :
    {E A B : Type ℓ} (e : E) (o : Option A) (f : A → Result E B) {b : B}
    → (ok_or e o >>= f) ≡ ok b
    → (a : A) × (o ≡ some a) × (f a ≡ ok b)
unfolding ◌>>=◌
ok_or->>=-eq-ok e none f h = cc
ok_or->>=-eq-ok e (some a) f h = (a, refl, h)

-- The same for a guard that ends a chain.
pub fail_if-passes {ℓ} :
    {E : Type ℓ} (b : Bool) (e : E) {u : Unit {ℓ}} → fail_if b e ≡ ok u → b ≡ false
unfolding fail_if
fail_if-passes true e h = cc
fail_if-passes false e h = refl

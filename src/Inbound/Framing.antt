-- ===== src/Inbound/Framing.antt =====
-- The declared length of a body.
use github_oras_packages.Base.{
  ℕ, ◌<◌, ◌≡◌, ◌≢◌, ◌↔◌, ◌⊎◌, inl, inr, Result-cases, refl, true, false, Option, none, some, List,
  [], ◌∷◌, Bytes, ok, err, ◌>>=◌, arith, All, all_sound, all_complete, is_empty, is_ascii_digit,
  u64_bound, decimal, fold_digits_lem, fail_if-eq-ok, ok_or-eq-ok, >>=-eq-ok,
}
use github_oras_packages.Inbound.{parse_content_length, declared_length}
use github_oras_packages.Inbound.Errors.{InboundError, invalid_content_length}

abbrev pub IsDigit : ℕ → Type 0
IsDigit c = is_ascii_digit c ≡ true

-- A text of digits, at least one, that denotes a number of 64 bits.
pub record IsLength (v : Bytes) (n : ℕ) : Type 0 where
  pub present : is_empty v ≡ false
  pub digits : All IsDigit v
  pub denotes : decimal v ≡ n
  pub fits : n < u64_bound

parse_content_length_sound : (v : Bytes) {n : ℕ} → parse_content_length v ≡ ok n → IsLength v n
unfolding parse_content_length
parse_content_length_sound v {n} h =
    let (a, h₁) = fail_if-eq-ok _ _ _ h in
    let e = ok_or-eq-ok _ _ h₁ in
    record {
      present = ground (arith, a);
      digits = all_sound IsDigit is_ascii_digit (λ c k. k) v (ground (arith, a));
      denotes = ground (arith, e, fold_digits_lem 0 v);
      fits = ground (arith, e, fold_digits_lem 0 v);
    }

parse_content_length_complete : (v : Bytes) (n : ℕ) → IsLength v n → parse_content_length v ≡ ok n
unfolding parse_content_length ◌>>=◌
parse_content_length_complete v n h =
    ground
      (arith, h, all_complete IsDigit is_ascii_digit (λ c k. k) v h.digits, fold_digits_lem 0 v)

pub parse_content_length_iff : (v : Bytes) (n : ℕ) → (parse_content_length v ≡ ok n) ↔ IsLength v n
parse_content_length_iff v n = (parse_content_length_sound v, parse_content_length_complete v n)

parse_content_length-err :
    (v : Bytes) (e : InboundError) → parse_content_length v ≡ err e → e ≡ invalid_content_length
unfolding parse_content_length ◌>>=◌
parse_content_length-err v e h = ground arith

-- A length is read exactly from a text of digits, at least one, that denotes a number below 2^64,
-- and is that number; every other text is an invalid content length.
pub parse_content_length_decides :
    (v : Bytes)
    → ((n : ℕ) × (parse_content_length v ≡ ok n) × IsLength v n)
      ⊎ ((parse_content_length v ≡ err invalid_content_length) × ((n : ℕ) → ¬ (IsLength v n)))
parse_content_length_decides v = elim (Result-cases (parse_content_length v)) [
  | inl (n, h) ↦ inl (n, h, parse_content_length_sound v h)
  | inr (e, h) ↦ inr (
    rw (← parse_content_length-err v e h) h,
    λ n l. let k = parse_content_length_complete v n l in ground (arith, h, k),
  )
]

-- What the values of the content length field declare together.
abbrev pub IsDeclared : List Bytes → Option ℕ → Type 0
IsDeclared values none = values ≡ []
IsDeclared values (some n) = (values ≢ []) × All (λ v. IsLength v n) values

declared_length-some_sound :
    (n : ℕ) (values : List Bytes) {d : Option ℕ}
    → declared_length (some n) values ≡ ok d
    → (d ≡ some n) × All (λ v. IsLength v n) values
unfolding declared_length
declared_length-some_sound n [] h = (ground arith, tt)
declared_length-some_sound n (v ∷ values) h =
    let (m, e, h₁) = >>=-eq-ok _ _ h in
    let (same, h₂) = fail_if-eq-ok _ _ _ h₁ in
    let (s, rest) = declared_length-some_sound n values h₂ in
    (s, (parse_content_length_sound v {n = n} (ground (arith, e, same)), rest))

declared_length-some_complete :
    (n : ℕ) (values : List Bytes)
    → All (λ v. IsLength v n) values
    → declared_length (some n) values ≡ ok (some n)
unfolding declared_length ◌>>=◌
declared_length-some_complete n [] h = refl
declared_length-some_complete n (v ∷ values) h =
    ground
      (arith, parse_content_length_complete v n h.0, declared_length-some_complete n values h.1)

pub declared_length_sound :
    (values : List Bytes) (d : Option ℕ) → declared_length none values ≡ ok d → IsDeclared values d
unfolding declared_length
declared_length_sound [] none h = refl
declared_length_sound [] (some n) h = cc
declared_length_sound (v ∷ values) d h =
    let (m, e, h₁) = >>=-eq-ok _ _ h in
    let (s, rest) = declared_length-some_sound m values h₁ in
    rw s ((λ k. cc), (parse_content_length_sound v e, rest))

pub declared_length_complete :
    (values : List Bytes) (d : Option ℕ) → IsDeclared values d → declared_length none values ≡ ok d
unfolding declared_length ◌>>=◌
declared_length_complete [] none h = refl
declared_length_complete [] (some n) h = absurd (h.0 refl)
declared_length_complete (v ∷ values) none h = cc
declared_length_complete (v ∷ values) (some n) h =
    ground
      (arith, parse_content_length_complete v n h.1.0, declared_length-some_complete n values h.1.1)

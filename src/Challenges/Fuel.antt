-- ===== src/Challenges/Fuel.antt =====
-- The loops over a challenge have enough fuel: every round shortens the text.
use github_oras_packages.Base.{
  ℕ, ◌+◌, ◌≤◌, ◌<◌, ◌≡◌, inl, inr, subst, false, Option, none, some, [], ◌∷◌, Bytes, arith, length,
  is_empty, Bool-cases,
}
use github_oras_packages.Challenges.{is_token_byte, token_bytes, parse_token}

length-token_bytes : (s : Bytes) → length (token_bytes s).0 + length (token_bytes s).1 ≡ length s
unfolding token_bytes
length-token_bytes [] = omega arith
length-token_bytes (c ∷ s) = elim (Bool-cases (is_token_byte c)) [
  | inl e ↦ rw e (omega (arith, length-token_bytes s))
  | inr e ↦ rw e (omega arith)
]

some_length : (s : Bytes) → is_empty s ≡ false → 1 ≤ length s
some_length [] h = cc
some_length (c ∷ s) h = omega arith

pub parse_token-shorter :
    (s : Bytes) {p : Bytes × Bytes} → parse_token s ≡ some p → length p.1 < length s
unfolding parse_token
parse_token-shorter s {p = p} h = elim (Bool-cases (is_empty (token_bytes s).0)) [
  | inl e ↦ absurd (let k = rw e at h in cc)
  | inr e ↦
      let same : token_bytes s ≡ p = ground (arith, rw e at h) in
      let shorter : length (token_bytes s).1 < length s =
        omega (arith, length-token_bytes s, some_length (token_bytes s).0 e) in
      subst (λ (t : Bytes × Bytes). length t.1 < length s) same shorter
]

-- The text behind what was read is shorter than a number.
abbrev IsShorter : ℕ → Option (Bytes × Bytes) → Type 0
IsShorter n none = Unit
IsShorter n (some p) = length p.1 < n

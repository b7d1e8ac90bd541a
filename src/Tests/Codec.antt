-- ===== src/Tests/Codec.antt =====
-- A URL-safe base64 codec without padding, as an engine for the tests.
use github_oras_packages.Base.{
  ℕ, ◌+◌, ◌-◌, ◌*◌, ◌/◌, ◌%◌, ◌≤◌, ◌<◌, ◌≡◌, refl, [], ◌∷◌, Bytes, Option, none, some, arith, ltb,
  ◌==◌, length, All, if◌then◌else◌,
}
use github_oras_packages.Routing.{is_base64url_character}
use github_oras_packages.Routing.Engine.{Base64, IsUrlSafe}
use github_oras_packages.Routing.Canonical.{IsLocatorCharacter}

character : ℕ → ℕ
character k =
    if ltb k 26
    then k + 65
    else if ltb k 52
    then k + 71
    else if ltb k 62
    then k - 52 + 48
    else if k == 62
    then 45
    else 95

value : ℕ → ℕ
value c =
    if ltb c 48
    then 62
    else if ltb c 58
    then c - 48 + 52
    else if ltb c 91
    then c - 65
    else if c == 95
    then 63
    else c - 71

value-character : (k : ℕ) → k < 64 → value (character k) ≡ k
unfolding value character
value-character k h = ground arith

character-alphabet : (k : ℕ) → k < 64 → IsLocatorCharacter (character k)
unfolding character is_base64url_character
character-alphabet k h = ground arith

encode : Bytes → Bytes
encode [] = []
encode (a ∷ []) = character (a / 4) ∷ character (a * 16 % 64) ∷ []
encode (a ∷ b ∷ []) =
    character (a / 4) ∷ character ((a * 256 + b) / 16 % 64) ∷ character (b * 4 % 64) ∷ []
encode (a ∷ b ∷ c ∷ s) =
    character (a / 4)
    ∷ character ((a * 256 + b) / 16 % 64)
    ∷ character ((b * 256 + c) / 64 % 64)
    ∷ character (c % 64)
    ∷ encode s

decode_values : Bytes → Option Bytes
decode_values [] = some []
decode_values (w ∷ []) = none
decode_values (w ∷ x ∷ []) = some ((value w * 4 + value x / 16) ∷ [])
decode_values (w ∷ x ∷ y ∷ []) =
    some ((value w * 4 + value x / 16) ∷ (value x % 16 * 16 + value y / 4) ∷ [])
decode_values (w ∷ x ∷ y ∷ z ∷ s) = elim (decode_values s) [
  | none ↦ none
  | some t ↦ some (
      (value w * 4 + value x / 16)
      ∷ (value x % 16 * 16 + value y / 4)
      ∷ (value y % 4 * 64 + value z)
      ∷ t)
]

unfoldable pub codec : Base64
unfolding encode decode_values character value
codec = record { encode = encode; decode = decode_values }

decode-encode : (s : Bytes) → All (λ c. c < 256) s → decode_values (encode s) ≡ some s
unfolding decode_values encode
decode-encode [] h = refl
decode-encode (a ∷ []) h = ground (arith, value-character (a / 4), value-character (a * 16 % 64))
decode-encode (a ∷ b ∷ []) h = ground (
  arith,
  value-character (a / 4),
  value-character ((a * 256 + b) / 16 % 64),
  value-character (b * 4 % 64),
)
decode-encode (a ∷ b ∷ c ∷ s) h = ground (
  arith,
  value-character (a / 4),
  value-character ((a * 256 + b) / 16 % 64),
  value-character ((b * 256 + c) / 64 % 64),
  value-character (c % 64),
  decode-encode s h.1.1.1,
)

characters : (s : Bytes) → All (λ c. c < 256) s → All IsLocatorCharacter (encode s)
unfolding encode
characters [] h = tt
characters (a ∷ []) h =
    (character-alphabet (a / 4) (omega arith), (character-alphabet (a * 16 % 64) (omega arith), tt))
characters (a ∷ b ∷ []) h = (
  character-alphabet (a / 4) (omega arith),
  (
    character-alphabet ((a * 256 + b) / 16 % 64) (omega arith),
    (character-alphabet (b * 4 % 64) (omega arith), tt),
  ),
)
characters (a ∷ b ∷ c ∷ s) h = (
  character-alphabet (a / 4) (omega arith),
  (
    character-alphabet ((a * 256 + b) / 16 % 64) (omega arith),
    (
      character-alphabet ((b * 256 + c) / 64 % 64) (omega arith),
      (character-alphabet (c % 64) (omega arith), characters s h.1.1.1),
    ),
  ),
)

lengths :
    (s : Bytes)
    → (length (encode s) * 3 ≤ length s * 4 + 2) × (length s * 4 ≤ length (encode s) * 3)
unfolding encode
lengths [] = omega arith
lengths (a ∷ []) = omega arith
lengths (a ∷ b ∷ []) = omega arith
lengths (a ∷ b ∷ c ∷ s) = omega (arith, lengths s)

pub codec-IsUrlSafe : IsUrlSafe IsLocatorCharacter codec
unfolding codec
codec-IsUrlSafe = record {
  decode-encode = decode-encode;
  characters = characters;
  shortest = λ s. (lengths s).0;
  longest = λ s. (lengths s).1;
}

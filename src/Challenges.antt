-- ===== src/Challenges.antt =====
-- Bearer challenges, of crates/github-oras-packages-proxy/src/auth.rs. The cursor of the source is
-- the text from the cursor on.
pub mod Pinned
pub mod Fuel
pub mod Accepted
use github_oras_packages.Base.{
  ℕ, zero, suc, ◌+◌, ◌*◌, ◌/◌, ◌%◌, Bool, true, false, not, ◌&&◌, ◌||◌, Option, none, some, List,
  [], ◌∷◌, ◌++◌, map, Bytes, bytes, ltb, leb, ◌==◌, length, any, all, elem, is_empty,
  is_ascii_alphanumeric, is_ascii_control, to_ascii_lowercase, starts_with, strip_prefix,
  eq_ignore_ascii_case, map_get, map_insert, if◌then◌else◌,
}

abbrev pub max_challenge_bytes : ℕ
max_challenge_bytes = 8192

pub record BearerChallenge : Type 0 where
  pub realm : Bytes
  pub service : Bytes

unfoldable pub service_is_safe : Bytes → Bool
service_is_safe value =
    not (is_empty value)
    && leb (length value) 256
    && all (λ c. is_ascii_alphanumeric c || elem (bytes ".-_") c) value

unfoldable pub skip_ows : Bytes → Bytes
skip_ows [] = []
skip_ows (c ∷ s) = let rest = skip_ows s in if elem (bytes " \t") c then rest else c ∷ s

unfoldable pub skip_ows_and_commas : Bytes → Bytes
skip_ows_and_commas [] = []
skip_ows_and_commas (c ∷ s) =
    let rest = skip_ows_and_commas s in if elem (bytes " \t,") c then rest else c ∷ s

abbrev pub is_token_byte : ℕ → Bool
is_token_byte c = is_ascii_alphanumeric c || elem (bytes "!#$%&'*+-.^_`|~") c

-- The bytes of a token, and the text behind them.
unfoldable pub token_bytes : Bytes → Bytes × Bytes
token_bytes [] = ([], [])
token_bytes (c ∷ s) =
    let (token, rest) = token_bytes s in if is_token_byte c then (c ∷ token, rest) else ([], c ∷ s)

-- The bytes of a token are ASCII, so that `from_utf8` accepts them.
unfoldable pub parse_token : Bytes → Option (Bytes × Bytes)
parse_token s = let found = token_bytes s in if is_empty found.0 then none else some found

-- `push(byte as char)`
abbrev pub char_bytes : ℕ → Bytes
char_bytes c = if ltb c 128 then c ∷ [] else (192 + c / 64) ∷ (128 + c % 64) ∷ []

-- The loop of `parse_quoted_string`.
unfoldable pub quoted_bytes : Bytes → Bytes → Option (Bytes × Bytes)
quoted_bytes result [] = none
quoted_bytes result (c ∷ []) = if c == b'"' then some (result, []) else none
quoted_bytes result (c ∷ d ∷ s) =
    let escaped = quoted_bytes (result ++ char_bytes d) s in
    let plain = quoted_bytes (result ++ char_bytes c) (d ∷ s) in
    if c == b'"'
    then some (result, d ∷ s)
    else if c == b'\\'
    then (if is_ascii_control d then none else escaped)
    else if is_ascii_control c
    then none
    else plain

unfoldable pub parse_quoted_string : Bytes → Option (Bytes × Bytes)
parse_quoted_string [] = none
parse_quoted_string (c ∷ s) = if c == b'"' then quoted_bytes [] s else none

unfoldable pub skip_challenge : Bool → Bool → Bytes → Bytes
skip_challenge quoted escaped [] = []
skip_challenge true true (c ∷ s) = skip_challenge true false s
skip_challenge true false (c ∷ s) =
    let escape = skip_challenge true true s in
    let close = skip_challenge false false s in
    let stay = skip_challenge true false s in
    if c == b'\\' then escape else if c == b'"' then close else stay
skip_challenge false escaped (c ∷ s) =
    let opened = skip_challenge true escaped s in
    let stay = skip_challenge false escaped s in
    if c == b'"' then opened else if c == b',' then s else stay

-- `bytes.get(cursor) == Some(&c)`, and the text behind that byte
abbrev pub behind : ℕ → Bytes → Option Bytes
behind c [] = none
behind c (d ∷ s) = if d == c then some s else none

-- A quoted string or a token.
abbrev pub parse_value : Bytes → Option (Bytes × Bytes)
parse_value [] = none
parse_value (c ∷ s) = if c == b'"' then parse_quoted_string (c ∷ s) else parse_token (c ∷ s)

abbrev pub is_known : Option Bytes → Bool
is_known none = false
is_known (some value) = true

-- `?` on an option
unfoldable pub try_some {ℓ} : {A B : Type ℓ} → Option A → (A → Option B) → Option B
try_some none f = none
try_some (some a) f = f a

-- One parameter: its name in lower case, its value and the text behind it.
unfoldable pub parse_parameter : Bytes → Option (Bytes × Bytes × Bytes)
parse_parameter s = try_some (parse_token (skip_ows s)) λ (key, behind_key).
    try_some (behind b'=' (skip_ows behind_key)) λ text.
      try_some (parse_value (skip_ows text))
        λ (value, rest). some (map to_ascii_lowercase key, value, rest)

-- The text behind a comma continues with another parameter: nothing if no token follows it, and
-- otherwise whether an equals sign stands behind that token.
unfoldable pub continues : Bytes → Option Bool
continues s =
    try_some (parse_token (skip_ows s))
      λ (token, rest). some (is_known (behind b'=' (skip_ows rest)))

abbrev pub Parameters : Type 0
Parameters = List (Bytes × Bytes)

abbrev pub by_lookahead : Option Parameters → Parameters → Option Bool → Option Parameters
by_lookahead more parameters none = none
by_lookahead more parameters (some true) = more
by_lookahead more parameters (some false) = some parameters

-- The inner loop of `bearer_parameters`, once for each unit of fuel.
unfoldable pub parse_parameters : ℕ → Parameters → Bytes → Option Parameters
parse_parameters zero parameters s = none
parse_parameters (suc fuel) parameters s = try_some (parse_parameter s) λ (key, value, rest).
    if is_known (map_get key parameters) then none else elim (behind b',' (skip_ows rest)) [
      | none ↦ some (map_insert key value parameters)
      | some next ↦
          by_lookahead (parse_parameters fuel (map_insert key value parameters) next)
            (map_insert key value parameters) (continues next)
    ]

-- The outer loop of `bearer_parameters`.
unfoldable pub find_bearer : ℕ → Bytes → Option Parameters
find_bearer zero s = none
find_bearer (suc fuel) [] = none
find_bearer (suc fuel) (c ∷ s) =
    try_some (parse_token (skip_ows_and_commas (c ∷ s))) λ (scheme, rest).
      let others = find_bearer fuel (skip_challenge false false (skip_ows rest)) in
      if eq_ignore_ascii_case scheme (bytes "Bearer")
      then parse_parameters (suc fuel) [] (skip_ows rest)
      else others

unfoldable pub bearer_parameters : Bytes → Option Parameters
bearer_parameters value = find_bearer (suc (length value)) value

abbrev pub bad_path : Bytes → Bool
bad_path path =
    not (starts_with (bytes "/") path)
    || any (elem (bytes "?#\\")) path
    || any is_ascii_control path

-- The checks of a realm and a service, by what is left of the realm behind the origin.
unfoldable pub check_path : Bytes → Bytes → Option Bytes → Option BearerChallenge
check_path realm service none = none
check_path realm service (some path) =
    if bad_path path || not (service_is_safe service)
    then none
    else some (record { realm = realm; service = service })

unfoldable pub check_fields : Bytes → Option Bytes → Option Bytes → Option BearerChallenge
check_fields origin (some realm) (some service) =
    check_path realm service (strip_prefix origin realm)
check_fields origin (some realm) none = none
check_fields origin none service = none

-- The checks of one set of parameters, if one is read.
unfoldable pub usable : Bytes → Option Parameters → Option BearerChallenge
usable origin none = none
usable origin (some parameters) =
    check_fields origin (map_get (bytes "realm") parameters) (map_get (bytes "service") parameters)

-- The loop of `bearer_challenge`; a value is what `to_str` returns for it.
unfoldable pub bearer_challenge : List (Option Bytes) → Bytes → Option BearerChallenge
bearer_challenge [] origin = none
bearer_challenge (none ∷ values) origin = none
bearer_challenge (some value ∷ values) origin =
    let others = bearer_challenge values origin in
    if ltb max_challenge_bytes (length value)
    then others
    else elim (usable origin (bearer_parameters value)) [
      | none ↦ others
      | some challenge ↦ some challenge
    ]

-- ===== src/Challenges/Accepted.antt =====
-- A challenge as registries write it is accepted.
use mathlib.Core.List.{append_assoc, append-nil}
use github_oras_packages.Base.{
  ℕ, ◌≤◌, ◌≡◌, refl, sym, ap, ◌∙◌, true, false, ◌||◌, Option, some, List, [], ◌∷◌, ◌++◌, Bytes,
  bytes, arith, ltb, ◌==◌, length, All, any, all_sound, elem, is_ascii_alphanumeric, starts_with,
  strip_prefix-append, is_ascii_control, text_eq, text_lt, eq_ignore_ascii_case, map_get,
  map_insert,
}
use github_oras_packages.Challenges.Pinned.{IsPathByte}
use github_oras_packages.Challenges.{
  skip_ows, skip_ows_and_commas, token_bytes, parse_token, quoted_bytes, parse_quoted_string,
  try_some, parse_parameter, continues, parse_parameters, find_bearer, bearer_parameters,
  service_is_safe, check_path, check_fields, usable, bearer_challenge,
}

-- A byte that a quoted string holds as it is.
pub record IsQuotable (c : ℕ) : Type 0 where
  pub ascii : ltb c 128 ≡ true
  pub printed : is_ascii_control c ≡ false
  pub no_quote : (c == b'"') ≡ false
  pub no_escape : (c == b'\\') ≡ false

quoted_end : (acc t : Bytes) → quoted_bytes acc (b'"' ∷ t) ≡ some (acc, t)
unfolding quoted_bytes
quoted_end acc [] = refl
quoted_end acc (d ∷ t) = refl

quoted_step :
    (acc : Bytes) (c d : ℕ) (t : Bytes)
    → IsQuotable c
    → quoted_bytes acc (c ∷ d ∷ t) ≡ quoted_bytes (acc ++ c ∷ []) (d ∷ t)
unfolding quoted_bytes
quoted_step acc c d t q = ground (arith, q.ascii, q.printed, q.no_quote, q.no_escape)

quoted_plain :
    (acc s t : Bytes) → All IsQuotable s → quoted_bytes acc (s ++ b'"' ∷ t) ≡ some (acc ++ s, t)
quoted_plain acc [] t q = quoted_end acc t ∙ ap (λ u. some (u, t)) (sym (append-nil acc))
quoted_plain acc (c ∷ []) t q = quoted_step acc c b'"' t q.0 ∙ quoted_end (acc ++ c ∷ []) t
quoted_plain acc (c ∷ d ∷ s) t q =
    quoted_step acc c d (s ++ b'"' ∷ t) q.0
    ∙ quoted_plain (acc ++ c ∷ []) (d ∷ s) t q.1
    ∙ ap (λ u. some (u, t)) (append_assoc acc (c ∷ []) (d ∷ s))

abbrev pub service_part : Bytes → Bytes
service_part service = bytes "service=\"" ++ (service ++ b'"' ∷ [])

abbrev pub canonical : Bytes → Bytes → Bytes
canonical realm service = bytes "Bearer realm=\"" ++ (realm ++ b'"' ∷ b',' ∷ service_part service)

-- The field `Bearer realm="…",service="…"` is read as its realm and its service, if both are made of
-- printable ASCII without quotes and backslashes.
pub bearer_parameters-canonical :
    (realm service : Bytes)
    → All IsQuotable realm
    → All IsQuotable service
    → bearer_parameters (canonical realm service)
      ≡ some ((bytes "realm", realm) ∷ (bytes "service", service) ∷ [])
unfolding bearer_parameters find_bearer parse_parameters parse_parameter continues try_some
    parse_token token_bytes skip_ows skip_ows_and_commas parse_quoted_string eq_ignore_ascii_case
    text_eq text_lt map_get map_insert
bearer_parameters-canonical realm service r s =
    rw (quoted_plain [] realm (b',' ∷ service_part service) r, quoted_plain [] service [] s) refl

IsQuotable-of_name :
    (c : ℕ) → (is_ascii_alphanumeric c || elem (bytes ".-_") c) ≡ true → IsQuotable c
IsQuotable-of_name c h = record {
  ascii = ground (arith, h);
  printed = ground (arith, h);
  no_quote = ground (arith, h);
  no_escape = ground (arith, h);
}

service-IsQuotable : (s : Bytes) → service_is_safe s ≡ true → All IsQuotable s
unfolding service_is_safe
service-IsQuotable s h =
    all_sound IsQuotable (λ c. is_ascii_alphanumeric c || elem (bytes ".-_") c) IsQuotable-of_name s
      (ground (arith, h))

path_clean :
    (s : Bytes)
    → All IsPathByte s
    → (any (elem (bytes "?#\\")) s ≡ false) × (any is_ascii_control s ≡ false)
path_clean [] a = (refl, refl)
path_clean (c ∷ s) a =
    let (p, q) = path_clean s a.1 in (ground (arith, p, a.0), ground (arith, q, a.0))

check_path-accepts :
    (realm service path : Bytes)
    → All IsPathByte (b'/' ∷ path)
    → service_is_safe service ≡ true
    → check_path realm service (some (b'/' ∷ path))
      ≡ some (record { realm = realm; service = service })
unfolding check_path starts_with
check_path-accepts realm service path clean safe =
    let (a, b) = path_clean (b'/' ∷ path) clean in ground (arith, a, b, safe)

usable-canonical :
    (origin path service : Bytes)
    → All IsPathByte (b'/' ∷ path)
    → service_is_safe service ≡ true
    → usable origin
        (some ((bytes "realm", origin ++ b'/' ∷ path) ∷ (bytes "service", service) ∷ []))
      ≡ some (record { realm = origin ++ b'/' ∷ path; service = service })
unfolding usable check_fields map_get text_eq
usable-canonical origin path service clean safe =
    rw (strip_prefix-append origin (b'/' ∷ path))
      (check_path-accepts (origin ++ b'/' ∷ path) service path clean safe)

-- A field `Bearer realm="…",service="…"` of at most 8192 bytes is chosen if it comes first, its realm
-- is the origin followed by a path with a leading slash and without `?`, `#`, `\`, quotes and control
-- bytes, and its service is a safe name: the challenge has that realm and that service.
pub bearer_challenge-canonical :
    (values : List (Option Bytes)) (origin path service : Bytes)
    → length (canonical (origin ++ b'/' ∷ path) service) ≤ 8192
    → All IsQuotable (origin ++ b'/' ∷ path)
    → All IsPathByte (b'/' ∷ path)
    → service_is_safe service ≡ true
    → bearer_challenge (some (canonical (origin ++ b'/' ∷ path) service) ∷ values) origin
      ≡ some (record { realm = origin ++ b'/' ∷ path; service = service })
unfolding bearer_challenge
bearer_challenge-canonical values origin path service short quotable clean safe =
    let read =
      bearer_parameters-canonical (origin ++ b'/' ∷ path) service quotable
        (service-IsQuotable service safe) in
    let fits : ltb 8192 (length (canonical (origin ++ b'/' ∷ path) service)) ≡ false =
      ground (arith, short) in
    rw (fits, read, usable-canonical origin path service clean safe) refl

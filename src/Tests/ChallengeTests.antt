-- ===== src/Tests/ChallengeTests.antt =====
-- Tests of the challenges.
use github_oras_packages.Base.{
  ℕ, Bool, true, not, ◌&&◌, ltb, ◌==◌, is_ascii_control, All, all_sound, ◌≡◌, refl, none, some, [],
  ◌∷◌, Bytes, bytes, arith, text_eq, text_lt, starts_with, strip_prefix, eq_ignore_ascii_case,
  map_get, map_insert,
}
use github_oras_packages.Challenges.{
  BearerChallenge, service_is_safe, skip_ows, skip_ows_and_commas, token_bytes, parse_token,
  quoted_bytes, parse_quoted_string, skip_challenge, try_some, parse_parameter, continues,
  parse_parameters, find_bearer, bearer_parameters, check_path, check_fields, usable,
  bearer_challenge,
}
use github_oras_packages.Challenges.Pinned.{IsPathByte}
use github_oras_packages.Challenges.Accepted.{IsQuotable, canonical, bearer_challenge-canonical}

challenging : Unit {0}
unfolding service_is_safe skip_ows skip_ows_and_commas token_bytes parse_token quoted_bytes
    parse_quoted_string skip_challenge try_some parse_parameter continues parse_parameters
    find_bearer bearer_parameters check_path check_fields usable bearer_challenge text_eq text_lt
    starts_with strip_prefix eq_ignore_ascii_case map_get map_insert
challenging = tt

abbrev origin : Bytes
origin = bytes "https://ghcr.io"

abbrev field : Bytes
field =
    bytes "Basic realm=\"o, t\", bearer realm=\"https://ghcr.io/token\",service=ghcr.io,scope=\"x\""

abbrev ghcr : BearerChallenge
ghcr = record { realm = bytes "https://ghcr.io/token"; service = bytes "ghcr.io" }

challenge_tests :
    (bearer_challenge
        (some (bytes "Bearer realm=\"https://attacker.invalid/token\",service=\"ghcr.io\"") ∷ [])
        origin
      ≡ none)
    × (bearer_challenge
          (some (
              bytes
                "Bearer realm=\"https://ghcr.io/a\",realm=\"https://ghcr.io/b\",service=\"ghcr.io\"")
            ∷ [])
          origin
        ≡ none)
    × (bearer_challenge
          (some (bytes "Bearer realm=\"https://ghcr.io.evil/t\",service=\"s\"") ∷ some field ∷ [])
          origin
        ≡ some ghcr)
    × (bearer_challenge (none ∷ some field ∷ []) origin ≡ none)
unfolding challenging
challenge_tests = (refl, refl, refl, refl)

is_quotable : ℕ → Bool
is_quotable c = ltb c 128 && not (is_ascii_control c) && not (c == b'"') && not (c == b'\\')

IsQuotable-of : (c : ℕ) → is_quotable c ≡ true → IsQuotable c
unfolding is_quotable
IsQuotable-of c h = record {
  ascii = ground (arith, h);
  printed = ground (arith, h);
  no_quote = ground (arith, h);
  no_escape = ground (arith, h);
}

realm-IsQuotable : All IsQuotable (bytes "https://ghcr.io/token")
unfolding is_quotable
realm-IsQuotable =
    all_sound IsQuotable is_quotable IsQuotable-of (bytes "https://ghcr.io/token") refl

path_bytes : All IsPathByte (bytes "/token")
path_bytes = (
  (refl, refl),
  ((refl, refl), ((refl, refl), ((refl, refl), ((refl, refl), ((refl, refl), tt))))),
)

safe_service : service_is_safe (bytes "ghcr.io") ≡ true
unfolding challenging
safe_service = refl

bearer_challenge-canonical_example :
    bearer_challenge
      (some (canonical (bytes "https://ghcr.io/token") (bytes "ghcr.io")) ∷ [])
      origin
    ≡ some ghcr
bearer_challenge-canonical_example =
    bearer_challenge-canonical [] origin (bytes "token") (bytes "ghcr.io") (omega arith)
      realm-IsQuotable path_bytes safe_service

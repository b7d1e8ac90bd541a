-- ===== src/Routing.antt =====
-- `parse_raw_target` and what it calls, of crates/github-oras-packages-proxy/src/routing.rs.
-- The base64 engine `URL_SAFE_NO_PAD` is a parameter.
pub mod Errors
pub mod Engine
pub mod Paths
pub mod Soundness
pub mod Canonical
use github_oras_packages.Base.{
  ℕ, Bool, true, false, not, ◌&&◌, ◌||◌, Option, none, some, List, [], ◌∷◌, ◌++◌, Bytes, bytes,
  Result, ok, err, ok_or, ◌>>=◌, ◌>>◌, fail_if, ltb, ◌==◌, length, any, all, elem, is_empty,
  is_ascii, is_ascii_lowercase, is_ascii_uppercase, is_ascii_digit, is_ascii_control, text_eq,
  strip_prefix, starts_with, ends_with_byte, contains_byte, split, split_once, is_utf8,
  if◌then◌else◌,
}
use github_oras_packages.Protocols.{Protocol, EnabledProtocols, as_str, parse_protocol, contains}
use github_oras_packages.Repository.{ValidatedRepository, parse_repository}
use Errors.{
  RouteError, unsupported_method, invalid_route, invalid_repository_locator, disabled_protocol,
  invalid_protocol_path,
}
use Engine.{Base64}

abbrev pub route_prefix : Bytes
route_prefix = bytes "/r/v1/"

abbrev pub max_protocol_path_bytes : ℕ
max_protocol_path_bytes = 4096

abbrev pub max_protocol_path_segments : ℕ
max_protocol_path_segments = 128

abbrev pub max_locator_bytes : ℕ
max_locator_bytes = 340

pub record CanonicalProtocolPath : Type 0 where
  pub path : Bytes

pub record ValidatedRoute : Type 0 where
  pub repository : ValidatedRepository
  pub protocol : Protocol
  pub protocol_path : CanonicalProtocolPath

unfoldable pub is_base64url_character : ℕ → Bool
is_base64url_character c =
    is_ascii_uppercase c || is_ascii_lowercase c || is_ascii_digit c || elem (b'-' ∷ b'_' ∷ []) c

-- `&segments[..segments.len() - 1]`
abbrev pub drop_last {ℓ} : {A : Type ℓ} → List A → List A
drop_last [] = []
drop_last (x ∷ []) = []
drop_last (x ∷ y ∷ xs) = x ∷ drop_last (y ∷ xs)

-- The segments, without the empty one behind a trailing slash.
unfoldable pub meaningful_segments : Bytes → List Bytes
meaningful_segments path =
    let segments = split b'/' path in
    if ends_with_byte b'/' path then drop_last segments else segments

unfoldable pub bad_path_segment : Bytes → Bool
bad_path_segment segment =
    is_empty segment
    || (text_eq segment (bytes ".") || text_eq segment (bytes ".."))
    || contains_byte b';' segment
    || any is_ascii_control segment

unfoldable pub parse_protocol_path : Bytes → Result RouteError CanonicalProtocolPath
unfolding meaningful_segments bad_path_segment split text_eq
parse_protocol_path path = do
  fail_if (is_empty path || ltb max_protocol_path_bytes (length path) || not (is_ascii path))
      invalid_protocol_path
  let segments = meaningful_segments path
  fail_if
      (is_empty segments
        || ltb max_protocol_path_segments (length segments)
        || any bad_path_segment segments)
      invalid_protocol_path
  ok (record { path = path })

module _ (engine : Base64) where
  unfoldable pub decode_repository_locator : Bytes → Result RouteError ValidatedRepository
  decode_repository_locator locator = do
    fail_if
        (is_empty locator
          || ltb max_locator_bytes (length locator)
          || not (all is_base64url_character locator))
        invalid_repository_locator
    decoded ← ok_or invalid_repository_locator (engine.decode locator)
    fail_if (not (is_utf8 decoded)) invalid_repository_locator
    fail_if (not (text_eq (engine.encode decoded) locator)) invalid_repository_locator
    parse_repository decoded

  -- The three pieces of `splitn(3, '/')` are those of two `split_once`.
  unfoldable pub parse_route : Bytes → EnabledProtocols → Result RouteError ValidatedRoute
  parse_route raw_target enabled = do
    route ← ok_or invalid_route (strip_prefix route_prefix raw_target)
    (locator, rest) ← ok_or invalid_route (split_once b'/' route)
    (protocol, protocol_path) ← ok_or invalid_route (split_once b'/' rest)
    fail_if (is_empty locator) invalid_repository_locator
    repository ← decode_repository_locator locator
    selected ← parse_protocol protocol
    fail_if (not (contains enabled selected)) disabled_protocol
    canonical ← parse_protocol_path protocol_path
    ok (record { repository = repository; protocol = selected; protocol_path = canonical })

abbrev pub is_read_method : Bytes → Bool
is_read_method method = text_eq method (bytes "GET") || text_eq method (bytes "HEAD")

abbrev pub bad_target : Bytes → Bool
bad_target raw_target =
    is_empty raw_target
    || not (is_ascii raw_target)
    || any is_ascii_control raw_target
    || any (elem (b'?' ∷ b'#' ∷ b'%' ∷ b'\\' ∷ [])) raw_target
    || not (starts_with (bytes "/") raw_target)

unfoldable pub parse_raw_target :
    Base64 → Bytes → Bytes → EnabledProtocols → Result RouteError ValidatedRoute
unfolding parse_route decode_repository_locator
parse_raw_target engine method raw_target enabled = do
  fail_if (not (is_read_method method)) unsupported_method
  fail_if (bad_target raw_target) invalid_route
  parse_route engine raw_target enabled

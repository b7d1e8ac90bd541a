-- ===== src/Origin.antt =====
-- The upstream origin and the hosts allowed for it, of
-- crates/github-oras-packages-proxy/src/config.rs.
pub mod Hosts
use github_oras_packages.Base.{
  ℕ, Bool, true, false, not, ◌&&◌, ◌||◌, Option, none, some, List, [], ◌∷◌, ◌++◌, map, Bytes, bytes,
  Result, ok, err, ◌>>=◌, ◌>>◌, fail_if, ok_or, leb, ◌==◌, length, any, all, elem, is_empty,
  is_ascii_alphanumeric, to_ascii_lowercase, text_eq, starts_with, strip_prefix, ends_with_byte,
  contains_byte, split, split_once, trim, parse_unsigned, if◌then◌else◌,
}
use github_oras_packages.Config.Errors.{ConfigError, invalid_value, Addresses}

pub data Scheme : Type 0 where
  https http : Scheme

unfoldable pub scheme_str : Scheme → Bytes
scheme_str https = bytes "https"
scheme_str http = bytes "http"

pub record UpstreamOrigin : Type 0 where
  pub scheme : Scheme
  pub host : Bytes
  pub port : Option ℕ

abbrev pub upstream_error : Bytes → ConfigError
upstream_error reason = invalid_value (bytes "UPSTREAM") reason

abbrev is_port : Option ℕ → Option ℕ
is_port none = none
is_port (some port) = if port == 0 then none else some port

unfoldable pub parse_port : Bytes → Result ConfigError ℕ
parse_port value =
    ok_or (upstream_error (bytes "port must be a nonzero integer"))
      (is_port (parse_unsigned 65536 value))

-- The port behind the bracket of an IPv6 host.
unfoldable pub bracket_port : Bytes → Result ConfigError (Option ℕ)
bracket_port [] = ok none
bracket_port (c ∷ s) = do
  text ←
      ok_or (upstream_error (bytes "authority port is malformed"))
        (strip_prefix (bytes ":") (c ∷ s))
  port ← parse_port text
  ok (some port)

abbrev pub malformed_host : ConfigError
malformed_host = upstream_error (bytes "authority host is malformed")

unfoldable pub host_and_port :
    Bytes → Option (Bytes × Bytes) → Result ConfigError (Bytes × Option ℕ)
host_and_port authority none = ok (authority, none)
host_and_port authority (some (host, text)) = do
  fail_if (is_empty host) malformed_host
  port ← parse_port text
  ok (host, some port)

-- `find(']')` splits at the first bracket, so the host lies behind the opening one.
unfoldable pub bracketed : Option (Bytes × Bytes) → Result ConfigError (Bytes × Option ℕ)
bracketed none = err (upstream_error (bytes "IPv6 authority is malformed"))
bracketed (some (host, remainder)) = do port ← bracket_port remainder; ok (host, port)

unfoldable pub parse_authority : Bytes → Result ConfigError (Bytes × Option ℕ)
parse_authority [] = host_and_port [] none
parse_authority (c ∷ s) =
    if c == b'['
    then bracketed (split_once b']' s)
    else host_and_port (c ∷ s) (split_once b':' (c ∷ s))

abbrev pub has_double_dot : Bytes → Bool
has_double_dot [] = false
has_double_dot (c ∷ s) = starts_with (bytes "..") (c ∷ s) || has_double_dot s

unfoldable pub is_valid_host : Bytes → Bool
is_valid_host host =
    not (is_empty host)
    && leb (length host) 253
    && all (λ c. is_ascii_alphanumeric c || elem (bytes ".-:") c) host
    && not (starts_with (bytes ".") host)
    && not (ends_with_byte b'.' host)
    && not (starts_with (bytes "-") host)
    && not (ends_with_byte b'-' host)
    && not (has_double_dot host)

unfoldable pub parse_scheme : Bytes → Bool → Result ConfigError Scheme
parse_scheme scheme allow_insecure_loopback =
    if text_eq scheme (bytes "https")
    then ok https
    else if text_eq scheme (bytes "http")
    then (if allow_insecure_loopback
        then ok http
        else err (upstream_error (bytes "http requires ALLOW_INSECURE_LOOPBACK=true")))
    else err (upstream_error (bytes "scheme must be https or approved http"))

abbrev pub is_ip : Option Bool → Bool
is_ip none = false
is_ip (some loopback) = true

abbrev pub is_loopback : Option Bool → Bool
is_loopback none = false
is_loopback (some loopback) = loopback

abbrev pub is_http : Scheme → Bool
is_http https = false
is_http http = true

-- `split_once("://")`
abbrev pub split_scheme : Bytes → Option (Bytes × Bytes)
split_scheme [] = none
split_scheme (c ∷ s) =
    let rest = split_scheme s in
    elim (strip_prefix (bytes "://") (c ∷ s)) [
      | some authority ↦ some ([], authority)
      | none ↦ elim rest [ none ↦ none | some (a, b) ↦ some (c ∷ a, b) ]
    ]

unfoldable pub parse_upstream : Addresses → Bytes → Bool → Result ConfigError UpstreamOrigin
parse_upstream addresses value allow_insecure_loopback = do
  (scheme_text, authority) ←
      ok_or (upstream_error (bytes "must be an absolute https URL or approved loopback http URL"))
        (split_scheme value)
  scheme ← parse_scheme scheme_text allow_insecure_loopback
  fail_if (is_empty authority || any (elem (bytes "/?#@")) authority)
      (upstream_error (bytes "authority must contain only one host and optional port"))
  (host, port) ← parse_authority authority
  let ip = addresses.parse_ip host
  fail_if (contains_byte b':' host && not (is_ip ip))
      (upstream_error (bytes "IPv6 host is invalid"))
  fail_if (is_http scheme && not (is_loopback ip))
      (upstream_error (bytes "cleartext upstream must use a loopback IP"))
  fail_if (not (is_valid_host host)) (upstream_error (bytes "host is invalid"))
  ok (record { scheme = scheme; host = host; port = port })

abbrev pub lowercase : Bytes → Bytes
lowercase = map to_ascii_lowercase

-- `split(',')`, `trim`, without the empty ones, in lower case
unfoldable pub host_list : List Bytes → List Bytes
host_list [] = []
host_list (piece ∷ pieces) =
    let rest = host_list pieces in
    if is_empty (trim piece) then rest else lowercase (trim piece) ∷ rest

abbrev pub hosts_error : Bytes → ConfigError
hosts_error reason = invalid_value (bytes "ALLOWED_HOSTS") reason

unfoldable pub parse_allowed_hosts : Bytes → UpstreamOrigin → Result ConfigError (List Bytes)
parse_allowed_hosts value upstream = do
  let hosts = host_list (split b',' value)
  fail_if (is_empty hosts || not (any (λ host. text_eq host (lowercase upstream.host)) hosts))
      (hosts_error (bytes "must include the configured upstream host"))
  fail_if (any (λ host. not (is_valid_host host) || contains_byte b':' host) hosts)
      (hosts_error (bytes "must contain hostnames only"))
  ok hosts

-- ===== src/Config.antt =====
-- The configuration, of crates/github-oras-packages-proxy/src/config.rs.
pub mod Errors
pub mod Safety
pub mod Sources
pub mod Frontends
use github_oras_packages.Base.{
  ℕ, ◌*◌, ◌+◌, Bool, true, false, not, ◌&&◌, ◌||◌, Option, none, some, List, [], ◌∷◌, Bytes, bytes,
  Result, ok, err, ◌>>=◌, ◌>>◌, fail_if, ok_or, map_err, u64_bound, ltb, leb, ◌==◌, any, is_empty,
  text_eq, starts_with, split, split_once, trim, parse_unsigned, map_get, map_insert, if◌then◌else◌,
}
use github_oras_packages.Protocols.{
  Protocol, pypi, rpm, apt, pacman, EnabledProtocols, no_protocols, with_protocol,
}
use github_oras_packages.Repository.{ValidatedRepository, parse_repository}
use github_oras_packages.Inbound.Errors.{InboundLimits}
use github_oras_packages.Tokens.{TokenCredentials, new_credentials}
use github_oras_packages.Origin.{UpstreamOrigin, parse_upstream, parse_allowed_hosts}
use github_oras_packages.Config.Errors.{
  ConfigError, file_syntax, invalid_value, unknown_key, Addresses,
}

pub data LogLevel : Type 0 where
  error_level warn info debug : LogLevel

pub record Config : Type 0 where
  pub listen : Bytes
  pub upstream : UpstreamOrigin
  pub repository : ValidatedRepository
  pub allowed_hosts : List Bytes
  pub connect_timeout : ℕ
  pub request_timeout : ℕ
  pub inbound_limits : InboundLimits
  pub enabled_protocols : EnabledProtocols
  pub log_level : LogLevel
  pub allow_insecure_loopback : Bool
  pub token_credentials : Option TokenCredentials

-- A map of settings, in the order of its keys.
abbrev pub Settings : Type 0
Settings = List (Bytes × Bytes)

abbrev pub known_keys : List Bytes
known_keys =
    bytes "LISTEN_ADDR"
    ∷ bytes "UPSTREAM"
    ∷ bytes "REPOSITORY"
    ∷ bytes "ALLOWED_HOSTS"
    ∷ bytes "CONNECT_TIMEOUT_MS"
    ∷ bytes "REQUEST_TIMEOUT_MS"
    ∷ bytes "MAX_TARGET_BYTES"
    ∷ bytes "MAX_HEADER_COUNT"
    ∷ bytes "MAX_HEADER_BYTES"
    ∷ bytes "MAX_BODY_BYTES"
    ∷ bytes "ENABLED_FRONTENDS"
    ∷ bytes "LOG_LEVEL"
    ∷ bytes "ALLOW_INSECURE_LOOPBACK"
    ∷ bytes "TOKEN_USERNAME"
    ∷ bytes "TOKEN_PASSWORD"
    ∷ []

unfoldable pub known_key : Bytes → Bool
known_key key = any (text_eq key) known_keys

unfoldable pub reject_unknown_environment_keys : Settings → Result ConfigError (Unit {0})
reject_unknown_environment_keys values = fail_if (any (λ e. not (known_key e.0)) values) unknown_key

-- The loop of `parse_config_file` over the lines; `index` counts from 0.
unfoldable pub parse_lines : ℕ → List Bytes → Settings → Result ConfigError Settings
parse_lines index [] values = ok values
parse_lines index (line ∷ lines) values =
    let rest = parse_lines (index + 1) lines values in
    if is_empty (trim line) || starts_with (bytes "#") (trim line) then rest else (do
      (key, value) ← ok_or (file_syntax (index + 1)) (split_once b'=' (trim line))
      fail_if (not (known_key (trim key))) unknown_key
      parse_lines (index + 1) lines (map_insert (trim key) (trim value) values))

-- `lines`: the pieces between newlines without a carriage return at their end, and no empty piece
-- behind the last newline
abbrev without_return : Bytes → Bytes
without_return [] = []
without_return (c ∷ []) = if c == 13 then [] else c ∷ []
without_return (c ∷ d ∷ s) = c ∷ without_return (d ∷ s)

abbrev pub lines_of : List Bytes → List Bytes
lines_of [] = []
lines_of (piece ∷ []) = if is_empty piece then [] else piece ∷ []
lines_of (piece ∷ next ∷ pieces) = without_return piece ∷ lines_of (next ∷ pieces)

unfoldable pub parse_config_file : Bytes → Result ConfigError Settings
parse_config_file contents = parse_lines 0 (lines_of (split 10 contents)) []

abbrev pub or_else {ℓ} : {A : Type ℓ} → Option A → Option A → Option A
or_else none b = b
or_else (some a) b = some a

abbrev pub unwrap_or {ℓ} : {A : Type ℓ} → Option A → A → A
unwrap_or none d = d
unwrap_or (some a) d = a

-- The setting of a key: that of the environment, or of the file.
unfoldable pub setting : Settings → Settings → Bytes → Option Bytes
setting file_values environment key = or_else (map_get key environment) (map_get key file_values)

abbrev credentials_error : Bytes → ConfigError
credentials_error reason = invalid_value (bytes "TOKEN_PASSWORD") reason

unfoldable pub parse_token_credentials :
    Option Bytes → Option Bytes → Result ConfigError (Option TokenCredentials)
parse_token_credentials none none = ok none
parse_token_credentials (some username) (some password) = do
  credentials ←
      ok_or (credentials_error (bytes "must be a bounded non-empty single-line secret"))
        (new_credentials username password)
  ok (some credentials)
parse_token_credentials none (some password) =
    err (credentials_error (bytes "requires TOKEN_USERNAME and TOKEN_PASSWORD together"))
parse_token_credentials (some username) none =
    err (credentials_error (bytes "requires TOKEN_USERNAME and TOKEN_PASSWORD together"))

unfoldable pub parse_listen : Addresses → Bytes → Result ConfigError Bytes
parse_listen addresses value = do
  (port, loopback) ←
      ok_or (invalid_value (bytes "LISTEN_ADDR") (bytes "must be a host:port socket address"))
        (addresses.parse_socket value)
  fail_if (port == 0 && not loopback)
      (invalid_value (bytes "LISTEN_ADDR") (bytes "port zero is allowed only on loopback"))
  ok value

-- `filter`: the number, if it lies between the bounds
abbrev pub within : ℕ → ℕ → Option ℕ → Option ℕ
within minimum maximum none = none
within minimum maximum (some n) = if leb minimum n && leb n maximum then some n else none

abbrev pub max_timeout_ms : ℕ
max_timeout_ms = 600000

-- `Duration::from_millis`, kept in milliseconds
unfoldable pub parse_timeout : Bytes → Bytes → Result ConfigError ℕ
parse_timeout value key =
    ok_or (invalid_value key (bytes "must be a positive bounded millisecond value"))
      (within 1 max_timeout_ms (parse_unsigned u64_bound value))

unfoldable pub parse_bounded_usize : Bytes → Bytes → ℕ → ℕ → Result ConfigError ℕ
parse_bounded_usize value key minimum maximum =
    ok_or (invalid_value key (bytes "is outside the allowed bounded range"))
      (within minimum maximum (parse_unsigned u64_bound value))

unfoldable pub parse_bool : Bytes → Bytes → Result ConfigError Bool
parse_bool value key =
    if text_eq value (bytes "true")
    then ok true
    else if text_eq value (bytes "false")
    then ok false
    else err (invalid_value key (bytes "must be true or false"))

unfoldable pub parse_log_level : Bytes → Result ConfigError LogLevel
parse_log_level value =
    if text_eq value (bytes "error")
    then ok error_level
    else if text_eq value (bytes "warn")
    then ok warn
    else if text_eq value (bytes "info")
    then ok info
    else if text_eq value (bytes "debug")
    then ok debug
    else err (invalid_value (bytes "LOG_LEVEL") (bytes "must be error, warn, info, or debug"))

unfoldable pub frontend : Bytes → Result ConfigError Protocol
frontend name =
    if text_eq name (bytes "pypi")
    then ok pypi
    else if text_eq name (bytes "rpm")
    then ok rpm
    else if text_eq name (bytes "apt")
    then ok apt
    else if text_eq name (bytes "pacman")
    then ok pacman
    else err (
        invalid_value (bytes "ENABLED_FRONTENDS")
          (bytes "must be none or a comma-separated list of pypi, rpm, apt, pacman"))

-- The loop of `parse_protocols` over the pieces.
unfoldable pub add_frontends : EnabledProtocols → List Bytes → Result ConfigError EnabledProtocols
add_frontends protocols [] = ok protocols
add_frontends protocols (piece ∷ pieces) = do
  parsed ← frontend (trim piece)
  add_frontends (with_protocol protocols parsed) pieces

unfoldable pub parse_protocols : Bytes → Result ConfigError EnabledProtocols
parse_protocols value =
    if text_eq value (bytes "none")
    then ok no_protocols
    else add_frontends no_protocols (split b',' value)

unfoldable pub parse_limits : (Bytes → Bytes → Bytes) → Result ConfigError InboundLimits
parse_limits value = do
  target ←
      parse_bounded_usize (value (bytes "MAX_TARGET_BYTES") (bytes "8192"))
        (bytes "MAX_TARGET_BYTES") 1 65536
  count ←
      parse_bounded_usize (value (bytes "MAX_HEADER_COUNT") (bytes "64")) (bytes "MAX_HEADER_COUNT")
        1 256
  header ←
      parse_bounded_usize (value (bytes "MAX_HEADER_BYTES") (bytes "16384"))
        (bytes "MAX_HEADER_BYTES") 1 131072
  body ←
      parse_bounded_usize (value (bytes "MAX_BODY_BYTES") (bytes "67108864"))
        (bytes "MAX_BODY_BYTES") 0 67108864
  ok (record {
    max_target_bytes = target;
    max_header_count = count;
    max_header_bytes = header;
    max_body_bytes = body;
  })

-- `value`, on the settings of both sources
abbrev pub value_of : (Bytes → Option Bytes) → Bytes → Bytes → Bytes
value_of settings key default = unwrap_or (settings key) default

-- The part of `from_maps` that reads the two timeouts.
unfoldable pub parse_timeouts : (Bytes → Option Bytes) → Result ConfigError (ℕ × ℕ)
parse_timeouts settings = do
  connect ←
      parse_timeout (value_of settings (bytes "CONNECT_TIMEOUT_MS") (bytes "5000"))
        (bytes "CONNECT_TIMEOUT_MS")
  request ←
      parse_timeout (value_of settings (bytes "REQUEST_TIMEOUT_MS") (bytes "60000"))
        (bytes "REQUEST_TIMEOUT_MS")
  fail_if (ltb request connect)
      (invalid_value (bytes "CONNECT_TIMEOUT_MS") (bytes "must not exceed REQUEST_TIMEOUT_MS"))
  ok (connect, request)

-- The part of `from_maps` behind the allowed hosts.
unfoldable pub parse_service :
    (Bytes → Option Bytes)
    → Bytes
    → Bool
    → UpstreamOrigin
    → ValidatedRepository
    → List Bytes
    → Result ConfigError Config
parse_service settings listen allow upstream repository hosts = do
  (connect, request) ← parse_timeouts settings
  limits ← parse_limits (value_of settings)
  protocols ← parse_protocols (value_of settings (bytes "ENABLED_FRONTENDS") (bytes "none"))
  level ← parse_log_level (value_of settings (bytes "LOG_LEVEL") (bytes "info"))
  credentials ←
      parse_token_credentials (settings (bytes "TOKEN_USERNAME"))
        (settings (bytes "TOKEN_PASSWORD"))
  ok (record {
    listen = listen;
    upstream = upstream;
    repository = repository;
    allowed_hosts = hosts;
    connect_timeout = connect;
    request_timeout = request;
    inbound_limits = limits;
    enabled_protocols = protocols;
    log_level = level;
    allow_insecure_loopback = allow;
    token_credentials = credentials;
  })

-- `from_maps` behind the check of the keys.
unfoldable pub from_settings : Addresses → (Bytes → Option Bytes) → Result ConfigError Config
from_settings addresses settings = do
  listen ← parse_listen addresses (value_of settings (bytes "LISTEN_ADDR") (bytes "127.0.0.1:8080"))
  allow ←
      parse_bool (value_of settings (bytes "ALLOW_INSECURE_LOOPBACK") (bytes "false"))
        (bytes "ALLOW_INSECURE_LOOPBACK")
  upstream ←
      parse_upstream addresses (value_of settings (bytes "UPSTREAM") (bytes "https://ghcr.io"))
        allow
  repository ←
      map_err
        (λ e. invalid_value (bytes "REPOSITORY") (bytes "must be a valid OCI repository name"))
        (parse_repository (value_of settings (bytes "REPOSITORY") (bytes "acme/fixture")))
  hosts ← parse_allowed_hosts (value_of settings (bytes "ALLOWED_HOSTS") (bytes "ghcr.io")) upstream
  parse_service settings listen allow upstream repository hosts

unfoldable pub from_maps : Addresses → Settings → Settings → Result ConfigError Config
from_maps addresses file_values environment = do
  reject_unknown_environment_keys environment
  from_settings addresses (setting file_values environment)

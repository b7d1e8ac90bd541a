-- ===== src/Tests/ConfigTests.antt =====
-- Tests of the configuration.
use github_oras_packages.Base.{
  ℕ, ◌≡◌, refl, Bool, true, false, Option, none, some, [], ◌∷◌, Bytes, bytes, ok, err, ◌>>=◌,
  text_eq, text_lt, split, starts_with, strip_prefix, split_once, map_get, map_insert, trim,
  trim_start, trim_end, parse_unsigned, if◌then◌else◌, Lacks,
}
use github_oras_packages.Protocols.{no_protocols, with_protocol, contains, as_str}
use github_oras_packages.Repository.{parse_repository, is_repository_segment}
use github_oras_packages.Origin.{
  http, parse_port, bracket_port, host_and_port, bracketed, parse_authority, is_valid_host,
  parse_scheme, parse_upstream, host_list, parse_allowed_hosts,
}
use github_oras_packages.Config.{
  Config, Settings, info, known_key, reject_unknown_environment_keys, parse_lines,
  parse_config_file, setting, parse_token_credentials, parse_listen, parse_timeout,
  parse_bounded_usize, parse_bool, parse_log_level, frontend, add_frontends, parse_protocols,
  parse_limits, parse_timeouts, parse_service, from_settings, from_maps,
}
use github_oras_packages.Config.Errors.{Addresses, unknown_key, file_syntax, invalid_value}
use github_oras_packages.Config.Safety.{IsSafe, from_maps-IsSafe, from_maps-host_Lacks}
use github_oras_packages.Config.Sources.{overlay, from_maps-overlay}
use github_oras_packages.Tokens.{new_credentials}

configuring : Unit {0}
unfolding parse_port bracket_port host_and_port bracketed parse_authority is_valid_host parse_scheme
    parse_upstream host_list parse_allowed_hosts known_key reject_unknown_environment_keys
    parse_lines parse_config_file setting parse_token_credentials parse_listen parse_timeout
    parse_bounded_usize parse_bool parse_log_level frontend add_frontends parse_protocols
    parse_limits parse_timeouts parse_service from_settings from_maps no_protocols with_protocol
    contains as_str parse_repository is_repository_segment new_credentials ◌>>=◌ text_eq text_lt
    split starts_with strip_prefix split_once map_get map_insert trim trim_start trim_end
    parse_unsigned
configuring = tt

ip_of : Bytes → Option Bool
unfolding text_eq
ip_of host = if text_eq host (bytes "127.0.0.1") then some true else none

socket_of : Bytes → Option (ℕ × Bool)
unfolding text_eq
socket_of value =
    if text_eq value (bytes "127.0.0.1:8080")
    then some (8080, true)
    else if text_eq value (bytes "0.0.0.0:0")
    then some (0, false)
    else none

abbrev local_addresses : Addresses
local_addresses = record { parse_ip = ip_of; parse_socket = socket_of }

abbrev fixture_file : Settings
fixture_file = (bytes "LOG_LEVEL", bytes "debug") ∷ (bytes "REPOSITORY", bytes "acme/rpms") ∷ []

abbrev fixture_environment : Settings
fixture_environment =
    (bytes "ALLOWED_HOSTS", bytes "127.0.0.1")
    ∷ (bytes "ALLOW_INSECURE_LOOPBACK", bytes "true")
    ∷ (bytes "ENABLED_FRONTENDS", bytes "pypi, rpm")
    ∷ (bytes "LOG_LEVEL", bytes "info")
    ∷ (bytes "UPSTREAM", bytes "http://127.0.0.1:5000")
    ∷ []

abbrev fixture_config : Config
fixture_config = record {
  listen = bytes "127.0.0.1:8080";
  upstream = record { scheme = http; host = bytes "127.0.0.1"; port = some 5000 };
  repository = record { name = bytes "acme/rpms" };
  allowed_hosts = bytes "127.0.0.1" ∷ [];
  connect_timeout = 5000;
  request_timeout = 60000;
  inbound_limits = record {
    max_target_bytes = 8192;
    max_header_count = 64;
    max_header_bytes = 16384;
    max_body_bytes = 67108864;
  };
  enabled_protocols = record { bits = 3 };
  log_level = info;
  allow_insecure_loopback = true;
  token_credentials = none;
}

fixture_accepted : from_maps local_addresses fixture_file fixture_environment ≡ ok fixture_config
unfolding configuring ip_of socket_of
fixture_accepted = refl

rejections :
    (from_maps local_addresses [] ((bytes "UPSTREAM", bytes "http://127.0.0.1") ∷ [])
      ≡ err (invalid_value (bytes "UPSTREAM") (bytes "http requires ALLOW_INSECURE_LOOPBACK=true")))
    × (from_maps local_addresses [] ((bytes "UPSTREAM", bytes "https://example.org") ∷ [])
        ≡ err (
            invalid_value
              (bytes "ALLOWED_HOSTS")
              (bytes "must include the configured upstream host")))
    × (from_maps local_addresses [] ((bytes "LISTEN", bytes "x") ∷ []) ≡ err unknown_key)
    × (from_maps local_addresses [] ((bytes "LISTEN_ADDR", bytes "0.0.0.0:0") ∷ [])
        ≡ err (invalid_value (bytes "LISTEN_ADDR") (bytes "port zero is allowed only on loopback")))
    × (parse_config_file (bytes "# c\n LOG_LEVEL = warn \nLOG_LEVEL=debug\n")
        ≡ ok ((bytes "LOG_LEVEL", bytes "debug") ∷ []))
    × (parse_config_file (bytes "\nLOG_LEVEL\n") ≡ err (file_syntax 2))
    × (parse_authority (bytes "[::1]:443") ≡ ok (bytes "::1", some 443))
unfolding configuring ip_of socket_of
rejections = (refl, refl, refl, refl, refl, refl, refl)

from_maps-IsSafe_example : IsSafe local_addresses fixture_config
from_maps-IsSafe_example =
    from_maps-IsSafe local_addresses fixture_file fixture_environment fixture_config
      fixture_accepted

from_maps-host_Lacks_example : Lacks b':' (bytes "127.0.0.1")
from_maps-host_Lacks_example =
    from_maps-host_Lacks local_addresses fixture_file fixture_environment fixture_config
      fixture_accepted

keys_known : reject_unknown_environment_keys fixture_environment ≡ ok tt
unfolding configuring
keys_known = refl

from_maps-overlay_example :
    from_maps local_addresses fixture_file fixture_environment
    ≡ from_maps local_addresses (overlay fixture_file fixture_environment) []
from_maps-overlay_example =
    from_maps-overlay local_addresses fixture_file fixture_environment keys_known

two_frontends : parse_protocols (bytes "pypi, rpm") ≡ ok (record { bits = 3 })
unfolding configuring
two_frontends = refl

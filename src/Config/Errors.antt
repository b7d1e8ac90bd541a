-- ===== src/Config/Errors.antt =====
-- `ConfigError`, and what the code observes of parsed network addresses.
use github_oras_packages.Base.{ℕ, Bool, Option, Bytes}

pub data ConfigError : Type 0 where
  file_unreadable environment_unreadable unknown_key : ConfigError
  file_syntax : (line : ℕ) → ConfigError
  invalid_value : (key reason : Bytes) → ConfigError

-- What the code observes of an address that `IpAddr` and `SocketAddr` parse: whether it is a
-- loopback address, and its port.
pub record Addresses : Type 0 where
  pub parse_ip : Bytes → Option Bool
  pub parse_socket : Bytes → Option (ℕ × Bool)

-- ===== src/Libraries.antt =====
-- What the registry client and the publisher use of third-party crates: header values and URIs of
-- `http`, SHA-256 of `sha2` and Base64 of `base64`.
use github_oras_packages.Base.{
  ℕ, ◌≡◌, Option, ◌++◌, Bytes, bytes, length, all, is_ascii_hexdigit, is_ascii_uppercase, Bool,
  true, not, ◌&&◌,
}

-- `http::Uri`; a path and query is kept with its text.
pub record PathAndQuery : Type 0 where
  pub text : Bytes
  pub path : Bytes
  pub query : Option Bytes

pub record Uri : Type 0 where
  pub scheme_str : Option Bytes
  pub authority : Option Bytes
  pub path_and_query : Option PathAndQuery

-- `to_str` and `from_str` are those of `HeaderValue`, `parse_uri` is `str::parse::<Uri>`, and
-- `sha256_hex` is the digest in lower-case hexadecimal digits.
pub record Libraries : Type 0 where
  pub to_str : Bytes → Option Bytes
  pub from_str : Bytes → Option Bytes
  pub parse_uri : Bytes → Option Uri
  pub base64_encode : Bytes → Bytes
  pub sha256_hex : Bytes → Bytes

-- `format!("sha256:{:x}", …)`
abbrev pub digest_bytes : Libraries → Bytes → Bytes
digest_bytes lib content = bytes "sha256:" ++ lib.sha256_hex content

abbrev pub is_hex_digit : ℕ → Bool
is_hex_digit c = is_ascii_hexdigit c && not (is_ascii_uppercase c)

-- A SHA-256 digest has 256 bits, and that of `{}` is known.
pub record IsSha256 (lib : Libraries) : Type 0 where
  pub long : (content : Bytes) → length (lib.sha256_hex content) ≡ 64
  pub spelled : (content : Bytes) → all is_hex_digit (lib.sha256_hex content) ≡ true
  pub of_empty_config :
      lib.sha256_hex (bytes "{}")
      ≡ bytes "44136fa355b3678a1146ad16f7e8649e94fb4fc21fe77e8310c060f61caaff8a"

-- ===== src/Tokens.antt =====
-- Bearer tokens and their cache, of crates/github-oras-packages-proxy/src/auth.rs.
pub mod Lifetime
pub mod Isolation
use github_oras_packages.Base.{
  ℕ, ◌+◌, ◌-◌, ◌*◌, Bool, true, false, not, ◌&&◌, ◌||◌, Option, none, some, List, [], ◌∷◌, ◌++◌,
  Bytes, bytes, ltb, leb, length, any, all, elem, is_empty, is_ascii_alphanumeric, is_ascii_control,
  map_get, map_insert, map_remove, retain, pop_first, if◌then◌else◌,
}

abbrev pub max_token_bytes : ℕ
max_token_bytes = 8192

abbrev pub cache_capacity : ℕ
cache_capacity = 16

-- Instants and durations are numbers of nanoseconds.
abbrev pub from_secs : ℕ → ℕ
from_secs s = s * 1000000000

abbrev pub cache_ttl : ℕ
cache_ttl = from_secs 900

abbrev pub expiry_skew : ℕ
expiry_skew = from_secs 30

pub record TokenCredentials : Type 0 where
  pub username : Bytes
  pub password : Bytes

unfoldable pub new_credentials : Bytes → Bytes → Option TokenCredentials
new_credentials username password =
    if is_empty username
      || is_empty password
      || ltb 1024 (length username)
      || ltb 4096 (length password)
      || any is_ascii_control username
      || any is_ascii_control password
    then none
    else some (record { username = username; password = password })

pub record CachedToken : Type 0 where
  pub authorization : Bytes
  pub expires_at : ℕ

pub record TokenCache : Type 0 where
  pub entries : List (Bytes × CachedToken)

abbrev pub empty_cache : TokenCache
empty_cache = record { entries = [] }

abbrev pub min_duration : ℕ → ℕ → ℕ
min_duration a b = if leb a b then a else b

-- `Duration::checked_sub`
abbrev pub checked_sub : ℕ → ℕ → Option ℕ
checked_sub a b = if ltb a b then none else some (a - b)

abbrev pub stated : Option ℕ → ℕ
stated none = from_secs 60
stated (some seconds) = from_secs seconds

unfoldable pub token_lifetime : Option ℕ → Option ℕ
token_lifetime expires_in = checked_sub (min_duration (stated expires_in) cache_ttl) expiry_skew

abbrev pub has {ℓ} : {A : Type ℓ} → Option A → Bool
has none = false
has (some a) = true

unfoldable pub make_room : Bytes → List (Bytes × CachedToken) → List (Bytes × CachedToken)
make_room repository entries =
    if leb cache_capacity (length entries) && not (has (map_get repository entries))
    then pop_first entries
    else entries

-- The end of `insert`, by the lifetime.
unfoldable pub store_token : ℕ → Bytes → Bytes → Option ℕ → TokenCache → TokenCache
store_token now repository authorization none cache = cache
store_token now repository authorization (some lifetime) cache = record {
  entries =
      map_insert repository (record { authorization = authorization; expires_at = now + lifetime })
        (make_room repository cache.entries);
}

-- `insert`; `now` is what the clock reads.
unfoldable pub insert_token : ℕ → Bytes → Bytes → Option ℕ → TokenCache → TokenCache
insert_token now repository authorization expires_in cache =
    store_token now repository authorization (token_lifetime expires_in) cache

unfoldable pub discard_expired : ℕ → TokenCache → TokenCache
discard_expired now cache = record {
  entries = retain (λ (entry : CachedToken). ltb now entry.expires_at) cache.entries;
}

abbrev pub authorization_of : Option CachedToken → Option Bytes
authorization_of none = none
authorization_of (some entry) = some entry.authorization

-- `get`, with the cache that it leaves
unfoldable pub get_token : ℕ → Bytes → TokenCache → Option Bytes × TokenCache
get_token now repository cache =
    let kept_cache = discard_expired now cache in
    (authorization_of (map_get repository kept_cache.entries), kept_cache)

unfoldable pub remove_token : Bytes → TokenCache → TokenCache
remove_token repository cache = record { entries = map_remove repository cache.entries }

-- `from_str` is `HeaderValue::from_str` with `ok`.
unfoldable pub bearer_authorization : (Bytes → Option Bytes) → Bytes → Option Bytes
bearer_authorization from_str token =
    if is_empty token || ltb max_token_bytes (length token) || any is_ascii_control token
    then none
    else from_str (bytes "Bearer " ++ token)

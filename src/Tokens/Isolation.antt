-- ===== src/Tokens/Isolation.antt =====
-- What lookups find after the operations of the token cache.
use github_oras_packages.Base.{
  ℕ, ◌+◌, ◌≡◌, ap, ◌∙◌, Bool, Option, none, some, Bytes, arith, ltb, text_eq, map_get,
  map_get-remove, map_get-retain, kept, IsSorted, map_remove-IsSorted, if◌then◌else◌,
}
use github_oras_packages.Tokens.{
  CachedToken, TokenCache, discard_expired, authorization_of, get_token, remove_token,
}
use github_oras_packages.Tokens.Lifetime.{IsBounded}

abbrev is_live : ℕ → CachedToken → Bool
is_live now entry = ltb now entry.expires_at

-- What a lookup finds, by the entry of the cache.
get_token-eq :
    (now : ℕ) (repository : Bytes) (cache : TokenCache)
    → IsSorted cache.entries
    → (get_token now repository cache).0
      ≡ authorization_of (kept (is_live now) (map_get repository cache.entries))
unfolding get_token discard_expired
get_token-eq now repository cache s =
    ap authorization_of (map_get-retain repository (is_live now) cache.entries s)

-- What is found of a token with a lifetime, stored at `now`.
abbrev pub found_later : ℕ → ℕ → Bytes → ℕ → Option Bytes
found_later now later authorization lifetime =
    if ltb later (now + lifetime) then some authorization else none

-- By the lifetime: the token until it has passed, or what the cache held before.
abbrev pub found_after : ℕ → ℕ → Bytes → Option Bytes → Option ℕ → Option Bytes
found_after now later authorization before none = before
found_after now later authorization before (some lifetime) =
    found_later now later authorization lifetime

-- A removal forgets the token of its repository, and of no other.
pub get_token-remove :
    (now : ℕ) (repository other : Bytes) (cache : TokenCache)
    → IsBounded now cache
    → (get_token now other (remove_token repository cache)).0
      ≡ (if text_eq repository other then none else (get_token now other cache).0)
unfolding remove_token
get_token-remove now repository other cache b =
    get_token-eq now other (remove_token repository cache)
      (map_remove-IsSorted repository cache.entries b.sorted)
    ∙ ground (
      arith,
      map_get-remove repository other cache.entries b.sorted,
      get_token-eq now other cache b.sorted,
    )

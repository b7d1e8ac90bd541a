-- ===== src/Tokens/Lifetime.antt =====
-- The bounds of the token cache in every state that its operations reach.
use github_oras_packages.Base.{
  inl, inr, not, ◌&&◌, ℕ, ◌+◌, ◌≤◌, ◌≡◌, refl, Bool, Option, none, some, List, [], ◌∷◌, Bytes,
  arith, ltb, leb, length, All, All-map, map_get, map_insert, retain, pop_first, IsSorted,
  map_insert-IsSorted, map_remove-IsSorted, retain-IsSorted, pop_first-IsSorted, length-retain,
  length-map_remove, length-map_insert, length-map_insert_known, All-map_insert, All-map_remove,
  Bool-cases,
}
use github_oras_packages.Tokens.{
  CachedToken, TokenCache, empty_cache, token_lifetime, has, make_room, store_token, insert_token,
  discard_expired, get_token, remove_token,
}

-- The caches that operations reach while the clock runs forward.
pub data Reaches : ℕ → TokenCache → Type 0 where
  start : (now : ℕ) (cache : TokenCache) → cache ≡ empty_cache → Reaches now cache
  wait :
      (now later : ℕ) (cache : TokenCache) → now ≤ later → Reaches now cache → Reaches later cache
  insertion :
      (now : ℕ) (repository authorization : Bytes) (expires_in : Option ℕ) (cache out : TokenCache)
      → out ≡ insert_token now repository authorization expires_in cache
      → Reaches now cache
      → Reaches now out
  lookup :
      (now : ℕ) (repository : Bytes) (cache out : TokenCache)
      → out ≡ (get_token now repository cache).1
      → Reaches now cache
      → Reaches now out
  removal :
      (now : ℕ) (repository : Bytes) (cache out : TokenCache)
      → out ≡ remove_token repository cache
      → Reaches now cache
      → Reaches now out

-- An entry lives for 870 seconds at most from now.
abbrev pub IsShortLived : ℕ → Bytes × CachedToken → Type 0
IsShortLived now e = e.1.expires_at ≤ now + 870000000000

pub record IsBounded (now : ℕ) (cache : TokenCache) : Type 0 where
  pub sorted : IsSorted cache.entries
  pub few : length cache.entries ≤ 16
  pub short_lived : All (IsShortLived now) cache.entries

pub token_lifetime-le :
    (expires_in : Option ℕ) {lifetime : ℕ}
    → token_lifetime expires_in ≡ some lifetime
    → lifetime ≤ 870000000000
unfolding token_lifetime
token_lifetime-le none h = ground (arith, h)
token_lifetime-le (some s) h = ground (arith, h)

All-retain :
    (P : Bytes × CachedToken → Type 0) (p : CachedToken → Bool) (m : List (Bytes × CachedToken))
    → All P m
    → All P (retain p m)
unfolding retain
All-retain P p [] a = tt
All-retain P p ((k, v) ∷ m) a = elim (Bool-cases (p v)) [
  | inl e ↦ rw e (a.0, All-retain P p m a.1)
  | inr e ↦ rw e (All-retain P p m a.1)
]

All-pop_first :
    (P : Bytes × CachedToken → Type 0) (m : List (Bytes × CachedToken))
    → All P m
    → All P (pop_first m)
unfolding pop_first
All-pop_first P [] a = tt
All-pop_first P (e ∷ m) a = a.1

length-pop_first :
    (m : List (Bytes × CachedToken)) → 16 ≤ length m → 1 + length (pop_first m) ≤ length m
unfolding pop_first
length-pop_first [] h = ground (arith, h)
length-pop_first (e ∷ m) h = omega arith

few_after :
    (repository : Bytes) (entry : CachedToken) (m : List (Bytes × CachedToken))
    (found : Option CachedToken)
    → IsSorted m
    → map_get repository m ≡ found
    → length m ≤ 16
    → length (map_insert repository entry (make_room repository m)) ≤ 16
unfolding make_room
few_after repository entry m none s e h = rw e (
    ground (
      arith,
      h,
      length-map_insert repository entry m,
      length-map_insert repository entry (pop_first m),
      length-pop_first m,
    ))
few_after repository entry m (some old) s e h =
    rw e (ground (arith, h, length-map_insert_known repository entry old m s e))

pub make_room-IsSorted :
    (repository : Bytes) (m : List (Bytes × CachedToken))
    → IsSorted m
    → IsSorted (make_room repository m)
unfolding make_room
make_room-IsSorted repository m s = ground (arith, s, pop_first-IsSorted m s)

All-make_room :
    (P : Bytes × CachedToken → Type 0) (repository : Bytes) (m : List (Bytes × CachedToken))
    → All P m
    → All P (make_room repository m)
unfolding make_room
All-make_room P repository m a =
    elim (Bool-cases (leb 16 (length m) && not (has (map_get repository m)))) [
      | inl e ↦ rw e (All-pop_first P m a)
      | inr e ↦ rw e a
    ]

IsBounded-store :
    (now : ℕ) (repository authorization : Bytes) (lifetime : Option ℕ) (cache : TokenCache)
    → ((l : ℕ) → lifetime ≡ some l → l ≤ 870000000000)
    → IsBounded now cache
    → IsBounded now (store_token now repository authorization lifetime cache)
unfolding store_token
IsBounded-store now repository authorization none cache h b = b
IsBounded-store now repository authorization (some l) cache h b =
    let entry : CachedToken = record { authorization = authorization; expires_at = now + l } in
    let room = make_room repository cache.entries in
    record {
      sorted =
          map_insert-IsSorted repository entry room
            (make_room-IsSorted repository cache.entries b.sorted);
      few =
          few_after repository entry cache.entries (map_get repository cache.entries) b.sorted refl
            b.few;
      short_lived =
          All-map_insert (IsShortLived now) repository entry room (omega (arith, h l refl))
            (All-make_room (IsShortLived now) repository cache.entries b.short_lived);
    }

IsBounded-insert :
    (now : ℕ) (repository authorization : Bytes) (expires_in : Option ℕ) (cache : TokenCache)
    → IsBounded now cache
    → IsBounded now (insert_token now repository authorization expires_in cache)
unfolding insert_token
IsBounded-insert now repository authorization expires_in cache b =
    IsBounded-store now repository authorization (token_lifetime expires_in) cache
      (λ l e. token_lifetime-le expires_in e) b

IsBounded-get :
    (now : ℕ) (repository : Bytes) (cache : TokenCache)
    → IsBounded now cache
    → IsBounded now (get_token now repository cache).1
unfolding get_token discard_expired
IsBounded-get now repository cache b = record {
  sorted = retain-IsSorted (λ (e : CachedToken). ltb now e.expires_at) cache.entries b.sorted;
  few =
      omega (arith, b.few, length-retain (λ (e : CachedToken). ltb now e.expires_at) cache.entries);
  short_lived =
      All-retain (IsShortLived now) (λ (e : CachedToken). ltb now e.expires_at) cache.entries
        b.short_lived;
}

IsBounded-remove :
    (now : ℕ) (repository : Bytes) (cache : TokenCache)
    → IsBounded now cache
    → IsBounded now (remove_token repository cache)
unfolding remove_token
IsBounded-remove now repository cache b = record {
  sorted = map_remove-IsSorted repository cache.entries b.sorted;
  few = omega (arith, b.few, length-map_remove repository cache.entries);
  short_lived = All-map_remove (IsShortLived now) repository cache.entries b.short_lived;
}

-- In every state that operations reach while the clock runs forward, the cache holds 16 tokens at
-- most, at most one for each repository in the order of their names, and none of them expires later
-- than 870 seconds from now.
pub Reaches-IsBounded : (now : ℕ) (cache : TokenCache) → Reaches now cache → IsBounded now cache
Reaches-IsBounded now cache (start _ _ e) =
    rw e (record { sorted = tt; few = omega arith; short_lived = tt })
Reaches-IsBounded later cache (wait now _ _ le r) =
    let b = Reaches-IsBounded now cache r in
    record {
      sorted = b.sorted;
      few = b.few;
      short_lived =
          All-map (IsShortLived now) (IsShortLived later) (λ e h. omega (arith, h, le))
            cache.entries b.short_lived;
    }
Reaches-IsBounded now out (insertion _ repository authorization expires_in cache _ e r) =
    rw e (
      IsBounded-insert now repository authorization expires_in cache
        (Reaches-IsBounded now cache r))
Reaches-IsBounded now out (lookup _ repository cache _ e r) =
    rw e (IsBounded-get now repository cache (Reaches-IsBounded now cache r))
Reaches-IsBounded now out (removal _ repository cache _ e r) =
    rw e (IsBounded-remove now repository cache (Reaches-IsBounded now cache r))

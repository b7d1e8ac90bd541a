-- ===== src/Challenges/Pinned.antt =====
-- What is known of every usable challenge.
use github_oras_packages.Base.{
  ℕ, ◌≤◌, ◌≡◌, inl, inr, refl, ap, subst, ◌∙◌, true, false, not, ◌||◌, Option, none, some, List, [],
  ◌∷◌, ◌++◌, Bytes, bytes, arith, ltb, length, All, all_sound, any, elem, is_empty,
  is_ascii_alphanumeric, is_ascii_control, starts_with, strip_prefix, append_of_strip_prefix,
  append_of_starts_with, map_get, Bool-cases, Option-cases,
}
use github_oras_packages.Challenges.{
  BearerChallenge, service_is_safe, Parameters, bearer_parameters, bad_path, check_path,
  check_fields, usable, bearer_challenge,
}

some-inj {ℓ} : {A : Type ℓ} {a b : A} → ◌≡◌ {A = Option A} (some a) (some b) → a ≡ b
some-inj h = ground (arith, h)

-- A byte of a realm's path.
abbrev pub IsPathByte : ℕ → Type 0
IsPathByte c = (elem (bytes "?#\\") c ≡ false) × (is_ascii_control c ≡ false)

-- A challenge that may be answered with credentials: its realm is a path of the origin itself, and
-- its service is a short name.
pub record IsPinned (origin : Bytes) (challenge : BearerChallenge) : Type 0 where
  pub path : Bytes
  pub of_origin : challenge.realm ≡ origin ++ b'/' ∷ path
  pub clean : All IsPathByte (b'/' ∷ path)
  pub named : is_empty challenge.service ≡ false
  pub short : length challenge.service ≤ 256
  pub spelled :
      All (λ c. (is_ascii_alphanumeric c || elem (bytes ".-_") c) ≡ true) challenge.service

clean_sound :
    (s : Bytes)
    → any (elem (bytes "?#\\")) s ≡ false
    → any is_ascii_control s ≡ false
    → All IsPathByte s
clean_sound [] a b = tt
clean_sound (c ∷ s) a b =
    ((ground (arith, a), ground (arith, b)), clean_sound s (ground (arith, a)) (ground (arith, b)))

pinned :
    (origin realm service path : Bytes)
    → realm ≡ origin ++ path
    → starts_with (bytes "/") path ≡ true
    → any (elem (bytes "?#\\")) path ≡ false
    → any is_ascii_control path ≡ false
    → service_is_safe service ≡ true
    → IsPinned origin (record { realm = realm; service = service })
unfolding service_is_safe
pinned origin realm service path e slash a b safe =
    let (rest, k) = append_of_starts_with (bytes "/") path slash in
    record {
      path = rest;
      of_origin = e ∙ ap (λ t. origin ++ t) k;
      clean = clean_sound (b'/' ∷ rest) (rw k at a) (rw k at b);
      named = ground (arith, safe);
      short = ground (arith, safe);
      spelled =
          all_sound (λ c. (is_ascii_alphanumeric c || elem (bytes ".-_") c) ≡ true)
            (λ c. is_ascii_alphanumeric c || elem (bytes ".-_") c) (λ c h. h) service
            (ground (arith, safe));
    }

path_sound :
    (origin realm service : Bytes) (found : Option Bytes) {challenge : BearerChallenge}
    → strip_prefix origin realm ≡ found
    → check_path realm service found ≡ some challenge
    → IsPinned origin challenge
unfolding check_path
path_sound origin realm service none e h = cc
path_sound origin realm service (some path) e h =
    elim (Bool-cases (bad_path path || not (service_is_safe service))) [
      | inl bad ↦ absurd (let k = rw bad at h in cc)
      | inr good ↦ subst (IsPinned origin) (some-inj (rw good at h)) (
          pinned origin realm service path (append_of_strip_prefix origin realm e)
            (ground (arith, good)) (ground (arith, good)) (ground (arith, good))
            (ground (arith, good)))
    ]

fields_sound :
    (origin : Bytes) (realm service : Option Bytes) {challenge : BearerChallenge}
    → check_fields origin realm service ≡ some challenge
    → IsPinned origin challenge
unfolding check_fields
fields_sound origin none service h = cc
fields_sound origin (some realm) none h = cc
fields_sound origin (some realm) (some service) h =
    path_sound origin realm service (strip_prefix origin realm) refl h

usable_sound :
    (origin : Bytes) (parameters : Option Parameters) {challenge : BearerChallenge}
    → usable origin parameters ≡ some challenge
    → IsPinned origin challenge
unfolding usable
usable_sound origin none h = cc
usable_sound origin (some parameters) h =
    fields_sound origin (map_get (bytes "realm") parameters) (map_get (bytes "service") parameters)
      h

pub bearer_challenge-IsPinned :
    (values : List (Option Bytes)) (origin : Bytes) (challenge : BearerChallenge)
    → bearer_challenge values origin ≡ some challenge
    → IsPinned origin challenge
unfolding bearer_challenge
bearer_challenge-IsPinned [] origin challenge h = cc
bearer_challenge-IsPinned (none ∷ values) origin challenge h = cc
bearer_challenge-IsPinned (some value ∷ values) origin challenge h =
    elim (Bool-cases (ltb 8192 (length value))) [
      | inl long ↦ bearer_challenge-IsPinned values origin challenge (rw long at h)
      | inr short ↦ elim (Option-cases (usable origin (bearer_parameters value))) [
        | inl e ↦ bearer_challenge-IsPinned values origin challenge (rw e at (rw short at h))
        | inr (found, e) ↦
            subst (IsPinned origin) (some-inj (rw e at (rw short at h)))
              (usable_sound origin (bearer_parameters value) e)
      ]
    ]

-- ===== src/Origin/Hosts.antt =====
-- What is known of an accepted origin and of the hosts allowed for it.
use mathlib.Core.List.{Memᴰ}
use github_oras_packages.Base.{
  ℕ, ◌≤◌, ◌<◌, ◌≡◌, ◌⊎◌, inl, inr, refl, sym, ap, subst, Bool, true, false, not, ◌&&◌, ◌||◌, Option,
  none, some, List, [], ◌∷◌, Bytes, ok, arith, ◌==◌, All, any, any_sound, contains_byte, Lacks,
  text_eq, text_eq_iff, split, parse_unsigned, parse_unsigned-lt, ok-inj, >>=-eq-ok, fail_if-eq-ok,
  ok_or-eq-ok, ok_or->>=-eq-ok, Bool-cases,
}
use github_oras_packages.Config.Errors.{Addresses}
use github_oras_packages.Origin.{
  Scheme, https, http, is_port, UpstreamOrigin, is_valid_host, parse_port, bracket_port,
  host_and_port, bracketed, parse_authority, parse_scheme, parse_upstream, is_loopback, is_http,
  lowercase, host_list, parse_allowed_hosts,
}

-- No port, or one from 1 to 65535.
abbrev pub IsPort : Option ℕ → Type 0
IsPort none = Unit
IsPort (some n) = (1 ≤ n) × (n < 65536)

IsPort-sound :
    (found : Option ℕ) {n : ℕ}
    → is_port found ≡ some n
    → ((m : ℕ) → found ≡ some m → m < 65536)
    → IsPort (some n)
IsPort-sound none h b = cc
IsPort-sound (some m) h b = let lt = b m refl in (ground (arith, h), ground (arith, h, lt))

parse_port_sound : (s : Bytes) {n : ℕ} → parse_port s ≡ ok n → IsPort (some n)
unfolding parse_port
parse_port_sound s h =
    IsPort-sound (parse_unsigned 65536 s) (ok_or-eq-ok _ _ h) (λ m e. parse_unsigned-lt 65536 s e)

bracket_port_sound : (s : Bytes) {p : Option ℕ} → bracket_port s ≡ ok p → IsPort p
unfolding bracket_port
bracket_port_sound [] h = subst IsPort (ok-inj h) tt
bracket_port_sound (c ∷ s) h =
    let (text, a, h₁) = ok_or->>=-eq-ok _ _ _ h in
    let (port, b, h₂) = >>=-eq-ok _ _ h₁ in subst IsPort (ok-inj h₂) (parse_port_sound text b)

host_and_port_sound :
    (s : Bytes) (found : Option (Bytes × Bytes)) {p : Bytes × Option ℕ}
    → host_and_port s found ≡ ok p
    → IsPort p.1
unfolding host_and_port
host_and_port_sound s none h = subst (λ (t : Bytes × Option ℕ). IsPort t.1) (ok-inj h) tt
host_and_port_sound s (some (host, text)) h =
    let (_, h₁) = fail_if-eq-ok _ _ _ h in
    let (port, a, h₂) = >>=-eq-ok _ _ h₁ in
    subst (λ (t : Bytes × Option ℕ). IsPort t.1) (ok-inj h₂) (parse_port_sound text a)

bracketed_sound :
    (found : Option (Bytes × Bytes)) {p : Bytes × Option ℕ} → bracketed found ≡ ok p → IsPort p.1
unfolding bracketed
bracketed_sound none h = cc
bracketed_sound (some (host, rest)) h =
    let (port, a, h₁) = >>=-eq-ok _ _ h in
    subst (λ (t : Bytes × Option ℕ). IsPort t.1) (ok-inj h₁) (bracket_port_sound rest a)

parse_authority_sound : (s : Bytes) {p : Bytes × Option ℕ} → parse_authority s ≡ ok p → IsPort p.1
unfolding parse_authority
parse_authority_sound [] h = host_and_port_sound [] none h
parse_authority_sound (c ∷ s) h = elim (Bool-cases (c == b'[')) [
  | inl e ↦ bracketed_sound _ (rw e at h)
  | inr e ↦ host_and_port_sound (c ∷ s) _ (rw e at h)
]

-- An origin that may be contacted: over TLS, or in clear text to a loopback address after an opt-in.
pub record IsOrigin (addresses : Addresses) (allow : Bool) (u : UpstreamOrigin) : Type 0 where
  pub protected :
      (u.scheme ≡ https)
      ⊎ ((u.scheme ≡ http) × (allow ≡ true) × (addresses.parse_ip u.host ≡ some true))
  pub host_valid : is_valid_host u.host ≡ true
  pub port_valid : IsPort u.port

parse_scheme_sound :
    (s : Bytes) (allow : Bool) {scheme : Scheme}
    → parse_scheme s allow ≡ ok scheme
    → (scheme ≡ https) ⊎ ((scheme ≡ http) × (allow ≡ true))
unfolding parse_scheme
parse_scheme_sound s true h = ground (arith, h)
parse_scheme_sound s false h = ground (arith, h)

loopback_of : (ip : Option Bool) → is_loopback ip ≡ true → ip ≡ some true
loopback_of none h = cc
loopback_of (some b) h = ap some h

clear_sound :
    (scheme : Scheme) (ip : Option Bool)
    → scheme ≡ http
    → (is_http scheme && not (is_loopback ip)) ≡ false
    → is_loopback ip ≡ true
clear_sound https ip e h = cc
clear_sound http ip e h = ground (arith, h)

pub parse_upstream_sound :
    (addresses : Addresses) (value : Bytes) (allow : Bool) {u : UpstreamOrigin}
    → parse_upstream addresses value allow ≡ ok u
    → IsOrigin addresses allow u
unfolding parse_upstream
parse_upstream_sound addresses value allow h =
    let ((text, authority), a, h₁) = ok_or->>=-eq-ok _ _ _ h in
    let (scheme, b, h₂) = >>=-eq-ok _ _ h₁ in
    let (_, h₃) = fail_if-eq-ok _ _ _ h₂ in
    let ((host, port), c, h₄) = >>=-eq-ok _ _ h₃ in
    let (_, h₅) = fail_if-eq-ok _ _ _ h₄ in
    let (clear, h₆) = fail_if-eq-ok _ _ _ h₅ in
    let (valid, h₇) = fail_if-eq-ok _ _ _ h₆ in
    subst (IsOrigin addresses allow) (ok-inj h₇) (record {
      protected = elim (parse_scheme_sound text allow b) [
        | inl e ↦ inl e
        | inr (e, opted) ↦ inr (
          e,
          opted,
          loopback_of (addresses.parse_ip host)
              (clear_sound scheme (addresses.parse_ip host) e clear),
        )
      ];
      host_valid = ground (arith, valid);
      port_valid = parse_authority_sound authority c;
    })

pub record IsAllowedHost (host : Bytes) : Type 0 where
  pub host_valid : is_valid_host host ≡ true
  pub no_colon : Lacks b':' host

IsAllowedHost-of :
    (host : Bytes)
    → (not (is_valid_host host) || contains_byte b':' host) ≡ false
    → IsAllowedHost host
IsAllowedHost-of host h = record { host_valid = ground arith; no_colon = ground arith }

mem_of_any :
    (host : Bytes) (hosts : List Bytes) → any (λ h. text_eq h host) hosts ≡ true → Memᴰ host hosts
mem_of_any host [] h = cc
mem_of_any host (t ∷ hosts) h = elim (Bool-cases (text_eq t host)) [
  | inl e ↦ Memᴰ.head (sym ((text_eq_iff t host).0 e))
  | inr e ↦ Memᴰ.tail (mem_of_any host hosts (ground arith))
]

pub parse_allowed_hosts_sound :
    (value : Bytes) (u : UpstreamOrigin) {hosts : List Bytes}
    → parse_allowed_hosts value u ≡ ok hosts
    → Memᴰ (lowercase u.host) hosts × All IsAllowedHost hosts
unfolding parse_allowed_hosts
parse_allowed_hosts_sound value u h =
    let (a, h₁) = fail_if-eq-ok _ _ _ h in
    let (b, h₂) = fail_if-eq-ok _ _ _ h₁ in
    let found = host_list (split b',' value) in
    subst (λ (hs : List Bytes). Memᴰ (lowercase u.host) hs × All IsAllowedHost hs) (ok-inj h₂)
      (
        mem_of_any (lowercase u.host) found (ground (arith, a)),
        any_sound IsAllowedHost (λ host. not (is_valid_host host) || contains_byte b':' host)
            IsAllowedHost-of found b,
      )

-- Lower case keeps the colons.
pub no_colon_of_lowercase : (s : Bytes) → Lacks b':' (lowercase s) → Lacks b':' s
no_colon_of_lowercase [] h = refl
no_colon_of_lowercase (c ∷ s) h = ground (arith, no_colon_of_lowercase s)

-- ===== src/Config/Safety.antt =====
-- What is known of every accepted configuration.
use mathlib.Core.List.{Memᴰ}
use github_oras_packages.Base.{
  ℕ, ◌≤◌, ◌≡◌, sym, subst, Bool, Option, none, some, List, [], ◌∷◌, Bytes, ok, arith, All, Lacks,
  parse_unsigned, u64_bound, map_err-eq-ok, ok-inj, >>=-eq-ok, fail_if-eq-ok, ok_or-eq-ok,
}
use github_oras_packages.Repository.{ValidatedRepository}
use github_oras_packages.Repository.Admission.{IsRepository, parse_repository_sound}
use github_oras_packages.Inbound.Errors.{InboundLimits}
use github_oras_packages.Origin.{UpstreamOrigin, lowercase}
use github_oras_packages.Origin.Hosts.{
  IsOrigin, IsAllowedHost, parse_upstream_sound, parse_allowed_hosts_sound, no_colon_of_lowercase,
}
use github_oras_packages.Config.{
  Config, Settings, within, parse_timeout, parse_bounded_usize, parse_limits, parse_timeouts,
  parse_service, from_settings, setting, from_maps,
}
use github_oras_packages.Config.Errors.{Addresses}

-- What the code may rely on in an accepted configuration.
pub record IsSafe (addresses : Addresses) (config : Config) : Type 0 where
  pub origin : IsOrigin addresses config.allow_insecure_loopback config.upstream
  pub upstream_allowed : Memᴰ (lowercase config.upstream.host) config.allowed_hosts
  pub hosts_valid : All IsAllowedHost config.allowed_hosts
  pub repository_valid : IsRepository config.repository.name
  pub connect_positive : 1 ≤ config.connect_timeout
  pub connect_first : config.connect_timeout ≤ config.request_timeout
  pub request_bounded : config.request_timeout ≤ 600000
  pub target_bounded : config.inbound_limits.max_target_bytes ≤ 65536
  pub count_bounded : config.inbound_limits.max_header_count ≤ 256
  pub headers_bounded : config.inbound_limits.max_header_bytes ≤ 131072
  pub body_bounded : config.inbound_limits.max_body_bytes ≤ 67108864

within_sound :
    (lo hi : ℕ) (found : Option ℕ) {n : ℕ} → within lo hi found ≡ some n → (lo ≤ n) × (n ≤ hi)
within_sound lo hi none h = cc
within_sound lo hi (some m) h = (ground (arith, h), ground (arith, h))

parse_timeout_sound :
    (value key : Bytes) {n : ℕ} → parse_timeout value key ≡ ok n → (1 ≤ n) × (n ≤ 600000)
unfolding parse_timeout
parse_timeout_sound value key h =
    within_sound 1 600000 (parse_unsigned u64_bound value) (ok_or-eq-ok _ _ h)

bounded_sound :
    (value key : Bytes) (lo hi : ℕ) {n : ℕ}
    → parse_bounded_usize value key lo hi ≡ ok n
    → (lo ≤ n) × (n ≤ hi)
unfolding parse_bounded_usize
bounded_sound value key lo hi h =
    within_sound lo hi (parse_unsigned u64_bound value) (ok_or-eq-ok _ _ h)

abbrev AreBounded : InboundLimits → Type 0
AreBounded limits =
    (limits.max_target_bytes ≤ 65536)
    × (limits.max_header_count ≤ 256)
    × (limits.max_header_bytes ≤ 131072)
    × (limits.max_body_bytes ≤ 67108864)

parse_limits_sound :
    (value : Bytes → Bytes → Bytes) {limits : InboundLimits}
    → parse_limits value ≡ ok limits
    → AreBounded limits
unfolding parse_limits
parse_limits_sound value h =
    let (target, a, h₁) = >>=-eq-ok _ _ h in
    let (count, b, h₂) = >>=-eq-ok _ _ h₁ in
    let (header, c, h₃) = >>=-eq-ok _ _ h₂ in
    let (body, d, h₄) = >>=-eq-ok _ _ h₃ in
    subst AreBounded (ok-inj h₄) (
      (bounded_sound _ _ _ _ a).1,
      (bounded_sound _ _ _ _ b).1,
      (bounded_sound _ _ _ _ c).1,
      (bounded_sound _ _ _ _ d).1,
    )

abbrev AreOrdered : ℕ × ℕ → Type 0
AreOrdered (connect, request) = (1 ≤ connect) × (connect ≤ request) × (request ≤ 600000)

parse_timeouts_sound :
    (settings : Bytes → Option Bytes) {p : ℕ × ℕ} → parse_timeouts settings ≡ ok p → AreOrdered p
unfolding parse_timeouts
parse_timeouts_sound settings h =
    let (connect, c, h₁) = >>=-eq-ok _ _ h in
    let (request, q, h₂) = >>=-eq-ok _ _ h₁ in
    let (ordered, h₃) = fail_if-eq-ok _ _ _ h₂ in
    subst AreOrdered (ok-inj h₃)
      ((parse_timeout_sound _ _ c).0, ground (arith, ordered), (parse_timeout_sound _ _ q).1)

module _ (addresses : Addresses) (settings : Bytes → Option Bytes) (listen : Bytes) (allow : Bool)
    (upstream : UpstreamOrigin) (repository : ValidatedRepository) (hosts : List Bytes) where
  parse_service_sound :
      {config : Config}
      → IsOrigin addresses allow upstream
      → Memᴰ (lowercase upstream.host) hosts
      → All IsAllowedHost hosts
      → IsRepository repository.name
      → parse_service settings listen allow upstream repository hosts ≡ ok config
      → IsSafe addresses config
  unfolding parse_service
  parse_service_sound origin listed valid grammar h =
      let ((connect, request), t, h₁) = >>=-eq-ok _ _ h in
      let (limits, l, h₂) = >>=-eq-ok _ _ h₁ in
      let (protocols, _, h₃) = >>=-eq-ok _ _ h₂ in
      let (level, _, h₄) = >>=-eq-ok _ _ h₃ in
      let (credentials, _, h₅) = >>=-eq-ok _ _ h₄ in
      let (positive, first, below) = parse_timeouts_sound settings t in
      let (bound₁, bound₂, bound₃, bound₄) = parse_limits_sound _ l in
      subst (IsSafe addresses) (ok-inj h₅) (record {
        origin = origin;
        upstream_allowed = listed;
        hosts_valid = valid;
        repository_valid = grammar;
        connect_positive = positive;
        connect_first = first;
        request_bounded = below;
        target_bounded = bound₁;
        count_bounded = bound₂;
        headers_bounded = bound₃;
        body_bounded = bound₄;
      })

from_settings_sound :
    (addresses : Addresses) (settings : Bytes → Option Bytes) {config : Config}
    → from_settings addresses settings ≡ ok config
    → IsSafe addresses config
unfolding from_settings
from_settings_sound addresses settings h =
    let (listen, _, h₁) = >>=-eq-ok _ _ h in
    let (allow, _, h₂) = >>=-eq-ok _ _ h₁ in
    let (upstream, u, h₃) = >>=-eq-ok _ _ h₂ in
    let (repository, r, h₄) = >>=-eq-ok _ _ h₃ in
    let (hosts, a, h₅) = >>=-eq-ok _ _ h₄ in
    let (listed, valid) = parse_allowed_hosts_sound _ upstream a in
    let (named, grammar) = parse_repository_sound _ (map_err-eq-ok _ _ r) in
    parse_service_sound addresses settings listen allow upstream repository hosts
      (parse_upstream_sound addresses _ allow u) listed valid
      (subst IsRepository (sym named) grammar) h₅

-- In every accepted configuration the upstream is reached over TLS, or in clear text at a loopback
-- address after the opt-in; its host is valid and, in lower case, among the allowed hosts, which are
-- all valid and without a colon; its port is from 1 to 65535 if it has one; the repository name
-- follows its grammar; the connect timeout is positive and at most the request timeout, which is at
-- most ten minutes; and the inbound limits are at most 65536 target bytes, 256 header fields, 131072
-- header bytes and 67108864 body bytes.
pub from_maps-IsSafe :
    (addresses : Addresses) (file_values environment : Settings) (config : Config)
    → from_maps addresses file_values environment ≡ ok config
    → IsSafe addresses config
unfolding from_maps
from_maps-IsSafe addresses file_values environment config h =
    let (_, _, h₁) = >>=-eq-ok _ _ h in
    from_settings_sound addresses (setting file_values environment) h₁

member : {x : Bytes} {xs : List Bytes} → Memᴰ x xs → All IsAllowedHost xs → IsAllowedHost x
member {xs = []} m a = elim m [ ]
member {xs = y ∷ xs} (Memᴰ.head e) a = subst IsAllowedHost (sym e) a.0
member {xs = y ∷ xs} (Memᴰ.tail m) a = member m a.1

-- No accepted configuration has an upstream host with a colon, so none has an IPv6 origin.
pub from_maps-host_Lacks :
    (addresses : Addresses) (file_values environment : Settings) (config : Config)
    → from_maps addresses file_values environment ≡ ok config
    → Lacks b':' config.upstream.host
from_maps-host_Lacks addresses file_values environment config h =
    let safe = from_maps-IsSafe addresses file_values environment config h in
    no_colon_of_lowercase config.upstream.host
      (member safe.upstream_allowed safe.hosts_valid).no_colon

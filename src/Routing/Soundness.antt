-- ===== src/Routing/Soundness.antt =====
-- What an accepted request target looks like.
use github_oras_packages.Base.{
  ℕ, ◌≡◌, ◌≢◌, ◌⊎◌, true, false, [], ◌∷◌, ◌++◌, Bytes, bytes, ok, arith, All, any, any_sound, elem,
  is_ascii_control, text_eq_iff, >>=-eq-ok, fail_if-eq-ok, ok_or->>=-eq-ok, append_of_strip_prefix,
  split_once_sound,
}
use github_oras_packages.Protocols.{Protocol, as_str, contains, EnabledProtocols}
use github_oras_packages.Protocols.Laws.{parse_protocol_sound}
use github_oras_packages.Repository.{ValidatedRepository}
use github_oras_packages.Repository.Admission.{IsRepository, parse_repository_sound}
use github_oras_packages.Routing.Engine.{Base64}
use github_oras_packages.Routing.{
  CanonicalProtocolPath, ValidatedRoute, route_prefix, decode_repository_locator, parse_route,
  parse_raw_target,
}
use github_oras_packages.Routing.Paths.{IsProtocolPath, parse_protocol_path_sound}

-- The target that spells a route: the locator is the encoding of the repository.
abbrev pub target_of : Base64 → ValidatedRoute → Bytes
target_of engine route =
    route_prefix
    ++ (engine.encode route.repository.name
        ++ b'/' ∷ (as_str route.protocol ++ b'/' ∷ route.protocol_path.path))

module _ (engine : Base64) where
  locator_sound :
      (locator : Bytes) {v : ValidatedRepository}
      → decode_repository_locator engine locator ≡ ok v
      → (locator ≡ engine.encode v.name) × IsRepository v.name
  unfolding decode_repository_locator
  locator_sound locator {v} h =
      let (a, h₁) = fail_if-eq-ok _ _ _ h in
      let (decoded, d, h₂) = ok_or->>=-eq-ok _ _ _ h₁ in
      let (b, h₃) = fail_if-eq-ok _ _ _ h₂ in
      let (c, h₄) = fail_if-eq-ok _ _ _ h₃ in
      let (e, r) = parse_repository_sound decoded h₄ in
      rw e (ground (arith, text_eq_iff (engine.encode decoded) locator), r)

  -- The pieces that the parser finds are those of the spelling.
  spelled :
      (target tail locator rest protocol path : Bytes) (repository : ValidatedRepository)
      (selected : Protocol) (canonical : CanonicalProtocolPath) (enabled : EnabledProtocols)
      (route : ValidatedRoute)
      → target ≡ route_prefix ++ tail
      → tail ≡ locator ++ b'/' ∷ rest
      → rest ≡ protocol ++ b'/' ∷ path
      → locator ≡ engine.encode repository.name
      → protocol ≡ as_str selected
      → canonical.path ≡ path
      → record { repository = repository; protocol = selected; protocol_path = canonical } ≡ route
      → IsRepository repository.name
      → IsProtocolPath path
      → contains enabled selected ≡ true
      → (target ≡ target_of engine route)
        × (contains enabled route.protocol ≡ true)
        × IsRepository route.repository.name
        × IsProtocolPath route.protocol_path.path
  spelled target tail locator rest protocol path v selected canonical enabled route a b c l p q e i
        j k =
      rw (← e) (cc, k, i, rw q j)

  parse_route_sound :
      (target : Bytes) (enabled : EnabledProtocols) {route : ValidatedRoute}
      → parse_route engine target enabled ≡ ok route
      → (target ≡ target_of engine route)
        × (contains enabled route.protocol ≡ true)
        × IsRepository route.repository.name
        × IsProtocolPath route.protocol_path.path
  unfolding parse_route
  parse_route_sound target enabled {route} h =
      let (tail, p, h₁) = ok_or->>=-eq-ok _ _ _ h in
      let (lr, s, h₂) = ok_or->>=-eq-ok _ _ _ h₁ in
      let (pp, t, h₃) = ok_or->>=-eq-ok _ _ _ h₂ in
      let (a, h₄) = fail_if-eq-ok _ _ _ h₃ in
      let (repository, r, h₅) = >>=-eq-ok _ _ h₄ in
      let (selected, q, h₆) = >>=-eq-ok _ _ h₅ in
      let (b, h₇) = fail_if-eq-ok _ _ _ h₆ in
      let (canonical, c, h₈) = >>=-eq-ok _ _ h₇ in
      let (l, is) = locator_sound lr.0 r in
      let (q', j) = parse_protocol_path_sound pp.1 c in
      spelled target tail lr.0 lr.1 pp.0 pp.1 repository selected canonical enabled route
        (append_of_strip_prefix route_prefix target p) (split_once_sound b'/' tail s).0
        (split_once_sound b'/' lr.1 t).0 l (parse_protocol_sound pp.0 q) q' (ground (arith, h₈)) is
        j (ground (arith, b))

-- Not one of the bytes that would begin a query, a fragment, an escape or a Windows separator.
abbrev pub IsUnreserved : ℕ → Type 0
IsUnreserved c = (c ≢ b'?') × (c ≢ b'#') × (c ≢ b'%') × (c ≢ b'\\')

IsUnreserved-sound :
    (s : Bytes) → any (elem (b'?' ∷ b'#' ∷ b'%' ∷ b'\\' ∷ [])) s ≡ false → All IsUnreserved s
IsUnreserved-sound =
    any_sound IsUnreserved (elem (b'?' ∷ b'#' ∷ b'%' ∷ b'\\' ∷ [])) (λ c h. ground arith)

-- An accepted target is asked for with GET or HEAD and spells its route: the prefix, the encoding
-- of the repository, the protocol and the path, byte for byte. The protocol is enabled, the
-- repository and the path are admitted ones, and the target has no control byte and none of the
-- bytes `?`, `#`, `%` and `\`.
pub parse_raw_target_sound :
    (engine : Base64) (method target : Bytes) (enabled : EnabledProtocols) {route : ValidatedRoute}
    → parse_raw_target engine method target enabled ≡ ok route
    → ((method ≡ bytes "GET") ⊎ (method ≡ bytes "HEAD"))
      × (target ≡ target_of engine route)
      × (contains enabled route.protocol ≡ true)
      × IsRepository route.repository.name
      × IsProtocolPath route.protocol_path.path
      × (any is_ascii_control target ≡ false)
      × All IsUnreserved target
unfolding parse_raw_target
parse_raw_target_sound engine method target enabled h =
    let (a, h₁) = fail_if-eq-ok _ _ _ h in
    let (b, h₂) = fail_if-eq-ok _ _ _ h₁ in
    let (t, c, r, p) = parse_route_sound engine target enabled h₂ in
    (
      ground (arith, a, text_eq_iff method (bytes "GET"), text_eq_iff method (bytes "HEAD")),
      t,
      c,
      r,
      p,
      ground (arith, b),
      IsUnreserved-sound target (ground (arith, b)),
    )

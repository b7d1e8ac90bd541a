-- ===== src/Routing/Canonical.antt =====
-- The spelling of an admissible route is accepted, and parses to that route.
use github_oras_packages.Base.{
  ℕ, ◌≡◌, refl, ◌<◌, Bool, true, false, not, ◌&&◌, [], ◌∷◌, ◌++◌, Bytes, bytes, ok, arith, ltb,
  length, All, any, all, all-append, all_complete, elem, is_ascii, is_ascii_control, is_empty,
  Lacks, text_eq, text_eq_refl, starts_with, ◌>>=◌, strip_prefix-append, split_once-append,
  is_utf8_of_is_ascii,
}
use github_oras_packages.Protocols.{
  Protocol, pypi, rpm, apt, pacman, as_str, contains, EnabledProtocols,
}
use github_oras_packages.Protocols.Laws.{parse_protocol-as_str}
use github_oras_packages.Repository.Admission.{
  IsRepository, parse_repository_complete, is_ascii_of_IsRepository, nonempty_of_IsRepository,
}
use github_oras_packages.Routing.Engine.{Base64, IsUrlSafe}
use github_oras_packages.Routing.{
  ValidatedRoute, route_prefix, is_base64url_character, decode_repository_locator, parse_route,
  parse_raw_target,
}
use github_oras_packages.Routing.Paths.{IsProtocolPath, parse_protocol_path_complete}
use github_oras_packages.Routing.Soundness.{target_of, IsUnreserved}

abbrev pub IsLocatorCharacter : ℕ → Type 0
IsLocatorCharacter c = is_base64url_character c ≡ true

-- A byte that every target may hold.
abbrev is_good : ℕ → Bool
is_good c = ltb c 128 && not (is_ascii_control c) && not (elem (b'?' ∷ b'#' ∷ b'%' ∷ b'\\' ∷ []) c)

not-bad_target_go :
    (s : Bytes)
    → all is_good s ≡ true
    → (is_ascii s ≡ true)
      × (any is_ascii_control s ≡ false)
      × (any (elem (b'?' ∷ b'#' ∷ b'%' ∷ b'\\' ∷ [])) s ≡ false)
not-bad_target_go [] h = (refl, refl, refl)
not-bad_target_go (c ∷ s) h =
    let (a, b, e) = not-bad_target_go s (ground arith) in (ground arith, ground arith, ground arith)

all-is_good-path :
    (s : Bytes)
    → is_ascii s ≡ true
    → any is_ascii_control s ≡ false
    → All IsUnreserved s
    → all is_good s ≡ true
all-is_good-path [] a b c = refl
all-is_good-path (x ∷ s) a b c =
    ground (arith, all-is_good-path s (ground arith) (ground arith) c.1)

is_good_of_character : (c : ℕ) → IsLocatorCharacter c → is_good c ≡ true
unfolding is_base64url_character
is_good_of_character c h = ground arith

all-is_good-as_str : (p : Protocol) → all is_good (as_str p) ≡ true
unfolding as_str
all-is_good-as_str pypi = refl
all-is_good-as_str rpm = refl
all-is_good-as_str apt = refl
all-is_good-as_str pacman = refl

Lacks-as_str : (p : Protocol) → Lacks b'/' (as_str p)
unfolding as_str
Lacks-as_str pypi = refl
Lacks-as_str rpm = refl
Lacks-as_str apt = refl
Lacks-as_str pacman = refl

Lacks-of_characters : (s : Bytes) → All IsLocatorCharacter s → Lacks b'/' s
unfolding is_base64url_character
Lacks-of_characters [] h = refl
Lacks-of_characters (c ∷ s) h = ground (arith, h.0, Lacks-of_characters s h.1)

bytes_of_is_ascii : (s : Bytes) → is_ascii s ≡ true → All (λ c. c < 256) s
bytes_of_is_ascii [] h = tt
bytes_of_is_ascii (c ∷ s) h = (ground arith, bytes_of_is_ascii s (ground arith))

positive_of_nonempty : (s : Bytes) → is_empty s ≡ false → 0 < length s
positive_of_nonempty [] h = cc
positive_of_nonempty (c ∷ s) h = omega arith

nonempty_of_positive : (s : Bytes) → 0 < length s → is_empty s ≡ false
nonempty_of_positive [] h = absurd (omega arith)
nonempty_of_positive (c ∷ s) h = refl

module _ (engine : Base64) (laws : IsUrlSafe IsLocatorCharacter engine) where
  decode_repository_locator-encode :
      (r : Bytes)
      → IsRepository r
      → decode_repository_locator engine (engine.encode r) ≡ ok (record { name = r })
  unfolding decode_repository_locator ◌>>=◌
  decode_repository_locator-encode r h =
      let ascii : is_ascii r ≡ true = is_ascii_of_IsRepository h in
      let small = bytes_of_is_ascii r ascii in
      ground (
        arith,
        h.bounded,
        laws.shortest r,
        laws.longest r,
        positive_of_nonempty r (nonempty_of_IsRepository r h),
        nonempty_of_positive (engine.encode r),
        laws.decode-encode r small,
        all_complete IsLocatorCharacter is_base64url_character (λ c k. k) (engine.encode r)
            (laws.characters r small),
        is_utf8_of_is_ascii r ascii,
        text_eq_refl (engine.encode r),
        parse_repository_complete r h,
      )

  parse_route-target_of :
      (route : ValidatedRoute) (enabled : EnabledProtocols)
      → contains enabled route.protocol ≡ true
      → IsRepository route.repository.name
      → IsProtocolPath route.protocol_path.path
      → parse_route engine (target_of engine route) enabled ≡ ok route
  unfolding parse_route ◌>>=◌
  parse_route-target_of route enabled e r p =
      let name = route.repository.name in
      let path = route.protocol_path.path in
      let rest = as_str route.protocol ++ b'/' ∷ path in
      let small = bytes_of_is_ascii name (is_ascii_of_IsRepository r) in
      ground (
        arith,
        e,
        strip_prefix-append route_prefix (engine.encode name ++ b'/' ∷ rest),
        split_once-append b'/' (engine.encode name) rest
            (Lacks-of_characters (engine.encode name) (laws.characters name small)),
        split_once-append b'/' (as_str route.protocol) path (Lacks-as_str route.protocol),
        decode_repository_locator-encode name r,
        laws.longest name,
        positive_of_nonempty name (nonempty_of_IsRepository name r),
        nonempty_of_positive (engine.encode name),
        parse_protocol-as_str route.protocol,
        parse_protocol_path_complete path p,
      )

  all-is_good-target_of :
      (route : ValidatedRoute)
      → IsRepository route.repository.name
      → all is_good route.protocol_path.path ≡ true
      → all is_good (target_of engine route) ≡ true
  all-is_good-target_of route r p =
      let name = route.repository.name in
      let path = route.protocol_path.path in
      let small = bytes_of_is_ascii name (is_ascii_of_IsRepository r) in
      let chars =
        all_complete IsLocatorCharacter is_good is_good_of_character (engine.encode name)
          (laws.characters name small) in
      ground (
        arith,
        chars,
        p,
        all-append is_good (engine.encode name) (b'/' ∷ (as_str route.protocol ++ b'/' ∷ path)),
        all-append is_good (as_str route.protocol) (b'/' ∷ path),
        all-is_good-as_str route.protocol,
      )

-- With an engine that is a URL-safe base64, the spelling of a route whose protocol is enabled, whose
-- repository and path are admitted ones and whose path has no control byte and none of `?`, `#`,
-- `%` and `\`, is parsed to that route, for GET and for HEAD.
pub parse_raw_target-target_of :
    (engine : Base64) (laws : IsUrlSafe IsLocatorCharacter engine) (route : ValidatedRoute)
    (enabled : EnabledProtocols)
    → contains enabled route.protocol ≡ true
    → IsRepository route.repository.name
    → IsProtocolPath route.protocol_path.path
    → any is_ascii_control route.protocol_path.path ≡ false
    → All IsUnreserved route.protocol_path.path
    → (parse_raw_target engine (bytes "GET") (target_of engine route) enabled ≡ ok route)
      × (parse_raw_target engine (bytes "HEAD") (target_of engine route) enabled ≡ ok route)
unfolding parse_raw_target ◌>>=◌ text_eq starts_with
parse_raw_target-target_of engine laws route enabled e r p k u =
    let path = all-is_good-path route.protocol_path.path p.ascii k u in
    let good =
      not-bad_target_go (target_of engine route) (all-is_good-target_of engine laws route r path) in
    let parsed = parse_route-target_of engine laws route enabled e r p in
    (ground (arith, good, parsed), ground (arith, good, parsed))

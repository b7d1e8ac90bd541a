-- ===== src/Tests/RoutingTests.antt =====
-- Tests of the routing modules.
use github_oras_packages.Base.{
  ◌≡◌, ◌⊎◌, ◌<◌, ◌↔◌, refl, true, false, [], Bytes, bytes, ok, err, arith, All, any,
  is_ascii_control, ◌>>=◌, starts_with, strip_prefix, split_once, split, text_eq, is_utf8,
}
use github_oras_packages.Protocols.{
  rpm, apt, EnabledProtocols, all_protocols, no_protocols, with_protocol, contains, parse_protocol,
}
use github_oras_packages.Protocols.Laws.{with_protocol_enables}
use github_oras_packages.Repository.{is_repository_segment, parse_repository}
use github_oras_packages.Repository.Grammar.{IsSegment, is_repository_segment_iff}
use github_oras_packages.Repository.Admission.{
  IsRepository, parse_repository_sound, parse_repository_iff,
}
use github_oras_packages.Routing.{
  ValidatedRoute, is_base64url_character, parse_protocol_path, parse_raw_target,
}
use github_oras_packages.Routing.Errors.{
  unsupported_method, invalid_route, invalid_repository_locator, disabled_protocol,
  invalid_protocol_path,
}
use github_oras_packages.Routing.Paths.{IsProtocolPath, parse_protocol_path_sound}
use github_oras_packages.Routing.Soundness.{target_of, IsUnreserved, parse_raw_target_sound}
use github_oras_packages.Routing.Canonical.{parse_raw_target-target_of}
use github_oras_packages.Tests.Codec.{codec, codec-IsUrlSafe}

abbrev pub foo_route : ValidatedRoute
foo_route = record {
  repository = record { name = bytes "acme/rpms" };
  protocol = rpm;
  protocol_path = record { path = bytes "repodata/repomd.xml" };
}

abbrev pub foo_target : Bytes
foo_target = bytes "/r/v1/YWNtZS9ycG1z/rpm/repodata/repomd.xml"

routing : Unit {0}
unfolding parse_raw_target parse_protocol_path parse_repository contains all_protocols no_protocols
    with_protocol codec ◌>>=◌ is_repository_segment starts_with strip_prefix split_once
    is_base64url_character is_utf8 parse_protocol text_eq split
routing = tt

accepted : parse_raw_target codec (bytes "GET") foo_target all_protocols ≡ ok foo_route
unfolding routing
accepted = refl

target_errors :
    (parse_raw_target codec (bytes "get") foo_target all_protocols ≡ err unsupported_method)
    × (parse_raw_target codec (bytes "GET") (bytes "/r/v1/Zm9v/pypi/a?b") all_protocols
        ≡ err invalid_route)
    × (parse_raw_target codec (bytes "GET") (bytes "/r/v1//pypi/a") all_protocols
        ≡ err invalid_repository_locator)
    × (parse_raw_target codec (bytes "GET") (bytes "/r/v1/Zh/pypi/a") all_protocols
        ≡ err invalid_repository_locator)
    × (parse_raw_target codec (bytes "GET") foo_target no_protocols ≡ err disabled_protocol)
    × (parse_raw_target codec (bytes "GET") (bytes "/r/v1/Zm9v/pypi/a/../b") all_protocols
        ≡ err invalid_protocol_path)
unfolding routing
target_errors = (refl, refl, refl, refl, refl, refl)

segment_tests :
    (is_repository_segment (bytes "a.b-c_d9") ≡ true)
    × (is_repository_segment (bytes "a..b") ≡ false)
    × (is_repository_segment (bytes "a-") ≡ false)
    × (is_repository_segment (bytes "A") ≡ false)
    × (is_repository_segment [] ≡ false)
unfolding routing
segment_tests = (refl, refl, refl, refl, refl)

foo-IsRepository : IsRepository (bytes "acme/rpms")
unfolding routing
foo-IsRepository =
    (parse_repository_sound (bytes "acme/rpms") {v = record { name = bytes "acme/rpms" }} refl).1

foo_path-IsProtocolPath : IsProtocolPath (bytes "repodata/repomd.xml")
unfolding routing
foo_path-IsProtocolPath =
    (parse_protocol_path_sound (bytes "repodata/repomd.xml")
      {c = record { path = bytes "repodata/repomd.xml" }} refl).1

foo_enabled : contains all_protocols rpm ≡ true
unfolding routing
foo_enabled = refl

foo-IsUnreserved : All IsUnreserved (bytes "repodata/repomd.xml")
foo-IsUnreserved = omega arith

is_repository_segment_iff_example :
    (is_repository_segment (bytes "a-b") ≡ true) ↔ IsSegment (bytes "a-b")
is_repository_segment_iff_example = is_repository_segment_iff (bytes "a-b")

parse_repository_iff_example :
    (parse_repository (bytes "acme/rpms") ≡ ok (record { name = bytes "acme/rpms" }))
    ↔ (◌≡◌ {A = Bytes} (bytes "acme/rpms") (bytes "acme/rpms") × IsRepository (bytes "acme/rpms"))
parse_repository_iff_example =
    parse_repository_iff (bytes "acme/rpms") (record { name = bytes "acme/rpms" })

abbrev rpm_only : EnabledProtocols
rpm_only = record { bits = 2 }

with_protocol_enables_example :
    (contains (with_protocol rpm_only apt) rpm ≡ contains rpm_only rpm)
    × ((with_protocol rpm_only apt).bits < 256)
    × (contains all_protocols rpm ≡ true)
    × (contains no_protocols rpm ≡ false)
with_protocol_enables_example = with_protocol_enables rpm_only apt rpm (omega arith)

parse_raw_target_sound_example :
    (◌≡◌ {A = Bytes} (bytes "GET") (bytes "GET") ⊎ ◌≡◌ {A = Bytes} (bytes "GET") (bytes "HEAD"))
    × (foo_target ≡ target_of codec foo_route)
    × (contains all_protocols rpm ≡ true)
    × IsRepository (bytes "acme/rpms")
    × IsProtocolPath (bytes "repodata/repomd.xml")
    × (any is_ascii_control foo_target ≡ false)
    × All IsUnreserved foo_target
parse_raw_target_sound_example =
    parse_raw_target_sound codec (bytes "GET") foo_target all_protocols {route = foo_route} accepted

parse_raw_target-target_of_example :
    (parse_raw_target codec (bytes "GET") (target_of codec foo_route) all_protocols ≡ ok foo_route)
    × (parse_raw_target codec (bytes "HEAD") (target_of codec foo_route) all_protocols
        ≡ ok foo_route)
parse_raw_target-target_of_example =
    parse_raw_target-target_of codec codec-IsUrlSafe foo_route all_protocols foo_enabled
      foo-IsRepository foo_path-IsProtocolPath refl foo-IsUnreserved

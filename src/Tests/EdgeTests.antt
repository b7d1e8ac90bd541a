-- ===== src/Tests/EdgeTests.antt =====
-- Tests of the Distribution paths, the token cache and the command line.
use github_oras_packages.Base.{
  ◌≡◌, ◌↔◌, refl, true, false, none, some, List, [], ◌∷◌, Bytes, bytes, ok, err, ◌>>=◌, text_eq,
  text_lt, split, starts_with, strip_prefix, split_once, map_get, map_insert, map_remove, retain,
  pop_first, if◌then◌else◌,
}
use github_oras_packages.Gateway.{
  manifest, version, blob_upload_start, blob_upload, invalid, repository_mismatch, valid_reference,
  valid_upload_id, valid_digest, parse_content, parse_session, parse_operation, parse_scoped,
  parse_path,
}
use github_oras_packages.Gateway.Targets.{IsSpelled, parse_path_iff}
use github_oras_packages.Tokens.{
  TokenCache, empty_cache, token_lifetime, make_room, store_token, insert_token, discard_expired,
  get_token, remove_token,
}
use github_oras_packages.Tokens.Lifetime.{Reaches, start, insertion, IsBounded, Reaches-IsBounded}
use github_oras_packages.Tokens.Isolation.{get_token-remove}
use github_oras_packages.Cli.{
  autoindex, create, delete, serve, help, invalid_arguments, dry_run_options, delete_options,
  parse_update, parse_delete, parse_autoindex, parse_command, parse,
}
use github_oras_packages.Cli.Laws.{IsInvocation, parse_iff}

edge : Unit {0}
unfolding valid_reference valid_upload_id valid_digest parse_content parse_session parse_operation
    parse_scoped parse_path token_lifetime make_room store_token insert_token discard_expired
    get_token remove_token dry_run_options delete_options parse_update parse_delete
    github_oras_packages.Cli.parse_operation parse_autoindex parse_command parse ◌>>=◌ text_eq
    text_lt split starts_with strip_prefix split_once map_get map_insert map_remove retain pop_first
edge = tt

abbrev acme : Bytes
acme = bytes "acme/rpms"

path_tests :
    (parse_path (bytes "/v2/") acme ≡ ok version)
    × (parse_path (bytes "/v2/acme/rpms/manifests/autoindex.v1") acme
        ≡ ok (manifest acme (bytes "autoindex.v1")))
    × (parse_path (bytes "/v2/acme/rpms/blobs/uploads") acme ≡ ok (blob_upload_start acme))
    × (parse_path (bytes "/v2/acme/rpms/blobs/uploads/session-1") acme
        ≡ ok (blob_upload acme (bytes "session-1")))
    × (parse_path (bytes "/v2/acme/rpms/blobs/uploads/..") acme ≡ err invalid)
    × (parse_path (bytes "/v2/acme/debs/manifests/x") acme ≡ err repository_mismatch)
    × (parse_path (bytes "/v2/acme/rpms") acme ≡ err invalid)
    × (parse_path (bytes "/v2/acme/rpms/tags/list") acme ≡ err invalid)
    × (parse_path (bytes "/v2/acme/rpms/blobs/sha256:00") acme ≡ err invalid)
unfolding edge
path_tests = (refl, refl, refl, refl, refl, refl, refl, refl, refl)

parse_path_iff_example :
    (parse_path (bytes "/v2/acme/rpms/manifests/autoindex.v1") acme
      ≡ ok (manifest acme (bytes "autoindex.v1")))
    ↔ IsSpelled
        (bytes "/v2/acme/rpms/manifests/autoindex.v1")
        acme
        (manifest acme (bytes "autoindex.v1"))
parse_path_iff_example =
    parse_path_iff (bytes "/v2/acme/rpms/manifests/autoindex.v1") acme
      (manifest acme (bytes "autoindex.v1"))

abbrev filled : TokenCache
filled = insert_token 0 acme (bytes "Bearer t") (some 90) empty_cache

token_tests :
    (token_lifetime (some 30) ≡ some 0)
    × (token_lifetime (some 29) ≡ none)
    × (token_lifetime none ≡ some 30000000000)
    × (token_lifetime (some 86400) ≡ some 870000000000)
    × ((get_token 59999999999 acme filled).0 ≡ some (bytes "Bearer t"))
    × ((get_token 60000000000 acme filled).0 ≡ none)
unfolding edge
token_tests = (refl, refl, refl, refl, refl, refl)

filled_reached : Reaches 0 filled
filled_reached =
    insertion 0 acme (bytes "Bearer t") (some 90) empty_cache filled refl (start 0 empty_cache refl)

Reaches-IsBounded_example : IsBounded 0 filled
Reaches-IsBounded_example = Reaches-IsBounded 0 filled filled_reached

filled-IsBounded : IsBounded 0 filled
filled-IsBounded = Reaches-IsBounded 0 filled filled_reached

get_token-remove_example :
    (get_token 0 acme (remove_token acme filled)).0
    ≡ (if text_eq acme acme then none else (get_token 0 acme filled).0)
get_token-remove_example = get_token-remove 0 acme acme filled filled-IsBounded

abbrev deletion_line : List Bytes
deletion_line = bytes "autoindex" ∷ bytes "delete" ∷ bytes "pkg/a.txt" ∷ bytes "--yes" ∷ []

cli_tests :
    (parse (bytes "proxy" ∷ []) ≡ ok serve)
    × (parse (bytes "proxy" ∷ bytes "--help" ∷ []) ≡ ok help)
    × (parse (bytes "proxy" ∷ bytes "serve" ∷ bytes "x" ∷ []) ≡ err invalid_arguments)
    × (parse (bytes "proxy" ∷ deletion_line)
        ≡ ok (autoindex (delete (bytes "pkg/a.txt") true false)))
    × (parse (
          bytes "proxy"
          ∷ bytes "autoindex"
          ∷ bytes "create"
          ∷ bytes "a"
          ∷ bytes "b"
          ∷ bytes "--dry-run"
          ∷ [])
        ≡ ok (autoindex (create (bytes "a") (bytes "b") true)))
    × (parse (bytes "proxy" ∷ bytes "autoindex" ∷ bytes "delete" ∷ bytes "a" ∷ [])
        ≡ err invalid_arguments)
unfolding edge
cli_tests = (refl, refl, refl, refl, refl, refl)

parse_iff_example :
    (parse (bytes "proxy" ∷ deletion_line) ≡ ok (autoindex (delete (bytes "pkg/a.txt") true false)))
    ↔ IsInvocation deletion_line (autoindex (delete (bytes "pkg/a.txt") true false))
parse_iff_example =
    parse_iff (bytes "proxy") deletion_line (autoindex (delete (bytes "pkg/a.txt") true false))

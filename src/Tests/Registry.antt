-- ===== src/Tests/Registry.antt =====
-- Third-party functions and a registry, for the tests.
use github_oras_packages.Base.{
  ℕ, ◌≡◌, refl, inl, inr, Bool, Bool-cases, true, false, Result, none, some, List, [], ◌∷◌, Bytes,
  bytes, ok, all, length, text_eq, if◌then◌else◌,
}
use github_oras_packages.Http.{header_map}
use github_oras_packages.Libraries.{Libraries, Uri, IsSha256, is_hex_digit}
use github_oras_packages.Oci.Client.{OciClient, OciRequest, World, ClientState}
use github_oras_packages.Oci.Errors.{OciError}
use github_oras_packages.Oci.Fetch.{Documents}
use github_oras_packages.Oci.Forward.{Incoming}
use github_oras_packages.Oci.Responses.{UpstreamResponse}
use github_oras_packages.Oci.Streams.{chunk}
use github_oras_packages.Tokens.{empty_cache}

abbrev pub zeros : Bytes
zeros = bytes "0000000000000000000000000000000000000000000000000000000000000000"

abbrev pub digest_of_empty : Bytes
digest_of_empty = bytes "44136fa355b3678a1146ad16f7e8649e94fb4fc21fe77e8310c060f61caaff8a"

abbrev pub relative_uri : Bytes → Uri
relative_uri text = record {
  scheme_str = none;
  authority = none;
  path_and_query = some (record { text = text; path = text; query = none });
}

abbrev pub lib : Libraries
lib = record {
  to_str = some;
  from_str = some;
  parse_uri = λ text. some (relative_uri text);
  base64_encode = λ content. content;
  sha256_hex = λ content. if text_eq content (bytes "{}") then digest_of_empty else zeros;
}

-- The choice between the two digests.
digests :
    (b : Bool)
    → (length (if b then digest_of_empty else zeros) ≡ 64)
      × (all is_hex_digit (if b then digest_of_empty else zeros) ≡ true)
digests b = elim (Bool-cases b) [ inl e ↦ rw e (refl, refl) | inr e ↦ rw e (refl, refl) ]

pub lib-IsSha256 : IsSha256 lib
unfolding text_eq
lib-IsSha256 = record {
  long = λ content. (digests (text_eq content (bytes "{}"))).0;
  spelled = λ content. (digests (text_eq content (bytes "{}"))).1;
  of_empty_config = refl;
}

abbrev pub docs : Documents
docs = record {
  read_manifest = λ text. none;
  read_config = λ text. none;
  read_route_map = λ text. none;
}

abbrev pub respond : ℕ → List (Bytes × Bytes) → Bytes → UpstreamResponse
respond status fields content = record {
  status = status;
  headers = header_map fields;
  body = chunk content ∷ [];
  stalled = false;
}

abbrev pub granting : UpstreamResponse
granting = respond 200 [] (bytes "token")

abbrev pub granted_manifest : UpstreamResponse
granted_manifest = respond 200 [] (bytes "manifest")

abbrev pub challenging_response : UpstreamResponse
challenging_response =
    respond 401
      ((
        bytes "www-authenticate",
        bytes "Bearer realm=\"https://ghcr.io/token\",service=\"ghcr.io\"",
      )
        ∷ [])
      []

-- The registry refuses the first request, the second one obtains a token, the third is served.
abbrev pub world : World
world = record {
  answer = answers;
  clock = λ sent. length sent;
  parse_token =
      λ text. some (record { token = some text; access_token = none; expires_in = some 300 });
}
  where
    answers : List OciRequest → OciRequest → Result OciError UpstreamResponse
    answers [] request = ok challenging_response
    answers (one ∷ []) request = ok granting
    answers (one ∷ two ∷ sent) request = ok granted_manifest

abbrev pub client : OciClient
client = record {
  origin = bytes "https://ghcr.io";
  token_credentials = some (record { username = bytes "octocat"; password = bytes "secret" });
}

abbrev pub fresh : ClientState
fresh = record { cache = empty_cache; sent = [] }

-- A request without credentials and without a body.
abbrev pub incoming : Bytes → Bytes → Incoming
incoming method path = record {
  head = record {
    has_scheme = false;
    has_authority = false;
    path_and_query = some path;
    method = method;
    headers = header_map ((bytes "host", bytes "localhost") ∷ []);
    ended = true;
  };
  path = path;
  query = none;
  body = [];
}

-- ===== src/Oci/Client.antt =====
-- The requests of `OciClient` to its origin, of crates/github-oras-packages-proxy/src/oci.rs. A
-- request may be answered differently each time, so that an answer depends on the requests before it;
-- these stand in the state of the client, next to its token cache.
use github_oras_packages.Base.{
  ℕ, ◌*◌, Bool, not, ◌||◌, Option, none, some, List, [], ◌∷◌, ◌++◌, map, Bytes, bytes, Result, ok,
  err, ok_or, ◌==◌, if◌then◌else◌,
}
use github_oras_packages.Autoindex.{is_some}
use github_oras_packages.Challenges.{BearerChallenge, bearer_challenge}
use github_oras_packages.Libraries.{Libraries}
use github_oras_packages.Tokens.{
  TokenCredentials, TokenCache, get_token, insert_token, remove_token, bearer_authorization,
}
use github_oras_packages.Oci.Errors.{OciError, configuration}
use github_oras_packages.Oci.Responses.{
  UpstreamResponse, challenges_of, failure_of, classify_response, collect_limited,
}
use github_oras_packages.Oci.Streams.{Item}

pub record OciClient : Type 0 where
  pub origin : Bytes
  pub token_credentials : Option TokenCredentials

-- `Request<BlobBody>`
pub record OciRequest : Type 0 where
  pub method : Bytes
  pub uri : Bytes
  pub headers : List (Bytes × Bytes)
  pub body : List Item

-- `TokenResponse`
pub record TokenResponse : Type 0 where
  pub token : Option Bytes
  pub access_token : Option Bytes
  pub expires_in : Option ℕ

-- The world outside: `answer` is `client.request` with the timeout, by the requests before it; `clock`
-- is `Instant::now`; `parse_token` is `serde_json::from_slice`.
pub record World : Type 0 where
  pub answer : List OciRequest → OciRequest → Result OciError UpstreamResponse
  pub clock : List OciRequest → ℕ
  pub parse_token : Bytes → Option TokenResponse

pub record ClientState : Type 0 where
  pub cache : TokenCache
  pub sent : List OciRequest

abbrev pub Action : Type 0 → Type 0
Action A = ClientState → Result OciError A × ClientState

abbrev pub lift : {A : Type 0} → Result OciError A → Action A
lift r s = (r, s)

abbrev pub continue :
    {A B : Type 0}
    → Result OciError A
    → ClientState
    → (A → Action B)
    → Result OciError B × ClientState
continue (ok a) s f = f a s
continue (err e) s f = (err e, s)

infixl 5 ◌>>=◌ ◌>>◌
unfoldable pub ◌>>=◌ : {A B : Type 0} → Action A → (A → Action B) → Action B
(m >>= f) s = continue (m s).0 (m s).1 f

abbrev pub ◌>>◌ : {B : Type 0} → Action (Unit {0}) → Action B → Action B
m >> k = m >>= λ _. k

abbrev authorization_header : Option Bytes → List (Bytes × Bytes)
authorization_header none = []
authorization_header (some value) = (bytes "authorization", value) ∷ []

-- A request without a body.
abbrev pub plain_request : Bytes → Bytes → Bytes → Option Bytes → OciRequest
plain_request method uri accept authorization = record {
  method = method;
  uri = uri;
  headers = (bytes "accept", accept) ∷ authorization_header authorization;
  body = [];
}

unfoldable pub basic_authorization : Libraries → TokenCredentials → Option Bytes
basic_authorization lib credentials = lib.from_str (
    bytes "Basic " ++ lib.base64_encode (credentials.username ++ bytes ":" ++ credentials.password))

module _ (lib : Libraries) (world : World) (client : OciClient) where
  -- A request is sent if it can be built.
  unfoldable pub perform : OciRequest → Action UpstreamResponse
  perform request s = (world.answer s.sent request, record s { sent = s.sent ++ request ∷ [] })

  unfoldable pub send_request : Bytes → Bytes → Bytes → Option Bytes → Action UpstreamResponse
  send_request method uri accept authorization = do
    value ← lift (ok_or configuration (lib.from_str accept))
    perform (plain_request method uri value authorization)

  unfoldable pub cached_token : Bytes → Action (Option Bytes)
  cached_token repository s =
      let found = get_token (world.clock s.sent) repository s.cache in
      (ok found.0, record s { cache = found.1 })

  unfoldable pub forget_token : Bytes → Bool → Action (Unit {0})
  forget_token repository was_cached s =
      (ok tt, if was_cached then record s { cache = remove_token repository s.cache } else s)

  unfoldable pub keep_token : Bytes → Bytes → Option ℕ → Action (Unit {0})
  keep_token repository token expires_in s = (
    ok tt,
    record s { cache = insert_token (world.clock s.sent) repository token expires_in s.cache },
  )

  abbrev pub token_uri : BearerChallenge → Bytes → Bytes
  token_uri challenge repository =
      challenge.realm
      ++ (bytes "?service="
          ++ (challenge.service ++ (bytes "&scope=repository:" ++ (repository ++ bytes ":pull"))))

  abbrev prefer : Option Bytes → Option Bytes → Option Bytes
  prefer none b = b
  prefer (some a) b = some a

  abbrev with_expiry : Option ℕ → Option Bytes → Option (Bytes × Option ℕ)
  with_expiry expires_in none = none
  with_expiry expires_in (some authorization) = some (authorization, expires_in)

  abbrev authorization_from : Option ℕ → Option Bytes → Option (Bytes × Option ℕ)
  authorization_from expires_in none = none
  authorization_from expires_in (some value) =
      with_expiry expires_in (bearer_authorization lib.from_str value)

  abbrev token_from : Option TokenResponse → Option (Bytes × Option ℕ)
  token_from none = none
  token_from (some response) =
      authorization_from response.expires_in (prefer response.token response.access_token)

  abbrev parsed_token : Option Bytes → Option (Bytes × Option ℕ)
  parsed_token none = none
  parsed_token (some text) = token_from (world.parse_token text)

  -- The end of `exchange_token`, from the response on.
  unfoldable pub read_token : UpstreamResponse → Option (Bytes × Option ℕ)
  read_token response =
      if not (response.status == 200) || response.stalled
      then none
      else parsed_token (collect_limited (64 * 1024) [] response.body)

  abbrev pub token_of : Result OciError UpstreamResponse → Option (Bytes × Option ℕ)
  token_of (err e) = none
  token_of (ok response) = read_token response

  -- `exchange_token` from the credentials on; no error leaves it.
  unfoldable pub exchange_with :
      Option Bytes → BearerChallenge → Bytes → Action (Option (Bytes × Option ℕ))
  exchange_with none challenge repository s = (ok none, s)
  exchange_with (some authorization) challenge repository s =
      let uri = token_uri challenge repository in
      let sent = send_request (bytes "GET") uri (bytes "application/json") (some authorization) s in
      if is_some (lib.parse_uri uri) then (ok (token_of sent.0), sent.1) else (ok none, s)

  abbrev pub basic_of : Option TokenCredentials → Option Bytes
  basic_of none = none
  basic_of (some credentials) = basic_authorization lib credentials

  unfoldable pub exchange_token : BearerChallenge → Bytes → Action (Option (Bytes × Option ℕ))
  exchange_token challenge repository =
      exchange_with (basic_of client.token_credentials) challenge repository

  abbrev pub classified : UpstreamResponse → Action UpstreamResponse
  classified response = lift (classify_response response) >> lift (ok response)

  -- The second attempt, if a token was obtained.
  unfoldable pub retry_with :
      Bytes → Bytes → Bytes → Bytes → OciError → Option (Bytes × Option ℕ) → Action UpstreamResponse
  retry_with method repository uri accept original none = lift (err original)
  retry_with method repository uri accept original (some (token, expires_in)) = do
    retry ← send_request method uri accept (some token)
    if retry.status == 401 then lift (err (failure_of retry.status retry.headers)) else (do
      lift (classify_response retry)
      keep_token repository token expires_in
      lift (ok retry))

  -- What follows a 401 to the first attempt.
  unfoldable pub recover :
      Bytes → Bytes → Bytes → Bytes → Bool → UpstreamResponse → Action UpstreamResponse
  recover method repository uri accept was_cached response = do
    let original = failure_of response.status response.headers
    forget_token repository was_cached
    challenge ← lift (
        ok_or original
          (bearer_challenge (map lib.to_str (challenges_of response.headers)) client.origin))
    exchanged ← exchange_token challenge repository
    retry_with method repository uri accept original exchanged

  unfoldable pub brokered : Bytes → Bytes → Bytes → Bytes → Action UpstreamResponse
  brokered method repository uri accept = do
    cached ← cached_token repository
    response ← send_request method uri accept cached
    if response.status == 401
        then recover method repository uri accept (is_some cached) response
        else classified response

  unfoldable pub direct : Bytes → Bytes → Bytes → Option Bytes → Action UpstreamResponse
  direct method uri accept authorization = do
    response ← send_request method uri accept authorization
    classified response

  abbrev pub registry_uri : Bytes → Bytes → Bytes
  registry_uri repository suffix = client.origin ++ (bytes "/v2/" ++ (repository ++ suffix))

  unfoldable pub request_response_method :
      Bytes → Bytes → Bytes → Bytes → Option Bytes → Action UpstreamResponse
  request_response_method method repository suffix accept authorization = do
    let uri = registry_uri repository suffix
    parsed ← lift (ok_or configuration (lib.parse_uri uri))
    if is_some authorization || not (is_some client.token_credentials)
        then direct method uri accept authorization
        else brokered method repository uri accept

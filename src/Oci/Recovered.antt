-- ===== src/Oci/Recovered.antt =====
-- A request that is refused with a challenge is repeated with a token.
use github_oras_packages.Base.{
  ℕ, ◌≡◌, Option, some, List, [], ◌∷◌, ◌++◌, map, Bytes, bytes, ok, if◌then◌else◌,
}
use github_oras_packages.Autoindex.{is_some}
use github_oras_packages.Challenges.{BearerChallenge, bearer_challenge}
use github_oras_packages.Libraries.{Libraries, Uri}
use github_oras_packages.Oci.Responses.{UpstreamResponse, challenges_of}
use github_oras_packages.Oci.Client.{
  OciClient, OciRequest, World, ClientState, plain_request, token_uri, basic_of, read_token,
  registry_uri,
}
use github_oras_packages.Tokens.{
  TokenCredentials, TokenCache, get_token, insert_token, remove_token,
}

module _ (lib : Libraries) (world : World) (client : OciClient) where
  -- An exchange in which the registry refuses the first attempt, the token service grants a token, and
  -- the registry then answers with 200.
  pub record IsRecovery (method repository suffix accept : Bytes) (s : ClientState) (token : Bytes)
      (expires_in : Option ℕ) (retry : UpstreamResponse) : Type 0 where
    pub credentials : TokenCredentials
    pub configured : client.token_credentials ≡ some credentials
    pub basic : Bytes
    pub encoded : basic_of lib world client client.token_credentials ≡ some basic
    pub parsed : Uri
    pub own_uri : lib.parse_uri (registry_uri lib world client repository suffix) ≡ some parsed
    pub accepted : Bytes
    pub accept_value : lib.from_str accept ≡ some accepted
    pub json : Bytes
    pub json_value : lib.from_str (bytes "application/json") ≡ some json
    pub first_answer : UpstreamResponse
    pub refused :
        world.answer s.sent (
          plain_request method
            (registry_uri lib world client repository suffix)
            accepted
            (get_token (world.clock s.sent) repository s.cache).0)
        ≡ ok first_answer
    pub is_401 : first_answer.status ≡ 401
    pub challenge : BearerChallenge
    pub challenged :
        bearer_challenge (map lib.to_str (challenges_of first_answer.headers)) client.origin
        ≡ some challenge
    pub realm : Uri
    pub realm_uri : lib.parse_uri (token_uri lib world client challenge repository) ≡ some realm
    pub token_answer : UpstreamResponse
    pub granted :
        world.answer
          (s.sent
            ++ plain_request method
                (registry_uri lib world client repository suffix)
                accepted
                (get_token (world.clock s.sent) repository s.cache).0
              ∷ [])
          (plain_request
            (bytes "GET")
            (token_uri lib world client challenge repository)
            json
            (some basic))
        ≡ ok token_answer
    pub token_read : read_token lib world client token_answer ≡ some (token, expires_in)
    pub served :
        world.answer
          (s.sent
            ++ plain_request method
                (registry_uri lib world client repository suffix)
                accepted
                (get_token (world.clock s.sent) repository s.cache).0
              ∷ []
            ++ plain_request
                (bytes "GET")
                (token_uri lib world client challenge repository)
                json
                (some basic)
              ∷ [])
          (plain_request method
            (registry_uri lib world client repository suffix)
            accepted
            (some token))
        ≡ ok retry
    pub is_200 : retry.status ≡ 200

  module _ (method repository suffix accept : Bytes) (s : ClientState) (token : Bytes)
      (expires_in : Option ℕ) (retry : UpstreamResponse)
      (r : IsRecovery method repository suffix accept s token expires_in retry) where
    abbrev uri : Bytes
    uri = registry_uri lib world client repository suffix

    abbrev cached : Option Bytes
    cached = (get_token (world.clock s.sent) repository s.cache).0

    abbrev first_request : OciRequest
    first_request = plain_request method uri r.accepted cached

    abbrev token_request : OciRequest
    token_request =
        plain_request (bytes "GET") (token_uri lib world client r.challenge repository) r.json
          (some r.basic)

    abbrev last_request : OciRequest
    last_request = plain_request method uri r.accepted (some token)

    abbrev refused_state : ClientState
    refused_state = record {
      cache = (get_token (world.clock s.sent) repository s.cache).1;
      sent = s.sent ++ first_request ∷ [];
    }

    abbrev last_sent : List OciRequest
    last_sent = s.sent ++ first_request ∷ [] ++ token_request ∷ []

    -- The cache without the token that was refused.
    abbrev pub cleared : TokenCache
    cleared =
        if is_some cached
        then remove_token repository (get_token (world.clock s.sent) repository s.cache).1
        else (get_token (world.clock s.sent) repository s.cache).1

    -- The three requests, and the new token in the place of the refused one.
    abbrev pub final_state : ClientState
    final_state = record {
      cache =
          insert_token (world.clock (last_sent ++ last_request ∷ [])) repository token expires_in
            cleared;
      sent = last_sent ++ last_request ∷ [];
    }

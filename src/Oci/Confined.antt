-- ===== src/Oci/Confined.antt =====
-- Where the requests of the client go.
use mathlib.Core.List.{append_assoc, append-nil}
use github_oras_packages.Base.{
  ℕ, ◌+◌, ◌≤◌, ◌≡◌, ◌⊎◌, inl, inr, refl, ap, sym, ◌∙◌, Bool, true, false, not, ◌||◌, Option, none,
  some, List, [], ◌∷◌, ◌++◌, map, Bytes, bytes, Result, ok, err, ok_or, ok_or-eq-ok, arith, All,
  All-append, length, length-append, ◌==◌, Bool-cases,
}
use github_oras_packages.Autoindex.{is_some}
use github_oras_packages.Challenges.{BearerChallenge, bearer_challenge}
use github_oras_packages.Challenges.Pinned.{IsPinned, bearer_challenge-IsPinned}
use github_oras_packages.Libraries.{Libraries}
use github_oras_packages.Oci.Errors.{OciError, configuration}
use github_oras_packages.Oci.Responses.{
  UpstreamResponse, challenges_of, failure_of, classify_response,
}
use github_oras_packages.Oci.Client.{
  OciClient, OciRequest, World, ClientState, Action, lift, continue, ◌>>=◌, plain_request, perform,
  send_request, cached_token, forget_token, keep_token, token_uri, exchange_with, exchange_token,
  classified, retry_with, recover, brokered, direct, registry_uri, request_response_method,
}

-- From one state to the other at most `k` requests are sent, and `P` holds of each.
pub record Sends {κ} (P : OciRequest → Type κ) (k : ℕ) (before after : ClientState) : Type κ where
  pub new : List OciRequest
  pub grows : after.sent ≡ before.sent ++ new
  pub few : length new ≤ k
  pub each : All P new

module _ {κ} (P : OciRequest → Type κ) where
  abbrev pub Within : {A : Type 0} → ℕ → Action A → Type κ
  Within k m = (s : ClientState) → Sends P k s (m s).1

  pub silent : (s after : ClientState) (k : ℕ) → after.sent ≡ s.sent → Sends P k s after
  silent s after k e = record {
    new = [];
    grows = e ∙ sym (append-nil s.sent);
    few = omega arith;
    each = tt;
  }

  pub in_turn :
      (j k : ℕ) (a b c : ClientState) → Sends P j a b → Sends P k b c → Sends P (j + k) a c
  in_turn j k a b c p q = record {
    new = p.new ++ q.new;
    grows = q.grows ∙ ap (λ t. t ++ q.new) p.grows ∙ append_assoc a.sent p.new q.new;
    few = omega (arith, length-append p.new q.new, p.few, q.few);
    each = All-append P p.new q.new p.each q.each;
  }

  pub weaken : (j k : ℕ) (a b : ClientState) → j ≤ k → Sends P j a b → Sends P k a b
  weaken j k a b h p = record {
    new = p.new;
    grows = p.grows;
    few = omega (arith, p.few);
    each = p.each;
  }

  Sends-continue :
      {A B : Type 0} (j k : ℕ) (before middle : ClientState) (r : Result OciError A)
      (f : A → Action B)
      → Sends P j before middle
      → ((a : A) → r ≡ ok a → Within k (f a))
      → Sends P (j + k) before (continue r middle f).1
  Sends-continue j k before middle (ok a) f p q =
      in_turn j k before middle (f a middle).1 p (q a refl middle)
  Sends-continue j k before middle (err e) f p q = weaken j (j + k) before middle (omega arith) p

  -- Two actions in turn; the second may use what the first returned.
  pub Within->>= :
      {A B : Type 0} (j k : ℕ) (m : Action A) (f : A → Action B)
      → Within j m
      → ((s : ClientState) (a : A) → (m s).0 ≡ ok a → Within k (f a))
      → Within (j + k) (m >>= f)
  unfolding ◌>>=◌
  Within->>= j k m f p q s = Sends-continue j k s (m s).1 (m s).0 f (p s) (λ a e. q s a e)

  pub Within-lift : {A : Type 0} (r : Result OciError A) → Within 0 (lift r)
  Within-lift r s = silent s s 0 refl

  -- Behind a lifted result nothing has been sent.
  pub Within-lift_then :
      {A B : Type 0} (k : ℕ) (r : Result OciError A) (f : A → Action B)
      → ((a : A) → r ≡ ok a → Within k (f a))
      → Within k (lift r >>= f)
  unfolding ◌>>=◌
  Within-lift_then k (ok a) f q s = q a refl s
  Within-lift_then k (err e) f q s = silent s s k refl

module _ (lib : Libraries) (world : World) (client : OciClient) where
  -- A request to the registry itself, or to the realm of a challenge pinned to its origin.
  abbrev pub IsContact : Bytes → Bytes → Bytes → OciRequest → Type 0
  IsContact method repository suffix r =
      ((r.uri ≡ registry_uri lib world client repository suffix) × (r.method ≡ method))
      ⊎ ((challenge : BearerChallenge) × (IsPinned client.origin challenge
            × ((r.uri ≡ token_uri lib world client challenge repository)
                × (r.method ≡ bytes "GET"))))

  module _ (method repository suffix : Bytes) where
    abbrev P : OciRequest → Type 0
    P = IsContact method repository suffix

    send_request-Within :
        (verb uri accept : Bytes) (authorization : Option Bytes)
        → ((r : OciRequest) → r.uri ≡ uri → r.method ≡ verb → P r)
        → Within P 1 (send_request lib world client verb uri accept authorization)
    unfolding send_request perform
    send_request-Within verb uri accept authorization h =
        Within-lift_then P 1 (ok_or configuration (lib.from_str accept)) _ λ value e s. record {
          new = plain_request verb uri value authorization ∷ [];
          grows = refl;
          few = omega arith;
          each = (h (plain_request verb uri value authorization) refl refl, tt);
        }

    own :
        (r : OciRequest)
        → r.uri ≡ registry_uri lib world client repository suffix
        → r.method ≡ method
        → P r
    own r e m = inl (e, m)

    classified-Within :
        (response : UpstreamResponse) → Within P 0 (classified lib world client response)
    classified-Within response =
        Within-lift_then P 0 (classify_response response) _ λ u e. Within-lift P (ok response)

    exchange_with-Within :
        (basic : Option Bytes) (challenge : BearerChallenge)
        → IsPinned client.origin challenge
        → Within P 1 (exchange_with lib world client basic challenge repository)
    unfolding exchange_with
    exchange_with-Within none challenge pinned s = silent P s s 1 refl
    exchange_with-Within (some authorization) challenge pinned s =
        elim (Bool-cases
          (is_some (lib.parse_uri (token_uri lib world client challenge repository)))) [
            | inl e ↦ rw e (
                send_request-Within (bytes "GET") (token_uri lib world client challenge repository)
                  (bytes "application/json") (some authorization)
                  (λ r k m. inr (challenge, (pinned, (k, m)))) s)
            | inr e ↦ rw e (silent P s s 1 refl)
          ]

    retry_with-Within :
        (accept : Bytes) (original : OciError) (found : Option (Bytes × Option ℕ))
        → Within P 1 (
            retry_with lib world client method repository
              (registry_uri lib world client repository suffix)
              accept
              original
              found)
    unfolding retry_with keep_token
    retry_with-Within accept original none = λ s. silent P s s 1 refl
    retry_with-Within accept original (some (token, expires_in)) =
        Within->>= P 1 0 _ _
          (send_request-Within method (registry_uri lib world client repository suffix) accept
            (some token) own)
          λ s retry e. elim (Bool-cases (retry.status == 401)) [
            | inl k ↦ rw k (λ q. silent P q q 0 refl)
            | inr k ↦ rw k (
                Within-lift_then P 0 (classify_response retry) _ λ u v.
                  Within->>= P 0 0 _ _ (λ t. silent P t _ 0 refl) λ t x y. Within-lift P (ok retry))
          ]

    recover-Within :
        (accept : Bytes) (was_cached : Bool) (response : UpstreamResponse)
        → Within P 2 (
            recover lib world client method repository
              (registry_uri lib world client repository suffix)
              accept
              was_cached
              response)
    unfolding recover exchange_token forget_token
    recover-Within accept was_cached response = Within->>= P 0 2 _ _ (forgets was_cached) λ s u e.
        Within-lift_then P 2
          (ok_or (failure_of response.status response.headers)
            (bearer_challenge (map lib.to_str (challenges_of response.headers)) client.origin))
          _
          λ challenge c.
            Within->>= P 1 1 _ _
              (exchange_with-Within _ challenge
                (bearer_challenge-IsPinned _ client.origin challenge (ok_or-eq-ok _ _ c)))
              λ t found f. retry_with-Within accept _ found
      where
        forgets :
            (was_cached : Bool) → Within P 0 (forget_token lib world client repository was_cached)
        forgets true s = silent P s _ 0 refl
        forgets false s = silent P s s 0 refl

    brokered-Within :
        (accept : Bytes)
        → Within P 3 (
            brokered lib world client method repository
              (registry_uri lib world client repository suffix)
              accept)
    unfolding brokered cached_token
    brokered-Within accept =
        Within->>= P 0 3 _ _ (λ s. silent P s _ 0 refl)
          λ s cached e.
            Within->>= P 1 2 _ _
              (send_request-Within method (registry_uri lib world client repository suffix) accept
                cached own)
              λ t response f. elim (Bool-cases (response.status == 401)) [
                | inl k ↦ rw k (recover-Within accept (is_some cached) response)
                | inr k ↦ rw k λ q. weaken P 0 2 q _ (omega arith) (classified-Within response q)
              ]

    direct-Within :
        (accept : Bytes) (authorization : Option Bytes)
        → Within P 3 (
            direct lib world client method
              (registry_uri lib world client repository suffix)
              accept
              authorization)
    unfolding direct
    direct-Within accept authorization s = weaken P 1 3 s _ (omega arith) (
        Within->>= P 1 0 _ _
          (send_request-Within method (registry_uri lib world client repository suffix) accept
            authorization own)
          (λ t response e. classified-Within response) s)

-- Whatever the registry answers, a request of the client causes at most three requests, each of which
-- goes, with the given method, to the path `/v2/`, the repository and the suffix of the configured
-- origin, or, as a GET for a token, to the realm of a challenge that lies under that origin.
pub request_response_method-IsContact :
    (lib : Libraries) (world : World) (client : OciClient) (method repository suffix accept : Bytes)
    (authorization : Option Bytes) (s : ClientState)
    → Sends
        (IsContact lib world client method repository suffix)
        3
        s
        (request_response_method lib world client method repository suffix accept authorization s).1
unfolding request_response_method
request_response_method-IsContact lib world client method repository suffix accept authorization =
    Within-lift_then (IsContact lib world client method repository suffix) 3
      (ok_or configuration (lib.parse_uri (registry_uri lib world client repository suffix))) _
      λ parsed e.
        elim (Bool-cases (is_some authorization || not (is_some client.token_credentials))) [
          | inl k ↦
              rw k (direct-Within lib world client method repository suffix accept authorization)
          | inr k ↦ rw k (brokered-Within lib world client method repository suffix accept)
        ]

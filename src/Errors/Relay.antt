-- ===== src/Errors/Relay.antt =====
-- What an error response holds, and what of the upstream it relays.
use mathlib.Core.List.{append_assoc, append-nil}
use github_oras_packages.Base.{
  ◌≡◌, inl, inr, refl, ap, sym, ◌∙◌, true, false, Option, none, some, List, [], ◌∷◌, ◌++◌, map,
  Bytes, bytes, if◌then◌else◌, Bool-cases,
}
use github_oras_packages.RetryAfter.{valid_retry_after}
use github_oras_packages.Errors.{
  unauthorized, forbidden, not_found, rate_limited, server, malformed, ProxyError, inbound,
  upstream, timeout, cancelled, unexpected, HeaderWrite, append, insert, Response, map_upstream,
  planned, with_write, append_challenges, relay_challenges, insert_retry_after, relay_retry_after,
  map_error,
}

-- The error without the values that it keeps of the upstream response.
abbrev pub redact : ProxyError → ProxyError
redact (upstream (unauthorized challenges)) = upstream (unauthorized [])
redact (upstream (rate_limited retry_after)) = upstream (rate_limited none)
redact (upstream (server temporary retry_after)) = upstream (server temporary none)
redact error = error

abbrev pub retry_write : Option Bytes → List HeaderWrite
retry_write none = []
retry_write (some value) =
    if valid_retry_after value then insert (bytes "retry-after") value ∷ [] else []

-- The headers that relay a value of the upstream response.
abbrev pub relayed : ProxyError → List HeaderWrite
relayed (upstream (unauthorized challenges)) = map (append (bytes "www-authenticate")) challenges
relayed (upstream (rate_limited retry_after)) = retry_write retry_after
relayed (upstream (server true retry_after)) = retry_write retry_after
relayed error = []

-- A response with more writes.
abbrev and_writes : Response → List HeaderWrite → Response
and_writes response writes = record response { writes = response.writes ++ writes }

no_more : (response : Response) → response ≡ and_writes response []
no_more response = ap (λ t. record response { writes = t }) ((sym (append-nil response.writes)))

append_challenges_lem :
    (challenges : List Bytes) (response : Response)
    → append_challenges challenges response
      ≡ and_writes response (map (append (bytes "www-authenticate")) challenges)
unfolding append_challenges
append_challenges_lem [] response = no_more response
append_challenges_lem (c ∷ challenges) response =
    append_challenges_lem challenges (with_write (append (bytes "www-authenticate") c) response)
    ∙ ap (λ t. record response { writes = t })
        (append_assoc response.writes (append (bytes "www-authenticate") c ∷ [])
          (map (append (bytes "www-authenticate")) challenges))

insert_retry_after_lem :
    (value : Option Bytes) (response : Response)
    → insert_retry_after value response ≡ and_writes response (retry_write value)
unfolding insert_retry_after
insert_retry_after_lem none response = no_more response
insert_retry_after_lem (some v) response = elim (Bool-cases (valid_retry_after v)) [
  | inl e ↦ rw e refl
  | inr e ↦ rw e (no_more response)
]

-- The response to an error is that to the redacted error, with the relayed headers behind.
pub map_error_lem :
    (error : ProxyError) → map_error error ≡ and_writes (map_error (redact error)) (relayed error)
unfolding map_error relay_challenges relay_retry_after append_challenges insert_retry_after planned
    map_upstream
map_error_lem (inbound error) = no_more (map_error (inbound error))
map_error_lem (upstream (unauthorized challenges)) =
    append_challenges_lem challenges (planned (upstream (unauthorized [])))
map_error_lem (upstream forbidden) = no_more (map_error (upstream forbidden))
map_error_lem (upstream (not_found resource)) = no_more (map_error (upstream (not_found resource)))
map_error_lem (upstream (rate_limited value)) =
    insert_retry_after_lem value (planned (upstream (rate_limited none)))
map_error_lem (upstream (server true value)) =
    insert_retry_after_lem value (planned (upstream (server true none)))
map_error_lem (upstream (server false value)) = no_more (map_error (upstream (server false none)))
map_error_lem (upstream malformed) = no_more (map_error (upstream malformed))
map_error_lem timeout = no_more (map_error timeout)
map_error_lem cancelled = no_more (map_error cancelled)
map_error_lem unexpected = no_more (map_error unexpected)

-- Nothing of an upstream response reaches a client but through two headers: the response to an error
-- has the status and the body of the response to the error without its challenges and its
-- `Retry-After`, and the same headers, followed by one `WWW-Authenticate` for each challenge of a
-- missing authorization in their order, or the `Retry-After` of a limit or a temporary failure if it
-- is a valid one.
pub map_error-redact :
    (error : ProxyError)
    → ((map_error error).status ≡ (map_error (redact error)).status)
      × ((map_error error).body ≡ (map_error (redact error)).body)
      × ((map_error error).writes ≡ (map_error (redact error)).writes ++ relayed error)
map_error-redact error = (
  ap (λ (t : Response). t.status) (map_error_lem error),
  ap (λ (t : Response). t.body) (map_error_lem error),
  ap (λ (t : Response). t.writes) (map_error_lem error),
)

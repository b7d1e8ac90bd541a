-- ===== src/Errors/Shape.antt =====
-- The fixed headers of every error response.
use mathlib.Core.List.{append_assoc}
use github_oras_packages.Base.{
  ℕ, ◌<◌, ◌≤◌, ◌^◌, ◌≡◌, refl, sym, ap, subst, ◌∙◌, Bool, true, false, Option, none, some, List, [],
  ◌∷◌, ◌++◌, map, Bytes, bytes, ok, arith, ltb, ◌==◌, length, length-append, text_eq,
  fold_digits_lem, to_string, decimal-to_string, to_string-all_digits, ◌>>=◌, if◌then◌else◌,
}
use github_oras_packages.Routing.Errors.{
  RouteError, unsupported_method, invalid_route, invalid_repository_locator, invalid_repository,
  unsupported_protocol, disabled_protocol, invalid_protocol_path,
}
use github_oras_packages.Inbound.Errors.{
  InboundError, request_target_too_large, header_count_exceeded, header_bytes_exceeded,
  invalid_header, request_body_not_allowed, request_body_too_large, invalid_content_length,
  conflicting_content_length, unsupported_transfer_encoding, unsupported_expectation,
  unsupported_upgrade, route,
}
use github_oras_packages.Inbound.{parse_content_length}
use github_oras_packages.Errors.{
  layout, mapped_content, UpstreamFailure, unauthorized, forbidden, not_found, rate_limited, server,
  malformed, ProxyError, inbound, upstream, timeout, cancelled, unexpected, HeaderWrite, append,
  insert, Response, error_body, response_plan, map_inbound, map_upstream, planned,
  append_challenges, relay_challenges, insert_retry_after, relay_retry_after, map_error,
}
use github_oras_packages.Errors.Relay.{redact, retry_write, relayed, map_error_lem}

abbrev named : Bytes → HeaderWrite → Bool
named name (append n value) = text_eq n name
named name (insert n value) = text_eq n name

abbrev value_of_write : HeaderWrite → Bytes
value_of_write (append n value) = value
value_of_write (insert n value) = value

-- The values that are written under a name, in order.
unfoldable pub written : Bytes → List HeaderWrite → List Bytes
written name [] = []
written name (write ∷ writes) =
    let rest = written name writes in if named name write then value_of_write write ∷ rest else rest

-- A response of the plan, with a short code, that allows methods exactly with the status 405.
data IsPlanned (response : Response) : Type 0 where
  plan :
      (status : ℕ) (code : Bytes) (allow_methods : Bool)
      → response ≡ response_plan status code allow_methods
      → (status == 405) ≡ allow_methods
      → ltb (length code) 64 ≡ true
      → ltb 399 status ≡ true
      → IsPlanned response

IsPlanned-route : (error : RouteError) → IsPlanned (map_inbound (route error))
unfolding map_inbound
IsPlanned-route unsupported_method = plan 405 _ true refl refl refl refl
IsPlanned-route invalid_route = plan 404 _ false refl refl refl refl
IsPlanned-route invalid_repository_locator = plan 404 _ false refl refl refl refl
IsPlanned-route invalid_repository = plan 404 _ false refl refl refl refl
IsPlanned-route unsupported_protocol = plan 404 _ false refl refl refl refl
IsPlanned-route disabled_protocol = plan 404 _ false refl refl refl refl
IsPlanned-route invalid_protocol_path = plan 404 _ false refl refl refl refl

IsPlanned-inbound : (error : InboundError) → IsPlanned (map_inbound error)
unfolding map_inbound
IsPlanned-inbound request_target_too_large = plan 414 _ false refl refl refl refl
IsPlanned-inbound header_count_exceeded = plan 431 _ false refl refl refl refl
IsPlanned-inbound header_bytes_exceeded = plan 431 _ false refl refl refl refl
IsPlanned-inbound invalid_header = plan 400 _ false refl refl refl refl
IsPlanned-inbound request_body_not_allowed = plan 400 _ false refl refl refl refl
IsPlanned-inbound request_body_too_large = plan 413 _ false refl refl refl refl
IsPlanned-inbound invalid_content_length = plan 400 _ false refl refl refl refl
IsPlanned-inbound conflicting_content_length = plan 400 _ false refl refl refl refl
IsPlanned-inbound unsupported_transfer_encoding = plan 400 _ false refl refl refl refl
IsPlanned-inbound unsupported_expectation = plan 417 _ false refl refl refl refl
IsPlanned-inbound unsupported_upgrade = plan 400 _ false refl refl refl refl
IsPlanned-inbound (route error) = IsPlanned-route error

IsPlanned-upstream : (failure : UpstreamFailure) → IsPlanned (map_upstream failure)
unfolding map_upstream
IsPlanned-upstream (unauthorized challenges) = plan 401 _ false refl refl refl refl
IsPlanned-upstream forbidden = plan 403 _ false refl refl refl refl
IsPlanned-upstream (not_found layout) = plan 404 _ false refl refl refl refl
IsPlanned-upstream (not_found mapped_content) = plan 502 _ false refl refl refl refl
IsPlanned-upstream (rate_limited value) = plan 503 _ false refl refl refl refl
IsPlanned-upstream (server true value) = plan 503 _ false refl refl refl refl
IsPlanned-upstream (server false value) = plan 502 _ false refl refl refl refl
IsPlanned-upstream malformed = plan 502 _ false refl refl refl refl

IsPlanned-planned : (error : ProxyError) → IsPlanned (planned error)
unfolding planned
IsPlanned-planned (inbound error) = IsPlanned-inbound error
IsPlanned-planned (upstream failure) = IsPlanned-upstream failure
IsPlanned-planned timeout = plan 504 _ false refl refl refl refl
IsPlanned-planned cancelled = plan 500 _ false refl refl refl refl
IsPlanned-planned unexpected = plan 500 _ false refl refl refl refl

-- What holds of every error response: its status is an error, it is not cached, its content length
-- is written once and read back as the length of its body, and the methods are named exactly if the
-- method was refused.
pub record IsErrorResponse (response : Response) : Type 0 where
  pub is_error : 400 ≤ response.status
  pub not_cached : written (bytes "cache-control") response.writes ≡ bytes "no-store" ∷ []
  pub sized :
      (value : Bytes) × (written (bytes "content-length") response.writes ≡ value ∷ [])
      × (parse_content_length value ≡ ok (length response.body))
  pub allowed :
      written (bytes "allow") response.writes
      ≡ (if response.status == 405 then bytes "GET, HEAD" ∷ [] else [])

-- The program's own parser reads back the text of a number below 2 ^ 64.
parse_content_length-to_string : (n : ℕ) → n < 2 ^ 64 → parse_content_length (to_string n) ≡ ok n
unfolding parse_content_length ◌>>=◌
parse_content_length-to_string n h =
    let (some_digit, all_digits) = to_string-all_digits n in
    ground (
      arith,
      some_digit,
      all_digits,
      fold_digits_lem 0 (to_string n) (omega arith),
      decimal-to_string n,
      h,
    )

body_assoc :
    (code : Bytes)
    → error_body code
      ≡ bytes "{\"error\":\""
        ++ (code
            ++ (bytes "\",\"message\":\""
                ++ bytes "Request could not be completed."
                ++ bytes "\"}"))
body_assoc code = simp append_assoc refl

body_length : (code : Bytes) → ltb (length code) 64 ≡ true → length (error_body code) < 2 ^ 64
body_length code h =
    let l =
      length-append code
        (bytes "\",\"message\":\"" ++ bytes "Request could not be completed." ++ bytes "\"}") in
    ground (arith, h, l, body_assoc code)

written-append :
    (name : Bytes) (xs ys : List HeaderWrite)
    → written name (xs ++ ys) ≡ written name xs ++ written name ys
unfolding written
written-append name [] ys = refl
written-append name (x ∷ xs) ys = ground (arith, written-append name xs ys)

-- The names of the relayed headers.
abbrev IsOther : Bytes → Type 0
IsOther name =
    (text_eq (bytes "www-authenticate") name ≡ false) × (text_eq (bytes "retry-after") name ≡ false)

written-challenges :
    (name : Bytes) (challenges : List Bytes)
    → IsOther name
    → written name (map (append (bytes "www-authenticate")) challenges) ≡ []
unfolding written
written-challenges name [] o = refl
written-challenges name (c ∷ challenges) o = rw o.0 (written-challenges name challenges o)

written-retry :
    (name : Bytes) (value : Option Bytes) → IsOther name → written name (retry_write value) ≡ []
unfolding written
written-retry name none o = refl
written-retry name (some v) o = ground (arith, o)

written-relayed :
    (name : Bytes) (error : ProxyError) → IsOther name → written name (relayed error) ≡ []
written-relayed name (inbound error) o = unfold written in refl
written-relayed name (upstream (unauthorized challenges)) o = written-challenges name challenges o
written-relayed name (upstream forbidden) o = unfold written in refl
written-relayed name (upstream (not_found resource)) o = unfold written in refl
written-relayed name (upstream (rate_limited value)) o = written-retry name value o
written-relayed name (upstream (server true value)) o = written-retry name value o
written-relayed name (upstream (server false value)) o = unfold written in refl
written-relayed name (upstream malformed) o = unfold written in refl
written-relayed name timeout o = unfold written in refl
written-relayed name cancelled o = unfold written in refl
written-relayed name unexpected o = unfold written in refl

append_nil_values : (xs ys : List Bytes) → ys ≡ [] → xs ++ ys ≡ xs
append_nil_values [] ys h = h
append_nil_values (x ∷ xs) ys h = ap (λ t. x ∷ t) (append_nil_values xs ys h)

module _ (error : ProxyError) (response : Response) where
  abbrev answered : Response
  answered = record response { writes = response.writes ++ relayed error }

  -- The relayed headers leave all others as they were.
  written-answered :
      (name : Bytes) → IsOther name → written name answered.writes ≡ written name response.writes
  written-answered name o =
      written-append name response.writes (relayed error)
      ∙ append_nil_values (written name response.writes) (written name (relayed error))
          (written-relayed name error o)

plan-IsErrorResponse :
    (status : ℕ) (code : Bytes) (allow_methods : Bool)
    → (status == 405) ≡ allow_methods
    → ltb (length code) 64 ≡ true
    → ltb 399 status ≡ true
    → IsErrorResponse (response_plan status code allow_methods)
unfolding response_plan written text_eq
plan-IsErrorResponse status code true a b c = record {
  is_error = ground (arith, c);
  not_cached = refl;
  sized = (
    to_string (length (error_body code)),
    refl,
    parse_content_length-to_string (length (error_body code)) (body_length code b),
  );
  allowed = rw a refl;
}
plan-IsErrorResponse status code false a b c = record {
  is_error = ground (arith, c);
  not_cached = refl;
  sized = (
    to_string (length (error_body code)),
    refl,
    parse_content_length-to_string (length (error_body code)) (body_length code b),
  );
  allowed = rw a refl;
}

answered-IsErrorResponse :
    (error : ProxyError) (response : Response)
    → IsErrorResponse response
    → IsErrorResponse (answered error response)
unfolding text_eq
answered-IsErrorResponse error response r =
    let (value, once, reads) = r.sized in
    record {
      is_error = r.is_error;
      not_cached =
          written-answered error response (bytes "cache-control") (refl, refl) ∙ r.not_cached;
      sized = (
        value,
        written-answered error response (bytes "content-length") (refl, refl) ∙ once,
        reads,
      );
      allowed = written-answered error response (bytes "allow") (refl, refl) ∙ r.allowed;
    }

redacted-planned : (error : ProxyError) → map_error (redact error) ≡ planned error
unfolding map_error relay_challenges relay_retry_after append_challenges insert_retry_after planned
    map_upstream
redacted-planned (inbound error) = refl
redacted-planned (upstream (unauthorized challenges)) = refl
redacted-planned (upstream forbidden) = refl
redacted-planned (upstream (not_found resource)) = refl
redacted-planned (upstream (rate_limited value)) = refl
redacted-planned (upstream (server true value)) = refl
redacted-planned (upstream (server false value)) = refl
redacted-planned (upstream malformed) = refl
redacted-planned timeout = refl
redacted-planned cancelled = refl
redacted-planned unexpected = refl

planned-IsErrorResponse : (error : ProxyError) → IsErrorResponse (planned error)
planned-IsErrorResponse error = elim (IsPlanned-planned error) [
  | plan status code allow_methods e a b c ↦
      subst IsErrorResponse (sym e) (plan-IsErrorResponse status code allow_methods a b c)
]

-- Every error is answered with a status of at least 400, `no-store`, exactly one content length,
-- which the program's own parser reads as the length of the body, and an `Allow` header with
-- `GET, HEAD` exactly if the status is 405.
pub map_error-IsErrorResponse : (error : ProxyError) → IsErrorResponse (map_error error)
map_error-IsErrorResponse error = subst IsErrorResponse (sym (map_error_lem error)) (
    answered-IsErrorResponse error (map_error (redact error))
      (subst IsErrorResponse (sym (redacted-planned error)) (planned-IsErrorResponse error)))

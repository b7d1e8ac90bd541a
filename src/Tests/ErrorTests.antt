-- ===== src/Tests/ErrorTests.antt =====
-- Tests of the error responses.
use github_oras_packages.Base.{
  ◌≡◌, refl, true, false, none, some, [], ◌∷◌, ◌++◌, bytes, text_eq, fold_digits, to_string, digits,
}
use github_oras_packages.Inbound.Errors.{route}
use github_oras_packages.Routing.Errors.{unsupported_method}
use github_oras_packages.RetryAfter.{
  valid_weekday, valid_long_weekday, valid_month, two_digit_at_most, valid_day, valid_time,
  valid_imf_fixdate, valid_behind_comma, valid_rfc850_date, valid_asctime_date, valid_http_date,
  valid_retry_after,
}
use github_oras_packages.Errors.{
  unauthorized, rate_limited, inbound, upstream, append, response_plan, map_inbound, map_upstream,
  planned, append_challenges, relay_challenges, insert_retry_after, relay_retry_after, map_error,
}
use github_oras_packages.Errors.Relay.{relayed, map_error-redact}
use github_oras_packages.Errors.Shape.{IsErrorResponse, map_error-IsErrorResponse}

erring : Unit {0}
unfolding valid_weekday valid_long_weekday valid_month two_digit_at_most valid_day valid_time
    valid_imf_fixdate valid_behind_comma valid_rfc850_date valid_asctime_date valid_http_date
    valid_retry_after response_plan map_inbound map_upstream planned append_challenges
    relay_challenges insert_retry_after relay_retry_after map_error text_eq fold_digits to_string
    digits
erring = tt

date_tests :
    (valid_retry_after (bytes "120") ≡ true)
    × (valid_retry_after (bytes "18446744073709551616") ≡ false)
    × (valid_retry_after [] ≡ false)
    × (valid_retry_after (bytes "Sun, 06 Nov 1994 08:49:37 GMT") ≡ true)
    × (valid_retry_after (bytes "Sunday, 06-Nov-94 08:49:37 GMT") ≡ true)
    × (valid_retry_after (bytes "Sun Nov  6 08:49:37 1994") ≡ true)
    × (valid_retry_after (bytes "Sun, 32 Nov 1994 08:49:37 GMT") ≡ false)
    × (valid_retry_after (bytes "Sun, 06 Nov 1994 24:49:37 GMT") ≡ false)
    × (valid_retry_after (bytes "soon") ≡ false)
unfolding erring
date_tests = (refl, refl, refl, refl, refl, refl, refl, refl, refl)

refused_method : map_error (inbound (route unsupported_method)) ≡ record {
  status = 405;
  writes =
      append (bytes "cache-control") (bytes "no-store")
      ∷ append (bytes "content-type") (bytes "application/json; charset=utf-8")
      ∷ append (bytes "content-length") (bytes "74")
      ∷ append (bytes "x-content-type-options") (bytes "nosniff")
      ∷ append (bytes "allow") (bytes "GET, HEAD")
      ∷ [];
  body = bytes "{\"error\":\"method_not_allowed\",\"message\":\"Request could not be completed.\"}";
}
unfolding erring
refused_method = refl

map_error-redact_example :
    ((map_error (upstream (rate_limited (some (bytes "120"))))).status
      ≡ (map_error (upstream (rate_limited none))).status)
    × ((map_error (upstream (rate_limited (some (bytes "120"))))).body
        ≡ (map_error (upstream (rate_limited none))).body)
    × ((map_error (upstream (rate_limited (some (bytes "120"))))).writes
        ≡ (map_error (upstream (rate_limited none))).writes
          ++ relayed (upstream (rate_limited (some (bytes "120")))))
map_error-redact_example = map_error-redact (upstream (rate_limited (some (bytes "120"))))

map_error-IsErrorResponse_example :
    IsErrorResponse (map_error (upstream (unauthorized (bytes "Bearer realm=\"x\"" ∷ []))))
map_error-IsErrorResponse_example =
    map_error-IsErrorResponse (upstream (unauthorized (bytes "Bearer realm=\"x\"" ∷ [])))

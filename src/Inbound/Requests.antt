-- ===== src/Inbound/Requests.antt =====
-- Which requests pass the edge, on each surface.
use github_oras_packages.Base.{
  ℕ, ◌≤◌, ◌<◌, ◌≡◌, ◌⊎◌, ◌↔◌, Bool, true, false, Option, none, some, List, [], ◌∷◌, Bytes, bytes,
  ok, ◌>>=◌, fail_if, arith, length, All, u64_bound, fail_if-eq-ok, ok_or->>=-eq-ok, >>=-eq-ok,
  map_err-eq-ok, text_eq_iff,
}
use github_oras_packages.Http.{IsHeaderMap, Request, values_of, first}
use github_oras_packages.Protocols.{EnabledProtocols}
use github_oras_packages.Routing.{ValidatedRoute, parse_raw_target, is_read_method}
use github_oras_packages.Routing.Engine.{Base64}
use github_oras_packages.Inbound.{
  validate_headers, validate_request_head, validate_request, allows_body, validate_upload,
  validate_distribution_request, validate_autoindex_request,
}
use github_oras_packages.Inbound.Errors.{InboundLimits}
use github_oras_packages.Inbound.Framing.{IsLength, IsDeclared, parse_content_length_iff}
use github_oras_packages.Inbound.Headers.{
  IsAdmitted, validate_headers_with_body_sound, validate_headers_with_body_complete,
}

-- An origin-form request whose target is no longer than allowed.
pub record IsOriginForm (request : Request) (limits : InboundLimits) (target : Bytes) : Type 0 where
  pub no_scheme : request.has_scheme ≡ false
  pub no_authority : request.has_authority ≡ false
  pub spelled : request.path_and_query ≡ some target
  pub bounded : length target ≤ limits.max_target_bytes

abbrev pub IsRead : Bytes → Type 0
IsRead method = (method ≡ bytes "GET") ⊎ (method ≡ bytes "HEAD")

abbrev pub IsUpload : Bytes → Type 0
IsUpload method = (method ≡ bytes "POST") ⊎ ((method ≡ bytes "PATCH") ⊎ (method ≡ bytes "PUT"))

is_read_method_iff : (method : Bytes) → (is_read_method method ≡ true) ↔ IsRead method
is_read_method_iff m = ground (arith, text_eq_iff m (bytes "GET"), text_eq_iff m (bytes "HEAD"))

allows_body_iff : (method : Bytes) → (allows_body method ≡ true) ↔ IsUpload method
allows_body_iff m = ground (
  arith,
  text_eq_iff m (bytes "POST"),
  text_eq_iff m (bytes "PATCH"),
  text_eq_iff m (bytes "PUT"),
)

-- The body of an upload is bounded: each declared length is within the limit, or none is declared
-- and the body has ended.
abbrev pub IsBounded : List Bytes → Bool → InboundLimits → Type 0
IsBounded [] ended limits = ended ≡ true
IsBounded (value ∷ values) ended limits =
    (n : ℕ) × All (λ v. IsLength v n) (value ∷ values) × (n ≤ limits.max_body_bytes)

pub record IsForwardable (request : Request) (limits : InboundLimits) (target : Bytes)
    : Type 0 where
  pub origin : IsOriginForm request limits target
  pub allowed :
      IsRead request.method ⊎ (IsUpload request.method ⊎ (request.method ≡ bytes "DELETE"))
  pub admitted : IsAdmitted request.headers limits (allows_body request.method)
  pub bounded :
      IsUpload request.method
      → IsBounded (values_of (bytes "content-length") request.headers.iter) request.ended limits

validate_upload_sound :
    (values : List Bytes) (d : Option ℕ) (ended : Bool) (limits : InboundLimits)
    → IsDeclared values d
    → validate_upload (first values) ended limits ≡ ok tt
    → IsBounded values ended limits
unfolding validate_upload fail_if
validate_upload_sound [] d ended limits h e = ground arith
validate_upload_sound (v ∷ values) none ended limits h e = cc
validate_upload_sound (v ∷ values) (some n) ended limits h e =
    let (m, p, e₁) = >>=-eq-ok _ _ e in
    (n, h.1, ground (arith, p, e₁, (parse_content_length_iff v n).1 h.1.0))

validate_upload_complete :
    (values : List Bytes) (ended : Bool) (limits : InboundLimits)
    → IsBounded values ended limits
    → validate_upload (first values) ended limits ≡ ok tt
unfolding validate_upload ◌>>=◌
validate_upload_complete [] ended limits h = ground arith
validate_upload_complete (v ∷ values) ended limits (n, all, b) =
    ground (arith, (parse_content_length_iff v n).1 all.0, b)

module _ (request : Request) (limits : InboundLimits) (lawful : IsHeaderMap request.headers) where
  upload_iff :
      (d : Option ℕ)
      → IsDeclared (values_of (bytes "content-length") request.headers.iter) d
      → (validate_upload (request.headers.get (bytes "content-length")) request.ended limits
          ≡ ok tt)
        ↔ IsBounded (values_of (bytes "content-length") request.headers.iter) request.ended limits
  upload_iff d h =
      rw (lawful.gets_first, lawful.lists)
        (
          validate_upload_sound _ d request.ended limits h,
          validate_upload_complete _ request.ended limits,
        )

  validate_distribution_request_sound :
      (target : Bytes)
      → validate_distribution_request request limits ≡ ok target
      → IsForwardable request limits target
  unfolding validate_distribution_request
  validate_distribution_request_sound target e =
      let (a, e₁) = fail_if-eq-ok _ _ _ e in
      let (b, e₂) = fail_if-eq-ok _ _ _ e₁ in
      let (t, c, e₃) = ok_or->>=-eq-ok _ _ _ e₂ in
      let (d, e₄) = fail_if-eq-ok _ _ _ e₃ in
      let (u, f, e₅) = >>=-eq-ok _ _ e₄ in
      let (w, g, e₆) = >>=-eq-ok _ _ e₅ in
      let same : t ≡ target = ground (arith, e₆) in
      let admitted =
        validate_headers_with_body_sound request.headers lawful limits (allows_body request.method)
          f in
      record {
        origin = record {
          no_scheme = ground (arith, a);
          no_authority = ground (arith, a);
          spelled = rw (← same) c;
          bounded = rw (← same) (ground (arith, d));
        };
        allowed = ground (
          arith,
          b,
          is_read_method_iff request.method,
          allows_body_iff request.method,
          text_eq_iff request.method (bytes "DELETE"),
        );
        admitted = admitted;
        bounded = λ upload.
            (upload_iff admitted.declared admitted.declares).0
              (ground (arith, g, (allows_body_iff request.method).1 upload));
      }

  validate_distribution_request_complete :
      (target : Bytes)
      → limits.max_header_bytes < u64_bound
      → IsForwardable request limits target
      → validate_distribution_request request limits ≡ ok target
  unfolding validate_distribution_request ◌>>=◌
  validate_distribution_request_complete target small ok_ = ground (
    arith,
    ok_.origin,
    ok_.allowed,
    is_read_method_iff request.method,
    allows_body_iff request.method,
    text_eq_iff request.method (bytes "DELETE"),
    validate_headers_with_body_complete request.headers lawful limits (allows_body request.method)
        small ok_.admitted,
    ok_.bounded,
    upload_iff ok_.admitted.declared ok_.admitted.declares,
  )

-- For lawful headers and a limit of 64 bits, a Distribution request is admitted exactly if it is in
-- origin form within the target limit, its method is one of the six, its headers pass the edge
-- policy, and, for a method that uploads, every declared length is within the body limit or the
-- body is over and none is declared; the result is the target, unchanged.
pub validate_distribution_request_iff :
    (request : Request) (limits : InboundLimits) (target : Bytes)
    → IsHeaderMap request.headers
    → limits.max_header_bytes < u64_bound
    → (validate_distribution_request request limits ≡ ok target)
      ↔ IsForwardable request limits target
validate_distribution_request_iff request limits target lawful small = (
  validate_distribution_request_sound request limits lawful target,
  validate_distribution_request_complete request limits lawful target small,
)

-- A read: origin form, GET or HEAD, admitted headers that declare no body, and no body.
pub record IsBrowsable (request : Request) (limits : InboundLimits) (target : Bytes) : Type 0 where
  pub origin : IsOriginForm request limits target
  pub read : IsRead request.method
  pub admitted : IsAdmitted request.headers limits false
  pub ended : request.ended ≡ true

module _ (request : Request) (limits : InboundLimits) (lawful : IsHeaderMap request.headers) where
  validate_autoindex_request_sound :
      (target : Bytes)
      → validate_autoindex_request request limits ≡ ok target
      → IsBrowsable request limits target
  unfolding validate_autoindex_request validate_headers
  validate_autoindex_request_sound target e =
      let (a, e₁) = fail_if-eq-ok _ _ _ e in
      let (b, e₂) = fail_if-eq-ok _ _ _ e₁ in
      let (t, c, e₃) = ok_or->>=-eq-ok _ _ _ e₂ in
      let (d, e₄) = fail_if-eq-ok _ _ _ e₃ in
      let (u, f, e₅) = >>=-eq-ok _ _ e₄ in
      let (g, e₆) = fail_if-eq-ok _ _ _ e₅ in
      let same : t ≡ target = ground (arith, e₆) in
      record {
        origin = record {
          no_scheme = ground (arith, a);
          no_authority = ground (arith, a);
          spelled = rw (← same) c;
          bounded = rw (← same) (ground (arith, d));
        };
        read = ground (arith, b, is_read_method_iff request.method);
        admitted = validate_headers_with_body_sound request.headers lawful limits false f;
        ended = ground (arith, g);
      }

  validate_autoindex_request_complete :
      (target : Bytes)
      → limits.max_header_bytes < u64_bound
      → IsBrowsable request limits target
      → validate_autoindex_request request limits ≡ ok target
  unfolding validate_autoindex_request validate_headers ◌>>=◌
  validate_autoindex_request_complete target small r = ground (
    arith,
    r.origin,
    r.read,
    r.ended,
    is_read_method_iff request.method,
    validate_headers_with_body_complete request.headers lawful limits false small r.admitted,
  )

  validate_request_sound :
      (engine : Base64) (enabled : EnabledProtocols) (validated : ValidatedRoute)
      → validate_request engine request enabled limits ≡ ok validated
      → (target : Bytes) × IsBrowsable request limits target
        × (parse_raw_target engine request.method target enabled ≡ ok validated)
  unfolding validate_request validate_request_head validate_headers
  validate_request_sound engine enabled validated e =
      let (a, e₁) = fail_if-eq-ok _ _ _ e in
      let (t, c, e₂) = ok_or->>=-eq-ok _ _ _ e₁ in
      let (d, e₃) = fail_if-eq-ok _ _ _ e₂ in
      let (v, head, e₄) = >>=-eq-ok _ _ e₃ in
      let (b, h₁) = fail_if-eq-ok _ _ _ head in
      let (k, h₂) = fail_if-eq-ok _ _ _ h₁ in
      let (u, f, h₃) = >>=-eq-ok _ _ h₂ in
      let parsed = map_err-eq-ok _ _ h₃ in
      let (g, e₅) = fail_if-eq-ok _ _ _ e₄ in
      (
        t,
        record {
          origin = record {
            no_scheme = ground (arith, a);
            no_authority = ground (arith, a);
            spelled = c;
            bounded = ground (arith, d);
          };
          read = ground (arith, b, is_read_method_iff request.method);
          admitted = validate_headers_with_body_sound request.headers lawful limits false f;
          ended = ground (arith, g);
        },
        ground (arith, parsed, e₅),
      )

-- For lawful headers and a limit of 64 bits, an autoindex request is admitted exactly if it is a
-- read; the result is the target, unchanged.
pub validate_autoindex_request_iff :
    (request : Request) (limits : InboundLimits) (target : Bytes)
    → IsHeaderMap request.headers
    → limits.max_header_bytes < u64_bound
    → (validate_autoindex_request request limits ≡ ok target) ↔ IsBrowsable request limits target
validate_autoindex_request_iff request limits target lawful small = (
  validate_autoindex_request_sound request limits lawful target,
  validate_autoindex_request_complete request limits lawful target small,
)

-- For lawful headers, a package request that is admitted is a read, and its target parses to the
-- route that is returned.
pub validate_request-IsBrowsable :
    (engine : Base64) (request : Request) (enabled : EnabledProtocols) (limits : InboundLimits)
    (validated : ValidatedRoute)
    → IsHeaderMap request.headers
    → validate_request engine request enabled limits ≡ ok validated
    → (target : Bytes) × IsBrowsable request limits target
      × (parse_raw_target engine request.method target enabled ≡ ok validated)
validate_request-IsBrowsable engine request enabled limits validated lawful e =
    validate_request_sound request limits lawful engine enabled validated e

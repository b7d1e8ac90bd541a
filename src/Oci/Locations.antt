-- ===== src/Oci/Locations.antt =====
-- The rewriting of `Location` fields, `rewrite_distribution_location` of
-- crates/github-oras-packages-proxy/src/oci.rs.
use github_oras_packages.Base.{
  ℕ, ◌≡◌, ◌≢◌, ◌⊎◌, inl, inr, refl, ap, Bool, true, false, not, ◌&&◌, ◌||◌, Option, none, some,
  ◌++◌, Bytes, bytes, Result, ok, err, ok_or, ◌>>=◌, fail_if, arith, ◌==◌, any, elem, is_empty,
  is_ascii, is_ascii_alphanumeric, is_ascii_control, contains_byte, text_eq, text_eq_iff,
  strip_prefix, append_of_strip_prefix, split, Lacks, if◌then◌else◌, Bool-cases, fail_if-passes,
  >>=-eq-ok, ok_or->>=-eq-ok, ok_or-eq-ok,
}
use github_oras_packages.Libraries.{Libraries, Uri, PathAndQuery}
use github_oras_packages.Oci.{valid_digest}
use github_oras_packages.Oci.Checks.{IsSha256Digest, valid_digest_sound}
use github_oras_packages.Oci.Errors.{OciError, configuration, invalid_descriptor}
use github_oras_packages.Queries.{Key, scan_parts}

abbrev pub is_valid : {A : Type 0} → Result OciError A → Bool
is_valid (ok a) = true
is_valid (err e) = false

abbrev pub clean_state : Bytes → Bool
clean_state value = not (is_empty value) && not (any (λ c. is_ascii_control c || c == b'#') value)

abbrev pub state_key : Key
state_key = record { name = bytes "_state"; admits = clean_state }

abbrev pub digest_key : Key
digest_key = record { name = bytes "digest"; admits = λ value. is_valid (valid_digest value) }

-- `state_seen || digest_seen`
abbrev pub either_seen : Option (Bool × Bool) → Bool
either_seen none = false
either_seen (some (a, b)) = a || b

unfoldable pub valid_upload_query : Bytes → Bool
valid_upload_query query =
    if is_empty query
    then false
    else either_seen (scan_parts state_key digest_key false false (split b'&' query))

abbrev same_option : Option Bytes → Option Bytes → Bool
same_option none none = true
same_option (some s) (some t) = text_eq s t
same_option _ _ = false

abbrev is_present : Option Bytes → Bool
is_present none = false
is_present (some s) = true

-- The check of the scheme and the authority.
unfoldable pub check_origin : Libraries → Bytes → Uri → Result OciError (Unit {0})
check_origin lib origin uri =
    if is_present uri.scheme_str
    then (do
      own ← ok_or configuration (lib.parse_uri origin)
      fail_if
          (not (same_option uri.scheme_str own.scheme_str)
            || not (same_option uri.authority own.authority))
          invalid_descriptor)
    else fail_if (is_present uri.authority) invalid_descriptor

abbrev is_session_byte : ℕ → Bool
is_session_byte c = is_ascii_alphanumeric c || elem (bytes "._-") c

abbrev refuses_query : Option Bytes → Bool
refuses_query none = false
refuses_query (some query) = not (valid_upload_query query)

-- The checks behind the prefix of an upload session.
unfoldable pub is_bad_session : Bytes → Option Bytes → Bool
is_bad_session upload_id query =
    is_empty upload_id
    || text_eq upload_id (bytes ".")
    || text_eq upload_id (bytes "..")
    || contains_byte b'/' upload_id
    || not (is_ascii upload_id)
    || any (λ c. not (is_session_byte c)) upload_id
    || refuses_query query

-- The check of the path, by what is left of it behind the two prefixes.
unfoldable pub check_place : Option Bytes → Option Bytes → Option Bytes → Result OciError (Unit {0})
check_place (some upload_id) behind_blobs query =
    fail_if (is_bad_session upload_id query) invalid_descriptor
check_place none (some digest) query =
    fail_if (is_present query || not (is_valid (valid_digest digest))) invalid_descriptor
check_place none none query = err invalid_descriptor

abbrev pub upload_prefix : Bytes → Bytes
upload_prefix repository = bytes "/v2/" ++ (repository ++ bytes "/blobs/uploads/")

abbrev pub blob_prefix : Bytes → Bytes
blob_prefix repository = bytes "/v2/" ++ (repository ++ bytes "/blobs/")

unfoldable pub rewrite_distribution_location :
    Libraries → Bytes → Bytes → Bytes → Result OciError Bytes
rewrite_distribution_location lib origin repository location = do
  text ← ok_or invalid_descriptor (lib.to_str location)
  uri ← ok_or invalid_descriptor (lib.parse_uri text)
  checked ← check_origin lib origin uri
  target ← ok_or invalid_descriptor uri.path_and_query
  placed ←
      check_place (strip_prefix (upload_prefix repository) target.path)
        (strip_prefix (blob_prefix repository) target.path) target.query
  ok_or invalid_descriptor (lib.from_str target.text)

-- The name of an upload session.
pub record IsSession (s : Bytes) : Type 0 where
  pub named : is_empty s ≡ false
  pub not_dot : s ≢ bytes "."
  pub not_dot_dot : s ≢ bytes ".."
  pub no_slash : Lacks b'/' s
  pub spelled : any (λ c. not (is_ascii_alphanumeric c || elem (bytes "._-") c)) s ≡ false

-- An upload session or a blob of the repository.
abbrev pub IsOwnPlace : Bytes → PathAndQuery → Type 0
IsOwnPlace repository target =
    ((upload_id : Bytes) × ((target.path ≡ upload_prefix repository ++ upload_id)
        × (IsSession upload_id
            × ((target.query ≡ none)
                ⊎ ((query : Bytes) × ((target.query ≡ some query)
                      × (valid_upload_query query ≡ true)))))))
    ⊎ ((digest : Bytes) × ((target.path ≡ blob_prefix repository ++ digest)
          × (IsSha256Digest digest × (target.query ≡ none))))

-- A relative location, or one with the scheme and the authority of the origin.
abbrev pub IsOwnOrigin : Libraries → Bytes → Uri → Type 0
IsOwnOrigin lib origin uri =
    ((uri.scheme_str ≡ none) × (uri.authority ≡ none))
    ⊎ ((own : Uri) × ((lib.parse_uri origin ≡ some own)
          × ((uri.scheme_str ≡ own.scheme_str) × (uri.authority ≡ own.authority))))

none_of : (o : Option Bytes) → is_present o ≡ false → o ≡ none
none_of none h = refl
none_of (some s) h = cc

same_of : (a b : Option Bytes) → same_option a b ≡ true → a ≡ b
same_of none none h = refl
same_of none (some t) h = cc
same_of (some s) none h = cc
same_of (some s) (some t) h = ap some ((text_eq_iff s t).0 h)

check_origin_sound :
    (lib : Libraries) (origin : Bytes) (uri : Uri)
    → check_origin lib origin uri ≡ ok tt
    → IsOwnOrigin lib origin uri
unfolding check_origin
check_origin_sound lib origin uri h = elim (Bool-cases (is_present uri.scheme_str)) [
  | inl e ↦
      let (own, p, h₁) = ok_or->>=-eq-ok _ _ _ (rw e at h) in
      let b = fail_if-passes _ _ h₁ in
      inr (
        own,
        (
          p,
          (
            same_of uri.scheme_str own.scheme_str (ground (arith, b)),
            same_of uri.authority own.authority (ground (arith, b)),
          ),
        ),
      )
  | inr e ↦ inl (none_of uri.scheme_str e, none_of uri.authority (fail_if-passes _ _ (rw e at h)))
]

IsSession-of :
    (upload_id : Bytes) (query : Option Bytes)
    → is_bad_session upload_id query ≡ false
    → IsSession upload_id × (refuses_query query ≡ false)
unfolding is_bad_session
IsSession-of upload_id query h = (
  record {
    named = ground arith;
    not_dot = ground (arith, text_eq_iff upload_id (bytes "."));
    not_dot_dot = ground (arith, text_eq_iff upload_id (bytes ".."));
    no_slash = ground arith;
    spelled = ground arith;
  },
  ground arith,
)

query_of :
    (query : Option Bytes)
    → refuses_query query ≡ false
    → (query ≡ none) ⊎ ((q : Bytes) × ((query ≡ some q) × (valid_upload_query q ≡ true)))
query_of none h = inl refl
query_of (some q) h = inr (q, (refl, ground (arith, h)))

digest_of : (s : Bytes) → is_valid (valid_digest s) ≡ true → IsSha256Digest s
digest_of s h = by_result (valid_digest s) refl h
  where
    by_result :
        (r : Result OciError Bytes) → valid_digest s ≡ r → is_valid r ≡ true → IsSha256Digest s
    by_result (ok t) e k = (valid_digest_sound s e).1
    by_result (err x) e k = cc

check_place_sound :
    (repository : Bytes) (target : PathAndQuery) (behind_uploads behind_blobs : Option Bytes)
    → strip_prefix (upload_prefix repository) target.path ≡ behind_uploads
    → strip_prefix (blob_prefix repository) target.path ≡ behind_blobs
    → check_place behind_uploads behind_blobs target.query ≡ ok tt
    → IsOwnPlace repository target
unfolding check_place
check_place_sound repository target (some upload_id) behind_blobs e f h =
    let (session, q) = IsSession-of upload_id target.query (fail_if-passes _ _ h) in
    inl (
      upload_id,
      (
        append_of_strip_prefix (upload_prefix repository) target.path e,
        (session, query_of target.query q),
      ),
    )
check_place_sound repository target none (some digest) e f h =
    let b = fail_if-passes _ _ h in
    inr (
      digest,
      (
        append_of_strip_prefix (blob_prefix repository) target.path f,
        (digest_of digest (ground (arith, b)), none_of target.query (ground (arith, b))),
      ),
    )
check_place_sound repository target none none e f h = cc

-- A location that is relayed is the path and query of an upload session or a blob of the configured
-- repository, of a location that is relative or has the scheme and the authority of the configured
-- origin: a client is never sent elsewhere.
pub rewrite_distribution_location_sound :
    (lib : Libraries) (origin repository location value : Bytes)
    → rewrite_distribution_location lib origin repository location ≡ ok value
    → (text : Bytes) × ((lib.to_str location ≡ some text)
        × ((uri : Uri) × ((lib.parse_uri text ≡ some uri)
              × (IsOwnOrigin lib origin uri
                  × ((target : PathAndQuery) × ((uri.path_and_query ≡ some target)
                        × (IsOwnPlace repository target
                            × (lib.from_str target.text ≡ some value))))))))
unfolding rewrite_distribution_location
rewrite_distribution_location_sound lib origin repository location value h =
    let (text, a, h₁) = ok_or->>=-eq-ok _ _ _ h in
    let (uri, b, h₂) = ok_or->>=-eq-ok _ _ _ h₁ in
    let (u, c, h₃) = >>=-eq-ok _ _ h₂ in
    let (target, d, h₄) = ok_or->>=-eq-ok _ _ _ h₃ in
    let (v, e, h₅) = >>=-eq-ok _ _ h₄ in
    (
      text,
      (
        a,
        (
          uri,
          (
            b,
            (
              check_origin_sound lib origin uri c,
              (
                target,
                (d, (check_place_sound repository target _ _ refl refl e, ok_or-eq-ok _ _ h₅)),
              ),
            ),
          ),
        ),
      ),
    )

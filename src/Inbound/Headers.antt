-- ===== src/Inbound/Headers.antt =====
-- Which header maps are admitted.
use github_oras_packages.Base.{
  ℕ, ◌+◌, ◌≤◌, ◌<◌, ◌≡◌, ◌↔◌, refl, Bool, true, false, not, Option, List, [], ◌∷◌, Bytes, bytes, ok,
  ◌>>=◌, arith, length, All, any, any_sound, any_complete, is_empty, is_ascii_control, u64_bound,
  fail_if-eq-ok, ok_or->>=-eq-ok, >>=-eq-ok, split,
}
use github_oras_packages.Http.{HeaderMap, IsHeaderMap, values_of}
use github_oras_packages.Inbound.{
  contains_forbidden_control, header_bytes, validate_content_length, is_nonzero, is_upgrade_token,
  connection_requests_upgrade, validate_headers_with_body,
}
use github_oras_packages.Inbound.Errors.{InboundLimits}
use github_oras_packages.Inbound.Framing.{
  IsDeclared, declared_length_sound, declared_length_complete,
}

-- The bytes of the fields as `name: value\r\n`.
pub serialized_size : List (Bytes × Bytes) → ℕ
serialized_size [] = 0
serialized_size ((name, value) ∷ fields) = length name + length value + 4 + serialized_size fields

-- A value with no control byte but the tab.
abbrev pub IsClean : Bytes → Type 0
IsClean value = All (λ c. (is_ascii_control c ≡ true) → c ≡ b'\t') value

IsClean-sound : (value : Bytes) → contains_forbidden_control value ≡ false → IsClean value
unfolding contains_forbidden_control
IsClean-sound = any_sound (λ c. (is_ascii_control c ≡ true) → c ≡ b'\t') _ (λ c h k. ground arith)

clean-Complete : (value : Bytes) → IsClean value → contains_forbidden_control value ≡ false
unfolding contains_forbidden_control
clean-Complete =
    any_complete (λ c. (is_ascii_control c ≡ true) → c ≡ b'\t') _ (λ c h. ground (arith, h))

header_bytes_sound :
    (start : ℕ) (fields : List (Bytes × Bytes)) {total : ℕ}
    → header_bytes start fields ≡ ok total
    → (total ≡ start + serialized_size fields) × All (λ f. IsClean f.1) fields
unfolding header_bytes serialized_size
header_bytes_sound start [] h = (ground arith, tt)
header_bytes_sound start ((name, value) ∷ fields) h =
    let (a, h₁) = fail_if-eq-ok _ _ _ h in
    let (next, e, h₂) = ok_or->>=-eq-ok _ _ _ h₁ in
    let (t, rest) = header_bytes_sound next fields h₂ in
    (ground (arith, e, t), (IsClean-sound value a, rest))

header_bytes_complete :
    (start : ℕ) (fields : List (Bytes × Bytes))
    → start + serialized_size fields < u64_bound
    → All (λ f. IsClean f.1) fields
    → header_bytes start fields ≡ ok (start + serialized_size fields)
unfolding header_bytes serialized_size ◌>>=◌
header_bytes_complete start [] h c = ground arith
header_bytes_complete start ((name, value) ∷ fields) h c = ground (
  arith,
  clean-Complete value c.0,
  header_bytes_complete (start + length name + 2 + length value + 2) fields,
  c,
)

-- A map that an edge policy admits, told from its fields alone.
pub record IsAdmitted (h : HeaderMap) (limits : InboundLimits) (allow_body : Bool) : Type 0 where
  pub few : length h.iter ≤ limits.max_header_count
  pub small : 2 + serialized_size h.iter ≤ limits.max_header_bytes
  pub clean : All (λ f. IsClean f.1) h.iter
  pub declared : Option ℕ
  pub declares : IsDeclared (values_of (bytes "content-length") h.iter) declared
  pub bodiless : allow_body ≡ false → is_nonzero declared ≡ false
  pub no_transfer : values_of (bytes "transfer-encoding") h.iter ≡ []
  pub no_expectation : values_of (bytes "expect") h.iter ≡ []
  pub no_upgrade : values_of (bytes "upgrade") h.iter ≡ []
  pub no_upgrade_token :
      All
        (λ value. All (λ t. is_upgrade_token t ≡ false) (split b',' value))
        (values_of (bytes "connection") h.iter)

abbrev NoUpgradeToken : Bytes → Type 0
NoUpgradeToken value = All (λ t. is_upgrade_token t ≡ false) (split b',' value)

tokens_sound :
    (values : List Bytes)
    → any (λ value. any is_upgrade_token (split b',' value)) values ≡ false
    → All NoUpgradeToken values
tokens_sound =
    any_sound NoUpgradeToken (λ value. any is_upgrade_token (split b',' value))
      (λ v h.
        any_sound (λ t. is_upgrade_token t ≡ false) is_upgrade_token (λ t k. k) (split b',' v) h)

tokens_complete :
    (values : List Bytes)
    → All NoUpgradeToken values
    → any (λ value. any is_upgrade_token (split b',' value)) values ≡ false
tokens_complete =
    any_complete NoUpgradeToken (λ value. any is_upgrade_token (split b',' value))
      (λ v h.
        any_complete (λ t. is_upgrade_token t ≡ false) is_upgrade_token (λ t k. k) (split b',' v) h)

nil_of_is_empty {ℓ} : {A : Type ℓ} (xs : List A) → not (is_empty xs) ≡ false → xs ≡ []
nil_of_is_empty [] h = refl
nil_of_is_empty (x ∷ xs) h = cc

module _ (h : HeaderMap) (lawful : IsHeaderMap h) (limits : InboundLimits) (allow_body : Bool) where
  absent_sound : (name : Bytes) → h.contains_key name ≡ false → values_of name h.iter ≡ []
  absent_sound name e =
      nil_of_is_empty (values_of name h.iter) (ground (arith, lawful.tells name, lawful.lists name))

  absent_complete : (name : Bytes) → values_of name h.iter ≡ [] → h.contains_key name ≡ false
  absent_complete name e = ground (arith, lawful.tells name, lawful.lists name)

  pub validate_headers_with_body_sound :
      validate_headers_with_body h limits allow_body ≡ ok tt → IsAdmitted h limits allow_body
  unfolding validate_headers_with_body validate_content_length connection_requests_upgrade
  validate_headers_with_body_sound e =
      let (a, e₁) = fail_if-eq-ok _ _ _ e in
      let (total, b, e₂) = >>=-eq-ok _ _ e₁ in
      let (c, e₃) = fail_if-eq-ok _ _ _ e₂ in
      let (u, d, e₄) = >>=-eq-ok _ _ e₃ in
      let (declared, f, d₁) = >>=-eq-ok _ _ d in
      let (g, d₂) = fail_if-eq-ok _ _ _ d₁ in
      let (i, e₅) = fail_if-eq-ok _ _ _ e₄ in
      let (j, e₆) = fail_if-eq-ok _ _ _ e₅ in
      let (k, e₇) = fail_if-eq-ok _ _ _ e₆ in
      let (size, clean) = header_bytes_sound 2 h.iter b in
      record {
        few = ground (arith, a, lawful.counts);
        small = ground (arith, c, size);
        clean = clean;
        declared = declared;
        declares =
            rw (← lawful.lists)
              (declared_length_sound (h.get_all (bytes "content-length")) declared f);
        bodiless = λ n. ground (arith, g, n);
        no_transfer = absent_sound (bytes "transfer-encoding") i;
        no_expectation = absent_sound (bytes "expect") j;
        no_upgrade = absent_sound (bytes "upgrade") (ground (arith, k));
        no_upgrade_token =
            rw (← lawful.lists) (tokens_sound (h.get_all (bytes "connection")) (ground (arith, k)));
      }

  pub validate_headers_with_body_complete :
      limits.max_header_bytes < u64_bound
      → IsAdmitted h limits allow_body
      → validate_headers_with_body h limits allow_body ≡ ok tt
  unfolding validate_headers_with_body validate_content_length connection_requests_upgrade ◌>>=◌
  validate_headers_with_body_complete small ad = ground (
    arith,
    lawful.counts,
    ad.few,
    ad.small,
    header_bytes_complete 2 h.iter (omega (arith, ad.small)) ad.clean,
    lawful.lists (bytes "content-length"),
    declared_length_complete (values_of (bytes "content-length") h.iter) ad.declared ad.declares,
    ad.bodiless,
    absent_complete (bytes "transfer-encoding") ad.no_transfer,
    absent_complete (bytes "expect") ad.no_expectation,
    absent_complete (bytes "upgrade") ad.no_upgrade,
    lawful.lists (bytes "connection"),
    tokens_complete (values_of (bytes "connection") h.iter) ad.no_upgrade_token,
  )

-- For a lawful header map and a limit of 64 bits, the checks pass exactly if the fields are at most
-- the allowed number, take at most the allowed bytes as `name: value` lines and the closing line
-- (summed with no wrap-around), hold no control byte but tabs, declare one length or none (a zero
-- one where no body is allowed), and ask for no transfer coding, expectation or upgrade.
pub validate_headers_with_body_iff :
    (h : HeaderMap) (limits : InboundLimits) (allow_body : Bool)
    → IsHeaderMap h
    → limits.max_header_bytes < u64_bound
    → (validate_headers_with_body h limits allow_body ≡ ok tt) ↔ IsAdmitted h limits allow_body
validate_headers_with_body_iff h limits allow_body lawful small = (
  validate_headers_with_body_sound h lawful limits allow_body,
  validate_headers_with_body_complete h lawful limits allow_body small,
)

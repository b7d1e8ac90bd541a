-- ===== src/Oci/Checks.antt =====
-- What the checks of descriptors and digests decide.
use github_oras_packages.Base.{
  ℕ, ◌≤◌, ◌≡◌, ◌↔◌, refl, Bool, not, ◌&&◌, true, false, [], ◌∷◌, ◌++◌, Bytes, bytes, ok, arith,
  length, all, any, is_ascii_hexdigit, is_ascii_uppercase, text_eq_iff, strip_prefix-append,
  append_of_strip_prefix, ◌>>=◌, fail_if-eq-ok, fail_if-passes, >>=-eq-ok, ok_or->>=-eq-ok,
}
use github_oras_packages.Libraries.{Libraries, digest_bytes, is_hex_digit}
use github_oras_packages.Oci.{
  Descriptor, valid_digest, is_bad_media_type, validate_descriptor, verify_descriptor,
}

-- `sha256:` and 64 lower-case hexadecimal digits.
pub record IsSha256Digest (s : Bytes) : Type 0 where
  pub hex : Bytes
  pub spelled : s ≡ bytes "sha256:" ++ hex
  pub long : length hex ≡ 64
  pub digits : all is_hex_digit hex ≡ true

pub record IsDescriptor (d : Descriptor) : Type 0 where
  pub addressed : IsSha256Digest d.digest
  pub bounded : d.size ≤ 67108864
  pub typed : is_bad_media_type d.media_type ≡ false

all_but_lem :
    (p q : ℕ → Bool) (s : Bytes)
    → (all (λ c. p c && not (q c)) s ≡ true) ↔ ((all p s ≡ true) × (any q s ≡ false))
all_but_lem p q [] = (λ h. (refl, refl), λ h. refl)
all_but_lem p q (c ∷ s) = ground (arith, all_but_lem p q s)

hex_digits_lem :
    (s : Bytes)
    → (all is_hex_digit s ≡ true)
      ↔ ((all is_ascii_hexdigit s ≡ true) × (any is_ascii_uppercase s ≡ false))
hex_digits_lem = all_but_lem is_ascii_hexdigit is_ascii_uppercase

pub valid_digest_sound :
    (s : Bytes) {t : Bytes} → valid_digest s ≡ ok t → (t ≡ s) × IsSha256Digest s
unfolding valid_digest
valid_digest_sound s h =
    let (hex, e, h₁) = ok_or->>=-eq-ok _ _ _ h in
    let (b, h₂) = fail_if-eq-ok _ _ _ h₁ in
    (
      ground (arith, h₂),
      record {
        hex = hex;
        spelled = append_of_strip_prefix (bytes "sha256:") s e;
        long = ground (arith, b);
        digits = (hex_digits_lem hex).1 (ground (arith, b), ground (arith, b));
      },
    )

pub valid_digest_complete : (s : Bytes) → IsSha256Digest s → valid_digest s ≡ ok s
unfolding valid_digest ◌>>=◌
valid_digest_complete s d =
    let (a, b) = (hex_digits_lem d.hex).0 d.digits in
    rw (d.spelled, strip_prefix-append (bytes "sha256:") d.hex) (ground (arith, d.long, a, b))

pub validate_descriptor_sound : (d : Descriptor) → validate_descriptor d ≡ ok tt → IsDescriptor d
unfolding validate_descriptor
validate_descriptor_sound d h =
    let (t, e, h₁) = >>=-eq-ok _ _ h in
    let (b, h₂) = fail_if-eq-ok _ _ _ h₁ in
    record {
      addressed = (valid_digest_sound d.digest e).1;
      bounded = ground (arith, b);
      typed = fail_if-passes _ _ h₂;
    }

pub validate_descriptor_complete : (d : Descriptor) → IsDescriptor d → validate_descriptor d ≡ ok tt
unfolding validate_descriptor ◌>>=◌
validate_descriptor_complete d i =
    ground (arith, valid_digest_complete d.digest i.addressed, i.bounded, i.typed)

-- What a blob must be to stand for a descriptor.
pub record IsContentOf (lib : Libraries) (content : Bytes) (d : Descriptor) : Type 0 where
  pub sized : d.size ≡ length content
  pub hashed : d.digest ≡ digest_bytes lib content
  pub spelled : IsSha256Digest d.digest

verify_descriptor_sound :
    (lib : Libraries) (d : Descriptor) (content : Bytes)
    → verify_descriptor lib d content ≡ ok tt
    → IsContentOf lib content d
unfolding verify_descriptor
verify_descriptor_sound lib d content h =
    let (a, h₁) = fail_if-eq-ok _ _ _ h in
    let (t, e, h₂) = >>=-eq-ok _ _ h₁ in
    let (same, valid) = valid_digest_sound d.digest e in
    let b = fail_if-passes _ _ h₂ in
    record {
      sized = ground (arith, a);
      hashed = ground (arith, b, same, text_eq_iff (digest_bytes lib content) t);
      spelled = valid;
    }

verify_descriptor_complete :
    (lib : Libraries) (d : Descriptor) (content : Bytes)
    → IsContentOf lib content d
    → verify_descriptor lib d content ≡ ok tt
unfolding verify_descriptor ◌>>=◌
verify_descriptor_complete lib d content i = ground (
  arith,
  i.sized,
  i.hashed,
  valid_digest_complete d.digest i.spelled,
  text_eq_iff (digest_bytes lib content) d.digest,
)

-- A blob is accepted for a descriptor exactly if the descriptor states the length of its bytes and
-- their SHA-256 digest, in the canonical spelling.
pub verify_descriptor_iff :
    (lib : Libraries) (d : Descriptor) (content : Bytes)
    → (verify_descriptor lib d content ≡ ok tt) ↔ IsContentOf lib content d
verify_descriptor_iff lib d content =
    (verify_descriptor_sound lib d content, verify_descriptor_complete lib d content)

-- ===== src/Autoindex/Paths.antt =====
-- Which paths the autoindex namespace has.
use github_oras_packages.Base.{
  ℕ, ◌≤◌, ◌≡◌, ◌≢◌, ◌⊎◌, ◌↔◌, inl, inr, refl, sym, ap, ◌∙◌, true, false, not, [], ◌∷◌, Bytes, bytes,
  ok, arith, ltb, length, All, any, any_sound, any_complete, is_empty, is_ascii, starts_with,
  text_eq_iff, ◌>>=◌, fail_if-eq-ok, >>=-eq-ok,
}
use github_oras_packages.Routing.{meaningful_segments}
use github_oras_packages.Autoindex.{
  is_safe_path_byte, RelativePath, forbidden, bad_segment, parse_relative, is_directory,
  parse_request_path, relative_or_root, VisibleObject, new_object,
}

abbrev pub IsSafeByte : ℕ → Type 0
IsSafeByte c = is_safe_path_byte c ≡ true

-- A segment that stays where it is: not empty and not a dot segment.
pub record IsSegmentName (s : Bytes) : Type 0 where
  pub named : is_empty s ≡ false
  pub not_dot : s ≢ bytes "."
  pub not_dot_dot : s ≢ bytes ".."

pub record IsRelativePath (p : Bytes) : Type 0 where
  pub not_empty : is_empty p ≡ false
  pub bounded : length p ≤ 4096
  pub relative : starts_with (bytes "/") p ≡ false
  pub safe : All IsSafeByte p
  pub some_segment : is_empty (meaningful_segments p) ≡ false
  pub few : length (meaningful_segments p) ≤ 128
  pub names : All IsSegmentName (meaningful_segments p)

safe_is_allowed : (c : ℕ) → is_safe_path_byte c ≡ true → (ltb c 128 ≡ true) × (forbidden c ≡ false)
unfolding is_safe_path_byte
safe_is_allowed c h = (ground arith, ground arith)

pub is_ascii_of_safe : (p : Bytes) → All IsSafeByte p → is_ascii p ≡ true
is_ascii_of_safe [] h = refl
is_ascii_of_safe (c ∷ p) h = ground (arith, safe_is_allowed c h.0, is_ascii_of_safe p h.1)

pub not-forbidden_of_safe : (p : Bytes) → All IsSafeByte p → any forbidden p ≡ false
not-forbidden_of_safe [] h = refl
not-forbidden_of_safe (c ∷ p) h =
    let (a, b) = safe_is_allowed c h.0 in let rest = not-forbidden_of_safe p h.1 in rw b rest

safe_sound : (p : Bytes) → any (λ c. not (is_safe_path_byte c)) p ≡ false → All IsSafeByte p
safe_sound = any_sound IsSafeByte (λ c. not (is_safe_path_byte c)) (λ c h. ground arith)

pub safe_complete : (p : Bytes) → All IsSafeByte p → any (λ c. not (is_safe_path_byte c)) p ≡ false
safe_complete = any_complete IsSafeByte (λ c. not (is_safe_path_byte c)) (λ c h. ground arith)

IsSegmentName-of : (s : Bytes) → bad_segment s ≡ false → IsSegmentName s
IsSegmentName-of s h = record {
  named = ground arith;
  not_dot = ground (arith, text_eq_iff s (bytes "."));
  not_dot_dot = ground (arith, text_eq_iff s (bytes ".."));
}

bad_segment_of : (s : Bytes) → IsSegmentName s → bad_segment s ≡ false
bad_segment_of s h = ground (arith, text_eq_iff s (bytes "."), text_eq_iff s (bytes ".."))

pub parse_relative_sound :
    (p : Bytes) {r : RelativePath} → parse_relative p ≡ ok r → (r.path ≡ p) × IsRelativePath p
unfolding parse_relative
parse_relative_sound p h =
    let (a, h₁) = fail_if-eq-ok _ _ _ h in
    let (b, h₂) = fail_if-eq-ok _ _ _ h₁ in
    (
      ground (arith, h₂),
      record {
        not_empty = ground (arith, a);
        bounded = ground (arith, a);
        relative = ground (arith, a);
        safe = safe_sound p (ground (arith, a));
        some_segment = ground (arith, b);
        few = ground (arith, b);
        names =
            any_sound IsSegmentName bad_segment IsSegmentName-of (meaningful_segments p)
              (ground (arith, b));
      },
    )

pub parse_relative_complete :
    (p : Bytes) → IsRelativePath p → parse_relative p ≡ ok (record { path = p })
unfolding parse_relative ◌>>=◌
parse_relative_complete p h = ground (
  arith,
  h.not_empty,
  h.bounded,
  h.relative,
  is_ascii_of_safe p h.safe,
  not-forbidden_of_safe p h.safe,
  safe_complete p h.safe,
  h.some_segment,
  h.few,
  any_complete IsSegmentName bad_segment bad_segment_of (meaningful_segments p) h.names,
)

relative_or_root_sound :
    (p : Bytes) {q : Bytes} → relative_or_root p ≡ ok q → (q ≡ p) × ((p ≡ []) ⊎ IsRelativePath p)
relative_or_root_sound [] h = (ground arith, inl refl)
relative_or_root_sound (c ∷ s) h =
    let (r, e, h₁) = >>=-eq-ok _ _ h in
    let (same, valid) = parse_relative_sound (c ∷ s) e in (ground (arith, h₁, same), inr valid)

parse_request_path_sound :
    (target : Bytes) (p : Bytes)
    → parse_request_path target ≡ ok p
    → (target ≡ b'/' ∷ p) × ((p ≡ []) ⊎ IsRelativePath p)
unfolding parse_request_path starts_with
parse_request_path_sound [] p h = let (a, h₁) = fail_if-eq-ok _ _ _ h in cc
parse_request_path_sound (c ∷ s) p h =
    let (a, h₁) = fail_if-eq-ok _ _ _ h in
    let (b, h₂) = fail_if-eq-ok _ _ _ h₁ in
    let (same, valid) = relative_or_root_sound s h₂ in (ground (arith, a, same), rw same valid)

parse_request_path_complete :
    (p : Bytes) → ((p ≡ []) ⊎ IsRelativePath p) → parse_request_path (b'/' ∷ p) ≡ ok p
unfolding parse_request_path starts_with is_safe_path_byte ◌>>=◌
parse_request_path_complete [] h = refl
parse_request_path_complete (c ∷ s) (inl e) = cc
parse_request_path_complete (c ∷ s) (inr h) = ground (
  arith,
  h.relative,
  not-forbidden_of_safe (c ∷ s) h.safe,
  safe_complete (c ∷ s) h.safe,
  parse_relative_complete (c ∷ s) h,
)

cons_path :
    (target p : Bytes)
    → target ≡ b'/' ∷ p
    → parse_request_path (b'/' ∷ p) ≡ ok p
    → parse_request_path target ≡ ok p
cons_path target p e h = rw e h

-- A request target is accepted exactly if it is a slash before the path that is returned, and that
-- path is empty, for the root, or a relative path: of 1 to 4096 safe bytes, with no leading slash
-- and 1 to 128 segments, none of them empty, `.` or `..`.
pub parse_request_path_iff :
    (target p : Bytes)
    → (parse_request_path target ≡ ok p) ↔ ((target ≡ b'/' ∷ p) × ((p ≡ []) ⊎ IsRelativePath p))
parse_request_path_iff target p = (
  parse_request_path_sound target p,
  λ h. cons_path target p h.0 (parse_request_path_complete p h.1),
)

-- A path of a visible object: relative, and not a directory.
pub record IsFilePath (p : Bytes) : Type 0 where
  pub relative : IsRelativePath p
  pub not_directory : is_directory (record { path = p }) ≡ false

abbrev pub made : Bytes → Bytes → Bytes → ℕ → VisibleObject
made p digest media_type size = record {
  title = record { path = p };
  digest = digest;
  media_type = media_type;
  size = size;
}

pub new_object_sound :
    (p d m : Bytes) (n : ℕ) (o : VisibleObject)
    → new_object p d m n ≡ ok o
    → IsFilePath p × (o ≡ made p d m n)
unfolding new_object
new_object_sound p d m n o h =
    let (r, e, h₁) = >>=-eq-ok _ _ h in
    let (a, h₂) = fail_if-eq-ok _ _ _ h₁ in
    let (same, valid) = parse_relative_sound p e in
    let whole : r ≡ record { path = p } = ground (arith, same) in
    (record { relative = valid; not_directory = rw (← whole) a }, ground (arith, h₂, same))

pub new_object_complete :
    (p d m : Bytes) (n : ℕ) → IsFilePath p → new_object p d m n ≡ ok (made p d m n)
unfolding new_object ◌>>=◌
new_object_complete p d m n f =
    ground (arith, parse_relative_complete p f.relative, f.not_directory)

-- An object is made exactly of a file path, and keeps that path and what else it is given.
pub new_object_iff :
    (p digest media_type : Bytes) (size : ℕ) (o : VisibleObject)
    → (new_object p digest media_type size ≡ ok o)
      ↔ (IsFilePath p × (o ≡ made p digest media_type size))
new_object_iff p d m n o =
    (new_object_sound p d m n o, λ (f, e). new_object_complete p d m n f ∙ ap ok (sym e))

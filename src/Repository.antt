-- ===== src/Repository.antt =====
-- `ValidatedRepository` of crates/github-oras-packages-proxy/src/routing.rs.
pub mod Grammar
pub mod Admission
use github_oras_packages.Base.{
  ℕ, Bool, true, false, not, ◌&&◌, ◌||◌, List, [], ◌∷◌, Bytes, Result, ok, err, ltb, length, any,
  elem, is_empty, is_ascii, is_ascii_lowercase, is_ascii_digit, split, if◌then◌else◌,
}
use github_oras_packages.Routing.Errors.{RouteError, invalid_repository}

abbrev pub max_repository_bytes : ℕ
max_repository_bytes = 255

abbrev pub max_repository_segments : ℕ
max_repository_segments = 32

pub record ValidatedRepository : Type 0 where
  pub name : Bytes

-- The bytes that a segment may begin with, and those that may separate two such bytes.
abbrev pub is_word : ℕ → Bool
is_word c = is_ascii_lowercase c || is_ascii_digit c

abbrev pub is_separator : ℕ → Bool
is_separator c = elem (b'.' ∷ b'_' ∷ b'-' ∷ []) c

-- The loop over the bytes after the first; the flag is `previous_was_separator`.
remainder_ok : Bool → Bytes → Bool
remainder_ok previous [] = not previous
remainder_ok previous (c ∷ s) =
    let word = remainder_ok false s in
    let separator = remainder_ok true s in
    if is_word c
    then word
    else if is_separator c
    then (if previous then false else separator)
    else false

unfoldable pub is_repository_segment : Bytes → Bool
unfolding remainder_ok
is_repository_segment [] = false
is_repository_segment (first ∷ remainder) =
    if not (is_ascii_lowercase first) && not (is_ascii_digit first)
    then false
    else remainder_ok false remainder

unfoldable pub parse_repository : Bytes → Result RouteError ValidatedRepository
unfolding is_repository_segment split
parse_repository repository =
    if is_empty repository
      || ltb max_repository_bytes (length repository)
      || not (is_ascii repository)
    then err invalid_repository
    else let segments = split b'/' repository in
      if ltb max_repository_segments (length segments)
        || any (λ segment. not (is_repository_segment segment)) segments
      then err invalid_repository
      else ok (record { name = repository })

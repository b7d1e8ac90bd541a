-- ===== src/RetryAfter.antt =====
-- The values that `Retry-After` may have, of crates/github-oras-packages-proxy/src/errors.rs.
use github_oras_packages.Base.{
  ℕ, ◌+◌, ◌-◌, ◌*◌, ◌^◌, ◌<◌, ◌≡◌, ◌↔◌, Bool, true, false, not, ◌&&◌, ◌||◌, Option, none, some,
  List, [], ◌∷◌, Bytes, bytes, arith, fold_digits, fold_digits_lem, decimal, ltb, leb, ◌==◌, length,
  get_elem?, take, drop, any, all, is_empty, is_ascii_digit, text_eq, if◌then◌else◌,
}

-- `bytes[start..end]`; every use stands behind a test of the length
abbrev slice : ℕ → ℕ → Bytes → Bytes
slice start end s = take (end - start) (drop start s)

abbrev is_byte : ℕ → Option ℕ → Bool
is_byte c none = false
is_byte c (some d) = d == c

-- `bytes[index] == c`
abbrev is_at : ℕ → Bytes → ℕ → Bool
is_at index s c = is_byte c (get_elem? s index)

abbrev one_of : List Bytes → Bytes → Bool
one_of words s = any (text_eq s) words

unfoldable pub valid_weekday : Bytes → Bool
valid_weekday = one_of (
    bytes "Sun"
    ∷ bytes "Mon"
    ∷ bytes "Tue"
    ∷ bytes "Wed"
    ∷ bytes "Thu"
    ∷ bytes "Fri"
    ∷ bytes "Sat"
    ∷ [])

unfoldable pub valid_long_weekday : Bytes → Bool
valid_long_weekday = one_of (
    bytes "Sunday"
    ∷ bytes "Monday"
    ∷ bytes "Tuesday"
    ∷ bytes "Wednesday"
    ∷ bytes "Thursday"
    ∷ bytes "Friday"
    ∷ bytes "Saturday"
    ∷ [])

unfoldable pub valid_month : Bytes → Bool
valid_month = one_of (
    bytes "Jan"
    ∷ bytes "Feb"
    ∷ bytes "Mar"
    ∷ bytes "Apr"
    ∷ bytes "May"
    ∷ bytes "Jun"
    ∷ bytes "Jul"
    ∷ bytes "Aug"
    ∷ bytes "Sep"
    ∷ bytes "Oct"
    ∷ bytes "Nov"
    ∷ bytes "Dec"
    ∷ [])

unfoldable pub two_digit_at_most : Bytes → ℕ → Bool
two_digit_at_most (c ∷ d ∷ []) maximum =
    all is_ascii_digit (c ∷ d ∷ []) && leb ((c - b'0') * 10 + (d - b'0')) maximum
two_digit_at_most s maximum = false

unfoldable pub valid_day : Bytes → Bool
valid_day (c ∷ d ∷ []) =
    all is_ascii_digit (c ∷ d ∷ [])
    && leb c b'3'
    && not (c == b'0' && d == b'0')
    && not (c == b'3' && ltb b'1' d)
valid_day s = false

unfoldable pub valid_time : Bytes → Bool
valid_time s =
    length s == 8
    && is_at 2 s b':'
    && is_at 5 s b':'
    && all is_ascii_digit (slice 0 2 s)
    && all is_ascii_digit (slice 3 5 s)
    && all is_ascii_digit (drop 6 s)
    && two_digit_at_most (slice 0 2 s) 23
    && two_digit_at_most (slice 3 5 s) 59
    && two_digit_at_most (drop 6 s) 59

unfoldable pub valid_imf_fixdate : Bytes → Bool
valid_imf_fixdate s =
    length s == 29
    && valid_weekday (slice 0 3 s)
    && is_at 3 s b','
    && is_at 4 s b' '
    && valid_day (slice 5 7 s)
    && is_at 7 s b' '
    && valid_month (slice 8 11 s)
    && is_at 11 s b' '
    && all is_ascii_digit (slice 12 16 s)
    && is_at 16 s b' '
    && valid_time (slice 17 25 s)
    && is_at 25 s b' '
    && text_eq (drop 26 s) (bytes "GMT")

-- `position` of the first comma
abbrev position : ℕ → Bytes → Option ℕ
position d [] = none
position d (c ∷ s) =
    let rest = position d s in
    if c == d then some 0 else elim rest [ none ↦ none | some i ↦ some (i + 1) ]

-- The checks of `valid_rfc850_date` behind the comma.
unfoldable pub valid_behind_comma : Bytes → Option ℕ → Bool
valid_behind_comma s none = false
valid_behind_comma s (some comma) =
    leb 6 comma
    && leb comma 8
    && valid_long_weekday (take comma s)
    && is_at (comma + 1) s b' '
    && length s == comma + 24
    && valid_day (slice (comma + 2) (comma + 4) s)
    && is_at (comma + 4) s b'-'
    && valid_month (slice (comma + 5) (comma + 8) s)
    && is_at (comma + 8) s b'-'
    && all is_ascii_digit (slice (comma + 9) (comma + 11) s)
    && is_at (comma + 11) s b' '
    && valid_time (slice (comma + 12) (comma + 20) s)
    && is_at (comma + 20) s b' '
    && text_eq (drop (comma + 21) s) (bytes "GMT")

unfoldable pub valid_rfc850_date : Bytes → Bool
valid_rfc850_date s = valid_behind_comma s (position b',' s)

abbrev is_digit_at : ℕ → Bytes → Bool
is_digit_at index s = all is_ascii_digit (slice index (index + 1) s)

unfoldable pub valid_asctime_date : Bytes → Bool
valid_asctime_date s =
    length s == 24
    && valid_weekday (slice 0 3 s)
    && is_at 3 s b' '
    && valid_month (slice 4 7 s)
    && is_at 7 s b' '
    && (is_digit_at 8 s || is_at 8 s b' ')
    && is_digit_at 9 s
    && is_at 10 s b' '
    && valid_time (slice 11 19 s)
    && is_at 19 s b' '
    && all is_ascii_digit (drop 20 s)

unfoldable pub valid_http_date : Bytes → Bool
valid_http_date s = valid_imf_fixdate s || valid_rfc850_date s || valid_asctime_date s

abbrev is_number : Option ℕ → Bool
is_number none = false
is_number (some n) = true

unfoldable pub valid_retry_after : Bytes → Bool
valid_retry_after s =
    if is_empty s
    then false
    else if all is_ascii_digit s
    then is_number (fold_digits 0 s)
    else valid_http_date s

-- A value of digits, at least one, is a valid `Retry-After` exactly if the number that it denotes
-- has 64 bits.
pub valid_retry_after-seconds :
    (s : Bytes)
    → is_empty s ≡ false
    → all is_ascii_digit s ≡ true
    → (valid_retry_after s ≡ true) ↔ (decimal s < 2 ^ 64)
unfolding valid_retry_after
valid_retry_after-seconds s n d =
    let same = fold_digits_lem 0 s (omega arith) in
    (ground (arith, n, d, same), ground (arith, n, d, same))

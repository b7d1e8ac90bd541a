-- ===== src/Base/Trim.antt =====
-- `str::trim` and the parsing of unsigned integers, on UTF-8 text.
use Prim.Native.Nat.{ℕ, ◌<◌}
use mathlib.Core.Path.{◌≡◌}
use native.Mathlib.Omega.{arith}
use mathlib.Core.Bool.{Bool, not, ◌&&◌, ◌||◌}
use mathlib.Core.Option.{Option, none, some}
use mathlib.Core.List.{[], ◌∷◌}
use github_oras_packages.Base.Tests.{ltb, ◌==◌, if◌then◌else◌}
use github_oras_packages.Base.Lists.{all}
use github_oras_packages.Base.Text.{Bytes, bytes, in_range, is_empty, is_ascii_digit, strip_prefix}
use github_oras_packages.Base.Machine.{decimal}

-- The bytes of the white space characters that have one, two and three bytes.
abbrev is_space : ℕ → Bool
is_space c = in_range 9 13 c || c == 32

abbrev is_space_2 : ℕ → ℕ → Bool
is_space_2 c d = c == 194 && (d == 133 || d == 160)

abbrev is_space_3 : ℕ → ℕ → ℕ → Bool
is_space_3 c d e =
    (c == 225 && d == 154 && e == 128)
    || (c == 226 && d == 128 && (in_range 128 138 e || e == 168 || e == 169 || e == 175))
    || (c == 226 && d == 129 && e == 159)
    || (c == 227 && d == 128 && e == 128)

unfoldable pub trim_start : Bytes → Bytes
trim_start [] = []
trim_start (c ∷ []) = if is_space c then [] else c ∷ []
trim_start (c ∷ d ∷ []) =
    let rest = trim_start (d ∷ []) in
    if is_space c then rest else if is_space_2 c d then [] else c ∷ d ∷ []
trim_start (c ∷ d ∷ e ∷ s) =
    let rest = trim_start (d ∷ e ∷ s) in
    let rest_2 = trim_start (e ∷ s) in
    let rest_3 = trim_start s in
    if is_space c
    then rest
    else if is_space_2 c d
    then rest_2
    else if is_space_3 c d e
    then rest_3
    else c ∷ d ∷ e ∷ s

unfoldable pub trim_end : Bytes → Bytes
trim_end [] = []
trim_end (c ∷ s) = let rest = trim_end s in if is_empty (trim_start (c ∷ s)) then [] else c ∷ rest

unfoldable pub trim : Bytes → Bytes
trim s = trim_end (trim_start s)

abbrev unsigned : Option Bytes → Bytes → Bytes
unsigned none s = s
unsigned (some t) s = t

-- `parse` into an unsigned type with `bound` values: digits, with a plus sign or without
unfoldable pub parse_unsigned : ℕ → Bytes → Option ℕ
parse_unsigned bound s =
    let digits = unsigned (strip_prefix (bytes "+") s) s in
    if is_empty digits || not (all is_ascii_digit digits)
    then none
    else if ltb (decimal digits) bound
    then some (decimal digits)
    else none

pub parse_unsigned-lt :
    (bound : ℕ) (s : Bytes) {n : ℕ} → parse_unsigned bound s ≡ some n → n < bound
unfolding parse_unsigned
parse_unsigned-lt bound s h = ground (arith, h)

-- ===== src/Base/Text.antt =====
-- Text as its bytes: `str`, `String` and `HeaderValue` are lists of bytes, and an ASCII literal is
-- read by `bytes`. The tests on bytes and the searches of Rust's standard library.
use Prim.Native.Nat.{ℕ, ◌+◌}
use Prim.Native.Char.{code}
use Prim.Native.String.{String}
use mathlib.Core.Path.{◌≡◌, refl}
use mathlib.Core.Logic.{◌≢◌, ◌↔◌}
use mathlib.Core.Bool.{Bool, true, false, ◌&&◌, ◌||◌}
use mathlib.Core.Option.{Option, none, some}
use mathlib.Core.List.{List, [], ◌∷◌, ◌++◌, map}
use native.Mathlib.Omega.{arith}
use github_oras_packages.Base.Tests.{leb, ltb, ◌==◌, if◌then◌else◌}
use github_oras_packages.Base.Lists.{all, any}

abbrev pub Bytes : Type 0
Bytes = List ℕ

abbrev pub bytes : String → Bytes
bytes String.[] = []
bytes (String.◌∷◌ c s) = code c ∷ bytes s

abbrev pub in_range : ℕ → ℕ → ℕ → Bool
in_range lo hi c = leb lo c && leb c hi

-- `u8::is_ascii_lowercase` and its like
abbrev pub is_ascii_lowercase : ℕ → Bool
is_ascii_lowercase = in_range b'a' b'z'

abbrev pub is_ascii_uppercase : ℕ → Bool
is_ascii_uppercase = in_range b'A' b'Z'

abbrev pub is_ascii_digit : ℕ → Bool
is_ascii_digit = in_range b'0' b'9'

abbrev pub is_ascii_alphanumeric : ℕ → Bool
is_ascii_alphanumeric c = is_ascii_lowercase c || is_ascii_uppercase c || is_ascii_digit c

abbrev pub is_ascii_hexdigit : ℕ → Bool
is_ascii_hexdigit c = is_ascii_digit c || in_range b'a' b'f' c || in_range b'A' b'F' c

abbrev pub is_ascii_control : ℕ → Bool
is_ascii_control c = ltb c 32 || c == 127

abbrev pub to_ascii_lowercase : ℕ → ℕ
to_ascii_lowercase c = if is_ascii_uppercase c then c + 32 else c

-- `str::is_ascii`
abbrev pub is_ascii : Bytes → Bool
is_ascii = all (λ c. ltb c 128)

abbrev pub is_empty {ℓ} : {A : Type ℓ} → List A → Bool
is_empty [] = true
is_empty (c ∷ s) = false

-- `one of`: the patterns of `matches!` and of `contains([…])`
abbrev pub elem : Bytes → ℕ → Bool
elem cs c = any (λ d. c == d) cs

abbrev pub contains_byte : ℕ → Bytes → Bool
contains_byte d = any (λ c. c == d)

unfoldable pub text_eq : Bytes → Bytes → Bool
text_eq [] [] = true
text_eq [] (d ∷ t) = false
text_eq (c ∷ s) [] = false
text_eq (c ∷ s) (d ∷ t) = c == d && text_eq s t

pub text_eq_iff : (s t : Bytes) → (text_eq s t ≡ true) ↔ (s ≡ t)
unfolding text_eq
text_eq_iff [] [] = (λ h. refl, λ h. refl)
text_eq_iff [] (d ∷ t) = (λ h. cc, λ h. cc)
text_eq_iff (c ∷ s) [] = (λ h. cc, λ h. cc)
text_eq_iff (c ∷ s) (d ∷ t) = ground (arith, text_eq_iff s t)

pub text_eq_refl : (s : Bytes) → text_eq s s ≡ true
text_eq_refl s = (text_eq_iff s s).1 refl

pub text_eq-ne : (s t : Bytes) → s ≢ t → text_eq s t ≡ false
text_eq-ne s t h = ground (arith, text_eq_iff s t)

unfoldable pub starts_with : Bytes → Bytes → Bool
starts_with [] s = true
starts_with (p ∷ ps) [] = false
starts_with (p ∷ ps) (c ∷ s) = p == c && starts_with ps s

-- `strip_prefix`
unfoldable pub strip_prefix : Bytes → Bytes → Option Bytes
strip_prefix [] s = some s
strip_prefix (p ∷ ps) [] = none
strip_prefix (p ∷ ps) (c ∷ s) = if p == c then strip_prefix ps s else none

pub strip_prefix-append : (p s : Bytes) → strip_prefix p (p ++ s) ≡ some s
unfolding strip_prefix
strip_prefix-append [] s = refl
strip_prefix-append (c ∷ p) s = ground (arith, strip_prefix-append p s)

pub append_of_strip_prefix : (p s : Bytes) {r : Bytes} → strip_prefix p s ≡ some r → s ≡ p ++ r
unfolding strip_prefix
append_of_strip_prefix [] s h = ground arith
append_of_strip_prefix (c ∷ p) [] h = cc
append_of_strip_prefix (c ∷ p) (d ∷ s) {r = r} h =
    ground (arith, append_of_strip_prefix p s {r = r})

pub starts_with-append : (p s : Bytes) → starts_with p (p ++ s) ≡ true
unfolding starts_with
starts_with-append [] s = refl
starts_with-append (c ∷ p) s = ground (arith, starts_with-append p s)

-- `starts_with` is the existence of a rest.
pub append_of_starts_with : (p s : Bytes) → starts_with p s ≡ true → (r : Bytes) × (s ≡ p ++ r)
unfolding starts_with
append_of_starts_with [] s h = (s, refl)
append_of_starts_with (c ∷ p) [] h = cc
append_of_starts_with (c ∷ p) (d ∷ s) h =
    let (r, e) = append_of_starts_with p s (ground arith) in (r, ground arith)

-- `ends_with` for one byte, and for a text
abbrev pub ends_with_byte : ℕ → Bytes → Bool
ends_with_byte d [] = false
ends_with_byte d (c ∷ []) = c == d
ends_with_byte d (c ∷ e ∷ s) = ends_with_byte d (e ∷ s)

unfoldable pub ends_with : Bytes → Bytes → Bool
ends_with p [] = text_eq p []
ends_with p (c ∷ s) = text_eq p (c ∷ s) || ends_with p s

-- `trim_ascii`: space, tab, newline, form feed and carriage return at both ends
abbrev pub is_ascii_whitespace : ℕ → Bool
is_ascii_whitespace c = elem (32 ∷ 9 ∷ 10 ∷ 12 ∷ 13 ∷ []) c

unfoldable pub trim_start_where : (ℕ → Bool) → Bytes → Bytes
trim_start_where p [] = []
trim_start_where p (c ∷ s) = if p c then trim_start_where p s else c ∷ s

unfoldable pub trim_end_where : (ℕ → Bool) → Bytes → Bytes
trim_end_where p [] = []
trim_end_where p (c ∷ s) = let t = trim_end_where p s in if is_empty t && p c then [] else c ∷ t

unfoldable pub trim_ascii : Bytes → Bytes
unfolding trim_start_where trim_end_where
trim_ascii s = trim_end_where is_ascii_whitespace (trim_start_where is_ascii_whitespace s)

unfoldable pub eq_ignore_ascii_case : Bytes → Bytes → Bool
unfolding text_eq
eq_ignore_ascii_case s t = text_eq (map to_ascii_lowercase s) (map to_ascii_lowercase t)

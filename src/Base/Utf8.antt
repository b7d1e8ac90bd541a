-- ===== src/Base/Utf8.antt =====
-- `std::str::from_utf8` as a test: the byte sequences that are well-formed UTF-8.
use Prim.Native.Nat.{ℕ}
use mathlib.Core.Path.{◌≡◌, refl}
use mathlib.Core.Bool.{Bool, true, false, ◌&&◌}
use mathlib.Core.Option.{Option, none, some}
use mathlib.Core.List.{List, [], ◌∷◌}
use native.Mathlib.Omega.{arith}
use github_oras_packages.Base.Tests.{ltb, ◌==◌, if◌then◌else◌}
use github_oras_packages.Base.Text.{Bytes, in_range, is_ascii}

abbrev continuation : ℕ × ℕ
continuation = (0x80, 0xbf)

-- The ranges of the bytes that must follow a leading byte.
utf8_follow : ℕ → Option (List (ℕ × ℕ))
utf8_follow c =
    if ltb c 0x80
    then some []
    else if in_range 0xc2 0xdf c
    then some (continuation ∷ [])
    else if c == 0xe0
    then some ((0xa0, 0xbf) ∷ continuation ∷ [])
    else if c == 0xed
    then some ((0x80, 0x9f) ∷ continuation ∷ [])
    else if in_range 0xe1 0xef c
    then some (continuation ∷ continuation ∷ [])
    else if c == 0xf0
    then some ((0x90, 0xbf) ∷ continuation ∷ continuation ∷ [])
    else if in_range 0xf1 0xf3 c
    then some (continuation ∷ continuation ∷ continuation ∷ [])
    else if c == 0xf4
    then some ((0x80, 0x8f) ∷ continuation ∷ continuation ∷ [])
    else none

utf8_from : List (ℕ × ℕ) → Bytes → Bool
utf8_from [] [] = true
utf8_from (r ∷ rs) [] = false
utf8_from [] (c ∷ s) = elim (utf8_follow c) [ none ↦ false | some rs ↦ utf8_from rs s ]
utf8_from ((lo, hi) ∷ rs) (c ∷ s) = in_range lo hi c && utf8_from rs s

unfoldable pub is_utf8 : Bytes → Bool
unfolding utf8_from utf8_follow
is_utf8 s = utf8_from [] s

-- ASCII text is UTF-8.
pub is_utf8_of_is_ascii : (s : Bytes) → is_ascii s ≡ true → is_utf8 s ≡ true
unfolding is_utf8
is_utf8_of_is_ascii [] h = refl
is_utf8_of_is_ascii (c ∷ s) h = ground (arith, is_utf8_of_is_ascii s)

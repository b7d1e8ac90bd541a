-- ===== src/Protocols/Laws.antt =====
-- The bit set behaves as a set, and protocol names are read back.
use github_oras_packages.Base.{
  ℕ, zero, suc, ◌<◌, ◌≡◌, refl, Bool, true, false, not, ok, arith, ltb, ltb→lt, Bytes, bytes,
  text_eq_iff, if◌then◌else◌,
}
use github_oras_packages.Protocols.{
  Protocol, pypi, rpm, apt, pacman, as_str, parse_protocol, EnabledProtocols, all_protocols,
  no_protocols, with_protocol, contains,
}

-- A name parses to the protocol that it names, and to nothing else.
pub parse_protocol-as_str : (p : Protocol) → parse_protocol (as_str p) ≡ ok p
unfolding parse_protocol as_str
parse_protocol-as_str pypi = refl
parse_protocol-as_str rpm = refl
parse_protocol-as_str apt = refl
parse_protocol-as_str pacman = refl

pub parse_protocol_sound :
    (value : Bytes) {p : Protocol} → parse_protocol value ≡ ok p → value ≡ as_str p
unfolding parse_protocol as_str
parse_protocol_sound value h = ground (
  arith,
  text_eq_iff value (bytes "pypi"),
  text_eq_iff value (bytes "rpm"),
  text_eq_iff value (bytes "apt"),
  text_eq_iff value (bytes "pacman"),
)

-- A test that is run at each number below a bound.
module _ (test : ℕ → Bool) where
  table : ℕ → Bool
  table zero = true
  table (suc k) = if test k then table k else false

  table_entry : (k x : ℕ) → x < k → table k ≡ true → test x ≡ true
  unfolding table
  table_entry zero x below full = absurd (omega arith)
  table_entry (suc k) x below full = ground (arith, table_entry k x)

same : Bool → Bool → Bool
same true b = b
same false b = not b

same_sound : (a b : Bool) → same a b ≡ true → a ≡ b
unfolding same
same_sound a b h = ground arith

abbrev set_of : ℕ → EnabledProtocols
set_of x = record { bits = x }

-- Setting the bit of `p` is seen at `p`, and nowhere else, in every byte.
sets_bit : Protocol → Protocol → Bool → ℕ → Bool
sets_bit p q hit x =
    same (contains (with_protocol (set_of x) p) q) (if hit then true else contains (set_of x) q)

abbrev pub equal : Protocol → Protocol → Bool
equal pypi pypi = true
equal rpm rpm = true
equal apt apt = true
equal pacman pacman = true
equal _ _ = false

sets_bit-table : (p q : Protocol) → table (sets_bit p q (equal p q)) 256 ≡ true
unfolding table sets_bit same contains with_protocol
sets_bit-table pypi pypi = refl
sets_bit-table pypi rpm = refl
sets_bit-table pypi apt = refl
sets_bit-table pypi pacman = refl
sets_bit-table rpm pypi = refl
sets_bit-table rpm rpm = refl
sets_bit-table rpm apt = refl
sets_bit-table rpm pacman = refl
sets_bit-table apt pypi = refl
sets_bit-table apt rpm = refl
sets_bit-table apt apt = refl
sets_bit-table apt pacman = refl
sets_bit-table pacman pypi = refl
sets_bit-table pacman rpm = refl
sets_bit-table pacman apt = refl
sets_bit-table pacman pacman = refl

pub equal_sound : (p q : Protocol) → equal p q ≡ true → p ≡ q
equal_sound pypi q h = ground arith
equal_sound rpm q h = ground arith
equal_sound apt q h = ground arith
equal_sound pacman q h = ground arith

pub contains-with_protocol :
    (s : EnabledProtocols) (p q : Protocol)
    → s.bits < 256
    → contains (with_protocol s p) q ≡ (if equal p q then true else contains s q)
contains-with_protocol s p q h =
    unfold sets_bit in
    same_sound _ _ (table_entry (sets_bit p q (equal p q)) 256 s.bits h (sets_bit-table p q))

fits : Protocol → ℕ → Bool
fits p x = ltb (with_protocol (set_of x) p).bits 256

fits_table : (p : Protocol) → table (fits p) 256 ≡ true
unfolding table fits with_protocol
fits_table pypi = refl
fits_table rpm = refl
fits_table apt = refl
fits_table pacman = refl

pub bits-with_protocol :
    (s : EnabledProtocols) (p : Protocol) → s.bits < 256 → (with_protocol s p).bits < 256
bits-with_protocol s p h =
    unfold fits in ltb→lt _ 256 (table_entry (fits p) 256 s.bits h (fits_table p))

contains-all_protocols : (p : Protocol) → contains all_protocols p ≡ true
unfolding contains all_protocols
contains-all_protocols pypi = refl
contains-all_protocols rpm = refl
contains-all_protocols apt = refl
contains-all_protocols pacman = refl

pub contains-no_protocols : (p : Protocol) → contains no_protocols p ≡ false
unfolding contains no_protocols
contains-no_protocols pypi = refl
contains-no_protocols rpm = refl
contains-no_protocols apt = refl
contains-no_protocols pacman = refl

-- Adding a frontend to a byte-wide set enables that frontend, leaves every other one as it was, and
-- stays within the byte; the full set holds every frontend and the empty set none.
pub with_protocol_enables :
    (s : EnabledProtocols) (p q : Protocol)
    → s.bits < 256
    → (contains (with_protocol s p) q ≡ (if equal p q then true else contains s q))
      × ((with_protocol s p).bits < 256)
      × (contains all_protocols q ≡ true)
      × (contains no_protocols q ≡ false)
with_protocol_enables s p q h = (
  contains-with_protocol s p q h,
  bits-with_protocol s p h,
  contains-all_protocols q,
  contains-no_protocols q,
)

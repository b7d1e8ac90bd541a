-- ===== src/Protocols.antt =====
-- The package protocols and the bit set of enabled frontends of
-- crates/github-oras-packages-proxy/src/routing.rs.
pub mod Laws
use Prim.Native.Nat.{bit_and, bit_or}
use github_oras_packages.Base.{
  ℕ, Bool, not, Bytes, bytes, text_eq, Result, ok, err, ◌==◌, if◌then◌else◌,
}
use github_oras_packages.Routing.Errors.{RouteError, unsupported_protocol}

pub data Protocol : Type 0 where
  pypi rpm apt pacman : Protocol

unfoldable pub as_str : Protocol → Bytes
as_str pypi = bytes "pypi"
as_str rpm = bytes "rpm"
as_str apt = bytes "apt"
as_str pacman = bytes "pacman"

unfoldable pub parse_protocol : Bytes → Result RouteError Protocol
unfolding text_eq
parse_protocol value =
    if text_eq value (bytes "pypi")
    then ok pypi
    else if text_eq value (bytes "rpm")
    then ok rpm
    else if text_eq value (bytes "apt")
    then ok apt
    else if text_eq value (bytes "pacman")
    then ok pacman
    else err unsupported_protocol

-- A set of protocols as the bits of a byte.
pub record EnabledProtocols : Type 0 where
  pub bits : ℕ

abbrev pub bit : Protocol → ℕ
bit pypi = 1
bit rpm = 2
bit apt = 4
bit pacman = 8

unfoldable pub all_protocols : EnabledProtocols
all_protocols = record { bits = bit_or (bit_or (bit_or 1 2) 4) 8 }

unfoldable pub no_protocols : EnabledProtocols
no_protocols = record { bits = 0 }

unfoldable pub with_protocol : EnabledProtocols → Protocol → EnabledProtocols
with_protocol s p = record { bits = bit_or s.bits (bit p) }

unfoldable pub contains : EnabledProtocols → Protocol → Bool
contains s p = not (bit_and s.bits (bit p) == 0)

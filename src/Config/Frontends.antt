-- ===== src/Config/Frontends.antt =====
-- Which frontends a configuration enables.
use github_oras_packages.Base.{
  ◌<◌, ◌≡◌, inl, inr, refl, sym, ap, ◌∙◌, Bool, false, ◌||◌, List, [], ◌∷◌, Bytes, bytes, ok, arith,
  any, text_eq, text_eq_iff, ok-inj, >>=-eq-ok, split, trim, trim_start, trim_end, Bool-cases,
}
use github_oras_packages.Protocols.{
  Protocol, pypi, rpm, apt, pacman, EnabledProtocols, as_str, contains, no_protocols, with_protocol,
}
use github_oras_packages.Protocols.Laws.{
  equal, contains-with_protocol, bits-with_protocol, contains-no_protocols,
}
use github_oras_packages.Config.{frontend, add_frontends, parse_protocols}

-- A piece of the list names a frontend, up to white space around it.
abbrev pub is_named : Protocol → List Bytes → Bool
is_named q pieces = any (λ piece. text_eq (trim piece) (as_str q)) pieces

frontend_sound : (name : Bytes) {p : Protocol} → frontend name ≡ ok p → name ≡ as_str p
unfolding frontend as_str
frontend_sound name h = ground (
  arith,
  h,
  text_eq_iff name (bytes "pypi"),
  text_eq_iff name (bytes "rpm"),
  text_eq_iff name (bytes "apt"),
  text_eq_iff name (bytes "pacman"),
)

text_eq-as_str : (p q : Protocol) → text_eq (as_str p) (as_str q) ≡ equal p q
unfolding text_eq as_str
text_eq-as_str pypi pypi = refl
text_eq-as_str pypi rpm = refl
text_eq-as_str pypi apt = refl
text_eq-as_str pypi pacman = refl
text_eq-as_str rpm pypi = refl
text_eq-as_str rpm rpm = refl
text_eq-as_str rpm apt = refl
text_eq-as_str rpm pacman = refl
text_eq-as_str apt pypi = refl
text_eq-as_str apt rpm = refl
text_eq-as_str apt apt = refl
text_eq-as_str apt pacman = refl
text_eq-as_str pacman pypi = refl
text_eq-as_str pacman rpm = refl
text_eq-as_str pacman apt = refl
text_eq-as_str pacman pacman = refl

add_frontends-contains :
    (q : Protocol) (start : EnabledProtocols) (pieces : List Bytes) {p : EnabledProtocols}
    → start.bits < 256
    → add_frontends start pieces ≡ ok p
    → contains p q ≡ (contains start q || is_named q pieces)
unfolding add_frontends
add_frontends-contains q start [] b h = ground (arith, ok-inj h)
add_frontends-contains q start (piece ∷ pieces) b h =
    let (f, e, h₁) = >>=-eq-ok _ _ h in
    let rest =
      add_frontends-contains q (with_protocol start f) pieces (bits-with_protocol start f b) h₁ in
    let here =
      ap (λ t. text_eq t (as_str q)) (frontend_sound (trim piece) e) ∙ text_eq-as_str f q in
    ground (arith, rest, here, contains-with_protocol start f q b)

none_is_unnamed : (q : Protocol) → is_named q (split b',' (bytes "none")) ≡ false
unfolding split trim trim_start trim_end text_eq as_str
none_is_unnamed pypi = refl
none_is_unnamed rpm = refl
none_is_unnamed apt = refl
none_is_unnamed pacman = refl

-- If a list of frontends is accepted, a frontend is enabled exactly if a piece of the list, between
-- commas and without the white space around it, is its name; `none` enables none.
pub parse_protocols-contains :
    (value : Bytes) (q : Protocol) {p : EnabledProtocols}
    → parse_protocols value ≡ ok p
    → contains p q ≡ is_named q (split b',' value)
unfolding parse_protocols
parse_protocols-contains value q h = elim (Bool-cases (text_eq value (bytes "none"))) [
  | inl e ↦
      ap (λ t. contains t q) (sym (ok-inj (rw e at h)))
      ∙ contains-no_protocols q
      ∙ sym (none_is_unnamed q)
      ∙ ap (λ t. is_named q (split b',' t)) (sym ((text_eq_iff value (bytes "none")).0 e))
  | inr e ↦
      add_frontends-contains q no_protocols (split b',' value) (unfold no_protocols in omega arith)
        (rw e at h)
      ∙ ap (λ t. t || is_named q (split b',' value)) (contains-no_protocols q)
]

-- ===== src/Routing/Paths.antt =====
-- Which protocol-relative paths are admitted.
use github_oras_packages.Base.{
  ◌≤◌, ◌≡◌, ◌≢◌, true, false, Bytes, bytes, ok, arith, length, All, any, any_sound, any_complete,
  is_ascii, is_ascii_control, is_empty, Lacks, text_eq_iff, fail_if-eq-ok, ◌>>=◌,
}
use github_oras_packages.Routing.{
  CanonicalProtocolPath, meaningful_segments, bad_path_segment, parse_protocol_path,
}

-- A segment that is a plain name: not empty, not a dot segment, without `;` and control bytes.
pub record IsPlain (s : Bytes) : Type 0 where
  pub named : is_empty s ≡ false
  pub not_dot : s ≢ bytes "."
  pub not_dot_dot : s ≢ bytes ".."
  pub no_parameter : Lacks b';' s
  pub printable : any is_ascii_control s ≡ false

pub record IsProtocolPath (p : Bytes) : Type 0 where
  pub bounded : length p ≤ 4096
  pub ascii : is_ascii p ≡ true
  pub not_empty : is_empty p ≡ false
  pub some_segment : is_empty (meaningful_segments p) ≡ false
  pub few : length (meaningful_segments p) ≤ 128
  pub plain : All IsPlain (meaningful_segments p)

IsPlain-of : (s : Bytes) → bad_path_segment s ≡ false → IsPlain s
unfolding bad_path_segment
IsPlain-of s h = record {
  named = ground arith;
  not_dot = ground (arith, text_eq_iff s (bytes "."));
  not_dot_dot = ground (arith, text_eq_iff s (bytes ".."));
  no_parameter = ground arith;
  printable = ground arith;
}

bad_path_segment_of : (s : Bytes) → IsPlain s → bad_path_segment s ≡ false
unfolding bad_path_segment
bad_path_segment_of s h = ground (arith, text_eq_iff s (bytes "."), text_eq_iff s (bytes ".."))

pub parse_protocol_path_sound :
    (p : Bytes) {c : CanonicalProtocolPath}
    → parse_protocol_path p ≡ ok c
    → (c.path ≡ p) × IsProtocolPath p
unfolding parse_protocol_path
parse_protocol_path_sound p h =
    let (a, h') = fail_if-eq-ok _ _ _ h in
    let (b, h'') = fail_if-eq-ok _ _ _ h' in
    (
      ground arith,
      record {
        bounded = ground arith;
        ascii = ground arith;
        not_empty = ground arith;
        some_segment = ground arith;
        few = ground arith;
        plain = any_sound IsPlain _ IsPlain-of (meaningful_segments p) (ground arith);
      },
    )

pub parse_protocol_path_complete :
    (p : Bytes) → IsProtocolPath p → parse_protocol_path p ≡ ok (record { path = p })
unfolding parse_protocol_path ◌>>=◌
parse_protocol_path_complete p h =
    ground (arith, any_complete IsPlain _ bad_path_segment_of (meaningful_segments p) h.plain)

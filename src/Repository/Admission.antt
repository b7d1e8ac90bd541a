-- ===== src/Repository/Admission.antt =====
-- Which repository names `ValidatedRepository::parse` admits.
use github_oras_packages.Base.{
  ◌≤◌, ◌≡◌, refl, ap, ◌∙◌, is_empty, ◌↔◌, true, false, not, List, [], ◌∷◌, Bytes, ok, arith, length,
  All, All-map, any, any_sound, any_complete, split, is_ascii, all_of_split,
}
use github_oras_packages.Repository.{ValidatedRepository, is_repository_segment, parse_repository}
use github_oras_packages.Repository.Grammar.{
  IsSegment, last, word, separated, is_repository_segment_iff,
}

-- At most 255 bytes and 32 segments, each of them a word of the grammar.
pub record IsRepository (r : Bytes) : Type 0 where
  pub bounded : length r ≤ 255
  pub few : length (split b'/' r) ≤ 32
  pub segments : All IsSegment (split b'/' r)

pub is_ascii_of_IsSegment : {s : Bytes} → IsSegment s → is_ascii s ≡ true
is_ascii_of_IsSegment (last c w) = ground arith
is_ascii_of_IsSegment (word c w g) = ground (arith, is_ascii_of_IsSegment g)
is_ascii_of_IsSegment (separated c d w v g) = ground (arith, is_ascii_of_IsSegment g)

pub is_ascii_of_IsRepository : {r : Bytes} → IsRepository r → is_ascii r ≡ true
is_ascii_of_IsRepository {r} h =
    all_of_split _ b'/' r refl (All-map IsSegment _ (λ s. is_ascii_of_IsSegment) _ h.segments)

not-IsSegment-nil : ¬ IsSegment []
not-IsSegment-nil h = ground_nil h refl
  where
    ground_nil : {s : Bytes} → IsSegment s → ¬ (s ≡ [])
    ground_nil (last c w) e = cc
    ground_nil (word c w g) e = cc
    ground_nil (separated c d w v g) e = cc

pub nonempty_of_IsRepository : (r : Bytes) → IsRepository r → is_empty r ≡ false
unfolding split
nonempty_of_IsRepository [] h = absurd (not-IsSegment-nil h.segments.0)
nonempty_of_IsRepository (c ∷ r) h = refl

segments_sound :
    (ss : List Bytes) → any (λ s. not (is_repository_segment s)) ss ≡ false → All IsSegment ss
segments_sound = any_sound IsSegment _ (λ s h. (is_repository_segment_iff s).0 (ground arith))

segments_complete :
    (ss : List Bytes) → All IsSegment ss → any (λ s. not (is_repository_segment s)) ss ≡ false
segments_complete = any_complete IsSegment _ (λ s h. ground (arith, is_repository_segment_iff s))

pub parse_repository_sound :
    (r : Bytes) {v : ValidatedRepository}
    → parse_repository r ≡ ok v
    → (v.name ≡ r) × IsRepository r
unfolding parse_repository
parse_repository_sound r h = (
  ground arith,
  record {
    bounded = ground arith;
    few = ground arith;
    segments = segments_sound (split b'/' r) (ground arith);
  },
)

pub parse_repository_complete :
    (r : Bytes) → IsRepository r → parse_repository r ≡ ok (record { name = r })
unfolding parse_repository
parse_repository_complete r h = ground (
  arith,
  is_ascii_of_IsRepository h,
  nonempty_of_IsRepository r h,
  segments_complete (split b'/' r) h.segments,
)

named : (v : ValidatedRepository) (r : Bytes) → v.name ≡ r → record { name = r } ≡ v
named v r e = ground arith

-- A name is admitted exactly if it has at most 255 bytes and 32 segments and each segment is a word
-- of the grammar; an admitted name is kept as it is.
pub parse_repository_iff :
    (r : Bytes) (v : ValidatedRepository)
    → (parse_repository r ≡ ok v) ↔ ((v.name ≡ r) × IsRepository r)
parse_repository_iff r v =
    (λ h. parse_repository_sound r h, λ h. parse_repository_complete r h.1 ∙ ap ok (named v r h.0))

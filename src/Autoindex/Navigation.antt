-- ===== src/Autoindex/Navigation.antt =====
-- Where the links of a listed directory lead.
use mathlib.Core.List.{Memᴰ, reverse, reverse-append, append_assoc}
use github_oras_packages.Base.{
  ◌≡◌, ◌⊎◌, refl, sym, ap, ◌∙◌, true, false, none, some, List, [], ◌∷◌, ◌++◌, Bytes, bytes, ok,
  arith, is_empty, ends_with_byte, split, split-append_any, split_of_Lacks, Lacks, trim_end_where,
  inl, inr, >>=-eq-ok, fail_if-eq-ok,
}
use github_oras_packages.Autoindex.{
  VisibleObject, Index, DirectoryEntry, directory, file, trim_slashes, checked_directory, children,
  is_directory, parse_relative,
}
use github_oras_packages.Autoindex.Collisions.{IsFiled, IsWellFormed}
use github_oras_packages.Autoindex.Listing.{All-mem}
use github_oras_packages.Autoindex.Children.{IsListed, children_iff}
use github_oras_packages.Autoindex.Html.{
  through_last_slash, or_empty, parent_directory, rsplit, entry_name, entry_path, entry_label,
}

-- A directory text: empty for the root, or with a slash at its end.
abbrev pub IsParent : Bytes → Type 0
IsParent d = (d ≡ []) ⊎ (ends_with_byte b'/' d ≡ true)

through_last_slash-none : (s : Bytes) → Lacks b'/' s → through_last_slash s ≡ none
unfolding through_last_slash
through_last_slash-none [] h = refl
through_last_slash-none (c ∷ s) h = ground (arith, through_last_slash-none s)

through_last_slash-append :
    (d s : Bytes)
    → Lacks b'/' s
    → ends_with_byte b'/' d ≡ true
    → through_last_slash (d ++ s) ≡ some d
unfolding through_last_slash
through_last_slash-append [] s l e = cc
through_last_slash-append (c ∷ []) s l e = ground (arith, through_last_slash-none s l)
through_last_slash-append (c ∷ b ∷ d) s l e =
    ground (arith, through_last_slash-append (b ∷ d) s l e)

trim_one_slash :
    (s : Bytes)
    → is_empty s ≡ false
    → ends_with_byte b'/' s ≡ false
    → trim_slashes (s ++ bytes "/") ≡ s
unfolding trim_end_where
trim_one_slash [] n e = cc
trim_one_slash (c ∷ []) n e = ground arith
trim_one_slash (c ∷ b ∷ s) n e = ground (arith, trim_one_slash (b ∷ s) refl e)

no_slash_in_name : (s : Bytes) → Lacks b'/' s → ends_with_byte b'/' s ≡ false
no_slash_in_name [] l = refl
no_slash_in_name (c ∷ []) l = ground arith
no_slash_in_name (c ∷ b ∷ s) l = no_slash_in_name (b ∷ s) (ground arith)

no_slash_last :
    (d s : Bytes)
    → Lacks b'/' s
    → is_empty s ≡ false
    → (ends_with_byte b'/' (d ++ s) ≡ false) × (is_empty (d ++ s) ≡ false)
no_slash_last [] s l n = (no_slash_in_name s l, n)
no_slash_last (c ∷ []) [] l n = cc
no_slash_last (c ∷ []) (b ∷ s) l n = (no_slash_in_name (b ∷ s) l, refl)
no_slash_last (c ∷ b ∷ d) s l n = ((no_slash_last (b ∷ d) s l n).0, refl)

slash_at_end : (d : Bytes) → ends_with_byte b'/' d ≡ true → (t : Bytes) × (d ≡ t ++ bytes "/")
slash_at_end [] e = cc
slash_at_end (c ∷ []) e = ([], ground arith)
slash_at_end (c ∷ b ∷ d) e = let (t, k) = slash_at_end (b ∷ d) e in (c ∷ t, ap (λ s. c ∷ s) k)

-- The last piece of a parent followed by a name is the name.
last_piece :
    (d s : Bytes) → IsParent d → Lacks b'/' s → (ss : List Bytes) × (rsplit (d ++ s) ≡ s ∷ ss)
unfolding rsplit
last_piece d s (inl e) l =
    ([], ap (λ t. reverse (split b'/' (t ++ s))) e ∙ ap (λ t. reverse t) (split_of_Lacks b'/' s l))
last_piece d s (inr e) l =
    let (t, k) = slash_at_end d e in
    (
      reverse (split b'/' t),
      ap (λ u. reverse (split b'/' (u ++ s))) k
          ∙ rw (append_assoc, split-append_any, split_of_Lacks b'/' s l)
              (reverse-append (split b'/' t) (s ∷ [])),
    )

module _ (d name : Bytes) (p : IsParent d) (lacks : Lacks b'/' name) where
  name_of_file : (o : VisibleObject) → o.title.path ≡ d ++ name → entry_name (file o) ≡ name
  unfolding entry_name
  name_of_file o e = let (ss, k) = last_piece d name p lacks in rw (e, k) refl

  name_of_directory : entry_name (directory (d ++ name ++ bytes "/")) ≡ name
  unfolding entry_name rsplit split
  name_of_directory =
      let (ss, k) = last_piece d name p lacks in
      let all_pieces : rsplit (d ++ name ++ bytes "/") ≡ [] ∷ name ∷ ss =
        ap (λ t. reverse t) (split-append_any b'/' (d ++ name) [])
        ∙ reverse-append (split b'/' (d ++ name)) ([] ∷ [])
        ∙ ap (λ t. [] ∷ t) k in
      rw all_pieces refl

  up : IsParent d → or_empty (through_last_slash (d ++ name)) ≡ d
  up (inl e) =
      ap or_empty (ap (λ t. through_last_slash (t ++ name)) e ∙ through_last_slash-none name lacks)
      ∙ sym e
  up (inr e) = ap or_empty (through_last_slash-append d name lacks e)

  parent_of_directory : is_empty name ≡ false → parent_directory (d ++ name ++ bytes "/") ≡ d
  unfolding parent_directory
  parent_of_directory n =
      let (last, some_) = no_slash_last d name lacks n in
      ap (λ t. or_empty (through_last_slash t)) (trim_one_slash (d ++ name) some_ last) ∙ up p

-- The link upwards on the page of a directory entry leads back.
abbrev pub LeadsBack : Bytes → DirectoryEntry → Type 0
LeadsBack d (directory path) = parent_directory path ≡ d
LeadsBack d (file o) = Unit

IsParent-of_checked : (d : Bytes) {e : Bytes} → checked_directory d ≡ ok e → IsParent d
unfolding checked_directory parse_relative is_directory
IsParent-of_checked [] h = inl refl
IsParent-of_checked (c ∷ s) h =
    let (p, a, h₁) = >>=-eq-ok _ _ h in
    let (b, h₂) = fail_if-eq-ok _ _ _ h₁ in
    let (_, h₃) = fail_if-eq-ok _ _ _ a in
    let (_, h₄) = fail_if-eq-ok _ _ _ h₃ in inr (ground (arith, b, h₄))

IsParent-of_children :
    (index : Index) (d : Bytes) {entries : List DirectoryEntry}
    → children index d ≡ ok entries
    → IsParent d
unfolding children
IsParent-of_children index d h = let (_, a, _) = >>=-eq-ok _ _ h in IsParent-of_checked d a

navigation_of_listed :
    (index : Index) (d : Bytes) (entry : DirectoryEntry)
    → IsWellFormed index
    → IsParent d
    → IsListed index d entry
    → (entry_path entry ≡ d ++ entry_label entry) × LeadsBack d entry
unfolding entry_path entry_label
navigation_of_listed index d (file o) w p (name, (mem, (lacks, named))) =
    let filed = (All-mem IsFiled w.filed mem).0 in
    (filed ∙ ap (λ t. d ++ t) (sym (name_of_file d name p lacks o filed)), tt)
navigation_of_listed index d (directory path) w p (name, (spelled, (lacks, named), _)) = (
  spelled
      ∙ append_assoc d name (bytes "/")
      ∙ ap (λ t. d ++ (t ++ bytes "/"))
          (sym (name_of_directory d name p lacks)
            ∙ ap (λ t. entry_name (directory t)) (sym spelled)),
  ap parent_directory spelled ∙ parent_of_directory d name p lacks named,
)

-- Of every entry that `children` lists for a directory of a well-formed index, the path that the page
-- links is the directory followed by the label that it shows, and the link upwards of a listed
-- directory's own page leads back to the directory.
pub children-navigation :
    (index : Index) (name : Bytes) (entries : List DirectoryEntry) (entry : DirectoryEntry)
    → IsWellFormed index
    → children index name ≡ ok entries
    → Memᴰ entry entries
    → (entry_path entry ≡ name ++ entry_label entry) × LeadsBack name entry
children-navigation index name entries entry w h mem =
    navigation_of_listed index name entry w (IsParent-of_children index name h)
      ((children_iff index name entries entry w h).0 mem)

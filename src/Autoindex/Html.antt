-- ===== src/Autoindex/Html.antt =====
-- The HTML page of a directory, of autoindex.rs.
use mathlib.Core.List.{reverse, append_assoc}
use github_oras_packages.Base.{
  ℕ, ◌+◌, ◌*◌, ◌≡◌, refl, sym, ap, ◌∙◌, not, Option, none, some, List, [], ◌∷◌, ◌++◌, Bytes, bytes,
  Result, ok, arith, ◌==◌, length, is_empty, ◌>>=◌, >>=-eq-ok, ok-inj, inl, inr, Bool-cases,
  if◌then◌else◌, split, get_elem?,
}
use github_oras_packages.Autoindex.{
  PathError, DirectoryEntry, directory, file, trim_slashes, checked_directory,
}

-- The replacement of one character.
unfoldable pub escaped : ℕ → Bytes
escaped c =
    if c == b'&'
    then bytes "&amp;"
    else if c == b'<'
    then bytes "&lt;"
    else if c == b'>'
    then bytes "&gt;"
    else if c == b'"'
    then bytes "&quot;"
    else if c == b'\''
    then bytes "&#39;"
    else c ∷ []

unfoldable pub escape_html : Bytes → Bytes
escape_html [] = []
escape_html (c ∷ s) = escaped c ++ escape_html s

-- The text up to and with the last slash, if there is one.
unfoldable pub through_last_slash : Bytes → Option Bytes
through_last_slash [] = none
through_last_slash (c ∷ s) = elim (through_last_slash s) [
  | some t ↦ some (c ∷ t)
  | none ↦ if c == b'/' then some (c ∷ []) else none
]

abbrev pub or_empty : Option Bytes → Bytes
or_empty none = []
or_empty (some s) = s

unfoldable pub parent_directory : Bytes → Bytes
parent_directory directory_text = or_empty (through_last_slash (trim_slashes directory_text))

-- `rsplit('/')`: the pieces from the last to the first
unfoldable pub rsplit : Bytes → List Bytes
rsplit s = reverse (split b'/' s)

unfoldable pub entry_name : DirectoryEntry → Bytes
entry_name (directory path) = or_empty (get_elem? (rsplit path) 1)
entry_name (file object) = or_empty (get_elem? (rsplit object.title.path) 0)

unfoldable pub entry_path : DirectoryEntry → Bytes
entry_path (directory path) = path
entry_path (file object) = object.title.path

unfoldable pub entry_label : DirectoryEntry → Bytes
entry_label (directory path) = entry_name (directory path) ++ bytes "/"
entry_label (file object) = entry_name (file object)

unfoldable pub render_entry : DirectoryEntry → Bytes
render_entry entry =
    bytes "<li><a href=\""
    ++ escape_html (bytes "/" ++ entry_path entry)
    ++ bytes "\">"
    ++ escape_html (entry_label entry)
    ++ bytes "</a></li>"

unfoldable pub render_entries : List DirectoryEntry → Bytes
render_entries [] = []
render_entries (entry ∷ entries) = render_entry entry ++ render_entries entries

unfoldable pub render_parent : Bytes → Bytes
render_parent directory_text =
    if not (is_empty directory_text)
    then bytes "<li><a href=\"/"
      ++ escape_html (parent_directory directory_text)
      ++ bytes "\">../</a></li>"
    else []

unfoldable pub render_directory_html : Bytes → List DirectoryEntry → Result PathError Bytes
render_directory_html directory_text entries = do
  checked ← checked_directory directory_text
  ok (
      bytes "<!doctype html><html><head><meta charset=\"utf-8\"><title>Index of /"
      ++ escape_html directory_text
      ++ bytes "</title></head><body><h1>Index of /"
      ++ escape_html directory_text
      ++ bytes "</h1><ul>"
      ++ render_parent directory_text
      ++ render_entries entries
      ++ bytes "</ul></body></html>\n")

-- How often a byte occurs.
unfoldable pub count : ℕ → Bytes → ℕ
count d [] = 0
count d (c ∷ s) = (if c == d then 1 else 0) + count d s

count-append : (d : ℕ) (s t : Bytes) → count d (s ++ t) ≡ count d s + count d t
unfolding count
count-append d [] t = omega arith
count-append d (c ∷ s) t = omega (arith, count-append d s t)

lt_replaced : (c : ℕ) → count b'<' (escaped c) ≡ 0
unfolding escaped count
lt_replaced c = ground arith

quote_replaced : (c : ℕ) → count b'"' (escaped c) ≡ 0
unfolding escaped count
quote_replaced c = ground arith

count-escape :
    (d : ℕ) → ((c : ℕ) → count d (escaped c) ≡ 0) → (s : Bytes) → count d (escape_html s) ≡ 0
unfolding escape_html count
count-escape d r [] = refl
count-escape d r (c ∷ s) =
    omega (arith, count-append d (escaped c) (escape_html s), r c, count-escape d r s)

-- The replaced text adds no such byte.
skip_lt : (s t : Bytes) → count b'<' (escape_html s ++ t) ≡ count b'<' t
skip_lt s t = omega (arith, count-append b'<' (escape_html s) t, count-escape b'<' lt_replaced s)

skip_quote : (s t : Bytes) → count b'"' (escape_html s ++ t) ≡ count b'"' t
skip_quote s t =
    omega (arith, count-append b'"' (escape_html s) t, count-escape b'"' quote_replaced s)

-- The links of a page: one for each entry, and one to the directory above unless it is the root.
abbrev pub links : Bytes → List DirectoryEntry → ℕ
links directory_text entries = length entries + (if is_empty directory_text then 0 else 1)

module _ (entry : DirectoryEntry) (t : Bytes) where
  abbrev behind_label : Bytes
  behind_label = bytes "</a></li>" ++ t

  abbrev behind_href : Bytes
  behind_href = bytes "\">" ++ (escape_html (entry_label entry) ++ behind_label)

  append_entry :
      render_entry entry ++ t
      ≡ bytes "<li><a href=\"" ++ (escape_html (bytes "/" ++ entry_path entry) ++ behind_href)
  unfolding render_entry
  append_entry = simp append_assoc refl

  lt_of_entry : count b'<' (render_entry entry ++ t) ≡ 4 + count b'<' t
  unfolding count
  lt_of_entry = omega (
    arith,
    ap (count b'<') append_entry,
    skip_lt (bytes "/" ++ entry_path entry) behind_href,
    skip_lt (entry_label entry) behind_label,
  )

  quote_of_entry : count b'"' (render_entry entry ++ t) ≡ 2 + count b'"' t
  unfolding count
  quote_of_entry = omega (
    arith,
    ap (count b'"') append_entry,
    skip_quote (bytes "/" ++ entry_path entry) behind_href,
    skip_quote (entry_label entry) behind_label,
  )

marks_of_entries :
    (entries : List DirectoryEntry) (t : Bytes)
    → (count b'<' (render_entries entries ++ t) ≡ 4 * length entries + count b'<' t)
      × (count b'"' (render_entries entries ++ t) ≡ 2 * length entries + count b'"' t)
unfolding render_entries
marks_of_entries [] t = (omega arith, omega arith)
marks_of_entries (entry ∷ entries) t =
    let (a, b) = marks_of_entries entries t in
    let e = append_assoc (render_entry entry) (render_entries entries) t in
    (
      omega (arith, a, ap (count b'<') e, lt_of_entry entry (render_entries entries ++ t)),
      omega (arith, b, ap (count b'"') e, quote_of_entry entry (render_entries entries ++ t)),
    )

module _ (directory_text t : Bytes) where
  lt_of_parent :
      count b'<' (render_parent directory_text ++ t)
      ≡ 4 * (if is_empty directory_text then 0 else 1) + count b'<' t
  unfolding render_parent count
  lt_of_parent = elim (Bool-cases (is_empty directory_text)) [
    | inl e ↦ rw e (omega arith)
    | inr e ↦
        rw (e, append_assoc)
          (omega (arith, skip_lt (parent_directory directory_text) (bytes "\">../</a></li>" ++ t)))
  ]

  quote_of_parent :
      count b'"' (render_parent directory_text ++ t)
      ≡ 2 * (if is_empty directory_text then 0 else 1) + count b'"' t
  unfolding render_parent count
  quote_of_parent = elim (Bool-cases (is_empty directory_text)) [
    | inl e ↦ rw e (omega arith)
    | inr e ↦
        rw (e, append_assoc)
          (omega
            (arith, skip_quote (parent_directory directory_text) (bytes "\">../</a></li>" ++ t)))
  ]

module _ (directory_text : Bytes) (entries : List DirectoryEntry) where
  abbrev page_end : Bytes
  page_end = bytes "</ul></body></html>\n"

  abbrev behind_list : Bytes
  behind_list =
      bytes "</h1><ul>" ++ (render_parent directory_text ++ (render_entries entries ++ page_end))

  abbrev behind_title : Bytes
  behind_title =
      bytes "</title></head><body><h1>Index of /" ++ (escape_html directory_text ++ behind_list)

  abbrev page : Bytes
  page =
      bytes "<!doctype html><html><head><meta charset=\"utf-8\"><title>Index of /"
      ++ (escape_html directory_text ++ behind_title)

  page_of_render :
      {html : Bytes} → render_directory_html directory_text entries ≡ ok html → html ≡ page
  unfolding render_directory_html
  page_of_render h =
      let (checked, _, h₁) = >>=-eq-ok _ _ h in sym (ok-inj h₁) ∙ simp append_assoc refl

  page_lt : count b'<' page ≡ 14 + 4 * links directory_text entries
  unfolding count
  page_lt = omega (
    arith,
    skip_lt directory_text behind_title,
    skip_lt directory_text behind_list,
    lt_of_parent directory_text (render_entries entries ++ page_end),
    (marks_of_entries entries page_end).0,
  )

  page_quote : count b'"' page ≡ 2 + 2 * links directory_text entries
  unfolding count
  page_quote = omega (
    arith,
    skip_quote directory_text behind_title,
    skip_quote directory_text behind_list,
    quote_of_parent directory_text (render_entries entries ++ page_end),
    (marks_of_entries entries page_end).1,
  )

-- No path or name can add markup to a rendered page: whatever the texts of the directory and of the
-- entries are, the page has 14 tags' `<` of its own and four for each link, and two quotes of its own
-- and two for each link.
pub render_directory_html-marks :
    (directory_text html : Bytes) (entries : List DirectoryEntry)
    → render_directory_html directory_text entries ≡ ok html
    → (count b'<' html ≡ 14 + 4 * links directory_text entries)
      × (count b'"' html ≡ 2 + 2 * links directory_text entries)
render_directory_html-marks directory_text html entries h =
    let e = page_of_render directory_text entries h in
    (
      ap (count b'<') e ∙ page_lt directory_text entries,
      ap (count b'"') e ∙ page_quote directory_text entries,
    )

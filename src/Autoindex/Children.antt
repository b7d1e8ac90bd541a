-- ===== src/Autoindex/Children.antt =====
-- The entries of `children` are exactly the first components below the directory.
use mathlib.Core.List.{Memᴰ}
use github_oras_packages.Base.{
  ◌≡◌, ◌≢◌, ◌↔◌, inl, inr, refl, sym, ap, subst, ◌∙◌, List, [], ◌∷◌, ◌++◌, Bytes, bytes, ok, arith,
  All, ends_with_byte, ok-inj, fail_if-eq-ok, >>=-eq-ok, map_get, map_insert-IsSorted, IsSorted,
  Bool-cases,
}
use github_oras_packages.Autoindex.{
  VisibleObject, Index, is_some, DirectoryEntry, directory, file, visit_object, collect_children,
  values, checked_directory, children, is_directory, parse_relative,
}
use github_oras_packages.Autoindex.Collisions.{Entry, IsFree, IsFiled, IsWellFormed}
use github_oras_packages.Autoindex.Listing.{All-mem, mem_of_map_get, IsFree-mem, ne_append_slash}
use github_oras_packages.Autoindex.Projection.{
  Listed, IsChild, Visit, outside, unnamed, as_file, below, visit_object-Visit, collect_sound,
  All-self,
}
use github_oras_packages.Autoindex.Completeness.{collect_file, collect_directory}

-- What a directory lists: a file of the index right below it, or a directory right below it that
-- holds a file of the index.
abbrev pub IsListed : Index → Bytes → DirectoryEntry → Type 0
IsListed index parent entry = (name : Bytes) × IsChild parent index.objects (name, entry)

mem_values : (m : List Listed) (k : Bytes) {v : DirectoryEntry} → Memᴰ (k, v) m → Memᴰ v (values m)
mem_values [] k h = elim h [ ]
mem_values (e ∷ m) k (Memᴰ.head p) = Memᴰ.head (ap (λ (t : Listed). t.1) p)
mem_values (e ∷ m) k (Memᴰ.tail h) = Memᴰ.tail (mem_values m k h)

values_mem :
    (m : List Listed) {v : DirectoryEntry} → Memᴰ v (values m) → (k : Bytes) × Memᴰ (k, v) m
values_mem [] h = elim h [ ]
values_mem ((k, w) ∷ m) (Memᴰ.head p) = (k, Memᴰ.head (ap (λ (t : DirectoryEntry). (k, t)) p))
values_mem (e ∷ m) (Memᴰ.tail h) = let (k, t) = values_mem m h in (k, Memᴰ.tail t)

All-of_mem {ℓ κ} :
    {A : Type ℓ} (P : A → Type κ) (xs : List A) → ((x : A) → Memᴰ x xs → P x) → All P xs
All-of_mem P [] h = tt
All-of_mem P (x ∷ xs) h = (h x (Memᴰ.head refl), All-of_mem P xs (λ y m. h y (Memᴰ.tail m)))

module _ (parent name : Bytes) (m : List Entry) (free : IsFree m) where
  only_of_mem :
      (o : VisibleObject)
      → Memᴰ (parent ++ name, o) m
      → All (λ (e : Entry). e.0 ≡ parent ++ name → e.1 ≡ o) m
  only_of_mem o mem =
      All-of_mem (λ (e : Entry). e.0 ≡ parent ++ name → e.1 ≡ o) m
        (λ e mem' same. elim (IsFree-mem m free mem' mem) [
          | inl p ↦ ap (λ (t : Entry). t.1) p
          | inr apart ↦ absurd (apart.differ same)
        ])

  no_file_of_mem :
      (o : VisibleObject) (rest : Bytes)
      → Memᴰ (parent ++ name ++ b'/' ∷ rest, o) m
      → All (λ (e : Entry). e.0 ≢ parent ++ name) m
  no_file_of_mem o rest mem =
      All-of_mem (λ (e : Entry). e.0 ≢ parent ++ name) m
        (λ e mem' same. elim (IsFree-mem m free mem' mem) [
          | inl p ↦ ne_append_slash (parent ++ name) rest (sym same ∙ ap (λ (t : Entry). t.0) p)
          | inr apart ↦ apart.not_below rest (ap (λ t. t ++ b'/' ∷ rest) (sym same))
        ])

module _ (index : Index) (w : IsWellFormed index) (parent : Bytes) where
  abbrev listing : List Listed
  listing = collect_children parent index.objects []

  collected_sound :
      (entry : DirectoryEntry) → Memᴰ entry (values listing) → IsListed index parent entry
  collected_sound entry mem =
      let (k, at_key) = values_mem listing mem in
      (
        k,
        All-mem (IsChild parent index.objects)
            (collect_sound parent index.objects index.objects [] (All-self index.objects) w.filed
              tt)
            at_key,
      )

  collected_complete :
      (entry : DirectoryEntry) → IsListed index parent entry → Memᴰ entry (values listing)
  unfolding map_get
  collected_complete (file o) (name, (mem, (lacks, named))) = mem_values listing name (
      mem_of_map_get name listing (
        collect_file parent name lacks named o index.objects [] mem w.filed
          (only_of_mem parent name index.objects w.free o mem)))
  collected_complete (directory path) (name, (spelled, (lacks, named), (rest, (o, mem)))) =
      subst (λ (t : Bytes). Memᴰ {A = DirectoryEntry} (directory t) (values listing)) (sym spelled)
        (mem_values listing name (
          mem_of_map_get name listing (
            collect_directory parent name lacks named o rest index.objects [] mem (inl refl) w.filed
              (no_file_of_mem parent name index.objects w.free o rest mem))))

Visit-IsSorted :
    (parent : Bytes) (o : VisibleObject) (entries out : List Listed)
    → IsSorted entries
    → Visit parent o entries out
    → IsSorted out
Visit-IsSorted parent o entries out s (outside _ e) = rw e s
Visit-IsSorted parent o entries out s (unnamed _ _ e) = rw e s
Visit-IsSorted parent o entries out s (as_file n _ _ _ e) =
    rw e (map_insert-IsSorted n (file o) entries s)
Visit-IsSorted parent o entries out s (below n _ _ _ _ e) =
    elim (Bool-cases (is_some (map_get n entries))) [
      | inl known ↦ rw (e, known) s
      | inr new ↦
          rw (e, new) (map_insert-IsSorted n (directory (parent ++ n ++ bytes "/")) entries s)
    ]

collect-IsSorted :
    (parent : Bytes) (objects : List Entry) (entries : List Listed)
    → All IsFiled objects
    → IsSorted entries
    → IsSorted (collect_children parent objects entries)
unfolding collect_children is_directory
collect-IsSorted parent [] entries f s = s
collect-IsSorted parent ((path, o) ∷ objects) entries f s =
    collect-IsSorted parent objects (visit_object parent o entries) f.1 (
      Visit-IsSorted parent o entries (visit_object parent o entries) s (
        visit_object-Visit parent o entries (ap (ends_with_byte b'/') f.0.0 ∙ f.0.1.not_directory)))

checked_directory-eq : (name : Bytes) {d : Bytes} → checked_directory name ≡ ok d → d ≡ name
unfolding checked_directory parse_relative
checked_directory-eq [] h = ground (arith, h)
checked_directory-eq (c ∷ s) h =
    let (p, a, h₁) = >>=-eq-ok _ _ h in
    let (_, h₂) = fail_if-eq-ok _ _ _ h₁ in
    let (_, h₃) = fail_if-eq-ok _ _ _ a in
    let (_, h₄) = fail_if-eq-ok _ _ _ h₃ in ground (arith, h₂, h₄)

-- If `children` answers for a directory of a well-formed index, its entries are exactly the files of
-- the index whose path is the directory followed by one name, and the directories one name deeper
-- that hold a file of the index at any depth, each in the text of its full path.
pub children_iff :
    (index : Index) (name : Bytes) (entries : List DirectoryEntry) (entry : DirectoryEntry)
    → IsWellFormed index
    → children index name ≡ ok entries
    → Memᴰ entry entries ↔ IsListed index name entry
unfolding children
children_iff index name entries entry w h =
    let (parent, a, h₁) = >>=-eq-ok _ _ h in
    let same : values (collect_children name index.objects []) ≡ entries =
      ap (λ t. values (collect_children t index.objects [])) (sym (checked_directory-eq name a))
      ∙ ok-inj h₁ in
    (
      λ mem.
          collected_sound index w name entry
            (subst (λ (t : List DirectoryEntry). Memᴰ {A = DirectoryEntry} entry t) (sym same) mem),
      λ l.
          subst (λ (t : List DirectoryEntry). Memᴰ {A = DirectoryEntry} entry t) same
            (collected_complete index w name entry l),
    )

-- ===== src/Queries.antt =====
-- The loops over the `key=value` parts of a query, of `valid_distribution_query` in
-- crates/github-oras-packages-proxy/src/proxy.rs and `valid_upload_query` in
-- crates/github-oras-packages-proxy/src/oci.rs: two keys, each at most once, each with a test of its
-- value.
use github_oras_packages.Base.{
  ◌≡◌, ◌≢◌, ◌⊎◌, inl, inr, refl, sym, ap, ◌∙◌, Bool, true, false, not, ◌&&◌, Option, none, some,
  List, [], ◌∷◌, ◌++◌, Bytes, arith, text_eq, text_eq_iff, split_once, split_once_sound,
  split_once-append, Lacks, if◌then◌else◌, Bool-cases, Option-cases,
}

pub record Key : Type 0 where
  pub name : Bytes
  pub admits : Bytes → Bool

abbrev pub matches : Key → Bool → Bytes → Bytes → Bool
matches key seen name value = text_eq name key.name && not seen && key.admits value

abbrev choose : {A : Type 0} → Bool → Bool → Option A → Option A → Option A
choose is_first is_second first second =
    if is_first then first else if is_second then second else none

-- What becomes of a part, with the rest of the loop behind each key.
abbrev by_pair :
    Key
    → Key
    → Bool
    → Bool
    → Option (Bytes × Bytes)
    → Option (Bool × Bool)
    → Option (Bool × Bool)
    → Option (Bool × Bool)
by_pair first second a b none with_first with_second = none
by_pair first second a b (some (name, value)) with_first with_second =
    choose (matches first a name value) (matches second b name value) with_first with_second

-- Which of the two keys were seen; `none` is the early `return false`.
unfoldable pub scan_parts : Key → Key → Bool → Bool → List Bytes → Option (Bool × Bool)
scan_parts first second a b [] = some (a, b)
scan_parts first second a b (part ∷ parts) =
    let with_first = scan_parts first second true b parts in
    let with_second = scan_parts first second a true parts in
    by_pair first second a b (split_once b'=' part) with_first with_second

-- A part that gives a value to a key.
abbrev pub IsPart : Key → Bytes → Type 0
IsPart key part = (value : Bytes) × ((part ≡ key.name ++ b'=' ∷ value) × (key.admits value ≡ true))

module _ (first second : Key) (lacks_1 : Lacks b'=' first.name) (lacks_2 : Lacks b'=' second.name)
    (differ : first.name ≢ second.name) where
  -- One round that goes on.
  step_sound :
      (a b : Bool) (part : Bytes) (parts : List Bytes) (found : Bool × Bool)
      → scan_parts first second a b (part ∷ parts) ≡ some found
      → ((a ≡ false) × (IsPart first part × (scan_parts first second true b parts ≡ some found)))
        ⊎ ((b ≡ false) × (IsPart second part × (scan_parts first second a true parts ≡ some found)))
  unfolding scan_parts
  step_sound a b part parts found h = elim (Option-cases (split_once b'=' part)) [
    | inl e ↦ absurd (let k = rw e at h in cc)
    | inr ((name, value), e) ↦
        let (cut, _) = split_once_sound b'=' part {a = name} {b = value} e in
        elim (Bool-cases (matches first a name value)) [
          | inl m ↦ inl (
            ground (arith, m),
            (
              (
                value,
                (
                  cut
                      ∙ ap (λ t. t ++ b'=' ∷ value)
                          ((text_eq_iff name first.name).0 (ground (arith, m))),
                  ground (arith, m),
                ),
              ),
              rw m at (rw e at h),
            ),
          )
          | inr m ↦ elim (Bool-cases (matches second b name value)) [
            | inl n ↦ inr (
              ground (arith, n),
              (
                (
                  value,
                  (
                    cut
                        ∙ ap (λ t. t ++ b'=' ∷ value)
                            ((text_eq_iff name second.name).0 (ground (arith, n))),
                    ground (arith, n),
                  ),
                ),
                rw n at (rw m at (rw e at h)),
              ),
            )
            | inr n ↦ absurd (let k = rw n at (rw m at (rw e at h)) in cc)
          ]
        ]
  ]

  step_first :
      (b : Bool) (part : Bytes) (parts : List Bytes)
      → IsPart first part
      → scan_parts first second false b (part ∷ parts) ≡ scan_parts first second true b parts
  unfolding scan_parts
  step_first b part parts (value, (e, ok_)) =
      rw (e, split_once-append b'=' first.name value lacks_1, ok_)
        (ground (arith, text_eq_iff first.name first.name))

  step_second :
      (a : Bool) (part : Bytes) (parts : List Bytes)
      → IsPart second part
      → scan_parts first second a false (part ∷ parts) ≡ scan_parts first second a true parts
  unfolding scan_parts
  step_second a part parts (value, (e, ok_)) =
      rw (e, split_once-append b'=' second.name value lacks_2, ok_)
        (ground (
          arith,
          text_eq_iff second.name first.name,
          text_eq_iff second.name second.name,
          λ (e : second.name ≡ first.name). differ (sym e),
        ))

  scan_done :
      (parts : List Bytes) (found : Bool × Bool)
      → scan_parts first second true true parts ≡ some found
      → (parts ≡ []) × (found ≡ (true, true))
  scan_done [] found h = unfold scan_parts in (refl, ground (arith, h))
  scan_done (p ∷ parts) found h = elim (step_sound true true p parts found h) [
    | inl (e, _) ↦ cc
    | inr (e, _) ↦ cc
  ]

  scan_with_first :
      (parts : List Bytes) (found : Bool × Bool)
      → scan_parts first second true false parts ≡ some found
      → ((parts ≡ []) × (found ≡ (true, false)))
        ⊎ ((q : Bytes) × (IsPart second q × ((parts ≡ q ∷ []) × (found ≡ (true, true)))))
  scan_with_first [] found h = unfold scan_parts in inl (refl, ground (arith, h))
  scan_with_first (p ∷ parts) found h = elim (step_sound true false p parts found h) [
    | inl (e, _) ↦ absurd (let k : true ≡ false = e in cc)
    | inr (_, (q, k)) ↦ let (e, f) = scan_done parts found k in inr (p, (q, (ap (λ t. p ∷ t) e, f)))
  ]

  scan_with_second :
      (parts : List Bytes) (found : Bool × Bool)
      → scan_parts first second false true parts ≡ some found
      → ((parts ≡ []) × (found ≡ (false, true)))
        ⊎ ((q : Bytes) × (IsPart first q × ((parts ≡ q ∷ []) × (found ≡ (true, true)))))
  scan_with_second [] found h = unfold scan_parts in inl (refl, ground (arith, h))
  scan_with_second (p ∷ parts) found h = elim (step_sound false true p parts found h) [
    | inl (_, (q, k)) ↦ let (e, f) = scan_done parts found k in inr (p, (q, (ap (λ t. p ∷ t) e, f)))
    | inr (e, _) ↦ absurd (let k : true ≡ false = e in cc)
  ]

  -- The lists of parts in which exactly the first, exactly the second, or both keys have a value.
  abbrev pub OnlyFirst : List Bytes → Type 0
  OnlyFirst parts = (p : Bytes) × (IsPart first p × (parts ≡ p ∷ []))

  abbrev pub OnlySecond : List Bytes → Type 0
  OnlySecond parts = (p : Bytes) × (IsPart second p × (parts ≡ p ∷ []))

  abbrev pub Both : List Bytes → Type 0
  Both parts =
      (p : Bytes) × ((q : Bytes) × (IsPart first p
          × (IsPart second q × ((parts ≡ p ∷ q ∷ []) ⊎ (parts ≡ q ∷ p ∷ [])))))

  pub scan_sound :
      (parts : List Bytes) (found : Bool × Bool)
      → scan_parts first second false false parts ≡ some found
      → ((parts ≡ []) × (found ≡ (false, false)))
        ⊎ ((OnlyFirst parts × (found ≡ (true, false)))
            ⊎ ((OnlySecond parts × (found ≡ (false, true)))
                ⊎ (Both parts × (found ≡ (true, true)))))
  scan_sound [] found h = unfold scan_parts in inl (refl, ground (arith, h))
  scan_sound (p ∷ parts) found h = elim (step_sound false false p parts found h) [
    | inl (_, (ip, k)) ↦ elim (scan_with_first parts found k) [
      | inl (e, f) ↦ inr (inl ((p, (ip, ap (λ t. p ∷ t) e)), f))
      | inr (q, (iq, (e, f))) ↦ inr (inr (inr ((p, (q, (ip, (iq, inl (ap (λ t. p ∷ t) e))))), f)))
    ]
    | inr (_, (ip, k)) ↦ elim (scan_with_second parts found k) [
      | inl (e, f) ↦ inr (inr (inl ((p, (ip, ap (λ t. p ∷ t) e)), f)))
      | inr (q, (iq, (e, f))) ↦ inr (inr (inr ((q, (p, (iq, (ip, inr (ap (λ t. p ∷ t) e))))), f)))
    ]
  ]

  scan_nil : (a b : Bool) → scan_parts first second a b [] ≡ some (a, b)
  unfolding scan_parts
  scan_nil a b = refl

  pub scan-OnlyFirst :
      (parts : List Bytes)
      → OnlyFirst parts
      → scan_parts first second false false parts ≡ some (true, false)
  scan-OnlyFirst parts (p, (i, e)) = rw e (step_first false p [] i ∙ scan_nil true false)

  pub scan-OnlySecond :
      (parts : List Bytes)
      → OnlySecond parts
      → scan_parts first second false false parts ≡ some (false, true)
  scan-OnlySecond parts (p, (i, e)) = rw e (step_second false p [] i ∙ scan_nil false true)

  pub scan-Both :
      (parts : List Bytes)
      → Both parts
      → scan_parts first second false false parts ≡ some (true, true)
  scan-Both parts (p, (q, (ip, (iq, inl e)))) =
      rw e (step_first false p (q ∷ []) ip ∙ step_second true q [] iq ∙ scan_nil true true)
  scan-Both parts (p, (q, (ip, (iq, inr e)))) =
      rw e (step_second false q (p ∷ []) iq ∙ step_first true p [] ip ∙ scan_nil true true)

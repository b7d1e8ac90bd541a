-- ===== src/Oci/Verified.antt =====
-- What a client receives of a stream that is verified against its descriptor.
use mathlib.Core.List.{append_assoc, append-nil}
use github_oras_packages.Base.{
  ℕ, ◌+◌, ◌≤◌, ◌≡◌, ◌↔◌, refl, ap, sym, ◌∙◌, inl, inr, true, false, List, [], ◌∷◌, ◌++◌, Bytes,
  Result, ok, arith, ltb, length, length-append, text_eq_iff, Bool-cases,
}
use github_oras_packages.Libraries.{Libraries, digest_bytes}
use github_oras_packages.Oci.{Descriptor}
use github_oras_packages.Oci.Errors.{OciError}
use github_oras_packages.Oci.Streams.{
  Arrives, Item, chunk, failure, Verifier, advance, delivered, fail, final_check, is_clean,
  new_verifier, saturating_add, verified_body, verify_items,
}

module _ (lib : Libraries) (expected : ℕ) (digest : Bytes) (small : expected ≤ 67108864) where
  abbrev run : Verifier → List Item → List (Result OciError Bytes)
  run = verify_items lib expected digest

  failed_dirty :
      (v : Verifier) (items : List Item) → v.failed ≡ true → is_clean (run v items) ≡ false
  unfolding verify_items final_check
  failed_dirty v [] f = rw f refl
  failed_dirty v (failure ∷ items) f = refl
  failed_dirty v (chunk content ∷ items) f = rw f refl

  -- What a verifier knows while nothing has failed.
  abbrev IsCounting : Verifier → Type 0
  IsCounting v = (v.failed ≡ false) × ((v.size ≡ length v.hasher) × (v.size ≤ expected))

  abbrev Complete : Bytes → Bytes → Type 0
  Complete hashed content =
      (length (hashed ++ content) ≡ expected) × (digest_bytes lib (hashed ++ content) ≡ digest)

  counted_next :
      (v : Verifier) (content : Bytes)
      → IsCounting v
      → ltb expected (saturating_add v.size (length content)) ≡ false
      → IsCounting (advance v content (saturating_add v.size (length content)))
  counted_next v content (f, (s, le)) h =
      (f, (ground (arith, length-append v.hasher content, s, h, small), ground (arith, h)))

  final_lem :
      (v : Verifier)
      → IsCounting v
      → (is_clean (final_check lib expected digest v) ≡ true) ↔ Complete v.hasher []
  unfolding final_check
  final_lem v (f, (s, le)) =
      rw (f, append-nil v.hasher)
        (ground (arith, s, text_eq_iff (digest_bytes lib v.hasher) digest))

  step_chunk :
      (v : Verifier) (content : Bytes) (items : List Item)
      → IsCounting v
      → ltb expected (saturating_add v.size (length content)) ≡ false
      → run v (chunk content ∷ items)
        ≡ ok content ∷ run (advance v content (saturating_add v.size (length content))) items
  unfolding verify_items
  step_chunk v content items (f, _) h = rw (f, h) refl

  step_over :
      (v : Verifier) (content : Bytes) (items : List Item)
      → ltb expected (saturating_add v.size (length content)) ≡ true
      → is_clean (run v (chunk content ∷ items)) ≡ false
  unfolding verify_items
  step_over v content items h = rw h (ground arith)

  delivered_nil : (v : Verifier) → delivered (run v []) ≡ []
  unfolding verify_items final_check
  delivered_nil v = ground arith

  run_nil :
      (v : Verifier)
      → is_clean (run v []) ≡ true
      → is_clean (final_check lib expected digest v) ≡ true
  unfolding verify_items
  run_nil v h = h

  clean_sound :
      (v : Verifier) (items : List Item)
      → IsCounting v
      → is_clean (run v items) ≡ true
      → (content : Bytes) × (Arrives items content
          × (Complete v.hasher content × (delivered (run v items) ≡ content)))
  clean_sound v [] k h = ([], (refl, ((final_lem v k).0 (run_nil v h), delivered_nil v)))
  clean_sound v (failure ∷ items) k h = unfold verify_items in cc
  clean_sound v (chunk first ∷ items) k h =
      elim (Bool-cases (ltb expected (saturating_add v.size (length first)))) [
        | inl over ↦ absurd (let n = sym h ∙ step_over v first items over in cc)
        | inr fits ↦
            let e = step_chunk v first items k fits in
            let (rest, (a, (c, d))) =
              clean_sound (advance v first (saturating_add v.size (length first))) items
                (counted_next v first k fits) (ground (arith, rw e at h)) in
            (
              first ++ rest,
              (
                (rest, (refl, a)),
                (
                  rw (← append_assoc v.hasher first rest) c,
                  ap delivered e ∙ ap (λ t. first ++ t) d,
                ),
              ),
            )
      ]

  clean-Complete :
      (v : Verifier) (items : List Item) (content : Bytes)
      → IsCounting v
      → Arrives items content
      → Complete v.hasher content
      → is_clean (run v items) ≡ true
  clean-Complete v [] content k a c = unfold verify_items in (final_lem v k).1 (rw a at c)
  clean-Complete v (failure ∷ items) content k a c = absurd a
  clean-Complete v (chunk first ∷ items) content k (rest, (e, a)) c =
      let whole : Complete (v.hasher ++ first) rest =
        rw (append_assoc v.hasher first rest) (rw e at c) in
      let fits : ltb expected (saturating_add v.size (length first)) ≡ false = ground (
        arith,
        small,
        k.1.0,
        whole.0,
        length-append (v.hasher ++ first) rest,
        length-append v.hasher first,
      ) in
      rw (step_chunk v first items k fits) (
        clean-Complete (advance v first (saturating_add v.size (length first))) items rest
          (counted_next v first k fits) a whole)

  delivered_failed :
      (v : Verifier) (items : List Item) → v.failed ≡ true → delivered (run v items) ≡ []
  unfolding verify_items final_check
  delivered_failed v [] f = ground (arith, f)
  delivered_failed v (failure ∷ items) f = delivered_failed (fail v) items refl
  delivered_failed v (chunk content ∷ items) f = rw f (delivered_failed (fail v) items refl)

  run_over :
      (v : Verifier) (content : Bytes) (items : List Item)
      → ltb expected (saturating_add v.size (length content)) ≡ true
      → delivered (run v (chunk content ∷ items)) ≡ delivered (run (fail v) items)
  unfolding verify_items
  run_over v content items h = elim (Bool-cases v.failed) [
    | inl f ↦ rw f refl
    | inr f ↦ rw (f, h) refl
  ]

  run_failure :
      (v : Verifier) (items : List Item)
      → delivered (run v (failure ∷ items)) ≡ delivered (run (fail v) items)
  unfolding verify_items
  run_failure v items = refl

  delivered_bounded :
      (v : Verifier) (items : List Item)
      → IsCounting v
      → v.size + length (delivered (run v items)) ≤ expected
  delivered_bounded v [] k = omega (arith, ap length (delivered_nil v), k.1.1)
  delivered_bounded v (failure ∷ items) k =
      rw (run_failure v items, delivered_failed (fail v) items refl) (omega (arith, k.1.1))
  delivered_bounded v (chunk content ∷ items) k =
      elim (Bool-cases (ltb expected (saturating_add v.size (length content)))) [
        | inl over ↦
            rw (run_over v content items over, delivered_failed (fail v) items refl)
              (omega (arith, k.1.1))
        | inr fits ↦
            let rest =
              delivered_bounded (advance v content (saturating_add v.size (length content))) items
                (counted_next v content k fits) in
            let same : saturating_add v.size (length content) ≡ v.size + length content =
              ground (arith, fits, small) in
            rw (step_chunk v content items k fits) (
              omega (
                arith,
                same,
                rest,
                length-append content (
                    delivered
                      (run (advance v content (saturating_add v.size (length content))) items)),
              ))
      ]

-- For a descriptor of at most 64 MiB, a client that reads a blob to its end sees no error exactly if
-- the transport delivers all of it, it has the size and the SHA-256 digest that the descriptor
-- states, and what was passed on is that content; and whatever arrives, no more bytes are passed on
-- than the descriptor states.
pub verified_body_lem :
    (lib : Libraries) (d : Descriptor) (items : List Item)
    → d.size ≤ 67108864
    → ((is_clean (verified_body lib d items) ≡ true) ↔ (
        (content : Bytes) × (Arrives items content
          × ((length content ≡ d.size)
              × ((digest_bytes lib content ≡ d.digest)
                  × (delivered (verified_body lib d items) ≡ content))))))
      × (length (delivered (verified_body lib d items)) ≤ d.size)
unfolding verified_body
verified_body_lem lib d items small = (
  (
    λ h.
        let (content, (a, ((l, g), e))) =
          clean_sound lib d.size d.digest small new_verifier items (refl, (refl, omega arith)) h in
        (content, (a, (l, (g, e)))),
    λ (content, (a, (l, (g, e)))).
        clean-Complete lib d.size d.digest small new_verifier items content
          (refl, (refl, omega arith)) a (l, g),
  ),
  omega (
    arith,
    delivered_bounded lib d.size d.digest small new_verifier items (refl, (refl, omega arith)),
  ),
)

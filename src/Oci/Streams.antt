-- ===== src/Oci/Streams.antt =====
-- The verified body of a blob, `verified_body` of crates/github-oras-packages-proxy/src/oci.rs: a
-- stream of chunks is passed on while it is measured and hashed.
use github_oras_packages.Base.{
  ℕ, ◌+◌, ◌-◌, ◌≡◌, Bool, true, false, not, ◌||◌, List, [], ◌∷◌, ◌++◌, Bytes, Result, ok, err, ltb,
  ◌==◌, length, all, text_eq, u64_bound, if◌then◌else◌,
}
use github_oras_packages.Libraries.{Libraries, digest_bytes}
use github_oras_packages.Oci.{Descriptor}
use github_oras_packages.Oci.Errors.{OciError, transport, invalid_descriptor}

-- An item of a stream: a chunk, or the failure of the transport.
pub data Item : Type 0 where
  chunk : Bytes → Item
  failure : Item

-- The hasher is the bytes that it was given.
pub record Verifier : Type 0 where
  pub hasher : Bytes
  pub size : ℕ
  pub failed : Bool

abbrev pub new_verifier : Verifier
new_verifier = record { hasher = []; size = 0; failed = false }

-- `u64::saturating_add`
abbrev pub saturating_add : ℕ → ℕ → ℕ
saturating_add a b = if ltb (a + b) u64_bound then a + b else u64_bound - 1

abbrev pub fail : Verifier → Verifier
fail v = record v { failed = true }

abbrev rejects : ℕ → Verifier → ℕ → Bool
rejects expected v next_size = v.failed || ltb expected next_size

abbrev pub advance : Verifier → Bytes → ℕ → Verifier
advance v content next_size = record {
  hasher = v.hasher ++ content;
  size = next_size;
  failed = v.failed;
}

-- The closure of `scan`: the state behind an item, and what is passed on for it.
unfoldable pub verify_item : ℕ → Verifier → Item → Verifier × Result OciError Bytes
verify_item expected v failure = (fail v, err transport)
verify_item expected v (chunk content) =
    let next_size = saturating_add v.size (length content) in
    if rejects expected v next_size
    then (fail v, err invalid_descriptor)
    else (advance v content next_size, ok content)

-- `final_check`: an error behind the last item, or nothing.
unfoldable pub final_check : Libraries → ℕ → Bytes → Verifier → List (Result OciError Bytes)
final_check lib expected digest v =
    if v.failed || not (v.size == expected)
    then err invalid_descriptor ∷ []
    else if not (text_eq (digest_bytes lib v.hasher) digest)
    then err invalid_descriptor ∷ []
    else []

unfoldable pub verify_items :
    Libraries → ℕ → Bytes → Verifier → List Item → List (Result OciError Bytes)
unfolding verify_item
verify_items lib expected digest v [] = final_check lib expected digest v
verify_items lib expected digest v (item ∷ items) =
    let next = verify_item expected v item in next.1 ∷ verify_items lib expected digest next.0 items

unfoldable pub verified_body : Libraries → Descriptor → List Item → List (Result OciError Bytes)
verified_body lib descriptor items =
    verify_items lib descriptor.size descriptor.digest new_verifier items

-- The bytes that are passed on.
abbrev pub delivered : List (Result OciError Bytes) → Bytes
delivered [] = []
delivered (ok content ∷ results) = content ++ delivered results
delivered (err e ∷ results) = delivered results

abbrev is_ok : Result OciError Bytes → Bool
is_ok (ok content) = true
is_ok (err e) = false

-- A client that reads to the end sees no error.
abbrev pub is_clean : List (Result OciError Bytes) → Bool
is_clean = all is_ok

-- The transport delivers chunks that join to `content`, and does not fail.
abbrev pub Arrives : List Item → Bytes → Type 0
Arrives [] content = content ≡ []
Arrives (failure ∷ items) content = ⊥
Arrives (chunk first ∷ items) content =
    (rest : Bytes) × ((content ≡ first ++ rest) × Arrives items rest)

-- ===== src/Http.antt =====
-- A request as hyper hands it to the program. The header map and the URI are of the `http` crate:
-- what the program reads of them are the fields of these records, and `IsHeaderMap` is what the
-- documentation of `HeaderMap` says of its queries.
use github_oras_packages.Base.{
  ℕ, ◌≡◌, Bool, not, Option, none, some, List, [], ◌∷◌, ◌++◌, ◌||◌, Bytes, text_eq, length,
  is_empty, if◌then◌else◌,
}

pub record HeaderMap : Type 0 where
  pub iter : List (Bytes × Bytes)
  pub len : ℕ
  pub get : Bytes → Option Bytes
  pub get_all : Bytes → List Bytes
  pub contains_key : Bytes → Bool

-- The values that stand under a name, in order.
unfoldable pub values_of : Bytes → List (Bytes × Bytes) → List Bytes
unfolding text_eq
values_of name [] = []
values_of name ((n, v) ∷ fields) =
    let others = values_of name fields in if text_eq n name then v ∷ others else others

abbrev pub first {ℓ} : {A : Type ℓ} → List A → Option A
first [] = none
first (x ∷ xs) = some x

pub record IsHeaderMap (h : HeaderMap) : Type 0 where
  pub counts : h.len ≡ length h.iter
  pub lists : (name : Bytes) → h.get_all name ≡ values_of name h.iter
  pub gets_first : (name : Bytes) → h.get name ≡ first (h.get_all name)
  pub tells : (name : Bytes) → h.contains_key name ≡ not (is_empty (h.get_all name))

-- `ended` is `is_end_stream` of the body; a method is its token.
pub record Request : Type 0 where
  pub has_scheme : Bool
  pub has_authority : Bool
  pub path_and_query : Option Bytes
  pub method : Bytes
  pub headers : HeaderMap
  pub ended : Bool

-- The map of a list of fields, in the order of its iteration.
abbrev pub header_map : List (Bytes × Bytes) → HeaderMap
header_map fields = record {
  iter = fields;
  len = length fields;
  get = λ name. first (values_of name fields);
  get_all = λ name. values_of name fields;
  contains_key = λ name. not (is_empty (values_of name fields));
}

-- `HeaderMap::insert`: the value takes the place of all values of its name.
abbrev without : Bytes → List (Bytes × Bytes) → List (Bytes × Bytes)
without name [] = []
without name ((n, v) ∷ fields) =
    let rest = without name fields in if text_eq n name then rest else (n, v) ∷ rest

unfoldable pub insert_header : Bytes → Bytes → HeaderMap → HeaderMap
insert_header name value headers = record {
  iter = without name headers.iter ++ (name, value) ∷ [];
  len = length (without name headers.iter ++ (name, value) ∷ []);
  get = λ n. if text_eq n name then some value else headers.get n;
  get_all = λ n. if text_eq n name then value ∷ [] else headers.get_all n;
  contains_key = λ n. text_eq n name || headers.contains_key n;
}

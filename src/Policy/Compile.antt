-- ===== src/Policy/Compile.antt =====
-- internal/policy/compile/compile.go. `uuid_string` is uuid.UUID.String of google/uuid. The order
-- of strings is Go's, by bytes, which on UTF-8 is the order of code points. sort.Strings and
-- sort.Slice are insertion here: both return the sorted arrangement, which is unique where only
-- equal texts belong to equal elements.
pub mod Order
mod Sort
pub mod Unique
pub mod Sealed
pub mod Canonical
pub mod Tests
use Prim.Native.Char.{code}
use Prim.Native.String.{String}
use package.text.Mathlib.Text.{◌==◌ as str_eq}
use permission_center_go.Common.{
  Bool, true, false, not, ◌||◌, List, [], ◌∷◌, ltb, if◌then◌else◌, Result, ok, err, failure, ◌>>◌,
}
use permission_center_go.Text.{trim_space, is_blank}
use permission_center_go.Policy.Model.{Uuid, Snapshot, authorization_type_valid}
use permission_center_go.Policy.Validate.{validate_condition}

-- s < t
unfoldable pub str_lt : String → String → Bool
str_lt String.[] String.[] = false
str_lt String.[] (String.◌∷◌ d t) = true
str_lt (String.◌∷◌ c s) String.[] = false
str_lt (String.◌∷◌ c s) (String.◌∷◌ d t) =
    let rest = str_lt s t in
    if ltb (code c) (code d) then true else if ltb (code d) (code c) then false else rest

module _ {ℓ} {A : Type ℓ} (less : A → A → Bool) where
  unfoldable pub insert : A → List A → List A
  insert x [] = x ∷ []
  insert x (y ∷ ys) = let rest = insert x ys in if less y x then y ∷ rest else x ∷ y ∷ ys

  unfoldable pub sort : List A → List A
  sort [] = []
  sort (x ∷ xs) = insert x (sort xs)

unfoldable pub is_found : List String → String → Bool
is_found [] value = false
is_found (x ∷ found) value = str_eq x value || is_found found value

-- The loop of uniqueStrings: `found` holds the texts of `result`.
unfoldable pub unique_from : List String → List String → List String
unique_from found [] = []
unique_from found (value ∷ values) =
    let trimmed = trim_space value in
    let skip = unique_from found values in
    let take = trimmed ∷ unique_from (trimmed ∷ found) values in
    if is_blank trimmed || is_found found trimmed then skip else take

unfoldable pub unique_strings : List String → List String
unique_strings values = unique_from [] values

module _ (uuid_string : Uuid → String) where
  unfoldable pub sort_endpoints : List Uuid → List Uuid
  sort_endpoints ids = sort (λ a b. str_lt (uuid_string a) (uuid_string b)) ids

  -- Snapshot. The endpoint identifiers are sorted in the caller's slice.
  pub compile_snapshot : Snapshot → Result Snapshot
  compile_snapshot value =
      validate_condition value.condition
      >> (if not (authorization_type_valid value.authorization_type)
          then err (failure "authorization_type must be api or data")
          else ok (record value {
            service_resource = trim_space value.service_resource;
            role_ids = sort str_lt (unique_strings value.role_ids);
            endpoint_ids = sort_endpoints value.endpoint_ids;
          }))

-- ===== src/Policy/Compile/Canonical.antt =====
-- A published snapshot does not depend on how its role and endpoint identifiers were written down.
use Prim.Native.String.{String}
use mathlib.Core.List
use mathlib.Core.List.{Permᴰ, Perm, Mem, Nodup, perm_ext_iff_of_Nodup}
use mathlib.Core.Logic.{∥∥₁_elim}
use mathlib.Core.HLevel.{hedberg}
use package.text.Mathlib.Text.{◌==◌ as str_eq}
use text.Mathlib.TextEquality.{eq_iff}
use permission_center_go.Common.{◌≡◌, ◌∙◌, sym, List, [], Bool-cases, inl, inr}
use permission_center_go.Text.{trim_space}
use permission_center_go.Policy.Model.{Uuid, Snapshot}
use permission_center_go.Policy.Compile.{
  str_lt, sort, sort_endpoints, unique_strings, compile_snapshot,
}
use permission_center_go.Policy.Compile.Order.{str_lt_irrefl, str_lt_trans, str_lt_antisymm}
use permission_center_go.Policy.Compile.Sort.{IsStrictOrder, sort-perm}
use permission_center_go.Policy.Compile.Unique.{names, Nodup-unique_from, mem-unique_strings_iff}

str_lt-IsStrictOrder : IsStrictOrder str_lt
str_lt-IsStrictOrder = record {
  irrefl = str_lt_irrefl;
  trans = str_lt_trans;
  antisymm = str_lt_antisymm;
}

String-discrete : Discrete String
String-discrete s t = elim (Bool-cases (str_eq s t)) [
  | inl same ↦ yes ((eq_iff s t).0 same)
  | inr other ↦ no (λ p. cc ((eq_iff s t).1 p))
]

String-set : IsSet String
String-set = hedberg String-discrete

unique_strings-perm :
    (xs ys : List String)
    → ((role : String) → names xs role ≡ names ys role)
    → Perm (unique_strings xs) (unique_strings ys)
unfolding unique_strings
unique_strings-perm xs ys same =
    (perm_ext_iff_of_Nodup (Nodup-unique_from [] xs) (Nodup-unique_from [] ys)).1 (λ role. (
      (λ m.
          (mem-unique_strings_iff ys role).1
            (sym (same role) ∙ (mem-unique_strings_iff xs role).0 m)),
      λ m. (mem-unique_strings_iff xs role).1 (same role ∙ (mem-unique_strings_iff ys role).0 m),
    ))

sort-unique_strings :
    (xs ys : List String)
    → ((role : String) → names xs role ≡ names ys role)
    → sort str_lt (unique_strings xs) ≡ sort str_lt (unique_strings ys)
sort-unique_strings xs ys same =
    ∥∥₁_elim (unique_strings-perm xs ys same) (List.is_set String-set _ _)
      (λ p. sort-perm str_lt-IsStrictOrder p)

module _ (uuid_string : Uuid → String)
    (injective : (a b : Uuid) → uuid_string a ≡ uuid_string b → a ≡ b) where
  uuid-IsStrictOrder : IsStrictOrder (λ a b. str_lt (uuid_string a) (uuid_string b))
  uuid-IsStrictOrder = record {
    irrefl = λ a. str_lt_irrefl (uuid_string a);
    trans = λ a b c. str_lt_trans (uuid_string a) (uuid_string b) (uuid_string c);
    antisymm = λ a b h k. injective a b (str_lt_antisymm (uuid_string a) (uuid_string b) h k);
  }

  -- Where the text of an identifier determines it: the same policy written down with its roles
  -- padded, repeated or in another order, its endpoints in another order and its service resource
  -- padded is compiled to the same snapshot, or refused with the same error.
  pub compile_snapshot-canonical :
      (value : Snapshot) (scope : String) (role_ids : List String) (endpoint_ids : List Uuid)
      → trim_space scope ≡ trim_space value.service_resource
      → ((role : String) → names role_ids role ≡ names value.role_ids role)
      → Permᴰ endpoint_ids value.endpoint_ids
      → compile_snapshot uuid_string (record value {
        service_resource = scope;
        role_ids = role_ids;
        endpoint_ids = endpoint_ids;
      })
        ≡ compile_snapshot uuid_string value
  unfolding compile_snapshot sort_endpoints
  compile_snapshot-canonical value scope role_ids endpoint_ids trimmed same arranged = rw (
    trimmed,
    sort-unique_strings role_ids value.role_ids same,
    sort-perm uuid-IsStrictOrder arranged,
  )

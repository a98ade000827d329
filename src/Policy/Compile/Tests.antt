-- ===== src/Policy/Compile/Tests.antt =====
-- The compiler of snapshots on the example policy. Identifiers are written in unary.
use Prim.Native.String.{String}
use mathlib.Core.List.{Mem, Permᴰ}
use permission_center_go.Common.{ok, ℕ, zero, suc, ◌≡◌, ◌↔◌, refl, ap, true, [], ◌∷◌, arith}
use permission_center_go.Text.{trim_space}
use permission_center_go.Policy.Model.{Snapshot, authorization_type_valid}
use permission_center_go.Policy.Examples.{allow_owner}
use permission_center_go.Policy.Compile.{
  unique_strings, unique_from, is_found, compile_snapshot, sort, sort_endpoints, insert,
}
use permission_center_go.Policy.Validate.{validate_condition}
use permission_center_go.Policy.Validate.Sound.{validate_condition_iff}
use permission_center_go.Policy.Validate.Tests.{owner_valid}
use permission_center_go.Policy.Compile.Sealed.{IsCompiled, compile_snapshot-IsCompiled}
use permission_center_go.Policy.Compile.Unique.{names, mem-unique_strings_iff}
use permission_center_go.Policy.Compile.Canonical.{compile_snapshot-canonical}

unary : ℕ → String
unary zero = ""
unary (suc n) = String.◌∷◌ "i" (unary n)

unary_injective : (a b : ℕ) → unary a ≡ unary b → a ≡ b
unfolding unary
unary_injective zero zero h = refl
unary_injective zero (suc b) h = cc
unary_injective (suc a) zero h = cc
unary_injective (suc a) (suc b) h = ap suc (unary_injective a b cc)

drops_repeats : unique_strings (" b" ∷ "a" ∷ "" ∷ "b" ∷ []) ≡ "b" ∷ "a" ∷ []
unfolding unique_strings unique_from trim_space is_found
drops_repeats = refl

mem-unique_strings_iff_example :
    Mem "b" (unique_strings (" b" ∷ "a" ∷ [])) ↔ (names (" b" ∷ "a" ∷ []) "b" ≡ true)
mem-unique_strings_iff_example = mem-unique_strings_iff (" b" ∷ "a" ∷ []) "b"

same_scope : trim_space " orders " ≡ trim_space allow_owner.service_resource
unfolding trim_space
same_scope = refl

same_names :
    (role : String)
    → names ("reader " ∷ "writer" ∷ "reader" ∷ []) role ≡ names allow_owner.role_ids role
unfolding trim_space
same_names role = ground arith

compile_snapshot-canonical_example :
    compile_snapshot unary (record allow_owner {
      service_resource = " orders ";
      role_ids = "reader " ∷ "writer" ∷ "reader" ∷ [];
      endpoint_ids = 7 ∷ 8 ∷ [];
    })
    ≡ compile_snapshot unary allow_owner
compile_snapshot-canonical_example =
    compile_snapshot-canonical unary unary_injective allow_owner " orders "
      ("reader " ∷ "writer" ∷ "reader" ∷ []) (7 ∷ 8 ∷ []) same_scope same_names
      (Permᴰ.swap refl refl)

-- The example with one role and one endpoint, which is compiled to itself.
abbrev pub single : Snapshot
single = record allow_owner { role_ids = "reader" ∷ []; endpoint_ids = 7 ∷ [] }

valid : validate_condition single.condition ≡ ok tt
valid = (validate_condition_iff single.condition).1 owner_valid

pub compiles : compile_snapshot (λ id. "") single ≡ ok single
unfolding compile_snapshot sort sort_endpoints unique_strings unique_from is_found trim_space
    authorization_type_valid insert
compiles = rw valid

compile_snapshot-IsCompiled_example : IsCompiled single single
compile_snapshot-IsCompiled_example = compile_snapshot-IsCompiled (λ id. "") single single compiles

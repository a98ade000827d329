-- ===== src/Policy/Eval/Closed.antt =====
-- The evaluator fails closed, whatever the snapshots hold.
use Prim.Native.String.{String}
use permission_center_go.Text.{trim_space, is_blank}
use permission_center_go.Common.{
  ap, ◌≡◌, ◌⊎◌, inl, inr, refl, Bool, true, false, ◌&&◌, some, none, arith, ok, List, [], ◌∷◌, Any,
  All, here, there, Option, Error, failure,
}
use permission_center_go.Policy.Model.{
  AuthorizationType, TargetKind, ActionKind, Decision, ReasonCode, Snapshot, Input, Answer,
  nil_uuid, authorization_type_valid, action_kind_valid,
}
use permission_center_go.Policy.Eval.{
  is_api_endpoint, is_applicable, is_complete, is_deny, add_match, denied, matches_optional,
  evaluate_from, evaluate_by_authorization_type, evaluate_strategy, evaluate,
}

-- An input that no policy can be asked about: each way in which a part of it is unknown or missing.
pub data IsMalformed (input : Input) : Type 0 where
  unknown_type :
      (other : String)
      → input.authorization_type ≡ AuthorizationType.unknown other
      → IsMalformed input
  blank_scope : trim_space input.service_resource ≡ "" → IsMalformed input
  blank_tenant : trim_space input.tenant_id ≡ "" → IsMalformed input
  blank_subject : trim_space input.subject.id ≡ "" → IsMalformed input
  unknown_target :
      (other : String) → input.resource.kind ≡ TargetKind.unknown other → IsMalformed input
  nil_endpoint : input.resource.endpoint_id ≡ nil_uuid → IsMalformed input
  unknown_action :
      (other : String) → input.action.kind ≡ ActionKind.unknown other → IsMalformed input

IsMalformed-refused :
    (input : Input)
    → IsMalformed input
    → (authorization_type_valid input.authorization_type && is_complete input) ≡ false
unfolding is_complete authorization_type_valid action_kind_valid
IsMalformed-refused input (unknown_type other e) = rw e
IsMalformed-refused input (blank_scope e) = ground (arith, ap is_blank e)
IsMalformed-refused input (blank_tenant e) = ground (arith, ap is_blank e)
IsMalformed-refused input (blank_subject e) = ground (arith, ap is_blank e)
IsMalformed-refused input (unknown_target other e) = ground (arith, ap is_api_endpoint e)
IsMalformed-refused input (nil_endpoint e) = ground arith
IsMalformed-refused input (unknown_action other e) = ground (arith, ap action_kind_valid e)

strategy_rejects :
    (type : AuthorizationType) (input : Input) (ss : List Snapshot)
    → (authorization_type_valid type && is_complete input) ≡ false
    → (e : Error) × (evaluate_strategy type input ss ≡ ok (denied ReasonCode.invalid_input, some e))
unfolding evaluate_strategy authorization_type_valid evaluate_by_authorization_type
strategy_rejects (AuthorizationType.unknown other) input ss h =
    (failure "authorization_type must be api or data", refl)
strategy_rejects _ input ss h =
    (failure "service_resource, tenant_id, subject.id and endpoint_id are required", ground arith)

-- An input whose authorization type, target kind or action kind is unknown, whose service resource,
-- tenant or subject is empty or blank, or whose endpoint is the nil identifier, is denied as invalid,
-- with an error, no matched policy and version 0, whatever the snapshots.
pub evaluate_rejects :
    (input : Input) (snapshots : List Snapshot)
    → IsMalformed input
    → (e : Error) × (evaluate input snapshots ≡ ok (denied ReasonCode.invalid_input, some e))
unfolding evaluate
evaluate_rejects input snapshots h =
    strategy_rejects input.authorization_type input snapshots (IsMalformed-refused input h)

-- A snapshot that grants: it applies, its condition was evaluated to true, and it does not deny.
pub record Grants (type : AuthorizationType) (input : Input) (s : Snapshot) : Type 0 where
  pub applies : is_applicable type input s ≡ true
  pub holds : matches_optional s.condition input ≡ ok true
  pub allows : is_deny s.effect ≡ false

-- The snapshot does not deny the input.
abbrev pub DoesNotDeny : AuthorizationType → Input → Snapshot → Type 0
DoesNotDeny type input s =
    is_applicable type input s ≡ true
    → is_deny s.effect ≡ true
    → matches_optional s.condition input ≡ ok false

module _ (type : AuthorizationType) (input : Input) where
  nil_step :
      (result : Answer) (allow : Bool) {a : Answer} {e : Option Error}
      → result.decision ≡ Decision.deny
      → evaluate_from type input result allow [] ≡ ok (a, e)
      → a.decision ≡ Decision.allow
      → (allow ≡ true) × (e ≡ none)
  unfolding evaluate_from
  nil_step result allow d h k = ground arith

  cons_step :
      (result : Answer) (allow : Bool) (s : Snapshot) (ss : List Snapshot) {a : Answer}
      {e : Option Error}
      → result.decision ≡ Decision.deny
      → evaluate_from type input result allow (s ∷ ss) ≡ ok (a, e)
      → a.decision ≡ Decision.allow
      → DoesNotDeny type input s
        × ((evaluate_from type input result allow ss ≡ ok (a, e))
            ⊎ (Grants type input s
                × (evaluate_from type input (add_match s result) true ss ≡ ok (a, e))))
  unfolding evaluate_from
  cons_step result allow s ss d h k = ground arith

  loop-Grants :
      (result : Answer) (allow : Bool) (ss : List Snapshot) {a : Answer} {e : Option Error}
      → result.decision ≡ Decision.deny
      → evaluate_from type input result allow ss ≡ ok (a, e)
      → a.decision ≡ Decision.allow
      → (e ≡ none) × All (DoesNotDeny type input) ss × ((allow ≡ true) ⊎ Any (Grants type input) ss)
  loop-Grants result allow [] d h k =
      let (allowed, clean) = nil_step result allow d h k in (clean, tt, inl allowed)
  loop-Grants result allow (s ∷ ss) d h k =
      let (safe, next) = cons_step result allow s ss d h k in
      elim next [
        | inl skipped ↦
            let (clean, all_safe, found) = loop-Grants result allow ss d skipped k in
            (
              clean,
              (safe, all_safe),
              elim found [ inl before ↦ inl before | inr later ↦ inr (there later) ],
            )
        | inr (grants, matched) ↦
            let (clean, all_safe, found) =
              loop-Grants (add_match s result) true ss (unfold add_match in d) matched k in
            (clean, (safe, all_safe), inr (here grants))
      ]

  by_type-Grants :
      (ss : List Snapshot) {a : Answer} {e : Option Error}
      → evaluate_by_authorization_type input ss type ≡ ok (a, e)
      → a.decision ≡ Decision.allow
      → (is_complete input ≡ true)
        × (e ≡ none)
        × All (DoesNotDeny type input) ss
        × Any (Grants type input) ss
  unfolding evaluate_by_authorization_type
  by_type-Grants ss h k =
      let complete : is_complete input ≡ true = ground arith in
      let (clean, all_safe, found) =
        loop-Grants (denied ReasonCode.default_deny) false ss refl (rw complete at h) k in
      (complete, clean, all_safe, elim found [ inl impossible ↦ cc | inr grants ↦ grants ])

strategy-Grants :
    (type : AuthorizationType) (input : Input) (ss : List Snapshot) {a : Answer} {e : Option Error}
    → evaluate_strategy type input ss ≡ ok (a, e)
    → a.decision ≡ Decision.allow
    → (authorization_type_valid type ≡ true)
      × (is_complete input ≡ true)
      × (e ≡ none)
      × All (DoesNotDeny type input) ss
      × Any (Grants type input) ss
unfolding evaluate_strategy authorization_type_valid
strategy-Grants AuthorizationType.api input ss h k =
    let (complete, clean, safe, grants) = by_type-Grants AuthorizationType.api input ss h k in
    (refl, complete, clean, safe, grants)
strategy-Grants AuthorizationType.object_data input ss h k =
    let (complete, clean, safe, grants) =
      by_type-Grants AuthorizationType.object_data input ss h k in
    (refl, complete, clean, safe, grants)
strategy-Grants (AuthorizationType.unknown other) input ss h k = absurd (ground arith)

-- Whatever the snapshots, validated or not: if the evaluator returns and its decision is to allow,
-- then the authorization type is known, the input is complete, there is no error, every applicable
-- snapshot that denies has a condition that was evaluated to false, and some applicable snapshot
-- that does not deny has a condition that was evaluated to true.
pub evaluate_allows :
    (input : Input) (snapshots : List Snapshot) (a : Answer) (e : Option Error)
    → evaluate input snapshots ≡ ok (a, e)
    → a.decision ≡ Decision.allow
    → (authorization_type_valid input.authorization_type ≡ true)
      × (is_complete input ≡ true)
      × (e ≡ none)
      × All (DoesNotDeny input.authorization_type input) snapshots
      × Any (Grants input.authorization_type input) snapshots
unfolding evaluate
evaluate_allows input snapshots a e h k =
    strategy-Grants input.authorization_type input snapshots h k

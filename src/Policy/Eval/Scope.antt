-- ===== src/Policy/Eval/Scope.antt =====
-- Snapshots of another scope, endpoint, role or authorization type take no part in a decision.
use text.Mathlib.TextEquality.{eq_iff}
use permission_center_go.Common.{◌≡◌, ◌≢◌, refl, Bool, true, false, arith, List, [], ◌∷◌, ◌++◌}
use permission_center_go.Policy.Model.{AuthorizationType, Snapshot, Input, Answer}
use permission_center_go.Policy.Eval.{
  is_applicable, has_endpoint, has_role, add_match, evaluate_from, evaluate_by_authorization_type,
  evaluate_strategy, evaluate,
}

-- Why a snapshot has no say in the decision about an input.
pub data IsForeign (input : Input) (s : Snapshot) : Type 0 where
  other_scope : s.service_resource ≢ input.service_resource → IsForeign input s
  other_endpoint :
      has_endpoint s.endpoint_ids input.resource.endpoint_id ≡ false → IsForeign input s
  no_shared_role : has_role s.role_ids input.subject.role_ids ≡ false → IsForeign input s

foreign-not_applicable :
    (type : AuthorizationType) (input : Input) (s : Snapshot)
    → IsForeign input s
    → is_applicable type input s ≡ false
unfolding is_applicable
foreign-not_applicable type input s (other_scope h) =
    ground (arith, eq_iff s.service_resource input.service_resource)
foreign-not_applicable type input s (other_endpoint h) = ground arith
foreign-not_applicable type input s (no_shared_role h) = ground arith

-- The loop passes over it, wherever it stands.
loop-drop :
    (type : AuthorizationType) (input : Input) (s : Snapshot)
    → is_applicable type input s ≡ false
    → (result : Answer) (allow : Bool) (xs ys : List Snapshot)
    → evaluate_from type input result allow (xs ++ s ∷ ys)
      ≡ evaluate_from type input result allow (xs ++ ys)
unfolding evaluate_from
loop-drop type input s h result allow [] ys = rw h
loop-drop type input s h result allow (x ∷ xs) ys = ground (
  arith,
  loop-drop type input s h result allow xs ys,
  loop-drop type input s h (add_match x result) true xs ys,
)

strategy-drop :
    (type : AuthorizationType) (input : Input) (s : Snapshot) (xs ys : List Snapshot)
    → IsForeign input s
    → evaluate_strategy type input (xs ++ s ∷ ys) ≡ evaluate_strategy type input (xs ++ ys)
unfolding evaluate_strategy evaluate_by_authorization_type
strategy-drop (AuthorizationType.unknown other) input s xs ys h = refl
strategy-drop AuthorizationType.api input s xs ys h = rw (
    loop-drop AuthorizationType.api input s
      (foreign-not_applicable AuthorizationType.api input s h))
strategy-drop AuthorizationType.object_data input s xs ys h = rw (
    loop-drop AuthorizationType.object_data input s
      (foreign-not_applicable AuthorizationType.object_data input s h))

-- A snapshot of another service resource, of other endpoints or of roles that the subject does not
-- have changes nothing, wherever it stands in the list: neither the answer nor the error.
pub evaluate-drop_foreign :
    (input : Input) (xs ys : List Snapshot) (s : Snapshot)
    → IsForeign input s
    → evaluate input (xs ++ s ∷ ys) ≡ evaluate input (xs ++ ys)
unfolding evaluate
evaluate-drop_foreign input xs ys s h = strategy-drop input.authorization_type input s xs ys h

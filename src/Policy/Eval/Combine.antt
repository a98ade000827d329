-- ===== src/Policy/Eval/Combine.antt =====
-- The loop of the evaluator combines the matching snapshots as Spec says.
use permission_center_go.Common.{
  ◌≡◌, refl, ap, ◌∙◌, Bool, true, false, not, ◌||◌, none, arith, ok, Bool-cases, inl, inr, List, [],
  ◌∷◌, ◌++◌, keep, All, is_empty, max,
}
use mathlib.Core.List.{append-nil, append_assoc}
use permission_center_go.Policy.Model.{
  AuthorizationType, Decision, ReasonCode, Snapshot, Input, Answer, authorization_type_valid,
}
use permission_center_go.Policy.Validate.Shape.{IsPolicyCondition}
use permission_center_go.Policy.Eval.{
  is_deny, add_match, evaluate_from, is_complete, evaluate, denied, evaluate_by_authorization_type,
  evaluate_strategy,
}
use permission_center_go.Policy.Eval.Spec.{
  is_match, deny_overrides, denies, up_to_deny, latest, policy_ids, answer_for,
}
use permission_center_go.Policy.Eval.Total.{matches_optional-IsPolicyCondition}

abbrev pub IsPublished : Snapshot → Type 0
IsPublished s = IsPolicyCondition s.condition

-- The answer of the loop that starts from `result`, where `allow` says that a match went before.
abbrev finish : Answer → Bool → List Snapshot → Answer
finish result allow matches = record {
  decision = (deny_overrides (denies matches) (allow || not (is_empty matches))).0;
  reason_code = (deny_overrides (denies matches) (allow || not (is_empty matches))).1;
  matched_policy_ids = result.matched_policy_ids ++ policy_ids (up_to_deny matches);
  snapshot_version = latest result.snapshot_version (up_to_deny matches);
}

-- The loop's result before it ends: a denial by default.
record IsOpen (result : Answer) : Type 0 where
  decision : result.decision ≡ Decision.deny
  reason : result.reason_code ≡ ReasonCode.default_deny

version-add_match :
    (s : Snapshot) (result : Answer)
    → (add_match s result).snapshot_version ≡ max result.snapshot_version s.version
unfolding add_match
version-add_match s result = ground arith

module _ (result : Answer) (allow : Bool) (s : Snapshot) (matches : List Snapshot) where
  finish-deny :
      is_deny s.effect ≡ true → finish result allow (s ∷ []) ≡ finish result allow (s ∷ matches)
  finish-deny d = ground arith

  finish-allow :
      is_deny s.effect ≡ false
      → finish (add_match s result) true matches ≡ finish result allow (s ∷ matches)
  unfolding add_match
  finish-allow d = ground (
    arith,
    version-add_match s result,
    append_assoc result.matched_policy_ids (s.policy_id ∷ []) (policy_ids (up_to_deny matches)),
  )

IsOpen-add_match : (s : Snapshot) {result : Answer} → IsOpen result → IsOpen (add_match s result)
unfolding add_match
IsOpen-add_match s h = record { decision = h.decision; reason = h.reason }

module _ (type : AuthorizationType) (input : Input) where
  finish-nil :
      (result : Answer) (allow : Bool)
      → IsOpen result
      → evaluate_from type input result allow [] ≡ ok (finish result allow [], none)
  unfolding evaluate_from
  finish-nil result allow h = ground (arith, append-nil result.matched_policy_ids)

  module _ (result : Answer) (allow : Bool) (s : Snapshot) (ss : List Snapshot) where
    skip_step :
        is_match type input s ≡ false
        → IsPublished s
        → evaluate_from type input result allow (s ∷ ss) ≡ evaluate_from type input result allow ss
    unfolding evaluate_from is_match
    skip_step m h = ground (arith, matches_optional-IsPolicyCondition input s.condition h)

    deny_step :
        is_match type input s ≡ true
        → is_deny s.effect ≡ true
        → IsPublished s
        → evaluate_from type input result allow (s ∷ ss) ≡ ok (finish result allow (s ∷ []), none)
    unfolding evaluate_from is_match add_match
    deny_step m d h =
        ground (
          arith,
          matches_optional-IsPolicyCondition input s.condition h,
          version-add_match s result,
        )

    allow_step :
        is_match type input s ≡ true
        → is_deny s.effect ≡ false
        → IsPublished s
        → evaluate_from type input result allow (s ∷ ss)
          ≡ evaluate_from type input (add_match s result) true ss
    unfolding evaluate_from is_match
    allow_step m d h = ground (arith, matches_optional-IsPolicyCondition input s.condition h)

  loop_refines :
      (result : Answer) (allow : Bool) (ss : List Snapshot)
      → IsOpen result
      → All IsPublished ss
      → evaluate_from type input result allow ss
        ≡ ok (finish result allow (keep (is_match type input) ss), none)
  loop_refines result allow [] open_result h = finish-nil result allow open_result
  loop_refines result allow (s ∷ ss) open_result (h, hs) =
      elim (Bool-cases (is_match type input s)) [
        | inr other ↦
            rw other
              (skip_step result allow s ss other h ∙ loop_refines result allow ss open_result hs)
        | inl matched ↦ elim (Bool-cases (is_deny s.effect)) [
          | inl deny ↦
              deny_step result allow s ss matched deny h
              ∙ ap (λ a. ok (a, none))
                  (rw matched (finish-deny result allow s (keep (is_match type input) ss) deny))
          | inr allowed ↦
              allow_step result allow s ss matched allowed h
              ∙ loop_refines (add_match s result) true ss (IsOpen-add_match s open_result) hs
              ∙ ap (λ a. ok (a, none))
                  (rw matched (finish-allow result allow s (keep (is_match type input) ss) allowed))
        ]
      ]

by_type_refines :
    (input : Input) (ss : List Snapshot) (type : AuthorizationType)
    → is_complete input ≡ true
    → All IsPublished ss
    → evaluate_by_authorization_type input ss type
      ≡ ok (answer_for (keep (is_match type input) ss), none)
unfolding evaluate_by_authorization_type
by_type_refines input ss type complete h = rw complete (
    loop_refines type input (denied ReasonCode.default_deny) false ss
      (record { decision = refl; reason = refl }) h)

strategy_refines :
    (type : AuthorizationType) (input : Input) (ss : List Snapshot)
    → authorization_type_valid type ≡ true
    → is_complete input ≡ true
    → All IsPublished ss
    → evaluate_strategy type input ss ≡ ok (answer_for (keep (is_match type input) ss), none)
unfolding evaluate_strategy authorization_type_valid
strategy_refines AuthorizationType.api input ss known complete h =
    by_type_refines input ss AuthorizationType.api complete h
strategy_refines AuthorizationType.object_data input ss known complete h =
    by_type_refines input ss AuthorizationType.object_data complete h
strategy_refines (AuthorizationType.unknown other) input ss known complete h = cc

-- For a complete input of a known authorization type and snapshots with validated conditions the
-- evaluator returns no error, and its answer is the one that the matching snapshots determine: a
-- denial if one of them denies, else an allowance if there is one, else the default denial, with
-- the identifiers and the latest version of the matches up to the first that denies.
pub evaluate_refines :
    (input : Input) (snapshots : List Snapshot)
    → authorization_type_valid input.authorization_type ≡ true
    → is_complete input ≡ true
    → All IsPublished snapshots
    → evaluate input snapshots
      ≡ ok (answer_for (keep (is_match input.authorization_type input) snapshots), none)
unfolding evaluate
evaluate_refines input snapshots known complete h =
    strategy_refines input.authorization_type input snapshots known complete h

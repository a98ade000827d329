-- ===== src/Policy/Validate/Sound.antt =====
-- The validator accepts exactly the condition trees of Shape.
use permission_center_go.Common.{
  ℕ, ◌+◌, ◌≤◌, ◌≡◌, ◌↔◌, refl, ap, ◌∙◌, Option, some, none, arith, ok, >>=-eq-ok,
}
use permission_center_go.Policy.Model.{
  Comparison, Condition, node, Conditions, empty, more, MaybeCondition, absent, present,
}
use permission_center_go.Policy.Validate.{
  comparison, condition, conditions, kinds, validate_condition,
}
use permission_center_go.Policy.Validate.Operands.{comparison_sound, comparison_complete}
use permission_center_go.Policy.Validate.Shape.{
  IsCondition, all_of, any_of, not_of, compared, AreConditions, nothing_left, one_more, size, sizes,
  height, heights, IsPolicyCondition,
}

-- What a visited node must be: within the limits, and of one of the four kinds.
module _ (d n : ℕ) {m : ℕ} where
  all_step :
      (c : Condition) (cs : Conditions)
      → condition (node (more c cs) empty absent none) d n ≡ ok m
      → (d ≤ 8) × (n + 1 ≤ 64) × (conditions (more c cs) (d + 1) (n + 1) ≡ ok m)
  unfolding condition
  all_step c cs h = ground arith

  any_step :
      (c : Condition) (cs : Conditions)
      → condition (node empty (more c cs) absent none) d n ≡ ok m
      → (d ≤ 8) × (n + 1 ≤ 64) × (conditions (more c cs) (d + 1) (n + 1) ≡ ok m)
  unfolding condition
  any_step c cs h = ground arith

  not_step :
      (c : Condition)
      → condition (node empty empty (present c) none) d n ≡ ok m
      → (d ≤ 8) × (n + 1 ≤ 64) × (condition c (d + 1) (n + 1) ≡ ok m)
  unfolding condition
  not_step c h = ground arith

  leaf_step :
      (c : Comparison)
      → condition (node empty empty absent (some c)) d n ≡ ok m
      → (d ≤ 8) × (n + 1 ≤ 64) × (comparison (some c) ≡ ok tt) × (m ≡ n + 1)
  unfolding condition
  leaf_step c h = ground arith

  more_step :
      (c : Condition) (cs : Conditions)
      → conditions (more c cs) d n ≡ ok m
      → (k : ℕ) × (condition c d n ≡ ok k) × (conditions cs d k ≡ ok m)
  unfolding condition
  more_step c cs h = >>=-eq-ok (condition c d n) _ h

  last_step : conditions empty d n ≡ ok m → m ≡ n
  unfolding condition
  last_step h = ground arith

  other_step :
      (all any : Conditions) (negated : MaybeCondition) (leaf : Option Comparison)
      → condition (node all any negated leaf) d n ≡ ok m
      → kinds all any negated leaf ≡ 1
  unfolding condition
  other_step all any negated leaf h = ground arith

-- Accepted at depth `d` after `n` nodes: the subtree is well formed, fits in the levels that are
-- left, and its nodes were counted.
abbrev Accepted : Condition → ℕ → ℕ → ℕ → Type 0
Accepted c d n m = IsCondition c × (d + height c ≤ 9) × (m ≡ n + size c) × (m ≤ 64)

abbrev AllAccepted : Conditions → ℕ → ℕ → ℕ → Type 0
AllAccepted cs d n m = AreConditions cs × (d + heights cs ≤ 9) × (m ≡ n + sizes cs) × (m ≤ 64)

mutual
  unfolding size height kinds

  condition_sound : (c : Condition) (d n : ℕ) {m : ℕ} → condition c d n ≡ ok m → Accepted c d n m
  condition_sound (node (more c cs) empty absent none) d n h =
      let (deep, many, below) = all_step d n c cs h in
      let (k, first, rest) = more_step (d + 1) (n + 1) c cs below in
      let (shape, levels, count, fits) = condition_sound c (d + 1) (n + 1) first in
      let (shapes, levels', count', fits') =
        conditions_sound cs (d + 1) k (omega arith) fits rest in
      (all_of shape shapes, omega arith, omega arith, omega arith)
  condition_sound (node empty (more c cs) absent none) d n h =
      let (deep, many, below) = any_step d n c cs h in
      let (k, first, rest) = more_step (d + 1) (n + 1) c cs below in
      let (shape, levels, count, fits) = condition_sound c (d + 1) (n + 1) first in
      let (shapes, levels', count', fits') =
        conditions_sound cs (d + 1) k (omega arith) fits rest in
      (any_of shape shapes, omega arith, omega arith, omega arith)
  condition_sound (node empty empty (present c) none) d n h =
      let (deep, many, below) = not_step d n c h in
      let (shape, levels, count, fits) = condition_sound c (d + 1) (n + 1) below in
      (not_of shape, omega arith, omega arith, omega arith)
  condition_sound (node empty empty absent (some c)) d n h =
      let (deep, many, well, count) = leaf_step d n c h in
      (compared (comparison_sound c well), omega arith, omega arith, omega arith)
  condition_sound _ d n h = absurd (omega (arith, other_step d n _ _ _ _ h))

  conditions_sound :
      (cs : Conditions) (d n : ℕ) {m : ℕ}
      → d ≤ 9
      → n ≤ 64
      → conditions cs d n ≡ ok m
      → AllAccepted cs d n m
  conditions_sound empty d n deep many h =
      (nothing_left, omega arith, omega (arith, last_step d n h), omega (arith, last_step d n h))
  conditions_sound (more c cs) d n deep many h =
      let (k, first, rest) = more_step d n c cs h in
      let (shape, levels, count, fits) = condition_sound c d n first in
      let (shapes, levels', count', fits') = conditions_sound cs d k deep fits rest in
      (one_more shape shapes, omega arith, omega arith, omega arith)

-- A node within the limits is what its one field says.
module _ (d n : ℕ) (deep : d ≤ 8) (many : n + 1 ≤ 64) where
  condition-all :
      (c : Condition) (cs : Conditions)
      → condition (node (more c cs) empty absent none) d n ≡ conditions (more c cs) (d + 1) (n + 1)
  unfolding condition
  condition-all c cs = ground arith

  condition-any :
      (c : Condition) (cs : Conditions)
      → condition (node empty (more c cs) absent none) d n ≡ conditions (more c cs) (d + 1) (n + 1)
  unfolding condition
  condition-any c cs = ground arith

  condition-not :
      (c : Condition)
      → condition (node empty empty (present c) none) d n ≡ condition c (d + 1) (n + 1)
  unfolding condition
  condition-not c = ground arith

  condition-leaf :
      (c : Comparison)
      → comparison (some c) ≡ ok tt
      → condition (node empty empty absent (some c)) d n ≡ ok (n + 1)
  unfolding condition
  condition-leaf c h = ground arith

last_done : (d n : ℕ) → conditions empty d n ≡ ok (n + sizes empty)
unfolding condition size
last_done d n = ap ok (omega arith)

conditions-more :
    (c : Condition) (cs : Conditions) (d n : ℕ) {k m m' : ℕ}
    → condition c d n ≡ ok k
    → conditions cs d k ≡ ok m
    → m ≡ m'
    → conditions (more c cs) d n ≡ ok m'
unfolding condition
conditions-more c cs d n h r e = rw (h, r, e)

mutual
  unfolding size height

  condition_complete :
      {c : Condition}
      → IsCondition c
      → (d n : ℕ) → d + height c ≤ 9
      → n + size c ≤ 64
      → condition c d n ≡ ok (n + size c)
  condition_complete (all_of {c} {cs} h hs) d n deep many =
      condition-all d n (omega arith) (omega arith) c cs
      ∙ conditions-more c cs (d + 1) (n + 1)
          (condition_complete h (d + 1) (n + 1) (omega arith) (omega arith))
          (conditions_complete hs (d + 1) (n + 1 + size c) (omega arith) (omega arith))
          (omega arith)
  condition_complete (any_of {c} {cs} h hs) d n deep many =
      condition-any d n (omega arith) (omega arith) c cs
      ∙ conditions-more c cs (d + 1) (n + 1)
          (condition_complete h (d + 1) (n + 1) (omega arith) (omega arith))
          (conditions_complete hs (d + 1) (n + 1 + size c) (omega arith) (omega arith))
          (omega arith)
  condition_complete (not_of {c} h) d n deep many =
      condition-not d n (omega arith) (omega arith) c
      ∙ condition_complete h (d + 1) (n + 1) (omega arith) (omega arith)
      ∙ ap ok (omega arith)
  condition_complete (compared {c} h) d n deep many =
      condition-leaf d n (omega arith) (omega arith) c (comparison_complete c h)
      ∙ ap ok (omega arith)

  conditions_complete :
      {cs : Conditions}
      → AreConditions cs
      → (d n : ℕ) → d + heights cs ≤ 9
      → n + sizes cs ≤ 64
      → conditions cs d n ≡ ok (n + sizes cs)
  conditions_complete nothing_left d n deep many = last_done d n
  conditions_complete (one_more {c} {cs} h hs) d n deep many =
      conditions-more c cs d n (condition_complete h d n (omega arith) (omega arith))
        (conditions_complete hs d (n + size c) (omega arith) (omega arith)) (omega arith)

-- The validator accepts a policy's condition exactly if there is none, or it is a tree of at most
-- eight levels and at most 64 nodes in which each node has one operator and each comparison a known
-- operator and well-typed operands.
pub validate_condition_iff :
    (value : MaybeCondition) → (validate_condition value ≡ ok tt) ↔ IsPolicyCondition value
unfolding validate_condition
validate_condition_iff absent = (λ _. tt, λ _. refl)
validate_condition_iff (present c) = (
  (λ h.
      let (m, run, _) = >>=-eq-ok (condition c 1 0) _ h in
      let (shape, levels, count, fits) = condition_sound c 1 0 run in
      (shape, omega arith, omega arith)),
  λ (shape, levels, nodes). rw (condition_complete shape 1 0 (omega arith) (omega arith)),
)

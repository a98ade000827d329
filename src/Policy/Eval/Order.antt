-- ===== src/Policy/Eval/Order.antt =====
-- The order in which the snapshots arrive does not change a decision.
use mathlib.Core.List.{Permᴰ}
use permission_center_go.Common.{
  ◌≡◌, refl, ap, true, subst, ap₂, ◌∙◌, Bool, not, none, arith, ok, List, keep, All, any, is_empty,
}
use permission_center_go.Policy.Model.{Snapshot, Input, Answer, authorization_type_valid}
use permission_center_go.Policy.Eval.{is_complete, is_deny, evaluate}
use permission_center_go.Policy.Eval.Spec.{is_match, denies, deny_overrides, answer_for}
use permission_center_go.Policy.Eval.Combine.{IsPublished, evaluate_refines}

module _ {ℓ} {A : Type ℓ} (p : A → Bool) where
  any-keep_perm :
      (q : A → Bool) {xs ys : List A} → Permᴰ xs ys → any q (keep p xs) ≡ any q (keep p ys)
  any-keep_perm q Permᴰ.nil = refl
  any-keep_perm q (Permᴰ.cons {a} {b} {l₁} {l₂} e h) = rw e (ground (arith, any-keep_perm q h))
  any-keep_perm q (Permᴰ.swap {a} {b} {a'} {b'} {l} e f) = rw (e, f) (ground arith)
  any-keep_perm q (Permᴰ.trans h k) = any-keep_perm q h ∙ any-keep_perm q k

  is_empty-keep_perm : {xs ys : List A} → Permᴰ xs ys → is_empty (keep p xs) ≡ is_empty (keep p ys)
  is_empty-keep_perm Permᴰ.nil = refl
  is_empty-keep_perm (Permᴰ.cons {a} {b} {l₁} {l₂} e h) =
      rw e (ground (arith, is_empty-keep_perm h))
  is_empty-keep_perm (Permᴰ.swap {a} {b} {a'} {b'} {l} e f) = rw (e, f) (ground arith)
  is_empty-keep_perm (Permᴰ.trans h k) = is_empty-keep_perm h ∙ is_empty-keep_perm k

All-perm {ℓ κ} : {A : Type ℓ} (P : A → Type κ) {xs ys : List A} → Permᴰ xs ys → All P xs → All P ys
All-perm P Permᴰ.nil h = h
All-perm P (Permᴰ.cons e p) (h, hs) = (subst P e h, All-perm P p hs)
All-perm P (Permᴰ.swap e f) (h, (k, hs)) = (subst P f k, (subst P e h, hs))
All-perm P (Permᴰ.trans p q) h = All-perm P q (All-perm P p h)

-- For a complete input of a known authorization type, two arrangements of the same validated
-- snapshots are both evaluated without an error, to the same decision for the same reason.
pub evaluate_order :
    (input : Input) (xs ys : List Snapshot)
    → authorization_type_valid input.authorization_type ≡ true
    → is_complete input ≡ true
    → All IsPublished xs
    → Permᴰ xs ys
    → (a b : Answer) × (evaluate input xs ≡ ok (a, none))
      × (evaluate input ys ≡ ok (b, none))
      × (a.decision ≡ b.decision)
      × (a.reason_code ≡ b.reason_code)
evaluate_order input xs ys known complete h p =
    let passes = is_match input.authorization_type input in
    let same : deny_overrides (denies (keep passes xs)) (not (is_empty (keep passes xs)))
        ≡ deny_overrides (denies (keep passes ys)) (not (is_empty (keep passes ys))) =
      ap₂ (λ d e. deny_overrides d (not e)) (any-keep_perm passes (λ s. is_deny s.effect) p)
        (is_empty-keep_perm passes p) in
    (
      answer_for (keep passes xs),
      answer_for (keep passes ys),
      evaluate_refines input xs known complete h,
      evaluate_refines input ys known complete (All-perm IsPublished p h),
      ap (λ r. r.0) same,
      ap (λ r. r.1) same,
    )

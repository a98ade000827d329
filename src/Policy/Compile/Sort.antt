-- ===== src/Policy/Compile/Sort.antt =====
-- Sorting by a strict total order forgets the arrangement.
use mathlib.Core.List.{Permᴰ}
use permission_center_go.Common.{
  ◌≡◌, ◌∙◌, refl, Bool, true, false, arith, List, [], ◌∷◌, Bool-cases, inl, inr,
}
use permission_center_go.Policy.Compile.{insert, sort}

-- Elements of which neither is less are equal.
pub record IsStrictOrder {ℓ} {A : Type ℓ} (less : A → A → Bool) : Type ℓ where
  pub irrefl : (a : A) → less a a ≡ false
  pub trans : (a b c : A) → less a b ≡ true → less b c ≡ true → less a c ≡ true
  pub antisymm : (a b : A) → less a b ≡ false → less b a ≡ false → a ≡ b

module _ {ℓ} {A : Type ℓ} {less : A → A → Bool} (order : IsStrictOrder less) where
  less_asymm : (a b : A) → less a b ≡ true → less b a ≡ false
  less_asymm a b h = ground (arith, order.trans a b a h, order.irrefl a)

  -- `y` is not above `z`, and `z` is below `x`
  less_of_not_less : (x y z : A) → less z y ≡ false → less z x ≡ true → less y x ≡ true
  less_of_not_less x y z h k = elim (Bool-cases (less y z)) [
    | inl below ↦ order.trans y z x below k
    | inr same ↦ rw (order.antisymm y z same h) k
  ]

  insert_comm :
      (x y : A) (l : List A) → insert less x (insert less y l) ≡ insert less y (insert less x l)
  unfolding insert
  insert_comm x y [] = ground (arith, less_asymm x y, order.antisymm x y)
  insert_comm x y (z ∷ l) = ground (
    arith,
    insert_comm x y l,
    less_asymm x y,
    order.antisymm x y,
    less_of_not_less x y z,
    less_of_not_less y x z,
  )

  pub sort-perm : {xs ys : List A} → Permᴰ xs ys → sort less xs ≡ sort less ys
  unfolding sort
  sort-perm Permᴰ.nil = refl
  sort-perm (Permᴰ.cons e p) = rw (e, sort-perm p)
  sort-perm (Permᴰ.swap {a} {b} {a'} {b'} {l} e f) = rw (e, f) (insert_comm b' a' (sort less l))
  sort-perm (Permᴰ.trans p q) = sort-perm p ∙ sort-perm q

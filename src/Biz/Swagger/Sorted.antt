-- ===== src/Biz/Swagger/Sorted.antt =====
-- The operations of a document are sorted by path, then by method.
use Prim.Native.String.{String}
use text.Mathlib.TextEquality.{eq_iff}
use text.Mathlib.TextPositions.{eq_refl}
use package.text.Mathlib.Text.{◌==◌ as str_eq}
use permission_center_go.Common.{
  ◌≡◌, sym, ap, ◌∙◌, Bool, true, false, not, List, [], ◌∷◌, All, arith, Bool-cases, inl, inr,
  if◌then◌else◌,
}
use permission_center_go.Policy.Compile.{insert, sort, str_lt}
use permission_center_go.Policy.Compile.Order.{str_lt_irrefl, str_lt_trans, str_lt_antisymm}
use permission_center_go.Biz.Swagger.{operation_lt}

module _ {A : Type 0} (less : A → A → Bool) where
  -- Nothing that comes later is less.
  abbrev pub IsSorted : List A → Type 0
  IsSorted [] = Unit
  IsSorted (x ∷ xs) = All (λ y. less y x ≡ false) xs × IsSorted xs

  -- What a sort needs of its order; elements of which neither is less may differ.
  pub record IsWeakOrder : Type 0 where
    pub asymm : (a b : A) → less a b ≡ true → less b a ≡ false
    pub trans : (a b c : A) → less b a ≡ false → less c b ≡ false → less c a ≡ false

  module _ (order : IsWeakOrder) where
    All-insert_later :
        (x y : A) (ys : List A)
        → less x y ≡ false
        → All (λ z. less z y ≡ false) ys
        → All (λ z. less z y ≡ false) (insert less x ys)
    unfolding insert
    All-insert_later x y [] h a = (h, tt)
    All-insert_later x y (z ∷ zs) h (k, a) = elim (Bool-cases (less z x)) [
      | inl e ↦ rw e (k, All-insert_later x y zs h a)
      | inr e ↦ rw e (h, (k, a))
    ]

    All-later :
        (x y : A) (ys : List A)
        → less y x ≡ false
        → All (λ z. less z y ≡ false) ys
        → All (λ z. less z x ≡ false) ys
    All-later x y [] h a = tt
    All-later x y (z ∷ zs) h (k, a) = (order.trans x y z h k, All-later x y zs h a)

    insert-IsSorted : (x : A) (xs : List A) → IsSorted xs → IsSorted (insert less x xs)
    unfolding insert
    insert-IsSorted x [] s = (tt, tt)
    insert-IsSorted x (y ∷ ys) (a, s) = elim (Bool-cases (less y x)) [
      | inl e ↦ rw e (All-insert_later x y ys (order.asymm y x e) a, insert-IsSorted x ys s)
      | inr e ↦ rw e ((e, All-later x y ys e a), (a, s))
    ]

    pub sort-IsSorted : (xs : List A) → IsSorted (sort less xs)
    unfolding sort
    sort-IsSorted [] = tt
    sort-IsSorted (x ∷ xs) = insert-IsSorted x (sort less xs) (sort-IsSorted xs)

str_lt_asymm : (s t : String) → str_lt s t ≡ true → str_lt t s ≡ false
str_lt_asymm s t h = elim (Bool-cases (str_lt t s)) [
  | inr e ↦ e
  | inl e ↦ absurd (cc (sym (str_lt_irrefl s) ∙ str_lt_trans s t s h e))
]

str_lt_later : (s t u : String) → str_lt t s ≡ false → str_lt u t ≡ false → str_lt u s ≡ false
str_lt_later s t u h k = elim (Bool-cases (str_lt u s)) [
  | inr e ↦ e
  | inl e ↦ elim (Bool-cases (str_lt s t)) [
    | inl f ↦ absurd (cc (sym k ∙ str_lt_trans u s t e f))
    | inr f ↦ absurd (cc (sym k ∙ ap (str_lt u) (sym (str_lt_antisymm s t f h)) ∙ e))
  ]
]

-- The order on pairs of texts.
abbrev pair_lt : String → String → String → String → Bool
pair_lt p m q n = if not (str_eq p q) then str_lt p q else str_lt m n

pair_lt_asymm : (p m q n : String) → pair_lt p m q n ≡ true → pair_lt q n p m ≡ false
pair_lt_asymm p m q n h =
    ground (arith, eq_iff p q, eq_iff q p, eq_refl p, str_lt_asymm p q, str_lt_asymm m n)

pair_lt_later :
    (p m q n r o : String)
    → pair_lt q n p m ≡ false
    → pair_lt r o q n ≡ false
    → pair_lt r o p m ≡ false
pair_lt_later p m q n r o h k = ground (
  arith,
  eq_iff q p,
  eq_iff r q,
  eq_iff r p,
  eq_refl q,
  str_lt_later p q r,
  str_lt_later m n o,
  str_lt_antisymm p q,
  str_lt_antisymm q r,
  str_lt_irrefl p,
)

pub operation_lt-IsWeakOrder : IsWeakOrder operation_lt
unfolding operation_lt
operation_lt-IsWeakOrder = record {
  asymm = λ a b h. pair_lt_asymm a.path_template a.method b.path_template b.method h;
  trans = λ a b c h k.
      pair_lt_later a.path_template a.method b.path_template b.method c.path_template c.method h k;
}

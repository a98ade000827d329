-- ===== src/Text/Trim.antt =====
-- strings.TrimSpace leaves no space at either end, and trimming a second time changes nothing.
use Prim.Native.Char.{Char}
use Prim.Native.String.{String}
use permission_center_go.Common.{
  ◌≡◌, refl, Bool, true, not, ◌∙◌, ap, arith, inl, inr, Bool-cases, ◌&&◌,
}
use permission_center_go.Text.{
  is_blank, is_space, trim_left, trim_right, trim_space, cons_unless_blank,
}

-- The text does not begin with a space.
abbrev pub no_lead : String → Bool
no_lead String.[] = true
no_lead (String.◌∷◌ c s) = not (is_space c)

no_lead-trim_left : (s : String) → no_lead (trim_left s) ≡ true
unfolding trim_left
no_lead-trim_left String.[] = refl
no_lead-trim_left (String.◌∷◌ c s) = ground (arith, no_lead-trim_left s)

trim_left_of_no_lead : (s : String) → no_lead s ≡ true → trim_left s ≡ s
unfolding trim_left
trim_left_of_no_lead String.[] h = refl
trim_left_of_no_lead (String.◌∷◌ c s) h = ground arith

no_lead-trim_right : (s : String) → no_lead s ≡ true → no_lead (trim_right s) ≡ true
unfolding trim_right cons_unless_blank
no_lead-trim_right String.[] h = refl
no_lead-trim_right (String.◌∷◌ c s) h = ground arith

trim_right-cons_unless_blank :
    (c : Char) (s : String)
    → trim_right s ≡ s
    → trim_right (cons_unless_blank c s) ≡ cons_unless_blank c s
unfolding trim_right cons_unless_blank
trim_right-cons_unless_blank c s h = elim (Bool-cases (is_space c && is_blank s)) [
  | inl e ↦ rw e
  | inr e ↦ rw (e, h, e)
]

trim_right_idempotent : (s : String) → trim_right (trim_right s) ≡ trim_right s
unfolding trim_right
trim_right_idempotent String.[] = refl
trim_right_idempotent (String.◌∷◌ c s) =
    trim_right-cons_unless_blank c (trim_right s) (trim_right_idempotent s)

-- Trimming a trimmed text changes nothing.
pub trim_space_idempotent : (s : String) → trim_space (trim_space s) ≡ trim_space s
unfolding trim_space
trim_space_idempotent s =
    ap trim_right (
      trim_left_of_no_lead (trim_right (trim_left s))
        (no_lead-trim_right (trim_left s) (no_lead-trim_left s)))
    ∙ trim_right_idempotent (trim_left s)

trims : trim_space " \t a b\n" ≡ "a b"
unfolding trim_space
trims = refl

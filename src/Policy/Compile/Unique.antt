-- ===== src/Policy/Compile/Unique.antt =====
-- uniqueStrings keeps each text once, trimmed, and no blank one.
use text.Mathlib.TextEquality.{eq_iff}
use package.text.Mathlib.Text.{◌==◌ as str_eq}
use Prim.Native.String.{String}
use mathlib.Core.List.{Mem, Nodup, Nodup-nil, Nodup-cons, mem-cons, not-mem-nil}
use mathlib.Core.Logic.Or
use permission_center_go.Common.{
  ◌≡◌, ◌↔◌, sym, ◌∙◌, Bool, true, not, ◌&&◌, ◌||◌, arith, List, [], ◌∷◌, any, Bool-cases, inl, inr,
}
use permission_center_go.Text.{trim_space, is_blank}
use permission_center_go.Policy.Compile.{is_found, unique_from, unique_strings}

-- Some entry of the list is the text, once it is trimmed, and is not blank.
abbrev pub names : List String → String → Bool
names values text =
    any (λ value. not (is_blank (trim_space value)) && str_eq (trim_space value) text) values

is_found-unique_from :
    (found values : List String) (text : String)
    → is_found (unique_from found values) text ≡ (not (is_found found text) && names values text)
unfolding is_found unique_from
is_found-unique_from found [] text = ground arith
is_found-unique_from found (value ∷ values) text = ground (
  arith,
  eq_iff (trim_space value) text,
  is_found-unique_from found values text,
  is_found-unique_from (trim_space value ∷ found) values text,
)

is_found_iff : (l : List String) (text : String) → (is_found l text ≡ true) ↔ Mem text l
unfolding is_found
is_found_iff [] text = (λ h. cc, λ m. absurd (not-mem-nil m))
is_found_iff (x ∷ l) text = (
  (λ h. elim (Bool-cases (str_eq x text)) [
    | inl e ↦ mem-cons.1 (Or.inl (sym ((eq_iff x text).0 e)))
    | inr e ↦ mem-cons.1 (Or.inr ((is_found_iff l text).0 (rw e at h)))
  ]),
  λ m.
      Or.elim (hlevel) (mem-cons.0 m) (λ e. rw ((eq_iff x text).1 (sym e)))
        (λ k. ground (arith, (is_found_iff l text).1 k)),
)

not-mem_unique_from :
    (found values : List String) (text : String) → ¬ Mem text (unique_from (text ∷ found) values)
unfolding is_found
not-mem_unique_from found values text m = ground (
  arith,
  (is_found_iff (unique_from (text ∷ found) values) text).1 m,
  is_found-unique_from (text ∷ found) values text,
  eq_iff text text,
)

pub Nodup-unique_from : (found values : List String) → Nodup (unique_from found values)
unfolding unique_from
Nodup-unique_from found [] = Nodup-nil
Nodup-unique_from found (value ∷ values) =
    let text = trim_space value in
    elim (Bool-cases (is_blank text || is_found found text)) [
      | inl skip ↦ rw skip (Nodup-unique_from found values)
      | inr keep ↦ rw keep (
          Nodup-cons.1
            (not-mem_unique_from found values text, Nodup-unique_from (text ∷ found) values))
    ]

-- A text is in the result exactly if it is an entry, trimmed and not blank.
pub mem-unique_strings_iff :
    (values : List String) (text : String)
    → Mem text (unique_strings values) ↔ (names values text ≡ true)
unfolding unique_strings is_found
mem-unique_strings_iff values text = (
  (λ m.
      sym (is_found-unique_from [] values text) ∙ (is_found_iff (unique_from [] values) text).1 m),
  λ h. (is_found_iff (unique_from [] values) text).0 (is_found-unique_from [] values text ∙ h),
)

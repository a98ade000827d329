-- ===== src/Auth/Routing/Laws.antt =====
-- Paths keep their suffix when they move from one authority to the other, and come back.
use Prim.Native.Char.{Char, code}
use Prim.Native.String.{String}
use text.Mathlib.TextEquality.{eq_iff, Char-path}
use text.Mathlib.TextPositions.{eq_refl}
use package.text.Mathlib.Text.{◌==◌ as str_eq}
use permission_center_go.Common.{
  some-injective, ◌≡◌, refl, sym, ap, ap₂, ◌∙◌, true, false, ◌||◌, ==_iff, some, arith, Bool-cases,
  inl, inr, subst,
}
use permission_center_go.Text.{is_blank, has_prefix, trim_right_by, trim_prefix, is_slash, append}
use permission_center_go.Auth.Routing.{
  suffix_after, authority_path_suffix, join_after, join_authority_path,
}

-- The path of an absolute URL: empty, or begun by a slash.
abbrev pub IsRooted : String → Type 0
IsRooted path = (is_blank path || has_prefix path "/") ≡ true

append-trim_prefix :
    (path prefix : String)
    → has_prefix path (append prefix "/") ≡ true
    → (append prefix (trim_prefix path prefix) ≡ path)
      × (has_prefix (trim_prefix path prefix) "/" ≡ true)
unfolding has_prefix trim_prefix
append-trim_prefix path String.[] h = (refl, h)
append-trim_prefix String.[] (String.◌∷◌ d prefix) h = absurd cc
append-trim_prefix (String.◌∷◌ c path) (String.◌∷◌ d prefix) h =
    let (same, rooted) = append-trim_prefix path prefix (ground arith) in
    (
      ap₂ String.◌∷◌ (Char-path d c (sym ((==_iff (code c) (code d)).0 (ground arith)))) same,
      rooted,
    )

has_prefix-append : (p s : String) → has_prefix (append p s) (append p "/") ≡ has_prefix s "/"
unfolding has_prefix
has_prefix-append String.[] s = refl
has_prefix-append (String.◌∷◌ c p) s = ground (arith, has_prefix-append p s)

trim_prefix-append : (p s : String) → trim_prefix (append p s) p ≡ s
unfolding trim_prefix
trim_prefix-append String.[] String.[] = refl
trim_prefix-append String.[] (String.◌∷◌ c s) = refl
trim_prefix-append (String.◌∷◌ c p) s = trim_prefix-append p s

append_blank : (p : String) → append p "" ≡ p
append_blank String.[] = refl
append_blank (String.◌∷◌ c p) = ap (String.◌∷◌ c) (append_blank p)

tail : String → String
tail String.[] = ""
tail (String.◌∷◌ c s) = s

append-eq-left : (p s : String) → append p s ≡ p → s ≡ ""
unfolding tail
append-eq-left String.[] s h = h
append-eq-left (String.◌∷◌ c p) s h = append-eq-left p s (ap tail h)

join_after_rooted : (p s : String) → IsRooted s → join_after p s ≡ append p s
unfolding join_after
join_after_rooted String.[] String.[] h = refl
join_after_rooted String.[] (String.◌∷◌ d s) h = rw h
join_after_rooted (String.◌∷◌ c p) String.[] h = sym (append_blank (String.◌∷◌ c p))
join_after_rooted (String.◌∷◌ c p) (String.◌∷◌ d s) h = rw h

-- With the slashes at the end of the authorities' paths already trimmed.
append-suffix_after :
    (path from suffix : String)
    → IsRooted path
    → suffix_after path from ≡ some suffix
    → (append from suffix ≡ path) × IsRooted suffix
unfolding suffix_after
append-suffix_after path String.[] suffix rooted h =
    let same = some-injective h in (sym same, subst IsRooted same rooted)
append-suffix_after path (String.◌∷◌ c from) suffix rooted h =
    let prefix = String.◌∷◌ c from in
    elim (Bool-cases (str_eq path prefix)) [
      | inl same ↦
          let blank : "" ≡ suffix = some-injective (rw same at h) in
          (
            ap (append prefix) (sym blank)
                ∙ append_blank prefix
                ∙ sym ((eq_iff path prefix).0 same),
            subst IsRooted blank refl,
          )
      | inr longer ↦ elim (Bool-cases (has_prefix path (append prefix "/"))) [
        | inl below ↦
            let cut : trim_prefix path prefix ≡ suffix = some-injective (rw (longer, below) at h) in
            let (whole, led) = append-trim_prefix path prefix below in
            (ap (append prefix) (sym cut) ∙ whole, subst IsRooted cut (ground (arith, led)))
        | inr beside ↦ absurd (cc (rw (longer, beside) at h))
      ]
    ]

longer_path : (p : String) (d : Char) (s : String) → str_eq (append p (String.◌∷◌ d s)) p ≡ false
longer_path p d s = elim (Bool-cases (str_eq (append p (String.◌∷◌ d s)) p)) [
  | inl same ↦ absurd (cc (append-eq-left p _ ((eq_iff (append p (String.◌∷◌ d s)) p).0 same)))
  | inr other ↦ other
]

suffix_after-append :
    (to suffix : String) → IsRooted suffix → suffix_after (append to suffix) to ≡ some suffix
unfolding suffix_after
suffix_after-append String.[] suffix rooted = refl
suffix_after-append (String.◌∷◌ c to) String.[] rooted =
    rw (append_blank to, eq_refl (String.◌∷◌ c to))
suffix_after-append (String.◌∷◌ c to) (String.◌∷◌ d s) rooted =
    let prefix = String.◌∷◌ c to in
    rw (
      longer_path prefix d s,
      has_prefix-append prefix (String.◌∷◌ d s),
      rooted,
      trim_prefix-append prefix (String.◌∷◌ d s),
    )

-- A path of a URL that lies under one authority is that authority's path, joined with its suffix, and
-- the same suffix is found again where the path was moved under any other authority.
pub join-authority_path_suffix :
    (path from to suffix : String)
    → IsRooted path
    → authority_path_suffix path from ≡ some suffix
    → (join_authority_path from suffix ≡ path)
      × (authority_path_suffix (join_authority_path to suffix) to ≡ some suffix)
unfolding authority_path_suffix join_authority_path
join-authority_path_suffix path from to suffix rooted h =
    let here = trim_right_by is_slash from in
    let there = trim_right_by is_slash to in
    let (whole, led) = append-suffix_after path here suffix rooted h in
    (
      join_after_rooted here suffix led ∙ whole,
      ap (λ p. suffix_after p there) (join_after_rooted there suffix led)
          ∙ suffix_after-append there suffix led,
    )

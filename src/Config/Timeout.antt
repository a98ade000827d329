-- ===== src/Config/Timeout.antt =====
-- The timeout of the remote directory, in nanoseconds, does not overflow below a bound.
use Prim.Native.String.{String}
use permission_center_go.Common.{
  ℕ, ℤ, pos, negsuc, ◌≡◌, ◌≤◌, ◌*◌, ◌%◌, ◌^◌, refl, sym, ap, ◌∙◌, ◌⊎◌, Bool, true, false, ltb,
  Option, none, some, ok, arith, Bool-cases, inl, inr, ok-injective, subst, if◌then◌else◌,
}
use permission_center_go.Text.{trim_space, is_blank}
use permission_center_go.Config.{
  ServiceResourceConfig, signed64, is_positive, seconds_duration, timeout_duration,
  positive_duration,
}

-- A positive number of nanoseconds.
abbrev pub IsPositive : ℤ → Type 0
IsPositive d = (n : ℕ) × (d ≡ pos n) × (1 ≤ n)

is_positive-IsPositive : (d : ℤ) → is_positive d ≡ true → IsPositive d
is_positive-IsPositive (pos n) h = (n, refl, ground arith)
is_positive-IsPositive (negsuc n) h = absurd cc

seconds_duration_small : (n : ℕ) → n ≤ 9223372036 → seconds_duration (pos n) ≡ pos (n * 10 ^ 9)
unfolding seconds_duration signed64
seconds_duration_small n h =
    let small : n * 10 ^ 9 % 2 ^ 64 ≡ n * 10 ^ 9 = omega arith in
    let fits : ltb (n * 10 ^ 9) (2 ^ 63) ≡ true = ground arith in rw (small, fits)

positive_duration_passed : (o : Option ℤ) {d : ℤ} → positive_duration o ≡ ok d → IsPositive d
positive_duration_passed none h = absurd cc
positive_duration_passed (some e) h = elim (Bool-cases (is_positive e)) [
  | inl good ↦ subst IsPositive (ok-injective (rw good at h)) (is_positive-IsPositive e good)
  | inr bad ↦ absurd (cc (rw bad at h))
]

is_positive-pos : (n : ℕ) {b : Bool} → is_positive (pos n) ≡ b → if b then 1 ≤ n else n ≡ 0
is_positive-pos n {b = true} h = ground arith
is_positive-pos n {b = false} h = ground arith

-- TimeoutDuration returns a positive duration, where the configured number of seconds is at most
-- 9223372036; and where that is not 0, it is that number, in nanoseconds.
pub timeout_duration-IsPositive :
    (parse_duration : String → Option ℤ) (c : ServiceResourceConfig) (d : ℤ) (n : ℕ)
    → c.timeout_seconds ≡ pos n
    → n ≤ 9223372036
    → timeout_duration parse_duration c ≡ ok d
    → IsPositive d × ((n ≡ 0) ⊎ (d ≡ pos (n * 10 ^ 9)))
unfolding timeout_duration
timeout_duration-IsPositive parse_duration c d n e fits h =
    elim (Bool-cases (is_positive c.timeout_seconds)) [
      | inl given ↦
          let exact : d ≡ pos (n * 10 ^ 9) =
            sym (ok-injective (rw given at h))
            ∙ ap seconds_duration e
            ∙ seconds_duration_small n fits in
          let counted : 1 ≤ n = is_positive-pos n (ap is_positive (sym e) ∙ given) in
          ((n * 10 ^ 9, exact, omega arith), inr exact)
      | inr missing ↦
          (from_text (rw missing at h), inl (is_positive-pos n (ap is_positive (sym e) ∙ missing)))
    ]
  where
    from_text :
        (if is_blank (trim_space c.timeout)
            then ok (pos (5 * 10 ^ 9))
            else positive_duration (parse_duration (trim_space c.timeout)))
          ≡ ok d
        → IsPositive d
    from_text k = elim (Bool-cases (is_blank (trim_space c.timeout))) [
      | inl blank ↦ subst IsPositive (ok-injective (rw blank at k)) (5 * 10 ^ 9, refl, ground arith)
      | inr given ↦ positive_duration_passed (parse_duration (trim_space c.timeout)) (rw given at k)
    ]

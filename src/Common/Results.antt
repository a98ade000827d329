-- ===== src/Common/Results.antt =====
-- Results of fallible Go code. An error keeps the sentinel that it wraps, one of biz/errors.go or
-- of auth/auth.go, and its text up to the first interpolated value; `failure` wraps no sentinel. A
-- run-time panic, such as a nil dereference, is a result of its own.
use Prim.Native.String.{String}
use mathlib.Core.Path.{◌≡◌, refl}
use mathlib.Core.Bool.{Bool, true, false}
use mathlib.Core.Option.{Option, none, some}
use permission_center_go.Common.Tests.{if◌then◌else◌}

pub data Error : Type 0 where
  invalid_argument not_found already_exists conflict failure : String → Error
  auth_disabled unauthenticated invalid_token invalid_request : String → Error
  invalid_state invalid_nonce invalid_session : String → Error

pub data Result {ℓ} (A : Type ℓ) : Type ℓ where
  panic : Result A
  err : Error → Result A
  ok : A → Result A

module _ {ℓ κ} {A : Type ℓ} {B : Type κ} where
  infixl 5 ◌>>=◌ ◌>>◌
  abbrev pub ◌>>=◌ : Result A → (A → Result B) → Result B
  panic >>= next = panic
  err failed >>= next = err failed
  ok value >>= next = next value

  abbrev pub ◌>>◌ : Result A → Result B → Result B
  first >> second = first >>= λ value. second

  -- What succeeds in two steps succeeds in each.
  pub >>=-eq-ok :
      (first : Result A) (next : A → Result B) {last : B}
      → (first >>= next) ≡ ok last
      → (value : A) × (first ≡ ok value) × (next value ≡ ok last)
  >>=-eq-ok panic next h = cc
  >>=-eq-ok (err failed) next h = cc
  >>=-eq-ok (ok value) next h = (value, refl, h)

-- A read through a pointer that may be nil.
abbrev pub deref {ℓ} : {A : Type ℓ} → Option A → Result A
deref none = panic
deref (some a) = ok a

pub deref-some {ℓ} : {A : Type ℓ} (o : Option A) {a : A} → deref o ≡ ok a → o ≡ some a
deref-some none h = absurd cc
deref-some (some x) h = cc

-- `errors.Is(err, ErrAlreadyExists)`
abbrev pub is_already_exists : Error → Bool
is_already_exists (already_exists message) = true
is_already_exists _ = false

-- A refusal that was not made.
pub refusal_passed {ℓ} :
    {A : Type ℓ} (b : Bool) (e : Error) (r : Result A) {a : A}
    → (if b then err e else r) ≡ ok a
    → (b ≡ false) × (r ≡ ok a)
refusal_passed true e r h = absurd cc
refusal_passed false e r h = (refl, h)

pub ok-injective {ℓ} : {A : Type ℓ} {a b : A} → ok a ≡ ok b → a ≡ b
ok-injective h = cc

-- ===== src/Biz/Call.antt =====
-- A call of a service or a repository: it reads and writes a store, and returns a result. What was
-- written before an error or a panic stays written.
pub mod Attempt
use permission_center_go.Common.{◌≡◌, Result, ok, err, panic, Error}

abbrev pub Call : Type 0 → Type 0 → Type 0
Call S A = S → Result A × S

module _ {S A : Type 0} where
  abbrev pub pure : A → Call S A
  pure a s = (ok a, s)

  abbrev pub fail : Error → Call S A
  fail e s = (err e, s)

  abbrev pub lift : Result A → Call S A
  lift r s = (r, s)

module _ {S A B : Type 0} where
  abbrev pub continue : Result A → (A → Call S B) → Call S B
  continue (ok a) f s = f a s
  continue (err e) f s = (err e, s)
  continue panic f s = (panic, s)

  infixl 5 ◌>>=◌ ◌>>◌
  abbrev pub ◌>>=◌ : Call S A → (A → Call S B) → Call S B
  ◌>>=◌ m f s = let (r, s') = m s in continue r f s'

  abbrev pub ◌>>◌ : Call S A → Call S B → Call S B
  m >> k = m >>= λ _. k

-- The call leaves the store as it was, whatever it returns.
abbrev pub Reads : {S A : Type 0} → Call S A → Type 0
Reads {S} m = (s : S) → (m s).1 ≡ s

-- ===== src/Biz/Call/Attempt.antt =====
-- What a guarded write does: it makes the one call that writes, with an argument that is allowed,
-- or it fails and leaves the store as it was. One rule for each way to build such a call.
use permission_center_go.Common.{
  ◌≡◌, refl, ◌∙◌, ap, Bool, true, false, Result, ok, err, panic, Error, if◌then◌else◌,
}
use permission_center_go.Biz.Call.{Call, Reads, fail, lift, continue, ◌>>=◌}

module _ {S W A : Type 0} (Allowed : W → Type 0) (write : W → Call S A) where
  pub data Attempt (m : Call S A) (s : S) : Type 0 where
    written : (w : W) → Allowed w → m s ≡ write w s → Attempt m s
    refused : (e : Error) → m s ≡ (err e, s) → Attempt m s
    crashed : m s ≡ (panic, s) → Attempt m s

module _ {S W A : Type 0} {Allowed : W → Type 0} {write : W → Call S A} where
  pub Attempt-write : (w : W) (s : S) → Allowed w → Attempt Allowed write (write w) s
  Attempt-write w s h = written w h refl

  pub Attempt-fail : (e : Error) (s : S) → Attempt Allowed write (fail e) s
  Attempt-fail e s = refused e refl

  pub Attempt-if :
      (b : Bool) (m n : Call S A) (s : S)
      → (b ≡ true → Attempt Allowed write m s)
      → (b ≡ false → Attempt Allowed write n s)
      → Attempt Allowed write (if b then m else n) s
  Attempt-if true m n s h k = h refl
  Attempt-if false m n s h k = k refl

  -- A validation passes its value on, or refuses.
  pub Attempt-lift :
      {B : Type 0} (r : Result B) (f : B → Call S A) (s : S)
      → ((b : B) → r ≡ ok b → Attempt Allowed write (f b) s)
      → Attempt Allowed write (lift r >>= f) s
  Attempt-lift (ok b) f s h = attempt_same (h b refl)
    where
      attempt_same : Attempt Allowed write (f b) s → Attempt Allowed write (lift (ok b) >>= f) s
      attempt_same (written w allowed e) = written w allowed e
      attempt_same (refused e p) = refused e p
      attempt_same (crashed p) = crashed p
  Attempt-lift (err e) f s h = refused e refl
  Attempt-lift panic f s h = crashed refl

  -- A read that returned `r` without changing the store.
  read_step :
      {B : Type 0} (m : Call S B) (f : B → Call S A) (s : S) (r : Result B)
      → m s ≡ (r, s)
      → ((b : B) → m s ≡ (ok b, s) → Attempt Allowed write (f b) s)
      → Attempt Allowed write (m >>= f) s
  read_step m f s (ok b) e h = after (h b e)
    where
      after : Attempt Allowed write (f b) s → Attempt Allowed write (m >>= f) s
      after (written w allowed p) = written w allowed (rw e p)
      after (refused x p) = refused x (rw e p)
      after (crashed p) = crashed (rw e p)
  read_step m f s (err x) e h = refused x (rw e)
  read_step m f s panic e h = crashed (rw e)

  pub Attempt-read :
      {B : Type 0} (m : Call S B) (f : B → Call S A) (s : S)
      → Reads m
      → ((b : B) → m s ≡ (ok b, s) → Attempt Allowed write (f b) s)
      → Attempt Allowed write (m >>= f) s
  Attempt-read m f s reads h = read_step m f s (m s).0 (λ i. ((m s).0, reads s i)) h

pub Reads-bind :
    {S A B : Type 0} (m : Call S A) (f : A → Call S B)
    → Reads m
    → ((a : A) → Reads (f a))
    → Reads (m >>= f)
Reads-bind {S} {A} m f reads after s = go (m s) (reads s)
  where
    go : (p : Result A × S) → p.1 ≡ s → (continue p.0 f p.1).1 ≡ s
    go (ok a, u) e = after a u ∙ e
    go (err x, u) e = e
    go (panic, u) e = e

-- A read whose value is then checked succeeded, so the check did.
pub checked_read :
    {S A B : Type 0} (m : Call S A) (check : A → Result B) (s : S) {b : B} {t : S}
    → Reads m
    → (m >>= λ a. lift (check a)) s ≡ (ok b, t)
    → (a : A) × (m s ≡ (ok a, s)) × (check a ≡ ok b)
checked_read {S} {A} {B} m check s {b} {t} reads h =
    go (m s).0 (λ i. ((m s).0, reads s i)) (ap (λ p. p.0) h)
  where
    go :
        (r : Result A)
        → m s ≡ (r, s)
        → ((m >>= λ a. lift (check a)) s).0 ≡ ok b
        → (a : A) × (m s ≡ (ok a, s)) × (check a ≡ ok b)
    go (ok a) e k = (a, e, rw e at k)
    go (err x) e k = absurd (cc (rw e at k))
    go panic e k = absurd (cc (rw e at k))

pub Reads-if :
    {S A : Type 0} (b : Bool) (m n : Call S A) → Reads m → Reads n → Reads (if b then m else n)
Reads-if true m n h k = h
Reads-if false m n h k = k

-- Two reads in a row succeeded, so each did.
pub read_passed :
    {S A B : Type 0} (m : Call S A) (f : A → Call S B) (s : S) {b : B} {t : S}
    → Reads m
    → (m >>= f) s ≡ (ok b, t)
    → (a : A) × (m s ≡ (ok a, s)) × (f a s ≡ (ok b, t))
read_passed {S} {A} {B} m f s {b} {t} reads h = go (m s).0 (λ i. ((m s).0, reads s i))
  where
    go : (r : Result A) → m s ≡ (r, s) → (a : A) × (m s ≡ (ok a, s)) × (f a s ≡ (ok b, t))
    go (ok a) e = (a, e, rw e at h)
    go (err x) e = absurd (cc (rw e at h))
    go panic e = absurd (cc (rw e at h))

-- A call in two steps succeeded, so the first did, and then the second.
pub two_passed :
    {S A B : Type 0} (m : Call S A) (f : A → Call S B) (s : S) {b : B} {t : S}
    → (m >>= f) s ≡ (ok b, t)
    → (a : A) × (u : S) × (m s ≡ (ok a, u)) × (f a u ≡ (ok b, t))
two_passed {S} {A} {B} m f s {b} {t} h = go (m s) refl h
  where
    go :
        (p : Result A × S)
        → m s ≡ p
        → continue p.0 f p.1 ≡ (ok b, t)
        → (a : A) × (u : S) × (m s ≡ (ok a, u)) × (f a u ≡ (ok b, t))
    go (ok a, u) e k = (a, u, e, k)
    go (err x, u) e k = absurd (cc)
    go (panic, u) e k = absurd (cc)

-- A validation that passed a value on.
pub lift_passed :
    {S A B : Type 0} (r : Result A) (f : A → Call S B) (s : S) {b : B} {t : S}
    → (lift r >>= f) s ≡ (ok b, t)
    → (a : A) × (r ≡ ok a) × (f a s ≡ (ok b, t))
lift_passed (ok a) f s h = (a, refl, h)
lift_passed (err x) f s h = absurd (cc)
lift_passed panic f s h = absurd (cc)

-- A refusal that was not made.
pub fail_passed :
    {S A : Type 0} (b : Bool) (e : Error) (m : Call S A) (s : S) {a : A} {t : S}
    → (if b then fail e else m) s ≡ (ok a, t)
    → (b ≡ false) × (m s ≡ (ok a, t))
fail_passed true e m s h = absurd cc
fail_passed false e m s h = (refl, h)

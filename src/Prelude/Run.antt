-- ===== src/Prelude/Run.antt =====
-- Computations that change a state and may fail, for the source's calls that end in a `longjmp`.
use mathlib.Core.Bool.{Bool, true, false}
use mathlib.Core.Path.{◌≡◌, refl}

pub data Outcome {ℓ} (E : Type 0) (A : Type ℓ) : Type ℓ where
  ok : A → Outcome E A
  error : E → Outcome E A

abbrev pub Run {ℓ} : Type 0 → Type 0 → Type ℓ → Type ℓ
Run E S A = S → Outcome E (A × S)

module _ {E S : Type 0} where
  abbrev pub returning {ℓ} : {A : Type ℓ} → A → Run E S A
  returning a s = ok (a, s)

  abbrev pub failing {ℓ} : {A : Type ℓ} → E → Run E S A
  failing e s = error e

  abbrev pub bind {ℓ κ} :
      {A : Type ℓ} {B : Type κ} → Outcome E (A × S) → (A → Run E S B) → Outcome E (B × S)
  bind (ok (a, s)) f = f a s
  bind (error e) f = error e

  infixl 5 ◌>>=◌ ◌>>◌
  abbrev pub ◌>>=◌ {ℓ κ} : {A : Type ℓ} {B : Type κ} → Run E S A → (A → Run E S B) → Run E S B
  ◌>>=◌ m f s = bind (m s) f

  abbrev pub ◌>>◌ {κ} : {B : Type κ} → Run E S (Unit {0}) → Run E S B → Run E S B
  m >> k = m >>= λ _. k

  abbrev pub get : Run E S S
  get s = ok (s, s)

  -- A step that cannot fail.
  abbrev pub modify : (S → S) → Run E S (Unit {0})
  modify f s = ok (tt, f s)

  abbrev pub fail_if : Bool → E → Run E S (Unit {0})
  fail_if true e = failing e
  fail_if false e = returning tt

  -- A bind that succeeds has two steps that do.
  pub bind-ok {ℓ κ} :
      {A : Type ℓ} {B : Type κ} (r : Outcome E (A × S)) (f : A → Run E S B) (b : B) (s' : S)
      → bind r f ≡ ok (b, s')
      → (a : A) × (t : S) × (r ≡ ok (a, t)) × (f a t ≡ ok (b, s'))
  bind-ok (ok (a, t)) f b s' h = (a, t, refl, h)
  bind-ok (error e) f b s' h = cc

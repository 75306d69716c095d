-- ===== src/Prelude/Store.antt =====
-- Arrays as functions of the index: a write changes one place.
use Prim.Native.Nat.{ℕ}
use mathlib.Core.Path.{◌≡◌, refl}
use mathlib.Core.Logic.{◌≢◌}
use mathlib.Core.Bool.{true, false}
use native.Mathlib.Omega.{arith}
use gafq.Prelude.Tests.{◌==◌, if◌then◌else◌}

module _ {ℓ} {A : Type ℓ} where
  abbrev pub store : (ℕ → A) → ℕ → A → ℕ → A
  store a i v j = if j == i then v else a j

  pub store-other : (a : ℕ → A) (i j : ℕ) (v : A) → j ≢ i → store a i v j ≡ a j
  store-other a i j v h = let other : (j == i) ≡ false = ground (arith, h) in rw other refl

  pub store-same : (a : ℕ → A) (i : ℕ) (v : A) → store a i v i ≡ v
  store-same a i v = let same : (i == i) ≡ true = ground arith in rw same refl

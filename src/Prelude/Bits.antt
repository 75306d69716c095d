-- ===== src/Prelude/Bits.antt =====
-- `&` and `|` of words that are split into a high and a low part: each operation works on the parts.
-- With the laws of masks this turns the bit fields of an instruction into arithmetic.
mod Step
use Step.{bit_or_step, bit_and_step}
use Prim.Native.Nat.{ℕ, zero, suc, ◌+◌, ◌-◌, ◌*◌, ◌/◌, ◌%◌, ◌^◌, ◌≤◌, ◌<◌, bit_and, bit_or}
use Prim.Native.Nat.{bit_and-bitwise, bit_or-bitwise}
use mathlib.Core.Path.{◌≡◌, refl, ap}
use mathlib.Core.Bool.{Bool, true, ◌&&◌}
use native.Mathlib.Nat.{pow-suc, one-le-pow}
use native.Mathlib.Omega.{arith}

-- An operation with 0 on its right.
right_zero : (n a : ℕ) → a ≤ n → (bit_or a 0 ≡ a) × (bit_and a 0 ≡ 0)
right_zero n zero h = (refl, refl)
right_zero zero (suc a) h = absurd (omega arith)
right_zero (suc n) (suc a) h =
    let ih = right_zero n (suc a / 2) (omega arith) in
    (omega (arith, bit_or_step (suc a) 0, ih.0), omega (arith, bit_and_step (suc a) 0, ih.1))

pub bit_or-zero : (a : ℕ) → bit_or a 0 ≡ a
bit_or-zero a = (right_zero a a (omega arith)).0

pub bit_and-zero : (a : ℕ) → bit_and a 0 ≡ 0
bit_and-zero a = (right_zero a a (omega arith)).1

shift_more : (q k : ℕ) → q * 2 ^ suc k ≡ 2 * (q * 2 ^ k)
shift_more q k = omega (arith, ap (λ (t : ℕ). q * t) (pow-suc 2 k))

-- Each operation acts on the high and on the low parts.
pub bit_or_split :
    (k a b r s : ℕ)
    → r < 2 ^ k
    → s < 2 ^ k
    → bit_or (a * 2 ^ k + r) (b * 2 ^ k + s) ≡ bit_or a b * 2 ^ k + bit_or r s
bit_or_split zero a b zero zero p q =
    let ea : a * 2 ^ 0 + 0 ≡ a = omega arith in
    let eb : b * 2 ^ 0 + 0 ≡ b = omega arith in rw (ea, eb, bit_or-zero) (omega arith)
bit_or_split zero a b zero (suc s) p q = absurd (omega arith)
bit_or_split zero a b (suc r) s p q = absurd (omega arith)
bit_or_split (suc k) a b r s p q = ground (
  arith,
  bit_or_step (a * 2 ^ suc k + r) (b * 2 ^ suc k + s),
  bit_or_step r s,
  shift_more a k,
  shift_more b k,
  shift_more (bit_or a b) k,
  pow-suc 2 k,
  bit_or_split k a b (r / 2) (s / 2) (omega (arith, pow-suc 2 k)) (omega (arith, pow-suc 2 k)),
)

pub bit_and_split :
    (k a b r s : ℕ)
    → r < 2 ^ k
    → s < 2 ^ k
    → bit_and (a * 2 ^ k + r) (b * 2 ^ k + s) ≡ bit_and a b * 2 ^ k + bit_and r s
bit_and_split zero a b zero zero p q =
    let ea : a * 2 ^ 0 + 0 ≡ a = omega arith in
    let eb : b * 2 ^ 0 + 0 ≡ b = omega arith in rw (ea, eb) (omega (arith, bit_and-zero 0))
bit_and_split zero a b zero (suc s) p q = absurd (omega arith)
bit_and_split zero a b (suc r) s p q = absurd (omega arith)
bit_and_split (suc k) a b r s p q = ground (
  arith,
  bit_and_step (a * 2 ^ suc k + r) (b * 2 ^ suc k + s),
  bit_and_step r s,
  shift_more a k,
  shift_more b k,
  shift_more (bit_and a b) k,
  pow-suc 2 k,
  bit_and_split k a b (r / 2) (s / 2) (omega (arith, pow-suc 2 k)) (omega (arith, pow-suc 2 k)),
)

bit_and_low : (k q r : ℕ) → r < 2 ^ k → bit_and (q * 2 ^ k + r) (2 ^ k - 1) ≡ r
bit_and_low zero q r h = rw bit_and-zero (omega arith)
bit_and_low (suc k) q r h = ground (
  arith,
  bit_and_step (q * 2 ^ suc k + r) (2 ^ suc k - 1),
  shift_more q k,
  pow-suc 2 k,
  bit_and_low k q (r / 2) (omega (arith, pow-suc 2 k)),
)

-- A mask of `k` low bits is the remainder by `2 ^ k`.
pub bit_and_mask : (k a : ℕ) → bit_and a (2 ^ k - 1) ≡ a % 2 ^ k
bit_and_mask k a = ground (arith, one-le-pow k 2, bit_and_low k (a / 2 ^ k) (a % 2 ^ k))

pub zero-bit_or : (a : ℕ) → bit_or 0 a ≡ a
zero-bit_or a = bit_or-bitwise 0 a

pub zero-bit_and : (a : ℕ) → bit_and 0 a ≡ 0
zero-bit_and a = bit_and-bitwise 0 a

-- A field above `k` bits and a value that fits them.
pub or_low : (k q r : ℕ) → r < 2 ^ k → bit_or r (q * 2 ^ k) ≡ q * 2 ^ k + r
or_low k q r h =
    let er : 0 * 2 ^ k + r ≡ r = omega arith in
    let en : q * 2 ^ k + 0 ≡ q * 2 ^ k = omega arith in
    rw (er, en, zero-bit_or, bit_or-zero) at
      (bit_or_split k 0 q r 0 h (one-le-pow k 2 (omega arith)))

pub high_or : (k q r : ℕ) → r < 2 ^ k → bit_or (q * 2 ^ k) r ≡ q * 2 ^ k + r
high_or k q r h =
    let er : 0 * 2 ^ k + r ≡ r = omega arith in
    let en : q * 2 ^ k + 0 ≡ q * 2 ^ k = omega arith in
    rw (er, en, bit_or-zero, zero-bit_or) at
      (bit_or_split k q 0 0 r (one-le-pow k 2 (omega arith)) h)

-- A test of every number below a bound, run by evaluation.
unfoldable pub every : ℕ → (ℕ → Bool) → Bool
every zero test = true
every (suc k) test = every k test && test k

pub every_holds : (k : ℕ) (test : ℕ → Bool) → every k test ≡ true → (x : ℕ) → x < k → test x ≡ true
unfolding every
every_holds zero test all x below = absurd (omega arith)
every_holds (suc k) test all x below = ground (arith, every_holds k test (ground arith) x)

-- ===== src/Prelude/Bits/Step.antt =====
-- `bit_and` and `bit_or` stand for a recursion over binary digits that counts down from its first
-- number. A count that is too large changes nothing, which gives one equation for the lowest digit.
use Prim.Native.Nat.{ℕ, zero, suc, ◌+◌, ◌-◌, ◌*◌, ◌/◌, ◌%◌, ◌≤◌, min, max, digits}
use Prim.Native.Nat.{bit_and, bit_or, bit_and-bitwise, bit_or-bitwise}
use mathlib.Core.Path.{◌≡◌, refl, sym, ◌∙◌, ap}
use native.Mathlib.Omega.{arith}

-- `n` and `d` more.
abbrev above : ℕ → ℕ → ℕ
above zero n = n
above (suc d) n = suc (above d n)

above-sub : (d n : ℕ) → above d n ≡ d + n
above-sub zero n = omega arith
above-sub (suc d) n = omega (arith, above-sub d n)

module _ (rest : ℕ → ℕ) (op : ℕ → ℕ → ℕ) where
  -- One more count than needed.
  spare : (n a b : ℕ) → a ≤ n → digits rest op (suc n) a b ≡ digits rest op n a b
  spare n zero b h = left n
    where
      left : (n : ℕ) → digits rest op (suc n) zero b ≡ digits rest op n zero b
      left zero = refl
      left (suc n) = refl
  spare zero (suc a) b h = absurd (omega arith)
  spare (suc n) (suc a) b h =
      ap (λ (t : ℕ). t * 2 + op (suc a % 2) (b % 2)) (spare n (suc a / 2) (b / 2) (omega arith))

  spares : (d n a b : ℕ) → a ≤ n → digits rest op (above d n) a b ≡ digits rest op n a b
  spares zero n a b h = refl
  spares (suc d) n a b h = spare (above d n) a b (omega (arith, above-sub d n)) ∙ spares d n a b h

  -- The digits above the lowest, counted down from the number that they make.
  upper : (a b : ℕ) → digits rest op a (suc a / 2) b ≡ digits rest op (suc a / 2) (suc a / 2) b
  upper a b =
      let h = suc a / 2 in
      let e : above (a - h) h ≡ a = omega (arith, above-sub (a - h) h) in
      ap (λ (n : ℕ). digits rest op n h b) (sym e) ∙ spares (a - h) h h b (omega arith)

pub bit_or_step : (a b : ℕ) → bit_or a b ≡ bit_or (a / 2) (b / 2) * 2 + max (a % 2) (b % 2)
bit_or_step zero b = omega (arith, bit_or-bitwise 0 b, bit_or-bitwise 0 (b / 2))
bit_or_step (suc a) b = omega (
  arith,
  bit_or-bitwise (suc a) b,
  bit_or-bitwise (suc a / 2) (b / 2),
  upper (λ t. t) max a (b / 2),
)

pub bit_and_step : (a b : ℕ) → bit_and a b ≡ bit_and (a / 2) (b / 2) * 2 + min (a % 2) (b % 2)
bit_and_step zero b = omega (arith, bit_and-bitwise 0 b, bit_and-bitwise 0 (b / 2))
bit_and_step (suc a) b = omega (
  arith,
  bit_and-bitwise (suc a) b,
  bit_and-bitwise (suc a / 2) (b / 2),
  upper (λ t. 0) min a (b / 2),
)

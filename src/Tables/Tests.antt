-- ===== src/Tables/Tests.antt =====
-- Array sizes for few keys.
use gafq.Prelude.{ℕ, zero, suc, ◌≤◌, ◌≡◌, refl, arith}
use gafq.Tables.{count_slice, computesizes_loop, computesizes}
use gafq.Tables.Sizes.{keys_below, InUse, NoBetter, computesizes_optimal}

-- The keys 1, 2 and 3: one each in the first three slices.
abbrev three_keys : ℕ → ℕ
three_keys zero = 1
three_keys (suc zero) = 1
three_keys (suc (suc zero)) = 1
three_keys (suc (suc (suc i))) = 0

sizes_run : computesizes three_keys 3 ≡ (3, 4)
unfolding computesizes computesizes_loop count_slice
sizes_run = refl

all_three : (i : ℕ) → keys_below three_keys (suc (suc (suc i))) ≡ 3
all_three zero = refl
all_three (suc i) = omega (arith, all_three i)

at_most_three : (i : ℕ) → keys_below three_keys i ≤ 3
at_most_three zero = omega arith
at_most_three (suc zero) = omega arith
at_most_three (suc (suc zero)) = omega arith
at_most_three (suc (suc (suc i))) = omega (arith, all_three i)

computesizes_optimal_example :
    InUse three_keys (computesizes three_keys 3).0 (computesizes three_keys 3).1
    × NoBetter three_keys (computesizes three_keys 3).0 5
computesizes_optimal_example = computesizes_optimal three_keys 3 5 at_most_three (omega arith)

-- ===== src/Object/Tests.antt =====
-- Floating point bytes and logarithms at concrete numbers.
use gafq.Prelude.{ℕ, ◌+◌, ◌-◌, ◌*◌, ◌^◌, ◌<◌, ◌≤◌, ◌≡◌, refl, arith, ◌⊎◌}
use gafq.Prelude.Int.{pos, negsuc}
use gafq.Object.Numbers.{shrink, float_byte, int2fb, fb2int, log2_loop, log_2, log2, ceillog2}
use gafq.Object.FloatByte.{fb2int-int2fb}
use gafq.Object.Log2.{log2-ceillog2}

int2fb_rounds_up : fb2int (int2fb 1000) ≡ 1024
unfolding int2fb fb2int shrink float_byte
int2fb_rounds_up = refl

-- The addition in the loop wraps at the largest word.
int2fb_wraps : int2fb (2 ^ 32 - 1) ≡ 0
unfolding int2fb shrink float_byte
int2fb_wraps = refl

fb2int-int2fb_example :
    (1000 ≤ fb2int (int2fb 1000))
    × (8 * (fb2int (int2fb 1000) - 1000) ≤ fb2int (int2fb 1000))
    × ((16 ≤ 1000) ⊎ (fb2int (int2fb 1000) ≡ 1000))
    × (fb2int (int2fb 1000) < 2 ^ 31)
fb2int-int2fb_example = fb2int-int2fb 1000 (omega arith)

log2_runs : log2 70000 ≡ pos 16
unfolding log2 log2_loop log_2
log2_runs = refl

log2-ceillog2_example :
    ((n : ℕ) × (log2 70000 ≡ pos n) × (2 ^ n ≤ 70000) × (70000 < 2 ^ (n + 1)))
    × (log2 0 ≡ negsuc 0)
    × (65 ≤ 2 ^ ceillog2 65)
    × ((ceillog2 65 ≡ 0) ⊎ (2 ^ (ceillog2 65 - 1) < 65))
log2-ceillog2_example =
    log2-ceillog2 70000 65 (omega arith) (omega arith) (omega arith) (omega arith)

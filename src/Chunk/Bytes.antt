-- ===== src/Chunk/Bytes.antt =====
-- Values and their bytes in memory.
use mathlib.Core.Path.{ap₂}
use native.Mathlib.Nat.{pow-suc}
use gafq.Prelude.{
  ℕ, zero, suc, ◌*◌, ◌/◌, ◌^◌, ◌<◌, ◌≡◌, ◌∙◌, refl, ap, arith, List, [], ◌∷◌, length, length-append,
  take-length, drop-length,
}
use gafq.Chunk.{to_bytes, of_bytes, words_bytes, bytes_words}

pub length-to_bytes : (k n : ℕ) → length (to_bytes k n) ≡ k
unfolding to_bytes
length-to_bytes zero n = refl
length-to_bytes (suc k) n = ap suc (length-to_bytes k (n / 256))

pub of_bytes-to_bytes : (k n : ℕ) → n < 256 ^ k → of_bytes (to_bytes k n) ≡ n
unfolding to_bytes of_bytes
of_bytes-to_bytes zero n h = omega arith
of_bytes-to_bytes (suc k) n h =
    omega (arith, pow-suc 256 k, of_bytes-to_bytes k (n / 256) (omega (arith, pow-suc 256 k)))

-- Every element of an array is below a bound.
abbrev pub AllBelow : ℕ → List ℕ → Type 0
AllBelow m [] = Unit
AllBelow m (x ∷ xs) = (x < m) × AllBelow m xs

pub length-words_bytes : (ws : List ℕ) → length (words_bytes ws) ≡ length ws * 4
unfolding words_bytes
length-words_bytes [] = refl
length-words_bytes (w ∷ ws) = omega (
  arith,
  length-append (to_bytes 4 w) (words_bytes ws),
  length-to_bytes 4 w,
  length-words_bytes ws,
)

pub bytes_words-words_bytes :
    (ws : List ℕ) → AllBelow (2 ^ 32) ws → bytes_words (length ws) (words_bytes ws) ≡ ws
unfolding words_bytes bytes_words to_bytes
bytes_words-words_bytes [] h = refl
bytes_words-words_bytes (w ∷ ws) h =
    ap₂ (λ (x : ℕ) (xs : List ℕ). x ∷ xs)
      (ap of_bytes (take-length (to_bytes 4 w) (words_bytes ws)) ∙ of_bytes-to_bytes 4 w h.0)
      (ap (bytes_words (length ws)) (drop-length (to_bytes 4 w) (words_bytes ws))
        ∙ bytes_words-words_bytes ws h.1)

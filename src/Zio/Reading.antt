-- ===== src/Zio/Reading.antt =====
-- gafqZ_read against the bytes that the stream delivers.
use mathlib.Core.Path.{subst}
use mathlib.Core.List.{append_assoc, append-nil}
use gafq.Prelude.{
  ℕ, zero, suc, ◌-◌, ◌≤◌, ◌<◌, ◌≡◌, refl, ap, ◌∙◌, min, arith, none, some, List, [], ◌∷◌, ◌++◌,
  take, drop, length, length-append, length-drop, take-take-drop, take-append-drop, drop-drop,
  take-length, drop-length,
}
use gafq.Zio.{Zio, Byte, lookahead, read, read_loop, read_next}
use gafq.Zio.Stream.{Content, advance, lookahead-Content, lookahead-end, advance-Content}

module _ {D : Type 0} where
  -- One round of the loop of `gafqZ_read`.
  read_round :
      (fuel k b : ℕ) (z : Zio D) (out bs : List ℕ)
      → Content z (b ∷ bs)
      → (z' : Zio D) × (m : ℕ) × (read_loop (suc fuel) z out (suc k)
          ≡ read_loop fuel z' (out ++ take m (b ∷ bs)) (suc k - m))
        × Content z' (drop m (b ∷ bs))
        × (0 < m)
        × (m ≤ suc k)
        × (m ≤ length (b ∷ bs))
  unfolding read_loop
  read_round fuel k b z out bs c =
      let (z', e, c', pos) = lookahead-Content z b bs c in
      let m = min (suc k) z'.n in
      let (c'', t) = advance-Content z' m (b ∷ bs) c' (omega arith) in
      (
        advance z' m,
        m,
        ap (read_next (read_loop fuel) out (suc k)) e ∙ rw t refl,
        c'',
        omega arith,
        omega arith,
        omega (arith, ap length c'.whole, length-append z'.p c'.rest, c'.filled),
      )

  -- The state of the loop once `n` bytes of `bs` are copied behind `out`.
  abbrev Copied : ℕ × List ℕ × Zio D → List ℕ → List ℕ → ℕ → Type 0
  Copied r out bs n = (z' : Zio D) × (r ≡ (0, out ++ take n bs, z')) × Content z' (drop n bs)

  read_loop-Copied :
      (fuel n : ℕ) (z : Zio D) (out bs : List ℕ)
      → n ≤ fuel
      → n ≤ length bs
      → Content z bs
      → Copied (read_loop fuel z out n) out bs n
  unfolding read_loop
  read_loop-Copied zero zero z out bs f l c = (z, rw append-nil refl, c)
  read_loop-Copied zero (suc n) z out bs f l c = absurd (omega arith)
  read_loop-Copied (suc fuel) zero z out bs f l c = (z, rw append-nil refl, c)
  read_loop-Copied (suc fuel) (suc k) z out [] f l c = absurd (omega arith)
  read_loop-Copied (suc fuel) (suc k) z out (b ∷ bs) f l c =
      let (z1, m, e, c1, pos, le, fit) = read_round fuel k b z out bs c in
      let (z2, e2, c2) =
        read_loop-Copied fuel (suc k - m) z1 (out ++ take m (b ∷ bs)) (drop m (b ∷ bs))
          (omega arith) (omega (arith, length-drop m (b ∷ bs))) c1 in
      (
        z2,
        e ∙ e2 ∙ rw (append_assoc, take-take-drop m (suc k) (b ∷ bs) le) refl,
        subst (λ r. Content z2 r) (drop-drop m (suc k) (b ∷ bs) le) c2,
      )

  -- The rest of a stream that is too short: the bytes that are missing, and all that there were.
  read_loop-short :
      (fuel n : ℕ) (z : Zio D) (out bs : List ℕ)
      → n ≤ fuel
      → length bs < n
      → Content z bs
      → ((read_loop fuel z out n).0 ≡ n - length bs) × ((read_loop fuel z out n).1 ≡ out ++ bs)
  unfolding read_loop
  read_loop-short zero n z out bs f l c = absurd (omega arith)
  read_loop-short (suc fuel) zero z out bs f l c = absurd (omega arith)
  read_loop-short (suc fuel) (suc k) z out [] f l c = at_end (lookahead z) (lookahead-end z c)
    where
      at_end :
          (r : Byte × Zio D)
          → r.0 ≡ none
          → ((read_next (read_loop fuel) out (suc k) r).0 ≡ suc k - 0)
            × ((read_next (read_loop fuel) out (suc k) r).1 ≡ out ++ [])
      at_end (none, z') e = (omega arith, rw append-nil refl)
      at_end (some b, z') e = cc
  read_loop-short (suc fuel) (suc k) z out (b ∷ bs) f l c =
      let (z1, m, e, c1, pos, le, fit) = read_round fuel k b z out bs c in
      let (missing, copied) =
        read_loop-short fuel (suc k - m) z1 (out ++ take m (b ∷ bs)) (drop m (b ∷ bs)) (omega arith)
          (omega (arith, length-drop m (b ∷ bs))) c1 in
      (
        ap (λ r. r.0) e ∙ missing ∙ omega (arith, length-drop m (b ∷ bs)),
        ap (λ r. r.1) e ∙ copied ∙ rw (append_assoc, take-append-drop m (b ∷ bs)) refl,
      )

  -- `gafqZ_read` for as many bytes as the stream has, or fewer, copies them, reports none missing
  -- and leaves exactly what follows them.
  pub read-Content :
      (z : Zio D) (bs rest : List ℕ)
      → Content z (bs ++ rest)
      → (z' : Zio D) × (read z (length bs) ≡ (0, bs, z')) × Content z' rest
  unfolding read
  read-Content z bs rest c =
      let (z', e, c') =
        read_loop-Copied (length bs) (length bs) z [] (bs ++ rest) (omega arith)
          (omega (arith, length-append bs rest)) c in
      (z', rw take-length at e, rw drop-length at c')

  -- Past the end of the stream `gafqZ_read` copies all that there is and returns the number of missing bytes.
  pub read-short :
      (z : Zio D) (n : ℕ) (bs : List ℕ)
      → Content z bs
      → length bs < n
      → ((read z n).0 ≡ n - length bs) × ((read z n).1 ≡ bs)
  unfolding read
  read-short z n bs c h = read_loop-short n n z [] bs (omega arith) h c

-- ===== src/Strings/Rehash.antt =====
-- Moving the strings to another number of chains keeps them all (gafqS_resize).
use mathlib.Core.Path.{subst}
use gafq.Prelude.{
  ℕ, zero, suc, ◌<◌, ◌≡◌, ◌∙◌, refl, sym, ap, arith, true, Bool-cases, ◌⊎◌, inl, inr, List, [], ◌∷◌,
  ◌==◌,
}
use gafq.Strings.{Str, lmod, put_at, rehash_chain, rehash}

abbrev pub In : Str → List Str → Type 0
In u [] = ⊥
In u (v ∷ vs) = (u ≡ v) ⊎ In u vs

pub put_at-cases :
    (hash : ℕ → List Str) (i b : ℕ) (p u : Str)
    → In u (put_at hash i (p ∷ hash i) b)
    → In u (hash b) ⊎ ((u ≡ p) × (b ≡ i))
put_at-cases hash i b p u h = elim (Bool-cases (b == i)) [
  | inl e ↦
      (let same : b ≡ i = ground arith in
        elim (rw e at h) [
          | inl eq ↦ inr (eq, same)
          | inr old ↦ inl (subst (λ (j : ℕ). In u (hash j)) (sym same) old)
        ])
  | inr e ↦ inl (rw e at h)
]

pub put_at-old :
    (hash : ℕ → List Str) (i b : ℕ) (p u : Str)
    → In u (hash b)
    → In u (put_at hash i (p ∷ hash i) b)
put_at-old hash i b p u h = elim (Bool-cases (b == i)) [
  | inl e ↦
      (let same : b ≡ i = ground arith in rw e (inr (subst (λ (j : ℕ). In u (hash j)) same h)))
  | inr e ↦ rw e h
]

pub put_at-new : (hash : ℕ → List Str) (i : ℕ) (p : Str) → In p (put_at hash i (p ∷ hash i) i)
put_at-new hash i p = let same : (i == i) ≡ true = ground arith in rw same (inl refl)

-- After a chain is moved, a chain has what it had, and of that chain what belongs there.
rehash_chain-from :
    (n : ℕ) (ps : List Str) (hash : ℕ → List Str) (b : ℕ) (u : Str)
    → In u (rehash_chain n ps hash b)
    → In u (hash b) ⊎ (In u ps × (b ≡ lmod u.hash n))
unfolding rehash_chain
rehash_chain-from n [] hash b u h = inl h
rehash_chain-from n (p ∷ ps) hash b u h =
    let i = lmod p.hash n in
    elim (rehash_chain-from n ps (put_at hash i (p ∷ hash i)) b u h) [
      | inr (old, e) ↦ inr (inr old, e)
      | inl put ↦ elim (put_at-cases hash i b p u put) [
        | inl old ↦ inl old
        | inr (eq, e) ↦ inr (inl eq, e ∙ ap (λ (v : Str). lmod v.hash n) (sym eq))
      ]
    ]

rehash_chain-keeps :
    (n : ℕ) (ps : List Str) (hash : ℕ → List Str) (b : ℕ) (u : Str)
    → In u (hash b)
    → In u (rehash_chain n ps hash b)
unfolding rehash_chain
rehash_chain-keeps n [] hash b u h = h
rehash_chain-keeps n (p ∷ ps) hash b u h =
    let i = lmod p.hash n in
    rehash_chain-keeps n ps (put_at hash i (p ∷ hash i)) b u (put_at-old hash i b p u h)

rehash_chain-moves :
    (n : ℕ) (ps : List Str) (hash : ℕ → List Str) (u : Str)
    → In u ps
    → In u (rehash_chain n ps hash (lmod u.hash n))
unfolding rehash_chain
rehash_chain-moves n [] hash u h = absurd h
rehash_chain-moves n (p ∷ ps) hash u (inl e) =
    let i = lmod p.hash n in
    subst (λ (v : Str). In v (rehash_chain n ps (put_at hash i (p ∷ hash i)) (lmod v.hash n)))
      (sym e) (rehash_chain-keeps n ps (put_at hash i (p ∷ hash i)) i p (put_at-new hash i p))
rehash_chain-moves n (p ∷ ps) hash u (inr h) =
    let i = lmod p.hash n in rehash_chain-moves n ps (put_at hash i (p ∷ hash i)) u h

-- A chain of the new table holds just the strings that belong there and were in the old one.
pub rehash-from :
    (n : ℕ) (hash : ℕ → List Str) (size b : ℕ) (u : Str)
    → In u (rehash n hash size b)
    → (b ≡ lmod u.hash n) × (i : ℕ) × (i < size) × In u (hash i)
unfolding rehash
rehash-from n hash zero b u h = absurd h
rehash-from n hash (suc size) b u h =
    elim (rehash_chain-from n (hash size) (rehash n hash size) b u h) [
      | inr (old, e) ↦ (e, size, omega arith, old)
      | inl before ↦
          let (e, i, less, old) = rehash-from n hash size b u before in (e, i, omega arith, old)
    ]

pub rehash-moves :
    (n : ℕ) (hash : ℕ → List Str) (size i : ℕ) (u : Str)
    → i < size
    → In u (hash i)
    → In u (rehash n hash size (lmod u.hash n))
unfolding rehash
rehash-moves n hash zero i u less h = absurd (omega arith)
rehash-moves n hash (suc size) i u less h = elim (Bool-cases (i == size)) [
  | inl e ↦
      (let same : i ≡ size = ground arith in
        rehash_chain-moves n (hash size) (rehash n hash size) u
          (subst (λ (j : ℕ). In u (hash j)) same h))
  | inr e ↦
      rehash_chain-keeps n (hash size) (rehash n hash size) (lmod u.hash n) u
        (rehash-moves n hash size i u (ground arith) h)
]

-- ===== src/Zio/Stream.antt =====
-- What a stream delivers: the bytes still in its buffer and then the reader's blocks, in order.
use mathlib.Core.Path.{subst}
use gafq.Prelude.{
  ℕ, ◌+◌, ◌-◌, ◌≤◌, ◌<◌, ◌≡◌, refl, sym, ap, ◌∙◌, arith, Option, none, some, List, [], ◌∷◌, ◌++◌,
  take, drop, length, length-drop, take-append_le, drop-append_le, true, false, ◌==◌, ltb,
}
use gafq.Zio.{Reader, Zio, Byte, fill, put_back, first, lookahead, zgetc}

-- From the state `d` on, the reader returns blocks that make up `bs`, and then an empty one.
pub data Delivers {D : Type 0} (reader : Reader D) : D → List ℕ → Type 0 where
  ends : {d : D} {bs : List ℕ} → (reader d).0 ≡ [] → bs ≡ [] → Delivers reader d bs
  sends :
      {d : D} {bs : List ℕ} (c : ℕ) (buff rest : List ℕ)
      → (reader d).0 ≡ c ∷ buff
      → Delivers reader (reader d).1 rest
      → bs ≡ c ∷ (buff ++ rest)
      → Delivers reader d bs

-- The stream `z` has the bytes `bs` to give, and its buffer is in order.
pub record Content {D : Type 0} (z : Zio D) (bs : List ℕ) : Type 0 where
  pub filled : z.n ≡ length z.p
  pub rest : List ℕ
  pub delivers : Delivers z.reader z.user rest
  pub whole : bs ≡ z.p ++ rest

cons_head : {x y : ℕ} {xs ys : List ℕ} → ◌≡◌ {A = List ℕ} (x ∷ xs) (y ∷ ys) → x ≡ y
cons_head e = cc

cons_tail : {x y : ℕ} {xs ys : List ℕ} → ◌≡◌ {A = List ℕ} (x ∷ xs) (y ∷ ys) → xs ≡ ys
cons_tail e = cc

empty-append : (p r : List ℕ) → [] ≡ p ++ r → (p ≡ []) × (r ≡ [])
empty-append [] r e = (refl, sym e)
empty-append (x ∷ p) r e = cc

module _ {D : Type 0} where
  fill-Content :
      (z : Zio D) (b : ℕ) (bs : List ℕ)
      → Delivers z.reader z.user (b ∷ bs)
      → (z' : Zio D) × (fill z ≡ (some b, z')) × Content z' bs
  unfolding fill
  fill-Content z b bs (ends e h) = cc
  fill-Content z b bs (sends c buff rest e d h) = (
    record z { n = length buff; p = buff; user = (z.reader z.user).1 },
    rw e (rw (cons_head h) refl),
    record { filled = refl; rest = rest; delivers = d; whole = cons_tail h },
  )

  fill-end : (z : Zio D) → Delivers z.reader z.user [] → (fill z).0 ≡ none
  unfolding fill
  fill-end z (ends e h) = rw e refl
  fill-end z (sends c buff rest e d h) = cc

  -- Looking at the next byte leaves the stream as it was, with a block in the buffer.
  lookahead-buffer :
      (z : Zio D) (b : ℕ) (bs p : List ℕ)
      → z.n ≡ length p
      → z.p ≡ p
      → (rest : List ℕ) → Delivers z.reader z.user rest
      → b ∷ bs ≡ p ++ rest
      → (z' : Zio D) × (lookahead z ≡ (some b, z')) × Content z' (b ∷ bs) × (0 < z'.n)
  unfolding lookahead
  lookahead-buffer z b bs [] en ep rest d w =
      let (z', e, c) = fill-Content z b bs (subst (λ r. Delivers z.reader z.user r) (sym w) d) in
      (
        record z' { n = z'.n + 1; p = b ∷ z'.p },
        (let test : (z.n == 0) ≡ true = ground arith in rw test (ap put_back e)),
        record {
          filled = omega (arith, c.filled);
          rest = c.rest;
          delivers = c.delivers;
          whole = ap (λ (t : List ℕ). b ∷ t) c.whole;
        },
        omega arith,
      )
  lookahead-buffer z b bs (c ∷ p) en ep rest d w = (
    z,
    (let test : (z.n == 0) ≡ false = ground arith in
        rw test (ap (λ (o : Option ℕ). (o, z)) (ap first ep ∙ ap some (sym (cons_head w))))),
    record {
      filled = omega (arith, ap length ep);
      rest = rest;
      delivers = d;
      whole = w ∙ ap (λ (t : List ℕ). t ++ rest) (sym ep);
    },
    omega arith,
  )

  -- The look ahead.
  pub lookahead-Content :
      (z : Zio D) (b : ℕ) (bs : List ℕ)
      → Content z (b ∷ bs)
      → (z' : Zio D) × (lookahead z ≡ (some b, z')) × Content z' (b ∷ bs) × (0 < z'.n)
  lookahead-Content z b bs c = lookahead-buffer z b bs z.p c.filled refl c.rest c.delivers c.whole

  zgetc-buffer :
      (z : Zio D) (b : ℕ) (bs p : List ℕ)
      → z.n ≡ length p
      → z.p ≡ p
      → (rest : List ℕ) → Delivers z.reader z.user rest
      → b ∷ bs ≡ p ++ rest
      → (z' : Zio D) × (zgetc z ≡ (some b, z')) × Content z' bs
  unfolding zgetc
  zgetc-buffer z b bs [] en ep rest d w =
      let test : ltb 0 z.n ≡ false = ground arith in
      rw test (fill-Content _ b bs (subst (λ r. Delivers z.reader z.user r) (sym w) d))
  zgetc-buffer z b bs (c ∷ p) en ep rest d w =
      let next : Zio D = record z { n = z.n - 1; p = drop 1 z.p } in
      (
        next,
        (let test : ltb 0 z.n ≡ true = ground arith in
            rw test (ap (λ (o : Option ℕ). (o, next)) (ap first ep ∙ ap some (sym (cons_head w))))),
        record {
          filled = omega (arith, ap (λ (t : List ℕ). length (drop 1 t)) ep);
          rest = rest;
          delivers = d;
          whole = cons_tail w ∙ ap (λ (t : List ℕ). drop 1 t ++ rest) (sym ep);
        },
      )

  -- The next byte.
  pub zgetc-Content :
      (z : Zio D) (b : ℕ) (bs : List ℕ)
      → Content z (b ∷ bs)
      → (z' : Zio D) × (zgetc z ≡ (some b, z')) × Content z' bs
  zgetc-Content z b bs c = zgetc-buffer z b bs z.p c.filled refl c.rest c.delivers c.whole

  -- Of a stream with a next byte, `zgetc` returns this byte and leaves those behind it, and
  -- `gafqZ_lookahead` returns it, puts it into the buffer and takes nothing from the stream.
  pub next_byte-Content :
      (z : Zio D) (b : ℕ) (bs : List ℕ)
      → Content z (b ∷ bs)
      → ((z' : Zio D) × (zgetc z ≡ (some b, z')) × Content z' bs)
        × ((z' : Zio D) × (lookahead z ≡ (some b, z')) × Content z' (b ∷ bs) × (0 < z'.n))
  next_byte-Content z b bs c = (zgetc-Content z b bs c, lookahead-Content z b bs c)

  pub lookahead-end : (z : Zio D) → Content z [] → (lookahead z).0 ≡ none
  unfolding lookahead
  lookahead-end z c =
      let (ep, er) = empty-append z.p c.rest c.whole in
      let test : (z.n == 0) ≡ true = ground (arith, ap length ep, c.filled) in
      let d : Delivers z.reader z.user [] = subst (λ r. Delivers z.reader z.user r) er c.delivers in
      rw test (none_back (fill z) (fill-end z d))
    where
      none_back : (r : Byte × Zio D) → r.0 ≡ none → (put_back r).0 ≡ none
      none_back (none, z) e = refl
      none_back (some b, z) e = cc

  -- Past `m` bytes of the buffer.
  abbrev pub advance : Zio D → ℕ → Zio D
  advance z m = record z { n = z.n - m; p = drop m z.p }

  pub advance-Content :
      (z : Zio D) (m : ℕ) (bs : List ℕ)
      → Content z bs
      → m ≤ z.n
      → Content (advance z m) (drop m bs) × (take m z.p ≡ take m bs)
  advance-Content z m bs c h = (
    record {
      filled = omega (arith, length-drop m z.p, c.filled);
      rest = c.rest;
      delivers = c.delivers;
      whole =
          ap (λ (t : List ℕ). drop m t) c.whole
          ∙ drop-append_le m z.p c.rest (omega (arith, c.filled));
    },
    sym (
        ap (λ (t : List ℕ). take m t) c.whole
        ∙ take-append_le m z.p c.rest (omega (arith, c.filled))),
  )

-- ===== src/Chunk/Loads.antt =====
-- What each loader of gundump.c makes of the blocks that the saver writes for the same value.
use mathlib.Core.Path.{subst}
use mathlib.Core.List.{append_assoc, append-nil}
use gafq.Prelude.{
  ℕ, ◌+◌, ◌-◌, ◌^◌, ◌<◌, ◌≡◌, ◌∙◌, ◌⊎◌, inl, inr, refl, sym, ap, arith, Bool, true, false, List, [],
  ◌∷◌, ◌++◌, length, length-append, ltb,
}
use gafq.Zio.{Zio}
use gafq.Zio
use gafq.Zio.Stream.{Content}
use gafq.Zio.Reading.{read-Content, read-short}
use gafq.Chunk.{to_bytes, of_bytes}
use gafq.Chunk.Bytes.{length-to_bytes, of_bytes-to_bytes}
use gafq.Chunk.Image.{Blocks, image_char, image_int}
use gafq.Chunk.Undump.{
  unexpected_end, LoadError, LoadState, Load, read_block, load_block, load_var, load_char, load_int,
  load_number,
}
use gafq.Prelude.Run.{ok, error, returning, bind, ◌>>=◌, ◌>>◌, fail_if}

abbrev pub joined : Blocks → List ℕ
joined [] = []
joined (b ∷ bs) = b ++ joined bs

joined-append : (xs ys : Blocks) → joined (xs ++ ys) ≡ joined xs ++ joined ys
joined-append [] ys = refl
joined-append (x ∷ xs) ys = rw (joined-append xs ys, append_assoc) refl

cons_head : {x y : ℕ} {xs ys : List ℕ} → ◌≡◌ {A = List ℕ} (x ∷ xs) (y ∷ ys) → x ≡ y
cons_head e = cc

cons_tail : {x y : ℕ} {xs ys : List ℕ} → ◌≡◌ {A = List ℕ} (x ∷ xs) (y ∷ ys) → xs ≡ ys
cons_tail e = cc

length-inside : (t u : List ℕ) (x : ℕ) → length t < length (t ++ x ∷ u)
length-inside t u x =
    let e : length (t ++ x ∷ u) ≡ length t + length (x ∷ u) = length-append t (x ∷ u) in omega arith

-- A list that stops before the end of `xs ++ ys` stops inside `xs` or inside `ys`.
stops_inside :
    (xs ys t u : List ℕ) (x : ℕ)
    → xs ++ ys ≡ t ++ x ∷ u
    → ((v : List ℕ) × (xs ≡ t ++ x ∷ v)) ⊎ ((w : List ℕ) × (t ≡ xs ++ w) × (ys ≡ w ++ x ∷ u))
stops_inside [] ys t u x h = inr (t, refl, h)
stops_inside (y ∷ xs) ys [] u x h = inl (xs, rw (cons_head h) refl)
stops_inside (y ∷ xs) ys (z ∷ t) u x h = elim (stops_inside xs ys t u x (cons_tail h)) [
  | inl (v, e) ↦ inl (v, rw (cons_head h) (ap (λ r. z ∷ r) e))
  | inr (w, e, e') ↦ inr (w, rw (cons_head h) (ap (λ r. z ∷ r) e), e')
]

not_inside_empty : (t u : List ℕ) (x : ℕ) → [] ≡ t ++ x ∷ u → ⊥
not_inside_empty [] u x h = cc
not_inside_empty (y ∷ t) u x h = cc

module _ {D : Type 0} where
  -- Before any further bytes, `m` turns these blocks into `a` and takes them off the stream; a stream
  -- that ends inside them is refused.
  pub record Loads {ℓ} {A : Type ℓ} (m : Load D A) (bs : Blocks) (a : A) : Type ℓ where
    pub run :
        (s : LoadState D) (rest : List ℕ)
        → Content s.zio (joined bs ++ rest)
        → (s' : LoadState D) × (m s ≡ ok (a, s')) × Content s'.zio rest
    pub short :
        (s : LoadState D) (t u : List ℕ) (x : ℕ)
        → Content s.zio t
        → joined bs ≡ t ++ x ∷ u
        → m s ≡ error unexpected_end

  pub Loads-returning {ℓ} : {A : Type ℓ} (a : A) → Loads (returning a) [] a
  Loads-returning a = record {
    run = λ s rest c. (s, refl, c);
    short = λ s t u x c h. absurd (not_inside_empty t u x h);
  }

  pub Loads-bind {ℓ κ} :
      {A : Type ℓ} {B : Type κ} {m : Load D A} (f : A → Load D B) {bs bs' : Blocks} {a : A} {b : B}
      → Loads m bs a
      → Loads (f a) bs' b
      → Loads (m >>= f) (bs ++ bs') b
  Loads-bind f {bs} {bs'} {a} hm hf = record {
    run = λ s rest c.
        let e : joined (bs ++ bs') ++ rest ≡ joined bs ++ (joined bs' ++ rest) =
          rw (joined-append bs bs') (append_assoc (joined bs) (joined bs') rest) in
        let (s1, e1, c1) = hm.run s (joined bs' ++ rest) (subst (λ t. Content s.zio t) e c) in
        let (s2, e2, c2) = hf.run s1 rest c1 in (s2, ap (λ r. bind r f) e1 ∙ e2, c2);
    short = λ s t u x c h.
        elim (stops_inside (joined bs) (joined bs') t u x (sym (joined-append bs bs') ∙ h)) [
          | inl (v, e) ↦ ap (λ r. bind r f) (hm.short s t v x c e)
          | inr (w, e, e') ↦
              let (s1, e1, c1) = hm.run s w (subst (λ r. Content s.zio r) e c) in
              ap (λ r. bind r f) e1 ∙ hf.short s1 w u x c1 e'
        ];
  }

  -- Before a step that loads nothing.
  pub Loads-end {ℓ κ} :
      {A : Type ℓ} {B : Type κ} {m : Load D A} (f : A → Load D B) {bs : Blocks} {a : A} {b : B}
      → Loads m bs a
      → Loads (f a) [] b
      → Loads (m >>= f) bs b
  Loads-end {m} f {bs} {a} {b} hm hf =
      subst (λ t. Loads (m >>= f) t b) (append-nil bs) (Loads-bind f hm hf)

  -- The last step, which computes the value from what is loaded.
  pub Loads-map {ℓ κ} :
      {A : Type ℓ} {B : Type κ} {m : Load D A} (g : A → B) {bs : Blocks} {a : A}
      → Loads m bs a
      → Loads (m >>= λ x. returning (g x)) bs (g a)
  Loads-map g hm = record {
    run = λ s rest c.
        let (s1, e1, c1) = hm.run s rest c in (s1, ap (λ r. bind r (λ x. returning (g x))) e1, c1);
    short = λ s t u x c h. ap (λ r. bind r (λ x. returning (g x))) (hm.short s t u x c h);
  }

  -- A test that lets the loader go on.
  pub Loads-check {κ} :
      {B : Type κ} (b : Bool) (e : LoadError) (k : Load D B) {bs : Blocks} {a : B}
      → b ≡ false
      → Loads k bs a
      → Loads (fail_if b e >> k) bs a
  Loads-check b e k {bs} {a} h hk = subst (λ t. Loads (fail_if t e >> k) bs a) (sym h) hk

  load_block-short :
      (s : LoadState D) (n : ℕ) (bs : List ℕ)
      → Content s.zio bs
      → length bs < n
      → load_block n s ≡ error unexpected_end
  unfolding load_block read_block
  load_block-short s n bs c h =
      let e : (Zio.read s.zio n).0 ≡ n - length bs = (read-short s.zio n bs c h).0 in
      let short : ltb 0 (Zio.read s.zio n).0 ≡ true = ground arith in rw short refl

  pub load_block-Loads : (bs : List ℕ) → Loads (load_block (length bs)) (bs ∷ []) bs
  unfolding load_block read_block
  load_block-Loads bs = record {
    run = λ s rest c.
        let (z, e, c') =
          read-Content s.zio bs rest (subst (λ t. Content s.zio (t ++ rest)) (append-nil bs) c) in
        (record s { zio = z }, rw e refl, c');
    short = λ s t u x c h.
        load_block-short s (length bs) t c (rw (sym (append-nil bs) ∙ h) (length-inside t u x));
  }

  pub load_var-Loads : (k n : ℕ) → n < 256 ^ k → Loads (load_var k) (to_bytes k n ∷ []) n
  unfolding load_var
  load_var-Loads k n h =
      subst (λ j. Loads (load_var j) (to_bytes k n ∷ []) n) (length-to_bytes k n)
        (subst (λ v. Loads (load_var (length (to_bytes k n))) (to_bytes k n ∷ []) v)
          (of_bytes-to_bytes k n h) (Loads-map of_bytes (load_block-Loads (to_bytes k n))))

  pub load_char-Loads : (y : ℕ) → y < 256 → Loads load_char (image_char y) y
  unfolding load_char
  load_char-Loads y h = load_var-Loads 1 y (omega arith)

  pub load_number-Loads : (n : ℕ) → n < 2 ^ 64 → Loads load_number (to_bytes 8 n ∷ []) n
  unfolding load_number
  load_number-Loads n h = load_var-Loads 8 n (omega arith)

  pub load_int-Loads : (x : ℕ) → x < 2 ^ 31 → Loads load_int (image_int x) x
  unfolding load_int
  load_int-Loads x h =
      Loads-bind _ (load_var-Loads 4 x (omega arith))
        (Loads-check _ _ _ (ground arith) (Loads-returning x))

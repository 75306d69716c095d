-- ===== src/Chunk/Writing.antt =====
-- Saving a prototype (gdump.c) with any writer: the blocks of the image are offered to it, in order,
-- until it fails.
use gafq.Prelude.{
  ℕ, ◌≡◌, ◌∙◌, refl, sym, ap, Bool, true, false, ◌||◌, Option, none, some, List, [], ◌∷◌, ◌++◌,
  length, ◌==◌, if◌then◌else◌, Bool-cases, ==_iff, inl, inr,
}
use gafq.Chunk.{
  TString, Constant, nil, boolean, number, string, LocVar, Fields, Proto, proto, Protos, no_protos,
  protos, to_bytes, tstring,
}
use gafq.Chunk.Header.{Platform, header}
use gafq.Chunk.Dump.{
  DumpState, Writer, same_source, dump_block, dump_char, dump_int, dump_number, dump_vector,
  dump_string, dump_code, dump_constant, dump_each, dump_locvar, kept, dump_debug, dump_constants,
  dump_start, protos_size, dump_function, dump_protos, dump,
}
use gafq.Chunk.Image.{
  Blocks, image_string, image_constant, image_each, image_array, image_vector, image_locvar,
  image_debug, image_start, image, image_protos, unless,
}

module _ {S : Type 0} where
  -- The blocks, written one after the other.
  abbrev write : Blocks → DumpState S → DumpState S
  write = dump_each dump_block

  write-append : (xs ys : Blocks) (d : DumpState S) → write (xs ++ ys) d ≡ write ys (write xs d)
  unfolding dump_each
  write-append [] ys d = refl
  write-append (x ∷ xs) ys d = write-append xs ys (dump_block x d)

  dump_string-write :
      (s : Option TString) (d : DumpState S) → dump_string s d ≡ write (image_string s) d
  unfolding dump_string dump_each
  dump_string-write none d = refl
  dump_string-write (some s) d = refl

  dump_constant-write :
      (c : Constant) (d : DumpState S) → dump_constant c d ≡ write (image_constant c) d
  unfolding dump_constant dump_each dump_char dump_number
  dump_constant-write nil d = refl
  dump_constant-write (boolean b) d = refl
  dump_constant-write (number n) d = refl
  dump_constant-write (string s) d = dump_string-write s (dump_block (to_bytes 1 tstring) d)

  dump_locvar-write : (v : LocVar) (d : DumpState S) → dump_locvar v d ≡ write (image_locvar v) d
  unfolding dump_locvar dump_int dump_each
  dump_locvar-write v d =
      rw
        (
          write-append (image_string v.varname) (to_bytes 4 v.startpc ∷ to_bytes 4 v.endpc ∷ []) d,
          dump_string-write v.varname d,
        )
        refl

  dump_each-write {ℓ} :
      {A : Type ℓ} (dump : A → DumpState S → DumpState S) (image : A → Blocks)
      → ((x : A) (d : DumpState S) → dump x d ≡ write (image x) d)
      → (xs : List A) (d : DumpState S) → dump_each dump xs d ≡ write (image_each image xs) d
  unfolding dump_each
  dump_each-write dump image h [] d = refl
  dump_each-write dump image h (x ∷ xs) d =
      rw (write-append (image x) (image_each image xs) d, h x d)
        (dump_each-write dump image h xs (write (image x) d))

  dump_block-strip : (b : List ℕ) (d : DumpState S) → (dump_block b d).strip ≡ d.strip
  unfolding dump_block
  dump_block-strip b d = elim (Bool-cases (d.status == 0)) [ inl h ↦ rw h refl | inr h ↦ rw h refl ]

  write-strip : (bs : Blocks) (d : DumpState S) → (write bs d).strip ≡ d.strip
  unfolding dump_each
  write-strip [] d = refl
  write-strip (b ∷ bs) d = write-strip bs (dump_block b d) ∙ dump_block-strip b d

  dump_array-write {ℓ} :
      {A : Type ℓ} (dump : A → DumpState S → DumpState S) (image : A → Blocks)
      → ((x : A) (d : DumpState S) → dump x d ≡ write (image x) d)
      → (xs : List A) (d : DumpState S)
      → dump_each dump xs (dump_int (length xs) d) ≡ write (image_array image xs) d
  unfolding dump_int dump_each
  dump_array-write dump image h xs d =
      dump_each-write dump image h xs (dump_block (to_bytes 4 (length xs)) d)

  dump_arrays-write :
      (lines : List ℕ) (vars : List LocVar) (names : List (Option TString)) (d : DumpState S)
      → dump_each dump_string names (
          dump_int
            (length names)
            (dump_each dump_locvar vars (dump_int (length vars) (dump_vector lines d))))
        ≡ write
            (image_vector lines
              ++ (image_array image_locvar vars ++ image_array image_string names))
            d
  unfolding dump_vector dump_int dump_each
  dump_arrays-write lines vars names d =
      let d1 = dump_vector lines d in
      rw
        (
          write-append (image_array image_locvar vars) (image_array image_string names) d1,
          ← dump_array-write dump_locvar image_locvar dump_locvar-write vars d1,
        )
        (dump_array-write dump_string image_string dump_string-write names _)

  dump_debug-write :
      (f : Fields) (d : DumpState S) → dump_debug f d ≡ write (image_debug d.strip f) d
  unfolding dump_debug kept
  dump_debug-write f d =
      dump_arrays-write (unless d.strip f.lineinfo) (unless d.strip f.locvars)
        (unless d.strip f.upvalues) d

  dump_start-write :
      (f : Fields) (p : Option TString) (d : DumpState S)
      → dump_start f p d ≡ write (image_start d.strip f p) d
  unfolding dump_start dump_constants dump_code dump_int dump_char dump_vector dump_each
  dump_start-write f p d =
      let src : Option TString = if same_source f.source p || d.strip then none else f.source in
      rw (write-append (image_string src) _ d, dump_string-write src d)
        (dump_each-write dump_constant image_constant dump_constant-write f.k _)

  -- The end of `DumpFunction`, from its start and its nested prototypes.
  finish-write :
      (strip : Bool) (f : Fields) (n : ℕ) (p : Option TString) (nested : DumpState S → DumpState S)
      (bs : Blocks)
      → ((d : DumpState S) → d.strip ≡ strip → nested d ≡ write bs d)
      → (d : DumpState S) → d.strip ≡ strip
      → dump_debug f (nested (dump_int n (dump_start f p d)))
        ≡ write (image_start strip f p ++ to_bytes 4 n ∷ (bs ++ image_debug strip f)) d
  unfolding dump_int dump_each
  finish-write strip f n p nested bs h d e =
      let start : dump_start f p d ≡ write (image_start strip f p) d =
        dump_start-write f p d ∙ ap (λ (b : Bool). write (image_start b f p) d) e in
      let d2 = dump_block (to_bytes 4 n) (write (image_start strip f p) d) in
      let e2 : d2.strip ≡ strip =
        dump_block-strip _ _ ∙ write-strip (image_start strip f p) d ∙ e in
      rw
        (
          write-append (image_start strip f p) (to_bytes 4 n ∷ (bs ++ image_debug strip f)) d,
          write-append bs (image_debug strip f) d2,
          start,
          h d2 e2,
        )
        (dump_debug-write f (write bs d2)
          ∙ ap (λ (b : Bool). write (image_debug b f) (write bs d2)) (write-strip bs d2 ∙ e2))

  mutual
    unfolding dump_function dump_protos image image_protos dump_each

    dump_function-write :
        (strip : Bool) (f : Proto) (p : Option TString) (d : DumpState S)
        → d.strip ≡ strip
        → dump_function f p d ≡ write (image strip f p) d
    dump_function-write strip (proto f ps) p d e =
        finish-write strip f (protos_size ps) p (dump_protos ps f.source)
          (image_protos strip ps f.source) (dump_protos-write strip ps f.source) d e

    dump_protos-write :
        (strip : Bool) (fs : Protos) (p : Option TString) (d : DumpState S)
        → d.strip ≡ strip
        → dump_protos fs p d ≡ write (image_protos strip fs p) d
    dump_protos-write strip no_protos p d e = refl
    dump_protos-write strip (protos f fs) p d e =
        ap (dump_protos fs p) (dump_function-write strip f p d e)
        ∙ dump_protos-write strip fs p (write (image strip f p) d)
            (write-strip (image strip f p) d ∙ e)
        ∙ sym (write-append (image strip f p) (image_protos strip fs p) d)

  -- The blocks offered to a writer one after the other until it returns a status other than 0: that
  -- status and the sink at that point.
  abbrev pub offer : Writer S → Blocks → S → ℕ × S
  offer w [] s = (0, s)
  offer w (b ∷ bs) s =
      let (st, s') = w s b in let rest = offer w bs s' in if st == 0 then rest else (st, s')

  -- The state after a block that the writer was given.
  abbrev written : DumpState S → List ℕ → DumpState S
  written d b = record d { status = (d.writer d.sink b).0; sink = (d.writer d.sink b).1 }

  dump_block-written :
      (b : List ℕ) (d : DumpState S) → (d.status == 0) ≡ true → dump_block b d ≡ written d b
  unfolding dump_block
  dump_block-written b d h = rw h refl

  dump_block-stopped : (b : List ℕ) (d : DumpState S) → (d.status == 0) ≡ false → dump_block b d ≡ d
  unfolding dump_block
  dump_block-stopped b d h = rw h refl

  write-stopped : (bs : Blocks) (d : DumpState S) → (d.status == 0) ≡ false → write bs d ≡ d
  unfolding dump_each
  write-stopped [] d h = refl
  write-stopped (b ∷ bs) d h = ap (write bs) (dump_block-stopped b d h) ∙ write-stopped bs d h

  -- What the caller gets of the final state.
  abbrev outcome : DumpState S → ℕ × S
  outcome d = (d.status, d.sink)

  write-offer :
      (bs : Blocks) (d : DumpState S)
      → (d.status == 0) ≡ true
      → outcome (write bs d) ≡ offer d.writer bs d.sink
  unfolding dump_each
  write-offer [] d h = ap (λ (n : ℕ). (n, d.sink)) ((==_iff d.status 0).0 h)
  write-offer (b ∷ bs) d h =
      ap (λ (x : DumpState S). outcome (write bs x)) (dump_block-written b d h)
      ∙ elim (Bool-cases ((d.writer d.sink b).0 == 0)) [
        | inl t ↦ rw t (write-offer bs (written d b) t)
        | inr t ↦ rw t (ap outcome (write-stopped bs (written d b) t))
      ]

  -- For every writer, saving a prototype offers it the header and then the blocks of the image, in
  -- order, stops at the first status that is not 0, and returns that status, or 0.
  pub dump-offer :
      (host : Platform) (f : Proto) (w : Writer S) (s : S) (strip : Bool)
      → dump host f w s strip ≡ offer w (header host ∷ image strip f none) s
  unfolding dump dump_each
  dump-offer host f w s strip =
      let d : DumpState S = record { writer = w; sink = s; strip = strip; status = 0 } in
      let d1 = dump_block (header host) d in
      ap outcome (dump_function-write strip f none d1 (dump_block-strip (header host) d))
      ∙ write-offer (header host ∷ image strip f none) d refl

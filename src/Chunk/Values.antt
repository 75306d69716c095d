-- ===== src/Chunk/Values.antt =====
-- Strings, arrays, constants and local variables are loaded as they were saved.
use mathlib.Core.Path.{subst}
use gafq.Prelude.{
  ℕ, ◌+◌, ◌-◌, ◌*◌, ◌^◌, ◌<◌, ◌≡◌, ◌∙◌, ap, arith, true, false, Option, none, some, List, [], ◌∷◌,
  ◌++◌, length, length-append, take-length, take, ltb, ◌==◌,
}
use gafq.Chunk.{
  TString, Constant, nil, boolean, number, string, LocVar, words_bytes, bytes_words, tnil, tboolean,
  tnumber, tstring,
}
use gafq.Chunk.Bytes.{length-words_bytes, bytes_words-words_bytes, AllBelow}
use gafq.Chunk.Image.{
  Blocks, image_vector, image_string, image_constant, image_each, image_array, image_locvar,
}
use gafq.Chunk.Undump.{
  Load, use_space, load_block, load_string, load_vector, load_code, load_each, load_constant_as,
  load_constant, load_constants, load_locvar,
}
use gafq.Prelude.Run.{returning, ◌>>=◌, ◌>>◌}
use gafq.Chunk.Loads.{
  Loads, Loads-returning, Loads-bind, Loads-map, load_block-Loads, load_var-Loads, load_char-Loads,
  load_number-Loads, load_int-Loads,
}

-- The sizes fit the types that hold them.
abbrev pub StringFits : Option TString → Type 0
StringFits none = Unit
StringFits (some s) = length s + 1 < 2 ^ 64

abbrev pub ConstantFits : Constant → Type 0
ConstantFits nil = Unit
ConstantFits (boolean b) = Unit
ConstantFits (number n) = n < 2 ^ 64
ConstantFits (string s) = StringFits s

abbrev pub LocVarFits : LocVar → Type 0
LocVarFits v = StringFits v.varname × (v.startpc < 2 ^ 31) × (v.endpc < 2 ^ 31)

abbrev pub AllFit {ℓ} : {A : Type ℓ} → (A → Type 0) → List A → Type 0
AllFit Fits [] = Unit
AllFit Fits (x ∷ xs) = Fits x × AllFit Fits xs

module _ {D : Type 0} where
  load_bytes-Loads :
      (bs : List ℕ) (n : ℕ) → length bs ≡ n → Loads (load_block {D = D} n) (bs ∷ []) bs
  load_bytes-Loads bs n e =
      subst (λ m. Loads (load_block {D = D} m) (bs ∷ []) bs) e (load_block-Loads bs)

  -- A last step that is known to give `b`.
  Loads-map_to {ℓ κ} :
      {A : Type ℓ} {B : Type κ} {m : Load D A} (g : A → B) {bs : Blocks} {a : A} {b : B}
      → g a ≡ b
      → Loads m bs a
      → Loads (m >>= λ x. returning (g x)) bs b
  Loads-map_to {m} g {bs} e hm =
      subst (λ v. Loads (m >>= λ x. returning (g x)) bs v) e (Loads-map g hm)

  -- `gafqZ_openspace` concerns the buffer and not the stream.
  Loads-use_space {κ} :
      {B : Type κ} (n : ℕ) {k : Load D B} {bs : Blocks} {a : B}
      → Loads k bs a
      → Loads (use_space n >> k) bs a
  unfolding use_space
  Loads-use_space n hk = record {
    run = λ s rest c. hk.run _ rest c;
    short = λ s t u x c h. hk.short _ t u x c h;
  }

  pub load_string-Loads :
      (s : Option TString) → StringFits s → Loads (load_string {D = D}) (image_string s) s
  unfolding load_string
  load_string-Loads none h = Loads-bind _ (load_var-Loads 8 0 (omega arith)) (Loads-returning none)
  load_string-Loads (some s) h = Loads-bind _ (load_var-Loads 8 (length s + 1) h) (
      let size : length (s ++ 0 ∷ []) ≡ length s + 1 = length-append s (0 ∷ []) in
      let some_bytes : (length s + 1 == 0) ≡ false = ground arith in
      let text : take (length s + 1 - 1) (s ++ 0 ∷ []) ≡ s =
        ap (λ (n : ℕ). take n (s ++ 0 ∷ [])) (omega arith) ∙ take-length s (0 ∷ []) in
      rw some_bytes (
        Loads-use_space (length s + 1) (
          Loads-map_to (λ b. some (take (length s + 1 - 1) b)) (ap some text)
            (load_bytes-Loads (s ++ 0 ∷ []) (length s + 1) size))))

  pub load_vector-Loads :
      (ws : List ℕ)
      → AllBelow (2 ^ 32) ws
      → Loads (load_vector {D = D} (length ws)) (words_bytes ws ∷ []) ws
  unfolding load_vector
  load_vector-Loads ws h =
      Loads-map_to (bytes_words (length ws)) (bytes_words-words_bytes ws h)
        (load_bytes-Loads (words_bytes ws) (length ws * 4) (length-words_bytes ws))

  pub load_code-Loads :
      (ws : List ℕ)
      → length ws < 2 ^ 31
      → AllBelow (2 ^ 32) ws
      → Loads (load_code {D = D}) (image_vector ws) ws
  unfolding load_code
  load_code-Loads ws l h = Loads-bind _ (load_int-Loads (length ws) l) (load_vector-Loads ws h)

  pub load_each-Loads {ℓ} :
      {A : Type ℓ} (load : Load D A) (image : A → Blocks) (Fits : A → Type 0)
      → ((x : A) → Fits x → Loads load (image x) x)
      → (xs : List A) → AllFit Fits xs
      → Loads (load_each load (length xs)) (image_each image xs) xs
  unfolding load_each
  load_each-Loads load image Fits h [] fit = Loads-returning []
  load_each-Loads load image Fits h (x ∷ xs) fit =
      Loads-bind _ (h x fit.0)
        (Loads-map (λ rest. x ∷ rest) (load_each-Loads load image Fits h xs fit.1))

  load_constant-Loads :
      (c : Constant) → ConstantFits c → Loads (load_constant {D = D}) (image_constant c) c
  unfolding load_constant load_constant_as
  load_constant-Loads nil h =
      Loads-bind _ (load_char-Loads tnil (omega arith)) (Loads-returning nil)
  load_constant-Loads (boolean true) h =
      Loads-bind _ (load_char-Loads tboolean (omega arith))
        (Loads-map (λ b. boolean (ltb 0 b)) (load_char-Loads 1 (omega arith)))
  load_constant-Loads (boolean false) h =
      Loads-bind _ (load_char-Loads tboolean (omega arith))
        (Loads-map (λ b. boolean (ltb 0 b)) (load_char-Loads 0 (omega arith)))
  load_constant-Loads (number n) h =
      Loads-bind _ (load_char-Loads tnumber (omega arith))
        (Loads-map number (load_number-Loads n h))
  load_constant-Loads (string s) h =
      Loads-bind _ (load_char-Loads tstring (omega arith))
        (Loads-map string (load_string-Loads s h))

  pub load_constants-Loads :
      (ks : List Constant)
      → length ks < 2 ^ 31
      → AllFit ConstantFits ks
      → Loads (load_constants {D = D}) (image_array image_constant ks) ks
  unfolding load_constants
  load_constants-Loads ks l h =
      Loads-bind _ (load_int-Loads (length ks) l)
        (load_each-Loads load_constant image_constant ConstantFits load_constant-Loads ks h)

  pub load_locvar-Loads :
      (v : LocVar) → LocVarFits v → Loads (load_locvar {D = D}) (image_locvar v) v
  unfolding load_locvar
  load_locvar-Loads v h = Loads-bind _ (load_string-Loads v.varname h.0) (
      Loads-bind _ (load_int-Loads v.startpc h.1) (
        Loads-map (λ e. record { varname = v.varname; startpc = v.startpc; endpc = e })
          (load_int-Loads v.endpc h.2)))

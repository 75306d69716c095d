-- ===== src/Chunk/Image.antt =====
-- The blocks that saving a prototype writes, in order.
use gafq.Prelude.{
  ℕ, ◌+◌, Bool, ◌||◌, Option, none, some, List, [], ◌∷◌, ◌++◌, length, if◌then◌else◌,
}
use gafq.Chunk.{
  TString, Constant, nil, boolean, number, string, LocVar, Fields, Proto, proto, Protos, no_protos,
  protos, to_bytes, words_bytes, tnil, tboolean, tnumber, tstring,
}
use gafq.Chunk.Dump.{same_source, protos_size}

abbrev pub Blocks : Type 0
Blocks = List (List ℕ)

abbrev pub image_char : ℕ → Blocks
image_char y = to_bytes 1 y ∷ []

abbrev pub image_int : ℕ → Blocks
image_int x = to_bytes 4 x ∷ []

abbrev pub image_vector : List ℕ → Blocks
image_vector ws = to_bytes 4 (length ws) ∷ words_bytes ws ∷ []

abbrev pub image_string : Option TString → Blocks
image_string none = to_bytes 8 0 ∷ []
image_string (some s) = to_bytes 8 (length s + 1) ∷ (s ++ 0 ∷ []) ∷ []

abbrev pub image_constant : Constant → Blocks
image_constant nil = image_char tnil
image_constant (boolean b) = to_bytes 1 tboolean ∷ to_bytes 1 (if b then 1 else 0) ∷ []
image_constant (number n) = to_bytes 1 tnumber ∷ to_bytes 8 n ∷ []
image_constant (string s) = to_bytes 1 tstring ∷ image_string s

abbrev pub image_each {ℓ} : {A : Type ℓ} → (A → Blocks) → List A → Blocks
image_each image [] = []
image_each image (x ∷ xs) = image x ++ image_each image xs

abbrev pub image_array {ℓ} : {A : Type ℓ} → (A → Blocks) → List A → Blocks
image_array image xs = to_bytes 4 (length xs) ∷ image_each image xs

abbrev pub image_locvar : LocVar → Blocks
image_locvar v = image_string v.varname ++ to_bytes 4 v.startpc ∷ to_bytes 4 v.endpc ∷ []

-- An array of the debug information, or none of it.
abbrev pub unless {ℓ} : {A : Type ℓ} → Bool → List A → List A
unless strip xs = if strip then [] else xs

abbrev pub image_debug : Bool → Fields → Blocks
image_debug strip f =
    image_vector (unless strip f.lineinfo)
    ++ (image_array image_locvar (unless strip f.locvars)
        ++ image_array image_string (unless strip f.upvalues))

abbrev pub image_start : Bool → Fields → Option TString → Blocks
image_start strip f p =
    image_string (if same_source f.source p || strip then none else f.source)
    ++ to_bytes 4 f.linedefined
      ∷ to_bytes 4 f.lastlinedefined
      ∷ to_bytes 1 f.nups
      ∷ to_bytes 1 f.numparams
      ∷ to_bytes 1 f.is_vararg
      ∷ to_bytes 1 f.maxstacksize
      ∷ (image_vector f.code ++ image_array image_constant f.k)

unfoldable mutual
  pub image : Bool → Proto → Option TString → Blocks
  image strip (proto f ps) p =
      image_start strip f p
      ++ to_bytes 4 (protos_size ps) ∷ (image_protos strip ps f.source ++ image_debug strip f)

  pub image_protos : Bool → Protos → Option TString → Blocks
  image_protos strip no_protos p = []
  image_protos strip (protos f fs) p = image strip f p ++ image_protos strip fs p

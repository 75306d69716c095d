-- ===== src/Codegen/Registers.antt =====
-- Registers and constants (gcode.c).
use gafq.Prelude.{
  ℕ, ◌+◌, ◌-◌, ◌%◌, ◌^◌, Bool, true, false, not, ◌&&◌, Option, none, some, List, [], ◌∷◌, ◌++◌, ltb,
  leb, if◌then◌else◌,
}
use gafq.Prelude.Run.{ok, error, returning, failing, ◌>>=◌, ◌>>◌, get, modify}
use gafq.Opcodes.{maxarg_bx, isk}
use gafq.Chunk.{TString, Constant, nil, boolean, number, string}
use gafq.Chunk.Dump.{same_source}
use gafq.Codegen.{
  CodeError, index_is_nil, index_is_nan, too_complex, constant_table_overflow, Key, value,
  table_itself, FuncState, Gen, nk, grow,
}

-- `MAXSTACK`
abbrev pub maxstack : ℕ
maxstack = 250

-- `gafqK_checkstack`; `maxstacksize` is a byte.
unfoldable pub checkstack : ℕ → Gen (Unit {0})
checkstack n fs =
    let newstack = fs.freereg + n in
    if ltb fs.maxstacksize newstack
    then (if leb maxstack newstack
        then error too_complex
        else ok (tt, record fs { maxstacksize = newstack % 2 ^ 8 }))
    else ok (tt, fs)

-- `gafqK_reserveregs`
unfoldable pub reserveregs : ℕ → Gen (Unit {0})
reserveregs n = do checkstack n; modify (λ fs. record fs { freereg = fs.freereg + n })

unfoldable pub freereg : ℕ → FuncState → FuncState
freereg reg fs =
    if not (isk reg) && leb fs.nactvar reg then record fs { freereg = fs.freereg - 1 } else fs

-- The arithmetic of the C type `double`, on its images in memory.
pub record Arithmetic : Type 0 where
  pub numadd : ℕ → ℕ → ℕ
  pub numsub : ℕ → ℕ → ℕ
  pub nummul : ℕ → ℕ → ℕ
  pub numdiv : ℕ → ℕ → ℕ
  pub nummod : ℕ → ℕ → ℕ
  pub numpow : ℕ → ℕ → ℕ
  pub numunm : ℕ → ℕ
  pub numeq : ℕ → ℕ → Bool
  pub numisnan : ℕ → Bool

-- The equality of keys in a table; strings are the same if their bytes are.
unfoldable pub same_constant : Arithmetic → Constant → Constant → Bool
unfolding same_source
same_constant num nil nil = true
same_constant num (boolean true) (boolean b) = b
same_constant num (boolean false) (boolean b) = not b
same_constant num (number x) (number y) = num.numeq x y
same_constant num (string s) (string t) = same_source s t
same_constant num _ _ = false

unfoldable pub same_key : Arithmetic → Key → Key → Bool
unfolding same_constant
same_key num (value x) (value y) = same_constant num x y
same_key num table_itself table_itself = true
same_key num _ _ = false

-- The index that the table `h` holds for a key.
unfoldable pub find_key : Arithmetic → List (Key × ℕ) → Key → Option ℕ
unfolding same_key
find_key num [] key = none
find_key num ((x, i) ∷ h) key =
    let rest = find_key num h key in if same_key num x key then some i else rest

-- `f->k[fs->nk]=v; return fs->nk++` for a constant that is new.
unfoldable pub new_constant : Key → Constant → ℕ → Gen ℕ
unfolding nk
new_constant key v sizek fs =
    ok (nk fs, record fs { h = (key, nk fs) ∷ fs.h; k = fs.k ++ v ∷ []; sizek = sizek })

-- The rest of `addk`, from the index that the table holds for the key.
unfoldable pub addk_found : Key → Constant → Option ℕ → Gen ℕ
unfolding nk
addk_found key v (some i) = returning i
addk_found key v none = do
  fs ← get
  sizek ← grow (nk fs) fs.sizek maxarg_bx constant_table_overflow
  new_constant key v sizek

-- `gafqH_set` takes neither nil nor NaN as a key.
unfoldable pub refused_key : Arithmetic → Key → Option CodeError
refused_key num (value nil) = some index_is_nil
refused_key num (value (number x)) = if num.numisnan x then some index_is_nan else none
refused_key num _ = none

abbrev pub addk_key : Arithmetic → Key → Constant → Option CodeError → Gen ℕ
addk_key num key v (some e) = failing e
addk_key num key v none = do fs ← get; addk_found key v (find_key num fs.h key)

unfoldable pub addk : Arithmetic → Key → Constant → Gen ℕ
unfolding addk_found refused_key
addk num key v = addk_key num key v (refused_key num key)

-- `gafqK_stringK`
unfoldable pub string_k : Arithmetic → TString → Gen ℕ
string_k num s = addk num (value (string (some s))) (string (some s))

-- `gafqK_numberK`
unfoldable pub number_k : Arithmetic → ℕ → Gen ℕ
number_k num r = addk num (value (number r)) (number r)

unfoldable pub bool_k : Arithmetic → Bool → Gen ℕ
bool_k num b = addk num (value (boolean b)) (boolean b)

-- The table itself stands for `nil`, which cannot be a key.
unfoldable pub nil_k : Arithmetic → Gen ℕ
nil_k num = addk num table_itself nil

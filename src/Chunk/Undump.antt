-- ===== src/Chunk/Undump.antt =====
-- Loading a precompiled chunk (gundump.c). The allocator is taken to succeed.
use gafq.Prelude.{
  ℕ, zero, suc, ◌-◌, ◌*◌, Bool, not, Option, none, some, List, [], ◌∷◌, ltb, leb, ◌^◌, take, ◌==◌,
  if◌then◌else◌,
}
use gafq.Prelude.Run.{Run, ok, returning, failing, ◌>>=◌, ◌>>◌, fail_if}
use gafq.Zio.{Zio}
use gafq.Zio
use gafq.Zio.Buffer.{Mbuffer, openspace}
use gafq.Chunk.{
  TString, Constant, nil, boolean, number, string, LocVar, Fields, Proto, proto, Protos, no_protos,
  protos, of_bytes, bytes_words, tnil, tboolean, tnumber, tstring,
}
use gafq.Chunk.Header.{Platform, header, headersize, same_bytes}

-- The reasons that `error` is called with; the thrown status is GAFQ_ERRSYNTAX.
pub data LoadError : Type 0 where
  unexpected_end bad_integer bad_constant code_too_deep bad_code bad_header : LoadError

pub record LoadState (D : Type 0) : Type 0 where
  pub zio : Zio D
  pub b : Mbuffer

abbrev pub Load {ℓ} : Type 0 → Type ℓ → Type ℓ
Load D A = Run LoadError (LoadState D) A

unfoldable pub to_protos : List Proto → Protos
to_protos [] = no_protos
to_protos (f ∷ fs) = protos f (to_protos fs)

-- `GAFQI_MAXCCALLS`
abbrev pub maxccalls : ℕ
maxccalls = 200

-- `if (f->source==NULL) f->source=p`
unfoldable pub source_or : Option TString → Option TString → Option TString
source_or none p = p
source_or (some s) p = some s

module _ {D : Type 0} where
  -- `gafqZ_read` into a block, and the bytes that are missing.
  unfoldable pub read_block : ℕ → Load D (ℕ × List ℕ)
  read_block size s = let (r, bs, z) = Zio.read s.zio size in ok ((r, bs), record s { zio = z })

  unfoldable pub load_block : ℕ → Load D (List ℕ)
  load_block size = do (r, bs) ← read_block size; fail_if (ltb 0 r) unexpected_end; returning bs

  -- The variable that the bytes are copied into.
  unfoldable pub load_var : ℕ → Load D ℕ
  load_var size = do bs ← load_block size; returning (of_bytes bs)

  unfoldable pub load_char : Load D ℕ
  load_char = load_var 1

  -- A pattern from 2 ^ 31 on is a negative `int`.
  unfoldable pub load_int : Load D ℕ
  load_int = do x ← load_var 4; fail_if (leb (2 ^ 31) x) bad_integer; returning x

  unfoldable pub load_number : Load D ℕ
  load_number = load_var 8

  unfoldable pub use_space : ℕ → Load D (Unit {0})
  use_space size s = ok (tt, record s { b = openspace s.b size })

  unfoldable pub load_string : Load D (Option TString)
  load_string = do
    size ← load_var 8
    if size == 0
        then returning none
        else (do use_space size; s ← load_block size; returning (some (take (size - 1) s)))

  -- `LoadVector` of 4-byte elements.
  unfoldable pub load_vector : ℕ → Load D (List ℕ)
  load_vector n = do bs ← load_block (n * 4); returning (bytes_words n bs)

  unfoldable pub load_code : Load D (List ℕ)
  load_code = do n ← load_int; load_vector n

  -- The loops `for (i=0; i<n; i++)` that fill an array.
  unfoldable pub load_each {ℓ} : {A : Type ℓ} → Load D A → ℕ → Load D (List A)
  load_each load zero = returning []
  load_each load (suc n) = do a ← load; rest ← load_each load n; returning (a ∷ rest)

  -- A type byte from 128 on is negative as a `char`, and no tag either.
  unfoldable pub load_constant_as : ℕ → Load D Constant
  load_constant_as t =
      if t == tnil
      then returning nil
      else if t == tboolean
      then (do b ← load_char; returning (boolean (ltb 0 b)))
      else if t == tnumber
      then (do n ← load_number; returning (number n))
      else if t == tstring
      then (do s ← load_string; returning (string s))
      else failing bad_constant

  unfoldable pub load_constant : Load D Constant
  load_constant = do t ← load_char; load_constant_as t

  -- The first half of `LoadConstants`; the nested prototypes follow.
  unfoldable pub load_constants : Load D (List Constant)
  load_constants = do n ← load_int; load_each load_constant n

  unfoldable pub load_locvar : Load D LocVar
  load_locvar = do
    name ← load_string
    startpc ← load_int
    endpc ← load_int
    returning (record { varname = name; startpc = startpc; endpc = endpc })

  -- `LoadDebug` completes the prototype.
  unfoldable pub load_debug : Fields → Load D Fields
  load_debug f = do
    n ← load_int
    lineinfo ← load_vector n
    m ← load_int
    locvars ← load_each load_locvar m
    u ← load_int
    upvalues ← load_each load_string u
    returning (record f { lineinfo = lineinfo; locvars = locvars; upvalues = upvalues })

  -- `LoadFunction` up to the constants; the arrays of the debug information are still empty.
  unfoldable pub load_start : Option TString → Load D Fields
  unfolding source_or
  load_start p = do
    source ← load_string
    linedefined ← load_int
    lastlinedefined ← load_int
    nups ← load_char
    numparams ← load_char
    is_vararg ← load_char
    maxstacksize ← load_char
    code ← load_code
    k ← load_constants
    returning (record {
      source = source_or source p;
      linedefined = linedefined;
      lastlinedefined = lastlinedefined;
      nups = nups;
      numparams = numparams;
      is_vararg = is_vararg;
      maxstacksize = maxstacksize;
      code = code;
      k = k;
      lineinfo = [];
      locvars = [];
      upvalues = [];
    })

  -- `LoadFunction`. `left` counts the calls that GAFQI_MAXCCALLS still allows, so that the source's
  -- own limit bounds the recursion; `check` is `gafqG_checkcode`.
  unfoldable pub load_function : (Proto → Bool) → ℕ → Option TString → Load D Proto
  load_function check zero p = failing code_too_deep
  load_function check (suc left) p = do
    f ← load_start p
    n ← load_int
    ps ← load_each (load_function check left f.source) n
    g ← load_debug f
    fail_if (not (check (proto g (to_protos ps)))) bad_code
    returning (proto g (to_protos ps))

  unfoldable pub load_header : Platform → Load D (Unit {0})
  load_header host = do
    s ← load_block headersize
    fail_if (not (same_bytes (header host) s)) bad_header

  -- `gafqU_undump`, called at a depth of `n_ccalls`.
  unfoldable pub undump : Platform → (Proto → Bool) → ℕ → Load D Proto
  undump host check n_ccalls = do
    load_header host
    load_function check (maxccalls - n_ccalls) (some (b'=' ∷ b'?' ∷ []))

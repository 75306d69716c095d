-- ===== src/Chunk/Dump.antt =====
-- Saving a prototype as a precompiled chunk (gdump.c).
use gafq.Prelude.{
  ℕ, suc, ◌+◌, Bool, true, false, ◌||◌, Option, none, some, List, [], ◌∷◌, ◌++◌, length, ◌==◌,
  if◌then◌else◌,
}
use gafq.Chunk.{
  TString, Constant, nil, boolean, number, string, LocVar, Fields, Proto, proto, Protos, no_protos,
  protos, to_bytes, words_bytes, tnil, tboolean, tnumber, tstring,
}
use gafq.Chunk.Header.{Platform, header, same_bytes}

-- A `gafq_Writer` takes a block and returns a status; 0 is success.
abbrev pub Writer : Type 0 → Type 0
Writer S = S → List ℕ → ℕ × S

pub record DumpState (S : Type 0) : Type 0 where
  pub writer : Writer S
  pub sink : S
  pub strip : Bool
  pub status : ℕ

-- `f->source==p` on two interned strings.
unfoldable pub same_source : Option TString → Option TString → Bool
unfolding same_bytes
same_source none none = true
same_source none (some t) = false
same_source (some s) none = false
same_source (some s) (some t) = same_bytes s t

unfoldable pub protos_size : Protos → ℕ
protos_size no_protos = 0
protos_size (protos f fs) = suc (protos_size fs)

module _ {S : Type 0} where
  unfoldable pub dump_block : List ℕ → DumpState S → DumpState S
  dump_block b d =
      if d.status == 0
      then (let (st, s) = d.writer d.sink b in record d { status = st; sink = s })
      else d

  unfoldable pub dump_char : ℕ → DumpState S → DumpState S
  dump_char y d = dump_block (to_bytes 1 y) d

  unfoldable pub dump_int : ℕ → DumpState S → DumpState S
  dump_int x d = dump_block (to_bytes 4 x) d

  unfoldable pub dump_number : ℕ → DumpState S → DumpState S
  dump_number x d = dump_block (to_bytes 8 x) d

  -- `DumpVector` of 4-byte elements.
  unfoldable pub dump_vector : List ℕ → DumpState S → DumpState S
  dump_vector b d = dump_block (words_bytes b) (dump_int (length b) d)

  unfoldable pub dump_string : Option TString → DumpState S → DumpState S
  dump_string none d = dump_block (to_bytes 8 0) d
  dump_string (some s) d = dump_block (s ++ 0 ∷ []) (dump_block (to_bytes 8 (length s + 1)) d)

  unfoldable pub dump_code : Fields → DumpState S → DumpState S
  dump_code f d = dump_vector f.code d

  unfoldable pub dump_constant : Constant → DumpState S → DumpState S
  dump_constant nil d = dump_char tnil d
  dump_constant (boolean b) d = dump_char (if b then 1 else 0) (dump_char tboolean d)
  dump_constant (number n) d = dump_number n (dump_char tnumber d)
  dump_constant (string s) d = dump_string s (dump_char tstring d)

  -- The loops `for (i=0; i<n; i++)` over an array.
  unfoldable pub dump_each {ℓ} :
      {A : Type ℓ} → (A → DumpState S → DumpState S) → List A → DumpState S → DumpState S
  dump_each dump [] d = d
  dump_each dump (x ∷ xs) d = dump_each dump xs (dump x d)

  unfoldable pub dump_locvar : LocVar → DumpState S → DumpState S
  dump_locvar v d = dump_int v.endpc (dump_int v.startpc (dump_string v.varname d))

  -- An array, or none of it if `D->strip` (which no dump changes) is set.
  unfoldable pub kept {ℓ} : {A : Type ℓ} → DumpState S → List A → List A
  kept d xs = if d.strip then [] else xs

  unfoldable pub dump_debug : Fields → DumpState S → DumpState S
  dump_debug f d =
      let d1 = dump_vector (kept d f.lineinfo) d in
      let d2 = dump_int (length (kept d f.locvars)) d1 in
      let d3 = dump_each dump_locvar (kept d f.locvars) d2 in
      let d4 = dump_int (length (kept d f.upvalues)) d3 in
      dump_each dump_string (kept d f.upvalues) d4

  -- The first half of `DumpConstants`; the nested prototypes follow.
  unfoldable pub dump_constants : Fields → DumpState S → DumpState S
  dump_constants f d = dump_each dump_constant f.k (dump_int (length f.k) d)

  -- `DumpFunction` up to the constants.
  unfoldable pub dump_start : Fields → Option TString → DumpState S → DumpState S
  dump_start f p d =
      let d1 = dump_string (if same_source f.source p || d.strip then none else f.source) d in
      let d2 = dump_int f.lastlinedefined (dump_int f.linedefined d1) in
      let d3 = dump_char f.numparams (dump_char f.nups d2) in
      let d4 = dump_char f.maxstacksize (dump_char f.is_vararg d3) in
      dump_constants f (dump_code f d4)

  -- `DumpFunction`, and its loop over the nested prototypes, which get the source of this one.
  unfoldable mutual
    pub dump_function : Proto → Option TString → DumpState S → DumpState S
    dump_function (proto f ps) p d =
        dump_debug f (dump_protos ps f.source (dump_int (protos_size ps) (dump_start f p d)))

    pub dump_protos : Protos → Option TString → DumpState S → DumpState S
    dump_protos no_protos p d = d
    dump_protos (protos f fs) p d = dump_protos fs p (dump_function f p d)

  unfoldable pub dump_header : Platform → DumpState S → DumpState S
  dump_header host d = dump_block (header host) d

  -- `gafqU_dump`, with the final state of the sink beside the status.
  unfoldable pub dump : Platform → Proto → Writer S → S → Bool → ℕ × S
  unfolding dump_header
  dump host f w sink strip =
      let d : DumpState S = record { writer = w; sink = sink; strip = strip; status = 0 } in
      let d' = dump_function f none (dump_header host d) in (d'.status, d'.sink)

-- ===== src/Chunk/Prototypes.antt =====
-- A whole prototype is loaded as it was saved, with the strings and arrays that the saver left out.
use gafq.Prelude.{
  ℕ, zero, suc, ◌^◌, ◌<◌, ◌≤◌, ◌≡◌, refl, ap, max, arith, Bool, true, false, not, ◌||◌, Option,
  none, List, [], ◌∷◌, ◌++◌, length, if◌then◌else◌,
}
use gafq.Chunk.{TString, LocVar, Fields, Proto, proto, Protos, no_protos, protos, to_bytes}
use gafq.Chunk.Bytes.{AllBelow}
use gafq.Chunk.Dump.{same_source, protos_size}
use gafq.Chunk.Image.{
  Blocks, image_string, image_vector, image_array, image_locvar, image_debug, image_start, image,
  image_protos, unless,
}
use gafq.Chunk.Undump.{
  load_string, load_each, load_locvar, load_debug, source_or, load_start, load_function, to_protos,
  bad_code,
}
use gafq.Chunk.Loads.{
  Loads, Loads-returning, Loads-bind, Loads-end, Loads-map, Loads-check, load_char-Loads,
  load_int-Loads,
}
use gafq.Chunk.Values.{
  StringFits, ConstantFits, LocVarFits, AllFit, load_string-Loads, load_code-Loads,
  load_vector-Loads, load_each-Loads, load_constants-Loads, load_locvar-Loads,
}

-- The fields are within their C types, and no `int` among them is negative.
pub record FieldsFit (f : Fields) : Type 0 where
  pub source : StringFits f.source
  pub linedefined : f.linedefined < 2 ^ 31
  pub lastlinedefined : f.lastlinedefined < 2 ^ 31
  pub nups : f.nups < 256
  pub numparams : f.numparams < 256
  pub is_vararg : f.is_vararg < 256
  pub maxstacksize : f.maxstacksize < 256
  pub sizecode : length f.code < 2 ^ 31
  pub code : AllBelow (2 ^ 32) f.code
  pub sizek : length f.k < 2 ^ 31
  pub k : AllFit ConstantFits f.k
  pub sizelineinfo : length f.lineinfo < 2 ^ 31
  pub lineinfo : AllBelow (2 ^ 32) f.lineinfo
  pub sizelocvars : length f.locvars < 2 ^ 31
  pub locvars : AllFit LocVarFits f.locvars
  pub sizeupvalues : length f.upvalues < 2 ^ 31
  pub upvalues : AllFit StringFits f.upvalues

-- What loading gives for the saved fields: `p` is the source that the saver knew of the enclosing
-- function, `q` the one that the loader has.
abbrev pub saved_source : Bool → Option TString → Fields → Option TString
saved_source strip p f = if same_source f.source p || strip then none else f.source

abbrev pub restored_start : Bool → Option TString → Option TString → Fields → Fields
restored_start strip q p f = record f {
  source = source_or (saved_source strip p f) q;
  lineinfo = [];
  locvars = [];
  upvalues = [];
}

abbrev pub restored_fields : Bool → Option TString → Option TString → Fields → Fields
restored_fields strip q p f = record f {
  source = source_or (saved_source strip p f) q;
  lineinfo = unless strip f.lineinfo;
  locvars = unless strip f.locvars;
  upvalues = unless strip f.upvalues;
}

unfoldable mutual
  pub Fits : Proto → Type 0
  Fits (proto f ps) = FieldsFit f × (protos_size ps < 2 ^ 31) × ProtosFit ps

  pub ProtosFit : Protos → Type 0
  ProtosFit no_protos = Unit
  ProtosFit (protos f fs) = Fits f × ProtosFit fs

unfoldable mutual
  pub depth : Proto → ℕ
  depth (proto f ps) = suc (depth_protos ps)

  pub depth_protos : Protos → ℕ
  depth_protos no_protos = 0
  depth_protos (protos f fs) = max (depth f) (depth_protos fs)

unfoldable mutual
  pub restored : Bool → Option TString → Option TString → Proto → Proto
  restored strip q p (proto f ps) =
      proto (restored_fields strip q p f)
        (restored_protos strip (source_or (saved_source strip p f) q) f.source ps)

  pub restored_protos : Bool → Option TString → Option TString → Protos → Protos
  restored_protos strip q p no_protos = no_protos
  restored_protos strip q p (protos f fs) =
      protos (restored strip q p f) (restored_protos strip q p fs)

-- `check` accepts a prototype and all those inside it.
unfoldable mutual
  pub Passes : (Proto → Bool) → Proto → Type 0
  Passes check (proto f ps) = (check (proto f ps) ≡ true) × ProtosPass check ps

  pub ProtosPass : (Proto → Bool) → Protos → Type 0
  ProtosPass check no_protos = Unit
  ProtosPass check (protos f fs) = Passes check f × ProtosPass check fs

abbrev listed : Protos → List Proto
listed no_protos = []
listed (protos f fs) = f ∷ listed fs

to_protos-listed : (fs : Protos) → to_protos (listed fs) ≡ fs
unfolding to_protos
to_protos-listed no_protos = refl
to_protos-listed (protos f fs) = ap (protos f) (to_protos-listed fs)

saved_source-fits :
    (strip : Bool) (p : Option TString) (f : Fields)
    → StringFits f.source
    → StringFits (saved_source strip p f)
saved_source-fits strip p f h =
    elim (same_source f.source p || strip) as (λ b. StringFits (if b then none else f.source)) [
      | true ↦ tt
      | false ↦ h
    ]

module _ {D : Type 0} where
  load_start-Loads :
      (strip : Bool) (q p : Option TString) (f : Fields)
      → FieldsFit f
      → Loads (load_start {D = D} q) (image_start strip f p) (restored_start strip q p f)
  unfolding load_start
  load_start-Loads strip q p f h =
      Loads-bind _
        (load_string-Loads (saved_source strip p f) (saved_source-fits strip p f h.source))
        (Loads-bind _ (load_int-Loads f.linedefined h.linedefined) (
          Loads-bind _ (load_int-Loads f.lastlinedefined h.lastlinedefined) (
            Loads-bind _ (load_char-Loads f.nups h.nups) (
              Loads-bind _ (load_char-Loads f.numparams h.numparams) (
                Loads-bind _ (load_char-Loads f.is_vararg h.is_vararg) (
                  Loads-bind _ (load_char-Loads f.maxstacksize h.maxstacksize) (
                    Loads-bind _ (load_code-Loads f.code h.sizecode h.code)
                      (Loads-map _ (load_constants-Loads f.k h.sizek h.k)))))))))

  load_arrays-Loads :
      (g : Fields) (lines : List ℕ) (vars : List LocVar) (names : List (Option TString))
      → length lines < 2 ^ 31
      → AllBelow (2 ^ 32) lines
      → length vars < 2 ^ 31
      → AllFit LocVarFits vars
      → length names < 2 ^ 31
      → AllFit StringFits names
      → Loads
          (load_debug {D = D} g)
          (image_vector lines ++ (image_array image_locvar vars ++ image_array image_string names))
          (record g { lineinfo = lines; locvars = vars; upvalues = names })
  unfolding load_debug
  load_arrays-Loads g lines vars names sl fl sv fv sn fn =
      Loads-bind _ (load_int-Loads (length lines) sl) (
        Loads-bind _ (load_vector-Loads lines fl) (
          Loads-bind _ (load_int-Loads (length vars) sv) (
            Loads-bind _
              (load_each-Loads load_locvar image_locvar LocVarFits load_locvar-Loads vars fv)
              (Loads-bind _ (load_int-Loads (length names) sn) (
                Loads-map _ (
                  load_each-Loads load_string image_string StringFits load_string-Loads names
                    fn))))))

  load_debug-Loads :
      (strip : Bool) (q p : Option TString) (f : Fields)
      → FieldsFit f
      → Loads
          (load_debug {D = D} (restored_start strip q p f))
          (image_debug strip f)
          (restored_fields strip q p f)
  load_debug-Loads true q p f h =
      load_arrays-Loads (restored_start true q p f) [] [] [] (omega arith) tt (omega arith) tt
        (omega arith) tt
  load_debug-Loads false q p f h =
      load_arrays-Loads (restored_start false q p f) f.lineinfo f.locvars f.upvalues h.sizelineinfo
        h.lineinfo h.sizelocvars h.locvars h.sizeupvalues h.upvalues

  -- The end of `LoadFunction`, from its nested prototypes.
  finish-Loads :
      (check : Proto → Bool) (left : ℕ) (strip : Bool) (q p : Option TString) (f : Fields) (n : ℕ)
      (bs : Blocks) (ps : Protos)
      → FieldsFit f
      → n < 2 ^ 31
      → Loads
          (load_each (load_function {D = D} check left (source_or (saved_source strip p f) q)) n)
          bs
          (listed ps)
      → check (proto (restored_fields strip q p f) ps) ≡ true
      → Loads
          (load_function {D = D} check (suc left) q)
          (image_start strip f p ++ to_bytes 4 n ∷ (bs ++ image_debug strip f))
          (proto (restored_fields strip q p f) ps)
  unfolding load_function
  finish-Loads check left strip q p f n bs ps h size nested pass =
      let g = restored_fields strip q p f in
      Loads-bind _ (load_start-Loads strip q p f h) (
        Loads-bind _ (load_int-Loads n size) (
          Loads-bind _ nested (
            Loads-end _ (load_debug-Loads strip q p f h) (
              rw (to_protos-listed ps) (
                Loads-check (not (check (proto g ps))) bad_code _ (rw pass refl)
                  (Loads-returning (proto g ps)))))))

  mutual
    unfolding Fits ProtosFit depth depth_protos restored restored_protos Passes ProtosPass image
        image_protos protos_size load_each

    pub load_function-Loads :
        (check : Proto → Bool) (strip : Bool) (f : Proto) (left : ℕ) (q p : Option TString)
        → Fits f
        → depth f ≤ left
        → Passes check (restored strip q p f)
        → Loads (load_function {D = D} check left q) (image strip f p) (restored strip q p f)
    load_function-Loads check strip (proto f ps) zero q p fit deep pass = absurd (omega arith)
    load_function-Loads check strip (proto f ps) (suc left) q p fit deep pass =
        let s = source_or (saved_source strip p f) q in
        finish-Loads check left strip q p f (protos_size ps) (image_protos strip ps f.source)
          (restored_protos strip s f.source ps) fit.0 fit.1
          (load_protos-Loads check strip ps left s f.source fit.2 (omega arith) pass.1) pass.0

    load_protos-Loads :
        (check : Proto → Bool) (strip : Bool) (fs : Protos) (left : ℕ) (q p : Option TString)
        → ProtosFit fs
        → depth_protos fs ≤ left
        → ProtosPass check (restored_protos strip q p fs)
        → Loads
            (load_each (load_function {D = D} check left q) (protos_size fs))
            (image_protos strip fs p)
            (listed (restored_protos strip q p fs))
    load_protos-Loads check strip no_protos left q p fit deep pass = Loads-returning []
    load_protos-Loads check strip (protos f fs) left q p fit deep pass =
        Loads-bind _ (load_function-Loads check strip f left q p fit.0 (omega arith) pass.0) (
          Loads-map (λ rest. restored strip q p f ∷ rest)
            (load_protos-Loads check strip fs left q p fit.1 (omega arith) pass.1))

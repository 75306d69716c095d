-- ===== src/Codegen/Coding.antt =====
-- What `gafqK_code` does (gcode.c): the instruction is put at `pc`, and the pending jumps lead there.
use gafq.Prelude.{
  ℕ, ◌+◌, ◌≤◌, ◌<◌, ◌≡◌, ◌∙◌, refl, ap, arith, Bool-cases, inl, inr, Option, none, some, List, [],
  ◌∷◌, ltb,
}
use gafq.Prelude.Run.{ok, returning}
use gafq.Prelude.Distinct.{NotIn, Distinct, Below}
use gafq.Opcodes.{no_reg}
use gafq.Mem.{max_int}
use gafq.Mem.Growth.{grown_size_lem}
use gafq.Codegen.{CodeError, FuncState, store, grow, room_or, code_size_overflow}
use gafq.Codegen.Jumps.{patchlistaux, dischargejpc}
use gafq.Codegen.Emit.{put, gen_code}
use gafq.Codegen.Links.{IsJump, Chain, store-other, store-same, getjump-other}
use gafq.Codegen.Landing.{AllNear, AllLead, patchlistaux-Landed, near-AllReach, land-AllLead}

-- The arrays have room for the instructions below `pc`, within their limits.
pub record HasRoom (fs : FuncState) : Type 0 where
  pub code : fs.pc ≤ fs.sizecode
  pub code_limit : fs.sizecode ≤ max_int
  pub lines : fs.pc ≤ fs.sizelineinfo
  pub lines_limit : fs.sizelineinfo ≤ max_int

-- The array has room for one more element.
Grown : ℕ → ℕ → ℕ → Type 0
Grown nelems limit n = (nelems < n) × (n ≤ limit)

grow_lem :
    (nelems size limit : ℕ) (e : CodeError) (fs : FuncState)
    → nelems < limit
    → nelems ≤ size
    → size ≤ limit
    → 4 ≤ limit
    → (n : ℕ) × (grow nelems size limit e fs ≡ ok (n, fs)) × Grown nelems limit n
unfolding grow Grown
grow_lem nelems size limit e fs h1 h2 h3 h4 = elim (Bool-cases (ltb size (nelems + 1))) [
  | inr room ↦ (size, rw room refl, (ground arith, h3))
  | inl full ↦
      let (n, en, lo, hi) = grown_size_lem size limit (ground arith) h4 in
      (n, rw full (ap (λ (o : Option ℕ). room_or e returning o fs) en), (omega arith, hi))
]

AllLead-Below :
    (fs fs' : FuncState) (t n : ℕ) (ps : List ℕ)
    → ((m : ℕ) → m < n → fs'.code_at m ≡ fs.code_at m)
    → Below n ps
    → AllLead fs t ps
    → AllLead fs' t ps
AllLead-Below fs fs' t n [] same b l = tt
AllLead-Below fs fs' t n (p ∷ ps) same b l =
    (getjump-other fs fs' p (same p b.0) ∙ l.0, AllLead-Below fs fs' t n ps same b.1 l.1)

-- With different pending jumps, all in the code and near enough, room for the code so far and less of it than its limit,
-- `gafqK_code` puts it and its line at `pc`, advances, makes every pending jump lead to it, leaves
-- none pending, and keeps the other jumps of the code; the arrays have room for it.
pub gen_code-lands :
    (i line : ℕ) (fs : FuncState) (ps : List ℕ)
    → HasRoom fs
    → fs.pc < max_int
    → Chain fs fs.jpc ps
    → Distinct ps
    → Below fs.pc ps
    → AllNear fs.pc ps
    → (fs' : FuncState) × (gen_code i line fs ≡ ok (fs.pc, fs'))
      × (fs'.pc ≡ fs.pc + 1)
      × (fs'.code_at fs.pc ≡ i)
      × (fs'.lineinfo fs.pc ≡ line)
      × (fs'.jpc ≡ none)
      × AllLead fs' fs.pc ps
      × ((m : ℕ) → m < fs.pc → NotIn m ps → IsJump fs m → fs'.code_at m ≡ fs.code_at m)
      × HasRoom fs'
unfolding gen_code dischargejpc put Grown
gen_code-lands i line fs ps room less c dis b near =
    let (fs1, run, landed) =
      patchlistaux-Landed fs fs.jpc (some fs.pc) no_reg (some fs.pc) ps c dis b
        (near-AllReach fs fs.pc ps near) in
    let run' : patchlistaux fs.jpc (some fs.pc) no_reg (some fs.pc) fs
        ≡ ok (tt, record fs { code_at = fs1.code_at }) =
      run ∙ ap (λ (s : FuncState). ok (tt, s)) landed.frame in
    let fs2 : FuncState = record fs { code_at = fs1.code_at; jpc = none } in
    let (n, grown_code, some_code) =
      grow_lem fs.pc fs.sizecode max_int code_size_overflow fs2 less room.code room.code_limit
        (omega arith) in
    let (m, grown_lines, some_lines) =
      grow_lem fs.pc fs.sizelineinfo max_int code_size_overflow fs2 less room.lines room.lines_limit
        (omega arith) in
    let fs' : FuncState = record fs2 {
      code_at = store fs1.code_at fs.pc i;
      lineinfo = store fs.lineinfo fs.pc line;
      sizecode = n;
      sizelineinfo = m;
      pc = fs.pc + 1;
    } in
    let old : (m : ℕ) → m < fs.pc → fs'.code_at m ≡ fs1.code_at m =
      λ m h. store-other fs1.code_at fs.pc m i (λ e. omega (arith, e, h)) in
    (
      fs',
      rw (run', grown_code, grown_lines) refl,
      refl,
      store-same fs1.code_at fs.pc i,
      store-same fs.lineinfo fs.pc line,
      refl,
      AllLead-Below fs1 fs' fs.pc fs.pc ps old b (land-AllLead fs fs1 fs.pc ps landed.land),
      (λ m h n j. old m h ∙ (landed.others m n j).0),
      record {
        code = omega arith;
        code_limit = some_code.1;
        lines = omega arith;
        lines_limit = some_lines.1;
      },
    )

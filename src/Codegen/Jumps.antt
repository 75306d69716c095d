-- ===== src/Codegen/Jumps.antt =====
-- Jumps that wait for their target, kept as lists inside the code (gcode.c).
use gafq.Prelude.{
  ℕ, zero, suc, ◌+◌, ◌-◌, Bool, true, false, not, ◌&&◌, ◌||◌, none, some, ltb, leb, ◌==◌,
  if◌then◌else◌,
}
use gafq.Prelude.Int.{ℤ, pos, negsuc, pos_part, neg_part, sub_ℕ}
use gafq.Prelude.Run.{ok, returning, ◌>>=◌, ◌>>◌, get, modify, fail_if}
use gafq.Opcodes.{
  maxarg_sbx, get_opcode, getarg_b, getarg_c, getarg_sbx, setarg_a, setarg_sbx, create_abc, no_reg,
}
use gafq.Opcodes.Modes.{code, test_t_mode, op_test, op_testset}
use gafq.Codegen.{control_structure_too_long, Jumps, FuncState, Gen, set_code}

-- The link to the jump behind the one at `pc`: an offset of -1, from the jump to itself, is the end of
-- the list. No link leads below 0.
abbrev pub destination : ℕ → ℤ → Jumps
destination pc (pos n) = some (pc + 1 + n)
destination pc (negsuc zero) = none
destination pc (negsuc (suc n)) = some (pc + 1 - suc (suc n))

unfoldable pub getjump : FuncState → ℕ → Jumps
getjump fs pc = destination pc (getarg_sbx (fs.code_at pc))

-- `dest-(pc+1)`; NO_JUMP is -1.
abbrev pub offset_to : ℕ → Jumps → ℤ
offset_to pc none = negsuc (pc + 1)
offset_to pc (some dest) = sub_ℕ dest (pc + 1)

unfoldable pub fixjump : ℕ → Jumps → Gen (Unit {0})
unfolding set_code
fixjump pc dest =
    let offset = offset_to pc dest in
    do
      fail_if (ltb maxarg_sbx (pos_part offset + neg_part offset)) control_structure_too_long
      modify (λ fs. set_code pc (setarg_sbx (fs.code_at pc) offset) fs)

-- `gafqK_getlabel`
unfoldable pub getlabel : Gen ℕ
getlabel fs = ok (fs.pc, record fs { lasttarget = some fs.pc })

-- The index of the instruction that decides the jump at `pc`.
unfoldable pub getjumpcontrol : FuncState → ℕ → ℕ
getjumpcontrol fs pc =
    if leb 1 pc && test_t_mode (get_opcode (fs.code_at (pc - 1))) then pc - 1 else pc

-- The loops over a patch list count down from the number of instructions, since the members of a
-- list are different positions below `pc`.
unfoldable pub need_value_loop : FuncState → ℕ → Jumps → Bool
need_value_loop fs zero list = false
need_value_loop fs (suc fuel) none = false
need_value_loop fs (suc fuel) (some pc) =
    let rest = need_value_loop fs fuel (getjump fs pc) in
    not (get_opcode (fs.code_at (getjumpcontrol fs pc)) == code op_testset) || rest

unfoldable pub need_value : FuncState → Jumps → Bool
need_value fs list = need_value_loop fs fs.pc list

-- `patchtestreg`: whether there is a value to patch, and the code after it.
unfoldable pub patchtestreg : ℕ → ℕ → FuncState → Bool × FuncState
unfolding set_code
patchtestreg node reg fs =
    let at = getjumpcontrol fs node in
    let i = fs.code_at at in
    if not (get_opcode i == code op_testset)
    then (false, fs)
    else if not (reg == no_reg) && not (reg == getarg_b i)
    then (true, set_code at (setarg_a i reg) fs)
    else (true, set_code at (create_abc (code op_test) (getarg_b i) 0 (getarg_c i)) fs)

unfoldable pub removevalues_loop : ℕ → Jumps → FuncState → FuncState
removevalues_loop zero list fs = fs
removevalues_loop (suc fuel) none fs = fs
removevalues_loop (suc fuel) (some pc) fs =
    let fs' = (patchtestreg pc no_reg fs).1 in removevalues_loop fuel (getjump fs' pc) fs'

unfoldable pub removevalues : Jumps → Gen (Unit {0})
removevalues list fs = ok (tt, removevalues_loop fs.pc list fs)

-- `if (patchtestreg(fs,list,reg)) fixjump(fs,list,vtarget); else fixjump(fs,list,dtarget);`
unfoldable pub patch_jump : ℕ → Jumps → ℕ → Jumps → Gen (Unit {0})
patch_jump node vtarget reg dtarget fs =
    let (patched, fs') = patchtestreg node reg fs in
    fixjump node (if patched then vtarget else dtarget) fs'

unfoldable pub patchlistaux_loop : ℕ → Jumps → Jumps → ℕ → Jumps → Gen (Unit {0})
patchlistaux_loop zero list vtarget reg dtarget = returning tt
patchlistaux_loop (suc fuel) none vtarget reg dtarget = returning tt
patchlistaux_loop (suc fuel) (some pc) vtarget reg dtarget = do
  fs ← get
  patch_jump pc vtarget reg dtarget
  patchlistaux_loop fuel (getjump fs pc) vtarget reg dtarget

unfoldable pub patchlistaux : Jumps → Jumps → ℕ → Jumps → Gen (Unit {0})
patchlistaux list vtarget reg dtarget = do
  fs ← get
  patchlistaux_loop fs.pc list vtarget reg dtarget

-- `while ((next=getjump(fs,list))!=NO_JUMP) list=next;` with the rest of the loop.
unfoldable pub last_after : (ℕ → ℕ) → ℕ → Jumps → ℕ
last_after go_on pc none = pc
last_after go_on pc (some next) = go_on next

-- The last member of a list that starts at `pc`.
unfoldable pub last_jump : FuncState → ℕ → ℕ → ℕ
unfolding last_after
last_jump fs zero pc = pc
last_jump fs (suc fuel) pc = last_after (last_jump fs fuel) pc (getjump fs pc)

-- `gafqK_concat` returns the new value of `*l1`.
unfoldable pub concat : Jumps → Jumps → Gen Jumps
concat l1 none = returning l1
concat none (some l2) = returning (some l2)
concat (some l1) (some l2) = do
  fs ← get
  fixjump (last_jump fs fs.pc l1) (some l2)
  returning (some l1)

unfoldable pub dischargejpc : Gen (Unit {0})
dischargejpc = do
  fs ← get
  patchlistaux fs.jpc (some fs.pc) no_reg (some fs.pc)
  modify (λ fs. record fs { jpc = none })

-- `gafqK_patchtohere`
unfoldable pub patchtohere : Jumps → Gen (Unit {0})
patchtohere list = do
  label ← getlabel
  fs ← get
  jpc ← concat fs.jpc list
  modify (λ fs. record fs { jpc = jpc })

-- `gafqK_patchlist`
unfoldable pub patchlist : Jumps → ℕ → Gen (Unit {0})
patchlist list target = do
  fs ← get
  if target == fs.pc then patchtohere list else patchlistaux list (some target) no_reg (some target)

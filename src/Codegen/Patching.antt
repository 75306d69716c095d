-- ===== src/Codegen/Patching.antt =====
-- Patching a whole list of jumps (patchlistaux in gcode.c).
use mathlib.Core.Path.{subst}
use gafq.Prelude.{
  ℕ, ◌-◌, ◌≤◌, ◌≡◌, ◌≢◌, ◌∙◌, refl, sym, ap, arith, Bool, true, false, not, ◌&&◌, Bool-cases, ◌⊎◌,
  inl, inr, some, leb, ◌==◌, if◌then◌else◌,
}
use gafq.Prelude.Run.{ok}
use gafq.Opcodes.{get_opcode, getarg_b, getarg_c, setarg_a, create_abc, no_reg}
use gafq.Opcodes.Modes.{code, op_test, op_testset, test_t_mode}
use gafq.Codegen.{Jumps, FuncState, store, set_code}
use gafq.Codegen.Jumps.{getjump, getjumpcontrol, fixjump, patchtestreg, patch_jump}
use gafq.Codegen.Links.{
  IsJump, Reaches, fixed, fixjump-fixed, fixed_jump, store-other, IsJump-other,
}

-- The jump at `p` can leave the value that it tests: its control instruction is an OP_TESTSET.
unfoldable pub keeps_value : FuncState → ℕ → Bool
unfolding getjumpcontrol
keeps_value fs p = get_opcode (fs.code_at (getjumpcontrol fs p)) == code op_testset

-- Where patching sends the jump at `p`.
abbrev pub target : FuncState → ℕ → Jumps → Jumps → Jumps
target fs p vtarget dtarget = if keeps_value fs p then vtarget else dtarget

SameOp : FuncState → FuncState → ℕ → Type 0
SameOp fs fs' j = get_opcode (fs'.code_at j) ≡ get_opcode (fs.code_at j)

-- `keeps_value` by the opcodes at `p` and before it.
abbrev value_kept : ℕ → ℕ → ℕ → Bool
value_kept p o o1 = (if leb 1 p && test_t_mode o1 then o1 else o) == code op_testset

keeps_value_lem :
    (fs : FuncState) (p : ℕ)
    → keeps_value fs p ≡ value_kept p (get_opcode (fs.code_at p)) (get_opcode (fs.code_at (p - 1)))
unfolding keeps_value getjumpcontrol
keeps_value_lem fs p =
    let o = get_opcode (fs.code_at p) in
    let o1 = get_opcode (fs.code_at (p - 1)) in
    elim (leb 1 p && test_t_mode o1)
      as (λ b.
        (get_opcode (fs.code_at (if b then p - 1 else p)) == code op_testset)
        ≡ ((if b then o1 else o) == code op_testset)) [ true ↦ refl | false ↦ refl ]

keeps_value-same :
    (fs fs' : FuncState) (p : ℕ)
    → SameOp fs fs' p
    → SameOp fs fs' (p - 1)
    → keeps_value fs' p ≡ keeps_value fs p
unfolding SameOp
keeps_value-same fs fs' p e e1 =
    keeps_value_lem fs' p
    ∙ ap (λ (o : ℕ). value_kept p o (get_opcode (fs'.code_at (p - 1)))) e
    ∙ ap (λ (o : ℕ). value_kept p (get_opcode (fs.code_at p)) o) e1
    ∙ sym (keeps_value_lem fs p)

-- The states differ in the code alone.
abbrev pub Frame : FuncState → FuncState → Type 0
Frame fs fs' = fs' ≡ record fs { code_at = fs'.code_at }

-- The jump at `m` is the same in both states, and is treated alike.
abbrev pub Kept : FuncState → FuncState → ℕ → Type 0
Kept fs fs' m = (fs'.code_at m ≡ fs.code_at m) × (keeps_value fs' m ≡ keeps_value fs m)

-- The control instruction of a jump, if it is an OP_TESTSET, stands before the jump.
testset_before :
    (fs : FuncState) (p : ℕ)
    → IsJump fs p
    → keeps_value fs p ≡ true
    → (getjumpcontrol fs p ≡ p - 1) × (1 ≤ p)
unfolding keeps_value getjumpcontrol
testset_before fs p j h =
    elim (Bool-cases (leb 1 p && test_t_mode (get_opcode (fs.code_at (p - 1))))) [
      | inl e ↦ (rw e refl, ground arith)
      | inr e ↦ absurd (
          no_testset (
            subst
              (λ b. (get_opcode (fs.code_at (if b then p - 1 else p)) == code op_testset) ≡ true) e
              h))
    ]
  where
    no_testset : (get_opcode (fs.code_at p) == code op_testset) ≡ true → ⊥
    no_testset g = ground (arith, j.0)

-- `patchtestreg` changes nothing, or just the control instruction of a jump that keeps its value.
patchtestreg-cases :
    (fs : FuncState) (p reg : ℕ)
    → ((keeps_value fs p ≡ false) × (patchtestreg p reg fs ≡ (false, fs)))
      ⊎ ((keeps_value fs p ≡ true)
          × (i : ℕ) × (patchtestreg p reg fs
              ≡ (true, record fs { code_at = store fs.code_at (getjumpcontrol fs p) i })))
unfolding patchtestreg keeps_value set_code
patchtestreg-cases fs p reg =
    let at = getjumpcontrol fs p in
    let i = fs.code_at at in
    elim (Bool-cases (get_opcode i == code op_testset)) [
      | inr e ↦ inl (e, rw e refl)
      | inl e ↦ inr (elim (Bool-cases (not (reg == no_reg) && not (reg == getarg_b i))) [
        | inl f ↦ (e, setarg_a i reg, rw (e, f) refl)
        | inr f ↦ (e, create_abc (code op_test) (getarg_b i) 0 (getarg_c i), rw (e, f) refl)
      ])
    ]

testset_opcode :
    (fs : FuncState) (p : ℕ)
    → keeps_value fs p ≡ true
    → get_opcode (fs.code_at (getjumpcontrol fs p)) ≡ code op_testset
unfolding keeps_value
testset_opcode fs p h = ground (arith, h)

-- `fs1` has the jumps of `fs`, and before the other jumps than that at `p` the same opcodes.
record Tested (fs fs1 : FuncState) (p : ℕ) : Type 0 where
  frame : Frame fs fs1
  jumps : (m : ℕ) → IsJump fs m → fs1.code_at m ≡ fs.code_at m
  before : (m : ℕ) → m ≢ p → IsJump fs m → SameOp fs fs1 (m - 1)

Tested-store :
    (fs : FuncState) (p i : ℕ)
    → IsJump fs p
    → keeps_value fs p ≡ true
    → Tested fs (record fs { code_at = store fs.code_at (getjumpcontrol fs p) i }) p
unfolding SameOp
Tested-store fs p i j h =
    let c = getjumpcontrol fs p in
    let (ec, one) = testset_before fs p j h in
    let op = testset_opcode fs p h in
    let not_control : (m : ℕ) → IsJump fs m → m ≢ c =
      λ m jm e. omega (arith, sym jm.0 ∙ ap (λ (x : ℕ). get_opcode (fs.code_at x)) e ∙ op) in
    record {
      frame = refl;
      jumps = λ m jm. store-other fs.code_at c m i (not_control m jm);
      before = λ m ne jm. ap get_opcode (
          store-other fs.code_at c (m - 1) i
            (λ e. omega (arith, ne, not_control m jm, ec, one, e)));
    }

Tested-self : (fs : FuncState) (p : ℕ) → Tested fs fs p
unfolding SameOp
Tested-self fs p = record { frame = refl; jumps = λ m jm. refl; before = λ m ne jm. refl }

-- The state after the jump at `p` is patched to lead to `t`.
pub record Patched (fs fs' : FuncState) (p t : ℕ) : Type 0 where
  pub frame : Frame fs fs'
  pub lands : getjump fs' p ≡ some t
  pub jump : IsJump fs' p
  pub others : (m : ℕ) → m ≢ p → IsJump fs m → Kept fs fs' m

Patched-fixed :
    (fs fs1 : FuncState) (p t : ℕ)
    → IsJump fs p
    → Reaches p t
    → Tested fs fs1 p
    → Patched fs (fixed p t fs1) p t
unfolding SameOp
Patched-fixed fs fs1 p t j r tested =
    let fs' = fixed p t fs1 in
    let j1 : IsJump fs1 p = IsJump-other fs fs1 p (tested.jumps p j) j in
    let (lands, op, a, word) = fixed_jump p t fs1 j1.1 r in
    let same_op : (x : ℕ) → SameOp fs1 fs' x = λ x. elim (Bool-cases (x == p)) [
      | inl e ↦
          subst (λ (y : ℕ). get_opcode (fs'.code_at y) ≡ get_opcode (fs1.code_at y)) (ground arith)
            op
      | inr e ↦ ap get_opcode (store-other fs1.code_at p x _ (ground arith))
    ] in
    record {
      frame = ap (λ (s : FuncState). record s { code_at = fs'.code_at }) tested.frame;
      lands = lands;
      jump = (op ∙ j1.0, word);
      others = λ m ne jm.
          let e : fs'.code_at m ≡ fs.code_at m =
            store-other fs1.code_at p m _ ne ∙ tested.jumps m jm in
          (
            e,
            keeps_value-same fs fs' m (ap get_opcode e) (same_op (m - 1) ∙ tested.before m ne jm),
          );
    }

-- Patching one jump to a target in reach.
pub patch_jump-Patched :
    (fs : FuncState) (p reg t : ℕ) (vtarget dtarget : Jumps)
    → IsJump fs p
    → target fs p vtarget dtarget ≡ some t
    → Reaches p t
    → (fs' : FuncState) × (patch_jump p vtarget reg dtarget fs ≡ ok (tt, fs')) × Patched fs fs' p t
unfolding patch_jump
patch_jump-Patched fs p reg t v d j e r = elim (patchtestreg-cases fs p reg) [
  | inl (h, k) ↦ (
    fixed p t fs,
    rw k (ap (λ x. fixjump p x fs) (rw h at e) ∙ fixjump-fixed p t fs r),
    Patched-fixed fs fs p t j r (Tested-self fs p),
  )
  | inr (h, i, k) ↦
      let fs1 = record fs { code_at = store fs.code_at (getjumpcontrol fs p) i } in
      (
        fixed p t fs1,
        rw k (ap (λ x. fixjump p x fs1) (rw h at e) ∙ fixjump-fixed p t fs1 r),
        Patched-fixed fs fs1 p t j r (Tested-store fs p i j h),
      )
]

-- ===== src/Codegen/Links.antt =====
-- Patch lists: which jumps they hold, and where patching makes them lead (gcode.c).
use mathlib.Core.Path.{subst}
use gafq.Prelude.{
  ℕ, zero, suc, ◌+◌, ◌-◌, ◌^◌, ◌≤◌, ◌<◌, ◌≡◌, ◌≢◌, ◌∙◌, refl, sym, ap, arith, false, Bool-cases,
  inl, inr, none, some, List, [], ◌∷◌, ◌++◌, ltb, leb, length,
}
pub use gafq.Prelude.{store-other, store-same}
use gafq.Prelude.Int.{negsuc, pos_part, neg_part, sub_ℕ}
use gafq.Prelude.Run.{ok, bind, returning, ◌>>◌}
use gafq.Prelude.Distinct.{NotIn, Distinct, Below, Disjoint, length-Distinct}
use gafq.Opcodes.{maxarg_sbx, get_opcode, getarg_a, getarg_sbx, setarg_sbx}
use gafq.Opcodes.Modes.{code, op_jmp}
use gafq.Opcodes.Layout.{getarg_sbx-setarg_sbx}
use gafq.Codegen.{Jumps, FuncState, store, set_code}
use gafq.Codegen.Jumps.{destination, getjump, fixjump, last_jump, last_after, concat}

-- `p` is a jump, and a word.
abbrev pub IsJump : FuncState → ℕ → Type 0
IsJump fs p = (get_opcode (fs.code_at p) ≡ code op_jmp) × (fs.code_at p < 2 ^ 32)

-- The patch list `list` holds the jumps at the positions `ps`, in this order.
abbrev pub Chain : FuncState → Jumps → List ℕ → Type 0
Chain fs list [] = list ≡ none
Chain fs list (p ∷ ps) = (list ≡ some p) × IsJump fs p × Chain fs (getjump fs p) ps

-- The jump at `pc` can reach `dest`, and `dest` is not the position that stands for the end of a list.
abbrev pub Reaches : ℕ → ℕ → Type 0
Reaches pc dest = (dest ≢ pc) × (dest ≤ pc + 1 + maxarg_sbx) × (pc + 1 ≤ dest + maxarg_sbx)

destination-negsuc : (pc n : ℕ) → 0 < n → destination pc (negsuc n) ≡ some (pc + 1 - suc n)
destination-negsuc pc zero h = absurd (omega arith)
destination-negsuc pc (suc n) h = refl

destination-sub : (pc dest : ℕ) → dest ≢ pc → destination pc (sub_ℕ dest (pc + 1)) ≡ some dest
destination-sub pc dest h = elim (Bool-cases (leb (pc + 1) dest)) [
  | inl fwd ↦ rw fwd (ap (λ (n : ℕ). some n) (ground arith))
  | inr bwd ↦ rw bwd (
      destination-negsuc pc (pc + 1 - dest - 1) (ground (arith, h))
      ∙ ap (λ (n : ℕ). some n) (ground arith))
]

-- The state after `fixjump` in range.
abbrev pub fixed : ℕ → ℕ → FuncState → FuncState
fixed pc dest fs = record fs {
  code_at = store fs.code_at pc (setarg_sbx (fs.code_at pc) (sub_ℕ dest (pc + 1)));
}

pub fixjump-fixed :
    (pc dest : ℕ) (fs : FuncState)
    → Reaches pc dest
    → fixjump pc (some dest) fs ≡ ok (tt, fixed pc dest fs)
unfolding fixjump set_code
fixjump-fixed pc dest fs h =
    let short : ltb maxarg_sbx (pos_part (sub_ℕ dest (pc + 1)) + neg_part (sub_ℕ dest (pc + 1)))
        ≡ false =
      ground (arith, h.1, h.2) in
    rw short refl

-- Between words, an instruction with another jump target.
pub fixed_jump :
    (pc dest : ℕ) (fs : FuncState)
    → fs.code_at pc < 2 ^ 32
    → Reaches pc dest
    → (getjump (fixed pc dest fs) pc ≡ some dest)
      × (get_opcode ((fixed pc dest fs).code_at pc) ≡ get_opcode (fs.code_at pc))
      × (getarg_a ((fixed pc dest fs).code_at pc) ≡ getarg_a (fs.code_at pc))
      × ((fixed pc dest fs).code_at pc < 2 ^ 32)
unfolding getjump
fixed_jump pc dest fs w h =
    let offset = sub_ℕ dest (pc + 1) in
    let (back, below, word) =
      getarg_sbx-setarg_sbx (fs.code_at pc) offset w (ground (arith, h.1, h.2))
        (ground (arith, h.1, h.2)) in
    let e : (fixed pc dest fs).code_at pc ≡ setarg_sbx (fs.code_at pc) offset =
      store-same fs.code_at pc (setarg_sbx (fs.code_at pc) offset) in
    (
      ap (λ w. destination pc (getarg_sbx w)) e
          ∙ ap (destination pc) back
          ∙ destination-sub pc dest h.0,
      ap get_opcode e ∙ below.0,
      ap getarg_a e ∙ below.1,
      subst (λ w. w < 2 ^ 32) (sym e) word,
    )

-- A jump that is not patched stays the jump that it was.
pub IsJump-other :
    (fs fs' : FuncState) (p : ℕ) → fs'.code_at p ≡ fs.code_at p → IsJump fs p → IsJump fs' p
IsJump-other fs fs' p e j = subst (λ w. (get_opcode w ≡ code op_jmp) × (w < 2 ^ 32)) (sym e) j

pub getjump-other :
    (fs fs' : FuncState) (p : ℕ) → fs'.code_at p ≡ fs.code_at p → getjump fs' p ≡ getjump fs p
unfolding getjump
getjump-other fs fs' p e = ap (λ w. destination p (getarg_sbx w)) e

-- The members of a list have the same code in both states.
abbrev pub Same : FuncState → FuncState → List ℕ → Type 0
Same fs fs' [] = Unit
Same fs fs' (p ∷ ps) = (fs'.code_at p ≡ fs.code_at p) × Same fs fs' ps

pub Chain-Same :
    (fs fs' : FuncState) (list : Jumps) (ps : List ℕ)
    → Same fs fs' ps
    → Chain fs list ps
    → Chain fs' list ps
Chain-Same fs fs' list [] s c = c
Chain-Same fs fs' list (p ∷ ps) s c = (
  c.0,
  IsJump-other fs fs' p s.0 c.1,
  rw (getjump-other fs fs' p s.0) (Chain-Same fs fs' (getjump fs p) ps s.1 c.2),
)

Same-fixed :
    (pc dest : ℕ) (fs : FuncState) (ps : List ℕ) → NotIn pc ps → Same fs (fixed pc dest fs) ps
Same-fixed pc dest fs [] h = tt
Same-fixed pc dest fs (p ∷ ps) h =
    (store-other fs.code_at pc p _ (λ e. h.0 (sym e)), Same-fixed pc dest fs ps h.1)

-- The last member of a list that is not empty.
abbrev pub last : ℕ → List ℕ → ℕ
last p [] = p
last p (q ∷ qs) = last q qs

last_jump-last :
    (fs : FuncState) (fuel p : ℕ) (ps : List ℕ)
    → Chain fs (getjump fs p) ps
    → length ps ≤ fuel
    → last_jump fs fuel p ≡ last p ps
unfolding last_jump last_after
last_jump-last fs zero p [] c h = refl
last_jump-last fs zero p (q ∷ qs) c h = absurd (omega arith)
last_jump-last fs (suc fuel) p [] c h = ap (last_after (last_jump fs fuel) p) c
last_jump-last fs (suc fuel) p (q ∷ qs) c h =
    ap (last_after (last_jump fs fuel) p) c.0 ∙ last_jump-last fs fuel q qs c.2 (omega arith)

NotIn-last : (x p : ℕ) (ps : List ℕ) → NotIn x (p ∷ ps) → x ≢ last p ps
NotIn-last x p [] h = h.0
NotIn-last x p (q ∷ qs) h = NotIn-last x q qs h.1

-- Linking the last member of one list to the other list joins the two.
Chain-fixed :
    (fs : FuncState) (l2 p : ℕ) (ps qs : List ℕ)
    → IsJump fs p
    → Chain fs (getjump fs p) ps
    → Chain fs (some l2) qs
    → Distinct (p ∷ ps)
    → Disjoint (p ∷ ps) qs
    → Reaches (last p ps) l2
    → Chain (fixed (last p ps) l2 fs) (some p) ((p ∷ ps) ++ qs)
Chain-fixed fs l2 p [] qs j c c2 d dj r =
    let (g, o, a, w) = fixed_jump p l2 fs j.1 r in
    (
      refl,
      (o ∙ j.0, w),
      rw g (Chain-Same fs (fixed p l2 fs) (some l2) qs (Same-fixed p l2 fs qs dj.0) c2),
    )
Chain-fixed fs l2 p (q ∷ ps) qs j c c2 d dj r =
    let e : (fixed (last q ps) l2 fs).code_at p ≡ fs.code_at p =
      store-other fs.code_at (last q ps) p _ (NotIn-last p q ps d.0) in
    (
      refl,
      IsJump-other fs (fixed (last q ps) l2 fs) p e j,
      rw (getjump-other fs (fixed (last q ps) l2 fs) p e, c.0)
          (Chain-fixed fs l2 q ps qs c.1 c.2 c2 d.1 dj.1 r),
    )

-- `gafqK_concat` of two lists that share no jump gives one list with the jumps of the first and then
-- those of the second, if the last of the first can reach the second; it changes no other instruction.
pub concat-Chain :
    (fs : FuncState) (p l2 : ℕ) (ps qs : List ℕ)
    → Chain fs (some p) (p ∷ ps)
    → Chain fs (some l2) qs
    → Distinct (p ∷ ps)
    → Below fs.pc (p ∷ ps)
    → Disjoint (p ∷ ps) qs
    → Reaches (last p ps) l2
    → (fs' : FuncState) × (concat (some p) (some l2) fs ≡ ok (some p, fs'))
      × Chain fs' (some p) ((p ∷ ps) ++ qs)
      × ((j : ℕ) → j ≢ last p ps → fs'.code_at j ≡ fs.code_at j)
unfolding concat
concat-Chain fs p l2 ps qs c c2 d b dj r =
    let short : length ps ≤ fs.pc = let all = length-Distinct fs.pc (p ∷ ps) d b in omega arith in
    let e : last_jump fs fs.pc p ≡ last p ps = last_jump-last fs fs.pc p ps c.2 short in
    (
      fixed (last p ps) l2 fs,
      subst
          (λ (j : ℕ).
            (fixjump j (some l2) >> returning (some p)) fs ≡ ok (some p, fixed (last p ps) l2 fs))
          (sym e) (ap (λ r. bind r (λ _. returning (some p))) (fixjump-fixed (last p ps) l2 fs r)),
      Chain-fixed fs l2 p ps qs c.1 c.2 c2 d dj r,
      λ j h. store-other fs.code_at (last p ps) j _ h,
    )

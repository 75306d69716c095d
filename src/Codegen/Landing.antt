-- ===== src/Codegen/Landing.antt =====
-- Where the jumps of a list lead once the list is patched, and the pending jumps once an instruction
-- is put into the code (gcode.c).
use gafq.Prelude.{
  ℕ, zero, suc, ◌≤◌, ◌≡◌, ◌≢◌, ◌∙◌, refl, sym, ap, arith, Bool, true, false, some, List, [], ◌∷◌,
  if◌then◌else◌, length,
}
use gafq.Prelude.Run.{ok, bind}
use gafq.Prelude.Distinct.{NotIn, Distinct, Below, length-Distinct}
use gafq.Codegen.{Jumps, FuncState}
use gafq.Codegen.Jumps.{getjump, patchlistaux_loop, patchlistaux}
use gafq.Codegen.Links.{IsJump, Chain, Reaches, getjump-other, IsJump-other, Same, Chain-Same}
use gafq.Codegen.Patching.{keeps_value, target, Frame, Kept, Patched, patch_jump-Patched}

-- Each jump of the list can reach the target that it will be given.
abbrev pub AllReach : FuncState → Jumps → Jumps → List ℕ → Type 0
AllReach fs v d [] = Unit
AllReach fs v d (p ∷ ps) = ((t : ℕ) × (target fs p v d ≡ some t) × Reaches p t) × AllReach fs v d ps

-- Each jump of the list leads in `fs'` to the target that `fs` has for it.
abbrev pub AllLand : FuncState → FuncState → Jumps → Jumps → List ℕ → Type 0
AllLand fs fs' v d [] = Unit
AllLand fs fs' v d (p ∷ ps) = (getjump fs' p ≡ target fs p v d) × AllLand fs fs' v d ps

AllKept : FuncState → FuncState → List ℕ → Type 0
AllKept fs fs' [] = Unit
AllKept fs fs' (p ∷ ps) = Kept fs fs' p × AllKept fs fs' ps

all-Kept :
    (fs fs' : FuncState) (p : ℕ) (list : Jumps) (ps : List ℕ)
    → ((m : ℕ) → m ≢ p → IsJump fs m → Kept fs fs' m)
    → NotIn p ps
    → Chain fs list ps
    → AllKept fs fs' ps
unfolding AllKept
all-Kept fs fs' p list [] k n c = tt
all-Kept fs fs' p list (q ∷ qs) k n c =
    (k q (λ e. n.0 (sym e)) c.1, all-Kept fs fs' p (getjump fs q) qs k n.1 c.2)

Kept-Same : (fs fs' : FuncState) (ps : List ℕ) → AllKept fs fs' ps → Same fs fs' ps
unfolding AllKept
Kept-Same fs fs' [] k = tt
Kept-Same fs fs' (p ∷ ps) k = (k.0.0, Kept-Same fs fs' ps k.1)

AllReach-Kept :
    (fs fs' : FuncState) (v d : Jumps) (ps : List ℕ)
    → AllKept fs fs' ps
    → AllReach fs v d ps
    → AllReach fs' v d ps
unfolding AllKept
AllReach-Kept fs fs' v d [] k r = tt
AllReach-Kept fs fs' v d (p ∷ ps) k r =
    let (t, e, reach) = r.0 in ((t, rw k.0.1 e, reach), AllReach-Kept fs fs' v d ps k.1 r.1)

AllLand-Kept :
    (fs fs1 fs' : FuncState) (v d : Jumps) (ps : List ℕ)
    → AllKept fs fs1 ps
    → AllLand fs1 fs' v d ps
    → AllLand fs fs' v d ps
unfolding AllKept
AllLand-Kept fs fs1 fs' v d [] k l = tt
AllLand-Kept fs fs1 fs' v d (p ∷ ps) k l =
    (l.0 ∙ ap (λ (b : Bool). if b then v else d) k.0.1, AllLand-Kept fs fs1 fs' v d ps k.1 l.1)

-- What patching the list `ps` comes to.
pub record Landed (fs fs' : FuncState) (v d : Jumps) (ps : List ℕ) : Type 0 where
  pub frame : Frame fs fs'
  pub land : AllLand fs fs' v d ps
  pub others : (m : ℕ) → NotIn m ps → IsJump fs m → Kept fs fs' m

Landed-cons :
    (fs fs1 fs' : FuncState) (v d : Jumps) (p t : ℕ) (ps : List ℕ)
    → IsJump fs p
    → target fs p v d ≡ some t
    → NotIn p ps
    → AllKept fs fs1 ps
    → Patched fs fs1 p t
    → Landed fs1 fs' v d ps
    → Landed fs fs' v d (p ∷ ps)
Landed-cons fs fs1 fs' v d p t ps j e n k one rest = record {
  frame = rest.frame ∙ ap (λ (s : FuncState). record s { code_at = fs'.code_at }) one.frame;
  land = (
    getjump-other fs1 fs' p (rest.others p n one.jump).0 ∙ one.lands ∙ sym e,
    AllLand-Kept fs fs1 fs' v d ps k rest.land,
  );
  others = λ m nm jm.
      let (same, kept) = one.others m nm.0 jm in
      let (same', kept') = rest.others m nm.1 (IsJump-other fs fs1 m same jm) in
      (same' ∙ same, kept' ∙ kept);
}

patchlistaux_loop-Landed :
    (fuel : ℕ) (fs : FuncState) (list : Jumps) (v : Jumps) (reg : ℕ) (d : Jumps) (ps : List ℕ)
    → length ps ≤ fuel
    → Chain fs list ps
    → Distinct ps
    → AllReach fs v d ps
    → (fs' : FuncState) × (patchlistaux_loop fuel list v reg d fs ≡ ok (tt, fs'))
      × Landed fs fs' v d ps
unfolding patchlistaux_loop
patchlistaux_loop-Landed zero fs list v reg d [] h c dis r =
    (fs, refl, record { frame = refl; land = tt; others = λ m n j. (refl, refl) })
patchlistaux_loop-Landed zero fs list v reg d (p ∷ ps) h c dis r = absurd (omega arith)
patchlistaux_loop-Landed (suc fuel) fs list v reg d [] h c dis r =
    (fs, rw c refl, record { frame = refl; land = tt; others = λ m n j. (refl, refl) })
patchlistaux_loop-Landed (suc fuel) fs list v reg d (p ∷ ps) h c dis r =
    let (t, e, reach) = r.0 in
    let (fs1, run, one) = patch_jump-Patched fs p reg t v d c.1 e reach in
    let k = all-Kept fs fs1 p (getjump fs p) ps one.others dis.0 c.2 in
    let (fs', runs, rest) =
      patchlistaux_loop-Landed fuel fs1 (getjump fs p) v reg d ps (omega arith)
        (Chain-Same fs fs1 (getjump fs p) ps (Kept-Same fs fs1 ps k) c.2) dis.1
        (AllReach-Kept fs fs1 v d ps k r.1) in
    (
      fs',
      ap (λ l. patchlistaux_loop (suc fuel) l v reg d fs) c.0
          ∙ ap (λ r. bind r (λ _. patchlistaux_loop fuel (getjump fs p) v reg d)) run
          ∙ runs,
      Landed-cons fs fs1 fs' v d p t ps c.1 e dis.0 k one rest,
    )

-- Patching a list whose jumps are different ones in the code, and can reach their targets, ends, and
-- makes each of them lead to `vtarget` if it keeps the value it tests and to `dtarget` if not; every
-- other jump stays as it was, and nothing but code changes.
pub patchlistaux-Landed :
    (fs : FuncState) (list : Jumps) (v : Jumps) (reg : ℕ) (d : Jumps) (ps : List ℕ)
    → Chain fs list ps
    → Distinct ps
    → Below fs.pc ps
    → AllReach fs v d ps
    → (fs' : FuncState) × (patchlistaux list v reg d fs ≡ ok (tt, fs')) × Landed fs fs' v d ps
unfolding patchlistaux
patchlistaux-Landed fs list v reg d ps c dis b r =
    patchlistaux_loop-Landed fs.pc fs list v reg d ps (length-Distinct fs.pc ps dis b) c dis r

-- The jumps are near enough to the position `t`.
abbrev pub AllNear : ℕ → List ℕ → Type 0
AllNear t [] = Unit
AllNear t (p ∷ ps) = Reaches p t × AllNear t ps

abbrev pub AllLead : FuncState → ℕ → List ℕ → Type 0
AllLead fs t [] = Unit
AllLead fs t (p ∷ ps) = (getjump fs p ≡ some t) × AllLead fs t ps

same_target : (b : Bool) (t : ℕ) → (if b then some t else some t) ≡ some t
same_target true t = refl
same_target false t = refl

pub near-AllReach :
    (fs : FuncState) (t : ℕ) (ps : List ℕ) → AllNear t ps → AllReach fs (some t) (some t) ps
near-AllReach fs t [] n = tt
near-AllReach fs t (p ∷ ps) n =
    ((t, same_target (keeps_value fs p) t, n.0), near-AllReach fs t ps n.1)

pub land-AllLead :
    (fs fs' : FuncState) (t : ℕ) (ps : List ℕ)
    → AllLand fs fs' (some t) (some t) ps
    → AllLead fs' t ps
land-AllLead fs fs' t [] l = tt
land-AllLead fs fs' t (p ∷ ps) l =
    (l.0 ∙ same_target (keeps_value fs p) t, land-AllLead fs fs' t ps l.1)

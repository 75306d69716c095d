-- ===== src/Verifier/Checks.antt =====
-- The parts of a check that passes (gdebug.c), and the numbers of the opcodes.
use gafq.Prelude.{
  ℕ, zero, suc, ◌<◌, ◌≤◌, ◌≡◌, ◌≢◌, refl, sym, ◌∙◌, Bool, true, false, not, ◌&&◌, Option, none,
  some, get_elem?, length, ltb, leb, ◌==◌, arith, ◌⊎◌, inl, inr, Bool-cases, List, [], ◌∷◌,
}
use gafq.Prelude.Bits.{every, every_holds}
use gafq.Opcodes.{get_opcode, getarg_a}
use gafq.Opcodes.Modes.{OpCode, code}
use gafq.Chunk.{Fields, Protos}
use gafq.Verifier.{instr, decode, check_operands, check_skip, check_op, check_instr, opcodes}

pub lt_of : (a b : ℕ) → ltb a b ≡ true → a < b
lt_of a b h = ground arith

pub le_of : (a b : ℕ) → ltb a b ≡ false → b ≤ a
le_of a b h = ground arith

pub ltb-true : (a b : ℕ) → a < b → ltb a b ≡ true
ltb-true a b h = ground arith

pub ltb-false : (a b : ℕ) → b ≤ a → ltb a b ≡ false
ltb-false a b h = ground arith

pub eq_of : (a b : ℕ) → (a == b) ≡ true → a ≡ b
eq_of a b h = ground arith

pub ne_of : (a : ℕ) → a ≢ 0 → not (a == 0) ≡ true
ne_of a h = ground arith

pub leb_le : (a b : ℕ) → leb a b ≡ true → a ≤ b
leb_le a b h = ground arith

pub compare_eq : (a b : ℕ) → (a ≡ b) ⊎ (a ≢ b)
compare_eq a b = elim (Bool-cases (a == b)) [
  | inl e ↦ inl (eq_of a b e)
  | inr e ↦ inr (λ same. ground arith)
]

pub and_parts : {a b : Bool} → (a && b) ≡ true → (a ≡ true) × (b ≡ true)
and_parts {a = true} {b} h = (refl, h)
and_parts {a = false} {b} h = cc

pub Option-cases {ℓ} : {A : Type ℓ} (x : Option A) → (x ≡ none) ⊎ ((a : A) × (x ≡ some a))
Option-cases none = inl refl
Option-cases (some a) = inr (a, refl)

is_numbered : ℕ → Bool
unfolding opcodes
is_numbered n = elim (get_elem? opcodes n) [ none ↦ false | some o ↦ code o == n ]

get_elem?-past {ℓ} : {A : Type ℓ} (xs : List A) (n : ℕ) → length xs ≤ n → get_elem? xs n ≡ none
get_elem?-past [] n h = refl
get_elem?-past (x ∷ xs) zero h = absurd (omega arith)
get_elem?-past (x ∷ xs) (suc n) h = get_elem?-past xs n (omega arith)

all_numbered : every 38 is_numbered ≡ true
unfolding every is_numbered
all_numbered = refl

length-opcodes : length opcodes ≡ 38
unfolding opcodes
length-opcodes = refl

numbered : (n : ℕ) (o : OpCode) → get_elem? opcodes n ≡ some o → is_numbered n ≡ true → n ≡ code o
unfolding is_numbered
numbered n o e t = let same = rw e at t in sym (eq_of (code o) n same)

pub opcode_of : (n : ℕ) (o : OpCode) → get_elem? opcodes n ≡ some o → n ≡ code o
opcode_of n o e = elim (Bool-cases (ltb n 38)) [
  | inl small ↦ numbered n o e (every_holds 38 is_numbered all_numbered n (lt_of n 38 small))
  | inr big ↦
      let past = get_elem?-past opcodes n (rw length-opcodes (le_of n 38 big)) in
      let no : none ≡ some o = sym past ∙ e in cc
]

-- The parts of a check that passes.
abbrev pub Passed : Fields → Protos → ℕ → OpCode → Type 0
Passed f ps p o =
    let d = decode (instr f p) p in
    (get_opcode (instr f p) ≡ code o)
    × (d.a < f.maxstacksize)
    × (check_operands f d ≡ true)
    × (check_skip f d.op p ≡ true)
    × (check_op f ps o p d ≡ true)

pub check_instr-Passed :
    (f : Fields) (ps : Protos) (p : ℕ)
    → check_instr f ps p ≡ true
    → (o : OpCode) × (get_elem? opcodes (get_opcode (instr f p)) ≡ some o) × Passed f ps p o
unfolding check_instr decode
check_instr-Passed f ps p h = elim (Option-cases (get_elem? opcodes (get_opcode (instr f p)))) [
  | inl e ↦ let no = rw (check_instr, e) at h in cc
  | inr x ↦
      let all = and_parts (rw (check_instr, x.1) at h) in
      let rest = and_parts all.1 in
      let last = and_parts rest.1 in
      (
        x.0,
        x.1,
        (
          opcode_of (get_opcode (instr f p)) x.0 x.1,
          lt_of (getarg_a (instr f p)) f.maxstacksize all.0,
          rest.0,
          last.0,
          last.1,
        ),
      )
]

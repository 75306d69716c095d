-- ===== src/Closures/Closed.antt =====
-- Upvalues keep their variables when these leave the stack (`gafqF_close`, gfunc.c).
use gafq.Prelude.{ℕ, ◌≡◌, ◌≢◌, ◌⊎◌, true, none, List, [], ◌∷◌, ◌++◌, if◌then◌else◌}
use gafq.Closures.{State, isdead, upvalue, Descends}

module _ {V : Type 0} where
  -- A dead upvalue, or one that has its own value.
  abbrev pub IsClosed : State V → State V → ℕ → Type 0
  IsClosed s s' p = (isdead s.currentwhite (s.upval p).marked ≡ true) ⊎ ((s'.upval p).v ≡ none)

  -- The dead upvalues of a list, the last one first, before those of another list; and those that are
  -- not dead.
  abbrev pub dead_first : State V → List ℕ → List ℕ → List ℕ
  dead_first s [] qs = qs
  dead_first s (p ∷ ps) qs =
      dead_first s ps (if isdead s.currentwhite (s.upval p).marked then p ∷ qs else qs)

  abbrev pub alive_first : State V → List ℕ → List ℕ → List ℕ
  alive_first s [] qs = qs
  alive_first s (p ∷ ps) qs =
      alive_first s ps (if isdead s.currentwhite (s.upval p).marked then qs else p ∷ qs)

  -- What a change of the upvalue `p` alone leaves as it was.
  record Keeps (p : ℕ) (roots : List ℕ) (s s' : State V) : Type 0 where
    stack : s'.stack ≡ s.stack
    chain : s'.openupval ≡ s.openupval
    white : s'.currentwhite ≡ s.currentwhite
    freed : s'.freed ≡ s.freed
    rooted : s'.rootgc ≡ roots
    others : (q : ℕ) → q ≢ p → s'.upval q ≡ s.upval q
    slot : (s'.upval p).v ≡ (s.upval p).v
    own : (s'.upval p).value ≡ (s.upval p).value

  -- A round leaves what every upvalue reads, and closes its own.
  record Round (p : ℕ) (next : List ℕ) (s s' : State V) : Type 0 where
    stack : s'.stack ≡ s.stack
    chain : s'.openupval ≡ next
    white : s'.currentwhite ≡ s.currentwhite
    closed : IsClosed s s' p
    others : (q : ℕ) → q ≢ p → s'.upval q ≡ s.upval q
    reads : (q : ℕ) → upvalue s' q ≡ upvalue s q
    freed : s'.freed ≡ dead_first s (p ∷ []) s.freed
    rooted : s'.rootgc ≡ alive_first s (p ∷ []) s.rootgc
    opens : (q : ℕ) → ((s'.upval q).v ≡ none) ⊎ ((s'.upval q).v ≡ (s.upval q).v)

  abbrev pub AllClosed : State V → State V → List ℕ → Type 0
  AllClosed s s' [] = Unit
  AllClosed s s' (p ∷ ps) = IsClosed s s' p × AllClosed s s' ps

  -- What the loop leaves of the open upvalues `ps`.
  record Closes (level : ℕ) (ps : List ℕ) (s s' : State V) : Type 0 where
    stack : s'.stack ≡ s.stack
    reads : (q : ℕ) → upvalue s' q ≡ upvalue s q
    opens : (q : ℕ) → ((s'.upval q).v ≡ none) ⊎ ((s'.upval q).v ≡ (s.upval q).v)
    before : List ℕ
    parts : ps ≡ before ++ s'.openupval
    freed : s'.freed ≡ dead_first s before s.freed
    rooted : s'.rootgc ≡ alive_first s before s.rootgc
    all_closed : AllClosed s s' before
    below : Descends s'.upval level s'.openupval

-- ===== src/Closures/Shared.antt =====
-- Closures that refer to the same variable share an upvalue (`gafqF_findupval`, gfunc.c).
use gafq.Prelude.{
  ℕ, ◌≡◌, ◌⊎◌, sym, ◌∙◌, ap, Bool, false, not, ◌||◌, Option, some, List, [], ◌∷◌, store,
  store-other,
}
use gafq.Prelude.Distinct.{NotIn}
use gafq.Closures.{UpVal, State, isdead, changewhite, findupval, Descends}

-- The values that `currentwhite` has between collections: one white and the bit of fixed objects.
abbrev pub IsWhite : ℕ → Type 0
IsWhite w = (w ≡ 33) ⊎ (w ≡ 34)

revives : ℕ → ℕ → Bool
revives w m = not (isdead w m) || not (isdead w (changewhite m))

module _ {V : Type 0} where
  -- What does not change the slots that upvalues point to keeps the order.
  pub Descends-same :
      (u u' : ℕ → UpVal V) (top : ℕ) (ps : List ℕ)
      → ((p : ℕ) → (u' p).v ≡ (u p).v)
      → Descends u top ps
      → Descends u' top ps
  Descends-same u u' top [] same d = tt
  Descends-same u u' top (p ∷ ps) same d =
      (d.0, same p ∙ d.1, d.2, Descends-same u u' d.0 ps same d.3)

  pub Descends-store :
      (u : ℕ → UpVal V) (top n : ℕ) (x : UpVal V) (ps : List ℕ)
      → NotIn n ps
      → Descends u top ps
      → Descends (store u n x) top ps
  Descends-store u top n x [] out d = tt
  Descends-store u top n x (p ∷ ps) out d = (
    d.0,
    ap (λ y. y.v) (store-other u n p x (λ e. out.0 (sym e))) ∙ d.1,
    d.2,
    Descends-store u d.0 n x ps out.1 d.3,
  )

  -- An upvalue that the search returns, with what the later parts need of it.
  record Revived (p : ℕ) (s s' : State V) : Type 0 where
    slots : (q : ℕ) → (s'.upval q).v ≡ (s.upval q).v
    chain : s'.openupval ≡ s.openupval
    alive : isdead s'.currentwhite (s'.upval p).marked ≡ false

  -- The order of the list of open upvalues, the state and the address that `findupval` leaves.
  abbrev pub Shares : ℕ → ℕ → Option (ℕ × V) → ℕ → State V → ℕ × State V → Type 0
  Shares top level again q s r =
      ((r.1.upval r.0).v ≡ some level)
      × (isdead r.1.currentwhite (r.1.upval r.0).marked ≡ false)
      × Descends r.1.upval top r.1.openupval
      × ((r.1.upval q).v ≡ (s.upval q).v)
      × (findupval again level r.1 ≡ some r)

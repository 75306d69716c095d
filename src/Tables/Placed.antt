-- ===== src/Tables/Placed.antt =====
-- What a new key does to the node array (gtable.c), whichever way `newkey` makes room for it: it has a
-- node that its chain leads to, and every entry with a value is still there, perhaps in another node.
use gafq.Prelude.{
  ℕ, ◌<◌, ◌≡◌, ◌≢◌, refl, sym, ◌∙◌, ◌⊎◌, inl, inr, Bool, true, false, Option, none, some, List,
}
use gafq.Tables.Values.{Value, nil, Node, ttisnil}
use gafq.Tables.Slots.{search}
use gafq.Tables.Chains.{same_or, none-some, Option-cases, Chain, Leads, length-Chain}
use gafq.Tables.Linked.{links, IsUsed, Linked, search-some, search-Leads}

module _ {N : Type 0} where
  pub record Placed (size : ℕ) (main : Value N → ℕ) (node node' : ℕ → Node N) (p : ℕ)
      (key : Value N) : Type 0 where
    -- Where the entry of a node was before.
    pub back : ℕ → ℕ
    pub kept :
        (i : ℕ)
        → IsUsed node' i
        → i ≢ p
        → IsUsed node (back i)
          × ((node' i).i_key ≡ (node (back i)).i_key)
          × ((node' i).i_val ≡ (node (back i)).i_val)
          × Leads (links node') i (main (node (back i)).i_key)
    pub once : (i j : ℕ) → IsUsed node' i → IsUsed node' j → i ≢ p → j ≢ p → back i ≡ back j → i ≡ j
    pub survives :
        (j : ℕ)
        → IsUsed node j
        → ((i : ℕ) × IsUsed node' i × (i ≢ p) × (back i ≡ j)) ⊎ (ttisnil (node j).i_val ≡ true)
    pub mains :
        (m : ℕ)
        → IsUsed node m
        → main (node m).i_key ≡ m
        → IsUsed node' m × (main (node' m).i_key ≡ m)
    pub stays : (i : ℕ) → IsUsed node i → IsUsed node' i
    pub new_key : (node' p).i_key ≡ key
    pub new_val : ttisnil (node' p).i_val ≡ true
    pub reached : Leads (links node') p (main key)
    pub new_owner : IsUsed node' (main key) × (main (node' (main key)).i_key ≡ main key)
    pub free :
        (i : ℕ)
        → ttisnil (node' i).i_key ≡ true
        → ((node' i).next ≡ none) × (ttisnil (node' i).i_val ≡ true)
    pub inside : (i : ℕ) → IsUsed node' i → i < size
    pub target : (a b : ℕ) → (node' a).next ≡ some b → IsUsed node' b
    pub ends : (a : ℕ) → (ps : List ℕ) × Chain (links node') (some a) ps
    pub apart : (a b q : ℕ) → (node' a).next ≡ some q → (node' b).next ≡ some q → a ≡ b

  pub nil_value : (v : Value N) → ttisnil v ≡ true → v ≡ nil
  unfolding ttisnil
  nil_value nil h = refl
  nil_value _ h = cc

  -- The value of the node that a search found.
  abbrev pub val_of : (ℕ → Node N) → Option ℕ → Value N
  val_of node none = nil
  val_of node (some i) = (node i).i_val

  -- What the equality of keys and the main positions have to do with each other.
  pub record LawfulKeys (size : ℕ) (main : Value N → ℕ) (eq : Value N → Value N → Bool)
      : Type 0 where
    pub symmetric : (a b : Value N) → eq a b ≡ true → eq b a ≡ true
    pub transitive : (a b d : Value N) → eq a b ≡ true → eq b d ≡ true → eq a d ≡ true
    pub same_main : (a b : Value N) → eq a b ≡ true → main a ≡ main b
    pub not_nil : (a b : Value N) → ttisnil b ≡ false → eq a b ≡ true → ttisnil a ≡ false
    pub below : (a : Value N) → main a < size

  module _ (size : ℕ) (main : Value N → ℕ) (eq : Value N → Value N → Bool)
      (laws : LawfulKeys size main eq) where
    -- A search with a key finds the node that has an equal one.
    pub search-Linked :
        (node : ℕ → Node N) (key : Value N) (j : ℕ)
        → Linked size main eq node
        → ttisnil key ≡ false
        → IsUsed node j
        → eq (node j).i_key key ≡ true
        → search node (λ k. eq k key) size (main key) ≡ some j
    search-Linked node key j w used_key used e =
        let (ps, h) = w.ends (main key) in
        let only : (i : ℕ) → eq (node i).i_key key ≡ true → i ≡ j = λ i ei.
          w.single i j (laws.not_nil (node i).i_key key used_key ei) used (
            laws.transitive (node i).i_key key (node j).i_key ei
              (laws.symmetric (node j).i_key key e)) in
        let from : Leads (links node) j (main key) =
          rw (laws.same_main (node j).i_key key e) at (w.home j used) in
        search-Leads node (λ k. eq k key) j size (main key) ps e only from h
          (length-Chain (links node) size (main key) ps (λ a b l. w.inside b (w.target a b l))
            (laws.below key) h)

    module _ (node node' : ℕ → Node N) (p : ℕ) (key : Value N) (w : Linked size main eq node)
        (u : Placed size main node node' p key) (used_key : ttisnil key ≡ false)
        (self : eq key key ≡ true) (absent : (i : ℕ) → eq (node i).i_key key ≡ false) where
      -- No other node has a key like the new one.
      other_key : (i : ℕ) → IsUsed node' i → i ≢ p → eq (node' i).i_key key ≢ true
      other_key i used differs e =
          let no = rw (u.kept i used differs).1 at e in
          let clash : true ≡ false = sym no ∙ absent (u.back i) in cc

      -- The node array is well-formed again.
      pub Placed-Linked : Linked size main eq node'
      Placed-Linked = record {
        free = u.free;
        inside = u.inside;
        target = u.target;
        ends = u.ends;
        apart = u.apart;
        home = λ i used. elim (same_or i p) [
          | inl at_p ↦ rw (at_p, u.new_key) u.reached
          | inr differs ↦ let k = u.kept i used differs in rw k.1 k.3
        ];
        owner = λ i used. elim (same_or i p) [
          | inl at_p ↦ rw (at_p, u.new_key) u.new_owner
          | inr differs ↦
              let k = u.kept i used differs in
              let o = w.owner (u.back i) k.0 in
              rw k.1 (u.mains (main (node (u.back i)).i_key) o.0 o.1)
        ];
        single = λ i j used_i used_j e. elim (same_or i p) [
          | inl at_p ↦ elim (same_or j p) [
            | inl both ↦ at_p ∙ sym both
            | inr differs ↦ absurd (
                other_key j used_j differs
                  (laws.symmetric key (node' j).i_key (rw (at_p, u.new_key) at e)))
          ]
          | inr differs ↦ elim (same_or j p) [
            | inl at_j ↦ absurd (other_key i used_i differs (rw (at_j, u.new_key) at e))
            | inr apart ↦
                let ki = u.kept i used_i differs in
                let kj = u.kept j used_j apart in
                u.once i j used_i used_j differs apart
                  (w.single (u.back i) (u.back j) ki.0 kj.0 (rw (ki.1, kj.1) at e))
          ]
        ];
        valid = λ i used. elim (same_or i p) [
          | inl at_p ↦ rw (at_p, u.new_key) self
          | inr differs ↦ let k = u.kept i used differs in rw k.1 (w.valid (u.back i) k.0)
        ];
      }

      -- The new key is found in its node.
      pub search-new : search node' (λ k. eq k key) size (main key) ≡ some p
      search-new =
          search-Linked node' key p Placed-Linked used_key (rw u.new_key used_key)
            (rw u.new_key self)

      -- What a search with another key finds was there before.
      found_before :
          (key' : Value N) (i : ℕ)
          → ttisnil key' ≡ false
          → eq key key' ≡ false
          → search node' (λ k. eq k key') size (main key') ≡ some i
          → (search node (λ k. eq k key') size (main key') ≡ some (u.back i))
            × ((node' i).i_val ≡ (node (u.back i)).i_val)
      found_before key' i used' differs e =
          let pass = search-some node' (λ k. eq k key') size (main key') i e in
          let used_i = laws.not_nil (node' i).i_key key' used' pass in
          let not_p : i ≢ p = λ at_p.
            (let clash : true ≡ false = sym (rw (at_p, u.new_key) at pass) ∙ differs in cc) in
          let k = u.kept i used_i not_p in
          (search-Linked node key' (u.back i) w used' k.0 (rw k.1 at pass), k.2)

      -- Another key has the value that it had.
      pub search-other :
          (key' : Value N)
          → ttisnil key' ≡ false
          → eq key key' ≡ false
          → val_of node' (search node' (λ k. eq k key') size (main key'))
            ≡ val_of node (search node (λ k. eq k key') size (main key'))
      search-other key' used' differs =
          elim (Option-cases (search node' (λ k. eq k key') size (main key'))) [
            | inr x ↦
                let before = found_before key' x.0 used' differs x.1 in rw (x.1, before.0) before.1
            | inl none_new ↦ elim (Option-cases (search node (λ k. eq k key') size (main key'))) [
              | inl none_old ↦ rw (none_new, none_old) refl
              | inr x ↦
                  let pass = search-some node (λ k. eq k key') size (main key') x.0 x.1 in
                  elim (u.survives x.0 (laws.not_nil (node x.0).i_key key' used' pass)) [
                    | inr dead ↦ rw (none_new, x.1) (sym (nil_value (node x.0).i_val dead))
                    | inl y ↦
                        let k = u.kept y.0 y.1 y.2 in
                        let found =
                          search-Linked node' key' y.0 Placed-Linked used' y.1
                            (rw (k.1, y.3) pass) in
                        absurd (none-some none_new found)
                  ]
            ]
          ]

-- ===== src/Tables/Fresh.antt =====
-- New tables, and new arrays and node arrays for a table (gtable.c).
use gafq.Prelude.{
  ℕ, ◌≤◌, ◌^◌, ◌≡◌, refl, ◌∙◌, Bool, true, false, Option, none, some, ◌==◌, if◌then◌else◌, ltb,
  arith, inl, inr, Bool-cases, [], ◌∷◌,
}
use gafq.Prelude.Run.{Outcome, ok, error}
use gafq.Object.Numbers.{ceillog2}
use gafq.Object.Log2.{ceillog2_least}
use gafq.Tables.{maxbits}
use gafq.Tables.Values.{
  Numbers, Value, nil, Node, Table, ttisnil, sizenode, rawequal_obj, mainposition,
}
use gafq.Tables.Slots.{place_of, get, value_at}
use gafq.Tables.Chains.{none-some}
use gafq.Tables.Linked.{IsUsed, Linked, search-none}
use gafq.Tables.Laws.{LawfulNumbers}
use gafq.Tables.Insert.{IsTable}
use gafq.Tables.Reads.{read_nil, read-place, read_place, nil_equals}
use mathlib.Core.Path.{subst}

pub data TableError : Type 0 where
  table_overflow : TableError

module _ {N : Type 0} where
  -- A vector that grows keeps its elements; the new ones are nil.
  unfoldable pub setarrayvector : ℕ → Table N → Table N
  setarrayvector size t = record t {
    array = λ i. if ltb i t.sizearray then t.array i else nil;
    sizearray = size;
  }

  abbrev pub free_node : Node N
  free_node = record { i_val = nil; i_key = nil; next = none }

  unfoldable pub setnodevector : ℕ → Table N → Outcome TableError (Table N)
  setnodevector size t =
      if size == 0
      then ok (record t { node = λ i. free_node; is_dummy = true; lsizenode = 0; lastfree = 0 })
      else if ltb maxbits (ceillog2 size)
      then error table_overflow
      else ok (record t {
        node = λ i. free_node;
        is_dummy = false;
        lsizenode = ceillog2 size;
        lastfree = 2 ^ ceillog2 size;
      })

  -- `gafqH_new`, without the header that all objects have.
  unfoldable pub new_table : ℕ → ℕ → Outcome TableError (Table N)
  unfolding setarrayvector setnodevector
  new_table narray nhash = setnodevector nhash (
      setarrayvector narray (record {
        sizearray = 0;
        array = λ i. nil;
        lsizenode = 0;
        is_dummy = true;
        node = λ i. free_node;
        lastfree = 0;
      }))

  -- Nodes without keys and links are in order.
  fresh-Linked :
      (size : ℕ) (main : Value N → ℕ) (eq : Value N → Value N → Bool)
      → Linked size main eq (λ i. free_node)
  unfolding ttisnil
  fresh-Linked size main eq = record {
    free = λ i empty. (refl, refl);
    inside = λ i used. (let clash : true ≡ false = used in cc);
    target = λ a b e. absurd (none-some refl e);
    ends = λ a. (a ∷ [], (refl, refl));
    apart = λ a b p ea eb. absurd (none-some refl ea);
    home = λ i used. (let clash : true ≡ false = used in cc);
    owner = λ i used. (let clash : true ≡ false = used in cc);
    single = λ i j used_i used_j e. (let clash : true ≡ false = used_i in cc);
    valid = λ i used. (let clash : true ≡ false = used in cc);
  }

  nil_either : (b : Bool) → ◌≡◌ {A = Value N} (if b then nil else nil) nil
  nil_either true = refl
  nil_either false = refl

  ok_table : {t u : Table N} → ◌≡◌ {A = Outcome TableError (Table N)} (ok t) (ok u) → t ≡ u
  ok_table e = cc

  module _ (c : Numbers N) (laws : LawfulNumbers c) where
    reads_nil :
        (t : Table N) (key : Value N)
        → ((i : ℕ) → t.array i ≡ nil)
        → ((i : ℕ) → t.node i ≡ free_node)
        → value_at t (get c t key) ≡ nil
    unfolding ttisnil
    reads_nil t key no_array no_node = elim (Bool-cases (ttisnil key)) [
      | inl empty ↦ read_nil c laws t key empty
      | inr used ↦
          let missing =
            search-none t.node (λ k. rawequal_obj c k key) (sizenode t)
              (mainposition c (sizenode t) key)
              (λ i. rw (no_node i) (nil_equals c laws key used)) in
          read-place c laws t key used ∙ place_nil t (place_of c t.sizearray key) no_array missing
    ]
      where
        place_nil :
            (t : Table N) (p : Option ℕ) {o : Option ℕ}
            → ((i : ℕ) → t.array i ≡ nil)
            → o ≡ none
            → read_place t p o ≡ nil
        place_nil t (some i) no_array e = no_array i
        place_nil t none no_array e = rw e refl

    abbrev fresh : ℕ → ℕ → Bool → ℕ → Table N
    fresh narray l d free = record {
      sizearray = narray;
      array = λ i. if ltb i 0 then nil else nil;
      lsizenode = l;
      is_dummy = d;
      node = λ i. free_node;
      lastfree = free;
    }

    no_key_fresh : {P : Type 0} (i : ℕ) → IsUsed {N = N} (λ i. free_node) i → P
    unfolding ttisnil
    no_key_fresh i used = let clash : true ≡ false = used in cc

    no_key : ttisnil {N = N} nil ≡ true
    unfolding ttisnil
    no_key = refl

    fresh-IsTable :
        (narray l free : ℕ) (d : Bool) (key : Value N)
        → free ≤ 2 ^ l
        → (d ≡ true → free ≡ 0)
        → (d ≡ false → 2 ^ l ≤ free)
        → IsTable c (fresh narray l d free)
          × (value_at (fresh narray l d free) (get c (fresh narray l d free) key) ≡ nil)
    fresh-IsTable narray l free d key fits dummy real = (
      record {
        linked = fresh-Linked (2 ^ l) (mainposition c (2 ^ l)) (rawequal_obj c);
        lastfree_fits = fits;
        behind = λ i r above below. absurd (omega (arith, real r));
        dummy = λ e. (dummy e, λ i. no_key);
        outside = λ i used. no_key_fresh i used;
      },
      reads_nil (fresh narray l d free) key (λ i. nil_either (ltb i 0)) (λ i. refl),
    )

    -- A new table is well-formed, has the array size that was asked for and at least as many nodes, and
    -- reads nil under every key.
    pub new_table-IsTable :
        (narray nhash : ℕ) (t : Table N) (key : Value N)
        → nhash ≤ 2 ^ 32
        → new_table narray nhash ≡ ok t
        → IsTable c t
          × (t.sizearray ≡ narray)
          × (nhash ≤ sizenode t)
          × (value_at t (get c t key) ≡ nil)
    unfolding new_table setarrayvector setnodevector
    new_table-IsTable narray nhash t key small e = elim (Bool-cases (nhash == 0)) [
      | inl zero_nodes ↦
          let made =
            fresh-IsTable narray 0 0 true key (omega arith) (λ h. refl)
              (λ h. (let clash : true ≡ false = h in cc)) in
          subst
            (λ u.
              IsTable c u
              × (u.sizearray ≡ narray)
              × (nhash ≤ sizenode u)
              × (value_at u (get c u key) ≡ nil))
            (ok_table (rw zero_nodes at e)) (made.0, refl, ground arith, made.1)
      | inr some_nodes ↦ elim (Bool-cases (ltb maxbits (ceillog2 nhash))) [
        | inl over ↦ let clash = rw (some_nodes, over) at e in cc
        | inr fits ↦
            let l = ceillog2 nhash in
            let made =
              fresh-IsTable narray l (2 ^ l) false key (omega arith)
                (λ h. (let clash : false ≡ true = h in cc)) (λ h. omega arith) in
            subst
              (λ u.
                IsTable c u
                × (u.sizearray ≡ narray)
                × (nhash ≤ sizenode u)
                × (value_at u (get c u key) ≡ nil))
              (ok_table (rw (some_nodes, fits) at e))
              (made.0, refl, (ceillog2_least nhash (ground arith) small).0, made.1)
      ]
    ]

-- ===== src/Strings/Tests.antt =====
-- Strings in a new table.
use gafq.Prelude.{
  ℕ, ◌^◌, ◌≡◌, ◌≢◌, ◌↔◌, ◌⊎◌, inl, inr, sym, ap, ◌∙◌, refl, arith, true, false, List, [], ◌∷◌,
}
use gafq.Prelude.Run.{ok}
use gafq.Strings.{Str, StringTable, hash_of, hash_loop, hash_step, newlstr, resize}
use gafq.Strings.Interning.{
  Interned, Extends, Held, with_str, with_str-Interned, Held-with_str, resize-Interned,
}
use gafq.Strings.Addresses.{newlstr_address}

-- `MINSTRTABSIZE` is 32.
abbrev new_table : StringTable
new_table = record {
  chain = λ i. [];
  size = 32;
  nuse = 0;
  sweeping = false;
  dead = λ a. false;
  fresh = 100;
}

new_table-Interned : Interned new_table
new_table-Interned = record {
  k = 5;
  power = refl;
  placed = λ i u h. absurd h;
  hashed = λ u h. absurd h.1;
  one_text = λ u v h k e. absurd h.1;
  one_address = λ u v h k e. absurd h.1;
}

hash_runs : hash_of (b'a' ∷ b'b' ∷ []) ≡ 5161
unfolding hash_of hash_loop hash_step
hash_runs = refl

newlstr_address_example :
    (s t : Str) × (tb1 tb2 : StringTable) × (newlstr (b'a' ∷ []) new_table ≡ ok (s, tb1))
    × (newlstr (b'b' ∷ []) tb1 ≡ ok (t, tb2))
    × ((s.address ≡ t.address) ↔ (◌≡◌ {A = List ℕ} (b'a' ∷ []) (b'b' ∷ [])))
    × Extends new_table tb2
newlstr_address_example =
    newlstr_address new_table (b'a' ∷ []) (b'b' ∷ []) new_table-Interned (omega arith) (omega arith)

-- A table with two strings.
abbrev one_string : StringTable
one_string = with_str new_table (b'a' ∷ []) new_table-Interned (λ u h e. absurd h.1)

one_string-Interned : Interned one_string
one_string-Interned =
    with_str-Interned new_table (b'a' ∷ []) new_table-Interned (λ u h e. absurd h.1)

other_text : (u : Str) → Held one_string u → u.text ≢ (b'b' ∷ [])
other_text u h e =
    elim (Held-with_str new_table (b'a' ∷ []) new_table-Interned (λ u h e. absurd h.1) u h) [
      | inl old ↦ absurd old.1
      | inr new ↦
          let clash : ◌≡◌ {A = List ℕ} (b'a' ∷ []) (b'b' ∷ []) =
            sym (ap (λ (x : Str). x.text) new) ∙ e in
          let heads : 97 ≡ 98 = ap first_byte clash in omega (arith, heads)
    ]
  where
    first_byte : List ℕ → ℕ
    first_byte [] = 0
    first_byte (c ∷ cs) = c

abbrev two_strings : StringTable
two_strings = with_str one_string (b'b' ∷ []) one_string-Interned other_text

two_strings-Interned : Interned two_strings
two_strings-Interned = with_str-Interned one_string (b'b' ∷ []) one_string-Interned other_text

abbrev string_a : Str
string_a = record { address = 100; text = b'a' ∷ []; hash = hash_of (b'a' ∷ []) }

resize-Interned_example :
    Interned (resize (2 ^ 6) two_strings)
    × (Held two_strings string_a ↔ Held (resize (2 ^ 6) two_strings) string_a)
    × (((two_strings.sweeping ≡ true) × (resize (2 ^ 6) two_strings ≡ two_strings))
        ⊎ ((two_strings.sweeping ≡ false) × ((resize (2 ^ 6) two_strings).size ≡ 2 ^ 6)))
resize-Interned_example = resize-Interned 6 two_strings string_a two_strings-Interned

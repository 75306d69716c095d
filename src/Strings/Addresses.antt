-- ===== src/Strings/Addresses.antt =====
-- `gafqS_newlstr` gives the one object of a text, so that comparing addresses compares texts.
use mathlib.Core.Path.{subst}
use gafq.Prelude.{
  ℕ, ◌+◌, ◌-◌, ◌≤◌, ◌≡◌, ◌≢◌, ◌∙◌, ◌↔◌, refl, sym, ap, arith, Bool, false, inl, inr, Option-cases,
  List, length, ltb,
}
use gafq.Prelude.Run.{ok}
use gafq.Mem.{max_sizet}
use gafq.Strings.{
  Str, StringTable, lmod, put_at, hash_of, find, sizeof_tstring, uncrowd, new_string, newlstr_found,
  newlstr,
}
use gafq.Strings.Rehash.{In}
use gafq.Strings.Interning.{
  Held, Interned, Extends, find-some, find-none, uncrowd-Extends, new_str, with_str, with_str-Held,
  new_str-Held, with_str-Interned,
}

-- `l+1` bytes and the header of a string are a `size_t`.
abbrev pub Short : List ℕ → Type 0
Short str = length str + 1 ≤ max_sizet - sizeof_tstring

-- The marks of the collector are no part of the order of the table.
marked-Interned :
    (tb : StringTable) (dead : ℕ → Bool) → Interned tb → Interned (record tb { dead = dead })
marked-Interned tb dead w = record {
  k = w.k;
  power = w.power;
  placed = w.placed;
  hashed = w.hashed;
  one_text = w.one_text;
  one_address = w.one_address;
}

-- The string of the text in a table in order.
Given : StringTable → List ℕ → Str → StringTable → Type 0
Given tb str ts tb' = (ts.text ≡ str) × Held tb' ts × Extends tb tb'

newlstr-Given :
    (tb : StringTable) (str : List ℕ)
    → Interned tb
    → Short str
    → (ts : Str) × (tb' : StringTable) × (newlstr str tb ≡ ok (ts, tb')) × Given tb str ts tb'
unfolding newlstr newlstr_found new_string Given
newlstr-Given tb str w short =
    let h = hash_of str in
    let chain = tb.chain (lmod h tb.size) in
    elim (Option-cases (find str chain)) [
      | inr (ts, e) ↦
          let (there, text) = find-some str chain ts e in
          let tb' : StringTable = record tb { dead = put_at tb.dead ts.address false } in
          (
            ts,
            tb',
            ap (λ o. newlstr_found str h o tb) e,
            (text, (lmod h tb.size, there), (marked-Interned tb tb'.dead w, λ u k. k)),
          )
      | inl e ↦
          let absent : (u : Str) → Held tb u → u.text ≢ str = λ u held text.
            let at : held.0 ≡ lmod h tb.size =
              (w.placed held.0 u held.1).0
              ∙ ap (λ (x : ℕ). lmod x tb.size) ((w.hashed u held).0 ∙ ap hash_of text) in
            find-none str chain u e (subst (λ (i : ℕ). In u (tb.chain i)) at held.1) text in
          let fits : ltb (max_sizet - sizeof_tstring) (length str + 1) ≡ false = ground arith in
          let ts = new_str tb str w absent in
          let tb1 = with_str tb str w absent in
          let (w', kept) = uncrowd-Extends tb1 (with_str-Interned tb str w absent) in
          (
            ts,
            uncrowd tb1,
            ap (λ o. newlstr_found str h o tb) e ∙ rw fits refl,
            (
              refl,
              kept ts (new_str-Held tb str w absent),
              (w', λ u k. kept u (with_str-Held tb str w absent u k)),
            ),
          )
    ]

-- In a table in order, asking for the strings of two texts one after the other succeeds for lengths
-- that fit the address space, and gives the same address exactly if the texts are the same. The table
-- stays in order and keeps the strings that it had.
pub newlstr_address :
    (tb : StringTable) (a b : List ℕ)
    → Interned tb
    → Short a
    → Short b
    → (s t : Str) × (tb1 tb2 : StringTable) × (newlstr a tb ≡ ok (s, tb1))
      × (newlstr b tb1 ≡ ok (t, tb2))
      × ((s.address ≡ t.address) ↔ (a ≡ b))
      × Extends tb tb2
unfolding Given
newlstr_address tb a b w la lb =
    let (s, tb1, run, (text_s, held_s, (w1, kept1))) = newlstr-Given tb a w la in
    let (t, tb2, run2, (text_t, held_t, (w2, kept2))) = newlstr-Given tb1 b w1 lb in
    let same : s.address ≡ t.address → a ≡ b = λ e.
      sym text_s
      ∙ ap (λ (x : Str). x.text) (w2.one_address s t (kept2 s held_s) held_t e)
      ∙ text_t in
    let one : a ≡ b → s.address ≡ t.address = λ e.
      ap (λ (x : Str). x.address)
        (w2.one_text s t (kept2 s held_s) held_t (text_s ∙ e ∙ sym text_t)) in
    (s, t, tb1, tb2, run, run2, (same, one), (w2, λ u k. kept2 u (kept1 u k)))

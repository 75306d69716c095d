-- ===== src/Strings/Interning.antt =====
-- Each text has one string object (gafqS_newlstr).
use mathlib.Core.Path.{subst}
use native.Mathlib.Nat.{one-le-pow, mod-lt, pow-suc}
use gafq.Prelude.{
  ℕ, suc, ◌+◌, ◌*◌, ◌^◌, ◌/◌, ◌<◌, ◌≡◌, ◌≢◌, ◌↔◌, ◌∙◌, refl, sym, ap, arith, Bool, true, false,
  ◌&&◌, Bool-cases, ◌⊎◌, inl, inr, Option, none, some, List, [], ◌∷◌, length, ◌==◌, ltb, leb,
  if◌then◌else◌,
}
use gafq.Prelude.Bits.{bit_and_mask}
use gafq.Chunk.Header.{same_bytes}
use gafq.Chunk.RoundTrip.{same_bytes_refl, same_bytes→eq}
use gafq.Mem.{max_int}
use gafq.Strings.{Str, StringTable, lmod, rehash, resize, hash_of, find, chained, uncrowd}
use gafq.Strings.Rehash.{In, put_at-cases, put_at-old, put_at-new, rehash-from, rehash-moves}

-- The string is in the table.
abbrev pub Held : StringTable → Str → Type 0
Held tb u = (i : ℕ) × In u (tb.chain i)

-- Every string is in the chain of its hash, is older than the next one, and is the only one with its
-- text and the only one at its address.
pub record Interned (tb : StringTable) : Type 0 where
  pub k : ℕ
  pub power : tb.size ≡ 2 ^ k
  pub placed : (i : ℕ) (u : Str) → In u (tb.chain i) → (i ≡ lmod u.hash tb.size) × (i < tb.size)
  pub hashed : (u : Str) → Held tb u → (u.hash ≡ hash_of u.text) × (u.address < tb.fresh)
  pub one_text : (u v : Str) → Held tb u → Held tb v → u.text ≡ v.text → u ≡ v
  pub one_address : (u v : Str) → Held tb u → Held tb v → u.address ≡ v.address → u ≡ v

lmod-power : (h k : ℕ) → lmod h (2 ^ k) < 2 ^ k
unfolding lmod
lmod-power h k = rw (bit_and_mask k h) (mod-lt h (one-le-pow k 2 (omega arith)))

some_str : {u v : Str} → ◌≡◌ {A = Option Str} (some u) (some v) → u ≡ v
some_str e = cc

none-some_str : {u : Str} → ◌≡◌ {A = Option Str} (some u) none → ⊥
none-some_str e = cc

true-false : true ≡ false → ⊥
true-false e = cc

and_right : (a b : Bool) → (a && b) ≡ true → b ≡ true
and_right true b h = h
and_right false b h = cc

matches :
    (str text : List ℕ) → text ≡ str → (length text == length str && same_bytes str text) ≡ true
matches str text e =
    subst (λ (t : List ℕ). (length t == length str && same_bytes str t) ≡ true) (sym e)
      (let same : (length str == length str) ≡ true = ground arith in rw same (same_bytes_refl str))

pub find-some :
    (str : List ℕ) (ps : List Str) (ts : Str) → find str ps ≡ some ts → In ts ps × (ts.text ≡ str)
unfolding find
find-some str [] ts h = cc
find-some str (p ∷ ps) ts h =
    elim (Bool-cases (length p.text == length str && same_bytes str p.text)) [
      | inl e ↦
          let eq : p ≡ ts = some_str (rw e at h) in
          (
            inl (sym eq),
            ap (λ (u : Str). u.text) (sym eq)
                ∙ sym (
                    same_bytes→eq str p.text
                      (and_right (length p.text == length str) (same_bytes str p.text) e)),
          )
      | inr e ↦ (let (old, text) = find-some str ps ts (rw e at h) in (inr old, text))
    ]

pub find-none :
    (str : List ℕ) (ps : List Str) (u : Str) → find str ps ≡ none → In u ps → u.text ≢ str
unfolding find
find-none str [] u h i = absurd i
find-none str (p ∷ ps) u h i = λ text.
    elim (Bool-cases (length p.text == length str && same_bytes str p.text)) [
      | inl e ↦ none-some_str (rw e at h)
      | inr e ↦ elim i [
        | inl eq ↦
            true-false (sym (matches str p.text (ap (λ (v : Str). v.text) (sym eq) ∙ text)) ∙ e)
        | inr old ↦ find-none str ps u (rw e at h) old text
      ]
    ]

-- The table after its strings have been moved.
abbrev moved : ℕ → StringTable → StringTable
moved n tb = record tb { chain = rehash n tb.chain tb.size; size = n }

moved-Held : (n : ℕ) (tb : StringTable) (u : Str) → Interned tb → Held tb u → Held (moved n tb) u
moved-Held n tb u w h =
    (lmod u.hash n, rehash-moves n tb.chain tb.size h.0 u (w.placed h.0 u h.1).1 h.1)

Held-moved : (n : ℕ) (tb : StringTable) (u : Str) → Held (moved n tb) u → Held tb u
Held-moved n tb u h = let (at, i, less, old) = rehash-from n tb.chain tb.size h.0 u h.1 in (i, old)

moved-Interned : (k : ℕ) (tb : StringTable) → Interned tb → Interned (moved (2 ^ k) tb)
moved-Interned k tb w =
    let old : (u : Str) → Held (moved (2 ^ k) tb) u → Held tb u = λ u. Held-moved (2 ^ k) tb u in
    record {
      k = k;
      power = refl;
      placed = λ i u h.
          let at = (rehash-from (2 ^ k) tb.chain tb.size i u h).0 in
          (at, subst (λ (j : ℕ). j < 2 ^ k) (sym at) (lmod-power u.hash k));
      hashed = λ u h. w.hashed u (old u h);
      one_text = λ u v hu hv. w.one_text u v (old u hu) (old v hv);
      one_address = λ u v hu hv. w.one_address u v (old u hu) (old v hv);
    }

-- The table is in order and has all the strings that it had.
abbrev pub Extends : StringTable → StringTable → Type 0
Extends tb tb' = Interned tb' × ((u : Str) → Held tb u → Held tb' u)

resize-Extends : (k : ℕ) (tb : StringTable) → Interned tb → Extends tb (resize (2 ^ k) tb)
unfolding resize
resize-Extends k tb w =
    elim (tb.sweeping) as (λ b. Extends tb (if b then tb else moved (2 ^ k) tb)) [
      | true ↦ (w, λ u h. h)
      | false ↦ (moved-Interned k tb w, λ u. moved-Held (2 ^ k) tb u w)
    ]

-- While the collector sweeps the strings, a resize does nothing; else it gives the table its new size.
-- Either way the table stays in order and has the same strings.
pub resize-Interned :
    (k : ℕ) (tb : StringTable) (u : Str)
    → Interned tb
    → Interned (resize (2 ^ k) tb)
      × (Held tb u ↔ Held (resize (2 ^ k) tb) u)
      × (((tb.sweeping ≡ true) × (resize (2 ^ k) tb ≡ tb))
          ⊎ ((tb.sweeping ≡ false) × ((resize (2 ^ k) tb).size ≡ 2 ^ k)))
unfolding resize
resize-Interned k tb u w = elim (Bool-cases tb.sweeping) [
  | inl e ↦
      let same : resize (2 ^ k) tb ≡ tb = ap (λ b. if b then tb else moved (2 ^ k) tb) e in
      (
        (resize-Extends k tb w).0,
        ((resize-Extends k tb w).1 u, λ h. subst (λ t. Held t u) same h),
        inl (e, same),
      )
  | inr e ↦
      let other : resize (2 ^ k) tb ≡ moved (2 ^ k) tb =
        ap (λ b. if b then tb else moved (2 ^ k) tb) e in
      (
        (resize-Extends k tb w).0,
        ((resize-Extends k tb w).1 u, λ h. Held-moved (2 ^ k) tb u (subst (λ t. Held t u) other h)),
        inr (e, ap (λ t. t.size) other),
      )
]

pub uncrowd-Extends : (tb : StringTable) → Interned tb → Extends tb (uncrowd tb)
unfolding uncrowd
uncrowd-Extends tb w =
    let size : tb.size * 2 ≡ 2 ^ suc w.k = omega (arith, w.power, pow-suc 2 w.k) in
    elim (Bool-cases (ltb tb.size tb.nuse && leb tb.size (max_int / 2))) [
      | inl e ↦
          rw e
            (subst (λ (n : ℕ). Extends tb (resize n tb)) (sym size) (resize-Extends (suc w.k) tb w))
      | inr e ↦ rw e (w, λ u h. h)
    ]

-- What the table holds with one more string.
module _ (tb : StringTable) (str : List ℕ) (w : Interned tb)
    (absent : (u : Str) → Held tb u → u.text ≢ str) where
  abbrev pub new_str : Str
  new_str = (chained str (hash_of str) tb).0

  abbrev pub with_str : StringTable
  with_str = (chained str (hash_of str) tb).1

  pub with_str-Held : (u : Str) → Held tb u → Held with_str u
  with_str-Held u (i, h) = (i, put_at-old tb.chain (lmod (hash_of str) tb.size) i new_str u h)

  pub new_str-Held : Held with_str new_str
  new_str-Held =
      (lmod (hash_of str) tb.size, put_at-new tb.chain (lmod (hash_of str) tb.size) new_str)

  pub Held-with_str : (u : Str) → Held with_str u → Held tb u ⊎ (u ≡ new_str)
  Held-with_str u (i, h) = elim (put_at-cases tb.chain (lmod (hash_of str) tb.size) i new_str u h) [
    | inl old ↦ inl (i, old)
    | inr (e, at) ↦ inr e
  ]

  pub with_str-Interned : Interned with_str
  with_str-Interned = record {
    k = w.k;
    power = w.power;
    placed = λ i u h. elim (put_at-cases tb.chain (lmod (hash_of str) tb.size) i new_str u h) [
      | inl old ↦ w.placed i u old
      | inr (e, at) ↦ (
        at ∙ ap (λ (v : Str). lmod v.hash tb.size) (sym e),
        subst (λ (j : ℕ). j < tb.size) (sym at) in_range,
      )
    ];
    hashed = λ u h. elim (Held-with_str u h) [
      | inl old ↦ ((w.hashed u old).0, omega (arith, (w.hashed u old).1))
      | inr e ↦
          subst (λ (v : Str). (v.hash ≡ hash_of v.text) × (v.address < tb.fresh + 1)) (sym e)
            (refl, omega arith)
    ];
    one_text = λ u v hu hv e. elim (Held-with_str u hu) [
      | inl ou ↦ elim (Held-with_str v hv) [
        | inl ov ↦ w.one_text u v ou ov e
        | inr ev ↦ absurd (absent u ou (e ∙ ap (λ (x : Str). x.text) ev))
      ]
      | inr eu ↦ elim (Held-with_str v hv) [
        | inl ov ↦ absurd (absent v ov (sym e ∙ ap (λ (x : Str). x.text) eu))
        | inr ev ↦ eu ∙ sym ev
      ]
    ];
    one_address = λ u v hu hv e. elim (Held-with_str u hu) [
      | inl ou ↦ elim (Held-with_str v hv) [
        | inl ov ↦ w.one_address u v ou ov e
        | inr ev ↦ absurd (omega (arith, (w.hashed u ou).1, e, ap (λ (x : Str). x.address) ev))
      ]
      | inr eu ↦ elim (Held-with_str v hv) [
        | inl ov ↦ absurd (omega (arith, (w.hashed v ov).1, e, ap (λ (x : Str). x.address) eu))
        | inr ev ↦ eu ∙ sym ev
      ]
    ];
  }
    where
      in_range : lmod (hash_of str) tb.size < tb.size
      in_range =
          subst (λ (n : ℕ). lmod (hash_of str) n < n) (sym w.power) (lmod-power (hash_of str) w.k)

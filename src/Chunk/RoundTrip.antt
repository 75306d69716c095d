-- ===== src/Chunk/RoundTrip.antt =====
-- Saving a prototype and loading what was saved.
use mathlib.Core.Path.{subst}
use mathlib.Core.List.{append_assoc, append-nil}
use gafq.Prelude.{
  ℕ, ◌+◌, ◌-◌, ◌≤◌, ◌≡◌, ◌∙◌, refl, sym, ap, arith, Bool, true, false, not, ◌||◌, ◌⊎◌, inl, inr,
  Option, none, some, List, [], ◌∷◌, ◌++◌, if◌then◌else◌, Bool-cases,
}
use gafq.Chunk.{TString, Fields, Proto, proto, Protos, no_protos, protos}
use gafq.Chunk.Header.{Platform, header, same_bytes}
use gafq.Chunk.Dump.{Writer, same_source, dump}
use gafq.Chunk.Image.{Blocks, image}
use gafq.Chunk.Writing.{offer, dump-offer}
use gafq.Chunk.Undump.{LoadState, load_header, maxccalls, undump, source_or, bad_header}
use gafq.Prelude.Run.{ok, fail_if}
use gafq.Chunk.Loads.{Loads, joined, Loads-returning, Loads-bind, Loads-end, load_block-Loads}
use gafq.Chunk.Prototypes.{
  Fits, depth, restored, restored_protos, saved_source, Passes, load_function-Loads,
}
use gafq.Zio.Stream.{Content}

pub same_bytes_refl : (s : List ℕ) → same_bytes s s ≡ true
unfolding same_bytes
same_bytes_refl [] = refl
same_bytes_refl (x ∷ s) = rw (same_bytes_refl s) (ground arith)

pub same_bytes→eq : (s t : List ℕ) → same_bytes s t ≡ true → s ≡ t
unfolding same_bytes
same_bytes→eq [] [] h = refl
same_bytes→eq [] (y ∷ t) h = cc
same_bytes→eq (x ∷ s) [] h = cc
same_bytes→eq (x ∷ s) (y ∷ t) h = ground (arith, same_bytes→eq s t)

same_source→eq : (s t : Option TString) → same_source s t ≡ true → s ≡ t
unfolding same_source
same_source→eq none none h = refl
same_source→eq none (some t) h = cc
same_source→eq (some s) none h = cc
same_source→eq (some s) (some t) h = ap some (same_bytes→eq s t h)

-- Every prototype in it names its source, as those of the compiler do.
unfoldable mutual
  pub Named : Proto → Type 0
  Named (proto f ps) = ((s : TString) × (f.source ≡ some s)) × ProtosNamed ps

  pub ProtosNamed : Protos → Type 0
  ProtosNamed no_protos = Unit
  ProtosNamed (protos f fs) = Named f × ProtosNamed fs

-- The loader knows the source that the saver left out.
abbrev Known : Option TString → Option TString → Type 0
Known q p = (q ≡ p) ⊎ (p ≡ none)

restored_source :
    (s : TString) (q p : Option TString)
    → Known q p
    → source_or (if same_source (some s) p || false then none else some s) q ≡ some s
unfolding source_or same_source
restored_source s q none k = refl
restored_source s q (some t) (inr e) = cc
restored_source s q (some t) (inl e) = elim (Bool-cases (same_bytes s t)) [
  | inl h ↦ rw h (e ∙ ap some (sym (same_bytes→eq s t h)))
  | inr h ↦ rw h refl
]

restored_fields-id :
    (q p : Option TString) (f : Fields) (s : TString)
    → f.source ≡ some s
    → Known q p
    → source_or (saved_source false p f) q ≡ f.source
restored_fields-id q p f s e k =
    subst (λ (t : Option TString). source_or (if same_source t p || false then none else t) q ≡ t)
      (sym e) (restored_source s q p k)

mutual
  unfolding Named ProtosNamed restored restored_protos

  restored-id : (q p : Option TString) (f : Proto) → Named f → Known q p → restored false q p f ≡ f
  restored-id q p (proto f ps) named k =
      let e = restored_fields-id q p f named.0.0 named.0.1 k in
      rw e (ap (proto f) (restored_protos-id f.source ps named.1))

  restored_protos-id :
      (p : Option TString) (fs : Protos) → ProtosNamed fs → restored_protos false p p fs ≡ fs
  restored_protos-id p no_protos named = refl
  restored_protos-id p (protos f fs) named =
      rw (restored-id p p f named.0 (inl refl), restored_protos-id p fs named.1) refl

-- A writer that keeps all the bytes.
abbrev pub append_writer : Writer (List ℕ)
append_writer out b = (0, out ++ b)

offer-joined : (bs : Blocks) (out : List ℕ) → offer append_writer bs out ≡ (0, out ++ joined bs)
offer-joined [] out = rw append-nil refl
offer-joined (b ∷ bs) out =
    offer-joined bs (out ++ b) ∙ ap (λ (t : List ℕ). (0, t)) (append_assoc out b (joined bs))

pub dump-joined :
    (host : Platform) (strip : Bool) (f : Proto)
    → (dump host f append_writer [] strip).1 ≡ joined (header host ∷ image strip f none)
dump-joined host strip f =
    ap (λ r. r.1)
      (dump-offer host f append_writer [] strip
        ∙ offer-joined (header host ∷ image strip f none) [])

-- The name of the source of a chunk that keeps none.
abbrev pub no_source : Option TString
no_source = some (b'=' ∷ b'?' ∷ [])

module _ {D : Type 0} where
  load_header-Loads : (host : Platform) → Loads (load_header {D = D} host) (header host ∷ []) tt
  unfolding load_header header
  load_header-Loads host =
      Loads-end
        (λ (x : List ℕ). fail_if {S = LoadState D} (not (same_bytes (header host) x)) bad_header)
        (load_block-Loads (header host))
        (subst (λ b. Loads (fail_if {S = LoadState D} (not b) bad_header) [] tt)
          (sym (same_bytes_refl (header host))) (Loads-returning tt))

  pub undump-Loads :
      (host : Platform) (check : Proto → Bool) (strip : Bool) (f : Proto) (n_ccalls : ℕ)
      → Fits f
      → depth f + n_ccalls ≤ maxccalls
      → Passes check (restored strip no_source none f)
      → Loads
          (undump {D = D} host check n_ccalls)
          (header host ∷ image strip f none)
          (restored strip no_source none f)
  unfolding undump
  undump-Loads host check strip f n_ccalls fit deep pass = Loads-bind _ (load_header-Loads host) (
      load_function-Loads check strip f (maxccalls - n_ccalls) no_source none fit (omega arith)
        pass)

  -- Loading what was saved of a prototype that fits its types and is not nested too deep gives, with
  -- the reader in front of whatever follows, the prototype without the debug information that was
  -- stripped and with the sources that the saver left out filled in, if the verifier accepts it.
  pub undump-dump :
      (host : Platform) (check : Proto → Bool) (strip : Bool) (f : Proto) (n_ccalls : ℕ)
      (s : LoadState D) (rest : List ℕ)
      → Fits f
      → depth f + n_ccalls ≤ maxccalls
      → Passes check (restored strip no_source none f)
      → Content s.zio ((dump host f append_writer [] strip).1 ++ rest)
      → (s' : LoadState D) × (undump host check n_ccalls s
          ≡ ok (restored strip no_source none f, s'))
        × Content s'.zio rest
  undump-dump host check strip f n_ccalls s rest fit deep pass c =
      (undump-Loads host check strip f n_ccalls fit deep pass).run s rest
        (subst (λ t. Content s.zio (t ++ rest)) (dump-joined host strip f) c)

  -- Without stripping, a prototype that names its sources comes back as it was.
  pub undump-dump_whole :
      (host : Platform) (check : Proto → Bool) (f : Proto) (n_ccalls : ℕ) (s : LoadState D)
      (rest : List ℕ)
      → Named f
      → Fits f
      → depth f + n_ccalls ≤ maxccalls
      → Passes check f
      → Content s.zio ((dump host f append_writer [] false).1 ++ rest)
      → (s' : LoadState D) × (undump host check n_ccalls s ≡ ok (f, s')) × Content s'.zio rest
  undump-dump_whole host check f n_ccalls s rest named fit deep pass c =
      let same = restored-id no_source none f named (inr refl) in
      subst
        (λ g.
          (s' : LoadState D) × (undump host check n_ccalls s ≡ ok (g, s')) × Content s'.zio rest)
        same
        (undump-dump host check false f n_ccalls s rest fit deep
          (subst (λ g. Passes check g) (sym same) pass) c)

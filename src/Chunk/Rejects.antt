-- ===== src/Chunk/Rejects.antt =====
-- What the loader of gundump.c refuses: a header of another build, a chunk that ends too soon, and
-- code that the verifier does not accept.
use mathlib.Core.Path.{subst}
use gafq.Prelude.{
  ℕ, zero, suc, ◌+◌, ◌-◌, ◌≤◌, ◌≡◌, ◌∙◌, refl, sym, arith, Bool, true, false, not, Option, none,
  List, [], ◌∷◌, ◌++◌, length, Bool-cases, inl, inr,
}
use gafq.Zio.Stream.{Content}
use gafq.Chunk.{TString, Proto, proto, Protos}
use gafq.Chunk.Header.{Platform, header, headersize, same_bytes}
use gafq.Chunk.Undump.{
  LoadError, LoadState, Load, load_block, load_int, load_each, load_start, load_debug,
  load_function, load_header, maxccalls, undump, to_protos, unexpected_end, bad_code, bad_header,
}
use gafq.Prelude.Run.{Outcome, ok, error, ◌>>◌, fail_if, bind-ok}
use gafq.Chunk.Prototypes.{Passes, ProtosPass, depth, depth_protos, restored, Fits}
use gafq.Chunk.Loads.{load_block-Loads}
use gafq.Chunk.Dump.{dump}
use gafq.Chunk.RoundTrip.{append_writer, no_source, dump-joined, undump-Loads, same_bytes→eq}
use mathlib.Core.List.{append-nil}

ok-pair {ℓ} :
    {A : Type ℓ} {S : Type 0} {a b : A} {s t : S}
    → ◌≡◌ {A = Outcome LoadError (A × S)} (ok (a, s)) (ok (b, t))
    → a ≡ b
ok-pair h = cc

-- `check` accepted every loaded prototype, and those inside it, and the nesting is in the limit.
abbrev Sound : (Proto → Bool) → ℕ → Proto → Type 0
Sound check left f = Passes check f × (depth f ≤ left)

abbrev ProtosSound : (Proto → Bool) → ℕ → Protos → Type 0
ProtosSound check left fs = ProtosPass check fs × (depth_protos fs ≤ left)

module _ {D : Type 0} where
  fail_if-ok {κ} :
      {B : Type κ} (c : Bool) (e : LoadError) (k : Load D B) (s s' : LoadState D) (b : B)
      → (fail_if c e >> k) s ≡ ok (b, s')
      → (c ≡ false) × (k s ≡ ok (b, s'))
  fail_if-ok true e k s s' b h = cc
  fail_if-ok false e k s s' b h = (refl, h)

  load_protos-Sound :
      (check : Proto → Bool) (left : ℕ) (p : Option TString)
      → ((s s' : LoadState D) (f : Proto)
          → load_function check left p s ≡ ok (f, s')
          → Sound check left f)
      → (n : ℕ) (s s' : LoadState D) (fs : List Proto)
      → load_each (load_function check left p) n s ≡ ok (fs, s')
      → ProtosSound check left (to_protos fs)
  unfolding load_each to_protos ProtosPass depth_protos
  load_protos-Sound check left p ih zero s s' fs h = rw (sym (ok-pair h)) (tt, omega arith)
  load_protos-Sound check left p ih (suc n) s s' fs h =
      let (f, s1, e1, h1) = bind-ok (load_function check left p s) _ fs s' h in
      let (rest, s2, e2, h2) = bind-ok (load_each (load_function check left p) n s1) _ fs s' h1 in
      let (pass, deep) = ih s s1 f e1 in
      let (passes, deeps) = load_protos-Sound check left p ih n s1 s2 rest e2 in
      rw (sym (ok-pair h2)) ((pass, passes), omega arith)

  load_function-Sound :
      (check : Proto → Bool) (left : ℕ) (p : Option TString) (s s' : LoadState D) (f : Proto)
      → load_function check left p s ≡ ok (f, s')
      → Sound check left f
  unfolding load_function Passes depth
  load_function-Sound check zero p s s' f h = cc
  load_function-Sound check (suc left) p s s' f h =
      let (start, s1, e1, h1) = bind-ok (load_start p s) _ f s' h in
      let (n, s2, e2, h2) = bind-ok (load_int s1) _ f s' h1 in
      let (ps, s3, e3, h3) =
        bind-ok (load_each (load_function check left start.source) n s2) _ f s' h2 in
      let (g, s4, e4, h4) = bind-ok (load_debug start s3) _ f s' h3 in
      let (pass, h5) = fail_if-ok (not (check (proto g (to_protos ps)))) bad_code _ s4 s' f h4 in
      let (passes, deep) =
        load_protos-Sound check left start.source (load_function-Sound check left start.source) n s2
          s3 ps e3 in
      rw (sym (ok-pair h5)) ((ground arith, passes), omega arith)

  -- A prototype that is loaded at a depth of `n_ccalls` has been accepted by the verifier, as have all
  -- those inside it, and is not nested deeper than the limit on C calls leaves room for.
  pub undump_sound :
      (host : Platform) (check : Proto → Bool) (n_ccalls : ℕ) (s s' : LoadState D) (f : Proto)
      → undump host check n_ccalls s ≡ ok (f, s')
      → Passes check f × (depth f ≤ maxccalls - n_ccalls)
  unfolding undump
  undump_sound host check n_ccalls s s' f h =
      let (u, s1, e1, h1) = bind-ok (load_header host s) _ f s' h in
      load_function-Sound check (maxccalls - n_ccalls) _ s1 s' f h1

  -- A stream that ends inside a saved chunk, of a prototype that could be loaded, is refused for the
  -- unexpected end, wherever it ends.
  pub undump-prefix :
      (host : Platform) (check : Proto → Bool) (strip : Bool) (f : Proto) (n_ccalls : ℕ)
      (s : LoadState D) (kept lost : List ℕ) (b : ℕ)
      → Fits f
      → depth f + n_ccalls ≤ maxccalls
      → Passes check (restored strip no_source none f)
      → (dump host f append_writer [] strip).1 ≡ kept ++ b ∷ lost
      → Content s.zio kept
      → undump host check n_ccalls s ≡ error unexpected_end
  undump-prefix host check strip f n_ccalls s kept lost b fit deep pass e c =
      (undump-Loads host check strip f n_ccalls fit deep pass).short s kept lost b c
        (sym (dump-joined host strip f) ∙ e)

  -- A chunk whose first bytes differ from this platform's header is refused, whatever follows.
  pub undump-other_header :
      (host : Platform) (check : Proto → Bool) (n_ccalls : ℕ) (s : LoadState D) (h rest : List ℕ)
      → length h ≡ headersize
      → ¬ (h ≡ header host)
      → Content s.zio (h ++ rest)
      → undump host check n_ccalls s ≡ error bad_header
  unfolding undump load_header
  undump-other_header host check n_ccalls s h rest e differ c =
      let other : same_bytes (header host) h ≡ false =
        elim (Bool-cases (same_bytes (header host) h)) [
          | inl same ↦ absurd (differ (sym (same_bytes→eq (header host) h same)))
          | inr other ↦ other
        ] in
      let (s1, e1, c1) =
        (load_block-Loads h).run s rest
          (subst (λ t. Content s.zio (t ++ rest)) (sym (append-nil h)) c) in
      rw (subst (λ n. load_block n s ≡ ok (h, s1)) e e1, other) refl

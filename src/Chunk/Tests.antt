-- ===== src/Chunk/Tests.antt =====
-- A function with one nested function, saved and loaded.
use mathlib.Core.List.{append-nil}
use gafq.Prelude.{
  ℕ, ◌+◌, ◌-◌, ◌≤◌, ◌≡◌, refl, sym, ap, arith, Bool, true, false, none, some, List, [], ◌∷◌, ◌++◌,
  length, take, drop,
}
use gafq.Zio.{Reader}
use gafq.Zio.Stream.{ends, sends, Content}
use gafq.Zio.Buffer.{initbuffer}
use gafq.Chunk.{
  TString, nil, boolean, number, string, Fields, Proto, proto, no_protos, protos, to_bytes,
  words_bytes,
}
use gafq.Chunk.Header.{same_bytes, x86_64, header, headersize, header_writes, header_overflow}
use gafq.Chunk.Dump.{
  dump, same_source, protos_size, dump_header, dump_function, dump_protos, dump_start,
  dump_constants, dump_debug, dump_each, dump_string, dump_int, dump_char, dump_block, dump_vector,
  dump_code, dump_constant, dump_locvar, dump_number, kept,
}
use gafq.Chunk.Image.{image}
use gafq.Chunk.Writing.{offer, dump-offer}
use gafq.Chunk.Undump.{LoadState, undump, maxccalls, unexpected_end, bad_header}
use gafq.Prelude.Run.{ok, error}
use gafq.Chunk.Prototypes.{
  Fits, ProtosFit, FieldsFit, depth, depth_protos, Passes, ProtosPass, restored, restored_protos,
}
use gafq.Chunk.RoundTrip.{
  append_writer, no_source, Named, ProtosNamed, undump-dump, undump-dump_whole,
}
use gafq.Chunk.Rejects.{undump_sound, undump-prefix, undump-other_header}

abbrev name : TString
name = b'@' ∷ b'a' ∷ []

abbrev inner_fields : Fields
inner_fields = record {
  source = some name;
  linedefined = 2;
  lastlinedefined = 3;
  nups = 1;
  numparams = 0;
  is_vararg = 0;
  maxstacksize = 2;
  code = 30 ∷ [];
  k = [];
  lineinfo = 3 ∷ [];
  locvars = [];
  upvalues = some (b'x' ∷ []) ∷ [];
}

abbrev main_fields : Fields
main_fields = record {
  source = some name;
  linedefined = 0;
  lastlinedefined = 0;
  nups = 0;
  numparams = 0;
  is_vararg = 2;
  maxstacksize = 4;
  code = 36 ∷ 30 ∷ [];
  k = nil ∷ boolean true ∷ number 7 ∷ string (some (b'x' ∷ [])) ∷ [];
  lineinfo = 1 ∷ 2 ∷ [];
  locvars = record { varname = some (b'x' ∷ []); startpc = 0; endpc = 1 } ∷ [];
  upvalues = [];
}

abbrev main_function : Proto
main_function = proto main_fields (protos (proto inner_fields no_protos) no_protos)

abbrev accept : Proto → Bool
accept f = true

inner_fields-FieldsFit : FieldsFit inner_fields
inner_fields-FieldsFit = record {
  source = omega arith;
  linedefined = omega arith;
  lastlinedefined = omega arith;
  nups = omega arith;
  numparams = omega arith;
  is_vararg = omega arith;
  maxstacksize = omega arith;
  sizecode = omega arith;
  code = (omega arith, tt);
  sizek = omega arith;
  k = tt;
  sizelineinfo = omega arith;
  lineinfo = (omega arith, tt);
  sizelocvars = omega arith;
  locvars = tt;
  sizeupvalues = omega arith;
  upvalues = (omega arith, tt);
}

main_fields-FieldsFit : FieldsFit main_fields
main_fields-FieldsFit = record {
  source = omega arith;
  linedefined = omega arith;
  lastlinedefined = omega arith;
  nups = omega arith;
  numparams = omega arith;
  is_vararg = omega arith;
  maxstacksize = omega arith;
  sizecode = omega arith;
  code = (omega arith, (omega arith, tt));
  sizek = omega arith;
  k = (tt, (tt, (omega arith, (omega arith, tt))));
  sizelineinfo = omega arith;
  lineinfo = (omega arith, (omega arith, tt));
  sizelocvars = omega arith;
  locvars = ((omega arith, omega arith, omega arith), tt);
  sizeupvalues = omega arith;
  upvalues = tt;
}

main_function-Fits : Fits main_function
unfolding Fits ProtosFit protos_size
main_function-Fits =
    (main_fields-FieldsFit, omega arith, ((inner_fields-FieldsFit, omega arith, tt), tt))

main_function-Named : Named main_function
unfolding Named ProtosNamed
main_function-Named = ((name, refl), (((name, refl), tt), tt))

main_function-Passes : Passes accept main_function
unfolding Passes ProtosPass
main_function-Passes = (refl, ((refl, tt), tt))

restored-Passes : Passes accept (restored true no_source none main_function)
unfolding Passes ProtosPass restored restored_protos
restored-Passes = (refl, ((refl, tt), tt))

main_function-depth : depth main_function + 0 ≤ maxccalls
unfolding depth depth_protos
main_function-depth = omega arith

-- The reader gives the listed blocks one by one.
abbrev blocks_reader : Reader (List (List ℕ))
blocks_reader [] = ([], [])
blocks_reader (b ∷ bs) = (b, bs)

abbrev loading : List ℕ → LoadState (List (List ℕ))
loading bs = record {
  zio = record { n = 0; p = []; reader = blocks_reader; user = bs ∷ [] };
  b = initbuffer;
}

loading-Content : (bs : List ℕ) → Content (loading bs).zio bs
loading-Content [] = record { filled = refl; rest = []; delivers = ends refl refl; whole = refl }
loading-Content (c ∷ bs) = record {
  filled = refl;
  rest = c ∷ bs;
  delivers = sends c bs [] refl (ends refl refl) (ap (λ r. c ∷ r) (sym (append-nil bs)));
  whole = refl;
}

abbrev chunk : Bool → List ℕ
chunk strip = (dump x86_64 main_function append_writer [] strip).1

header_overflow_example :
    (length (header_writes x86_64) ≡ headersize + 1)
    × (length (header x86_64) ≡ headersize)
    × (header (record x86_64 { integral = 1 }) ≡ header x86_64)
header_overflow_example = header_overflow x86_64 1

dump-offer_example :
    dump x86_64 main_function append_writer [] false
    ≡ offer append_writer (header x86_64 ∷ image false main_function none) []
dump-offer_example = dump-offer x86_64 main_function append_writer [] false

undump-dump_example :
    (s' : LoadState (List (List ℕ))) × (undump x86_64 accept 0 (loading (chunk true ++ 1 ∷ []))
      ≡ ok (restored true no_source none main_function, s'))
    × Content s'.zio (1 ∷ [])
undump-dump_example =
    undump-dump x86_64 accept true main_function 0 (loading (chunk true ++ 1 ∷ [])) (1 ∷ [])
      main_function-Fits main_function-depth restored-Passes
      (loading-Content (chunk true ++ 1 ∷ []))

undump-dump_whole_example :
    (s' : LoadState (List (List ℕ))) × (undump x86_64 accept 0 (loading (chunk false ++ []))
      ≡ ok (main_function, s'))
    × Content s'.zio []
undump-dump_whole_example =
    undump-dump_whole x86_64 accept main_function 0 (loading (chunk false ++ [])) []
      main_function-Named main_function-Fits main_function-depth main_function-Passes
      (loading-Content (chunk false ++ []))

abbrev other_header : List ℕ
other_header = 27 ∷ b'L' ∷ b'u' ∷ b'a' ∷ 0x51 ∷ 0 ∷ 1 ∷ 4 ∷ 8 ∷ 4 ∷ 8 ∷ 0 ∷ []

abbrev second : List ℕ → ℕ
second [] = 0
second (x ∷ []) = 0
second (x ∷ y ∷ bs) = y

other_header-differs : ¬ (other_header ≡ header x86_64)
unfolding header header_writes
other_header-differs h = omega (arith, ap second h)

undump-other_header_example :
    undump x86_64 accept 0 (loading (other_header ++ 1 ∷ [])) ≡ error bad_header
undump-other_header_example =
    undump-other_header x86_64 accept 0 (loading (other_header ++ 1 ∷ [])) other_header (1 ∷ [])
      refl other_header-differs (loading-Content (other_header ++ 1 ∷ []))

loaded :
    (s' : LoadState (List (List ℕ))) × (undump x86_64 accept 0 (loading (chunk false ++ []))
      ≡ ok (main_function, s'))
    × Content s'.zio []
loaded =
    undump-dump_whole x86_64 accept main_function 0 (loading (chunk false ++ [])) []
      main_function-Named main_function-Fits main_function-depth main_function-Passes
      (loading-Content (chunk false ++ []))

undump_sound_example : Passes accept main_function × (depth main_function ≤ maxccalls - 0)
undump_sound_example =
    undump_sound x86_64 accept 0 (loading (chunk false ++ [])) loaded.0 main_function loaded.1

chunk_cut : chunk true ≡ take 30 (chunk true) ++ 2 ∷ drop 31 (chunk true)
unfolding dump dump_header dump_function dump_protos dump_start dump_constants dump_debug dump_each
    dump_string dump_int dump_char dump_block dump_vector dump_code dump_constant dump_locvar
    dump_number kept to_bytes words_bytes header header_writes same_source same_bytes protos_size
chunk_cut = refl

undump-prefix_example :
    undump x86_64 accept 0 (loading (take 30 (chunk true))) ≡ error unexpected_end
undump-prefix_example =
    undump-prefix x86_64 accept true main_function 0 (loading (take 30 (chunk true)))
      (take 30 (chunk true)) (drop 31 (chunk true)) 2 main_function-Fits main_function-depth
      restored-Passes chunk_cut (loading-Content (take 30 (chunk true)))

-- ===== src/Zio/Tests.antt =====
-- Streams over a reader that delivers two blocks.
use gafq.Prelude.{ℕ, ◌-◌, ◌<◌, ◌≤◌, ◌≡◌, refl, arith, some, List, [], ◌∷◌, length}
use gafq.Zio.{
  Reader, Zio, first, put_back, fill_with, fill, lookahead, zgetc, read_next, read_loop, read,
}
use gafq.Zio.Stream.{ends, sends, Content, next_byte-Content}
use gafq.Zio.Reading.{read-Content, read-short}
use gafq.Zio.Buffer.{initbuffer, openspace, openspace_room}

-- The reader gives the listed blocks one by one.
abbrev blocks_reader : Reader (List (List ℕ))
blocks_reader [] = ([], [])
blocks_reader (b ∷ bs) = (b, bs)

abbrev two_blocks : List (List ℕ)
two_blocks = (10 ∷ 20 ∷ []) ∷ (30 ∷ []) ∷ []

abbrev stream : Zio (List (List ℕ))
stream = record { n = 0; p = []; reader = blocks_reader; user = two_blocks }

stream-Content : Content stream (10 ∷ 20 ∷ 30 ∷ [])
stream-Content = record {
  filled = refl;
  rest = 10 ∷ 20 ∷ 30 ∷ [];
  delivers = sends 10 (20 ∷ []) (30 ∷ []) refl (sends 30 [] [] refl (ends refl refl) refl) refl;
  whole = refl;
}

read_runs : (read stream 3).1 ≡ 10 ∷ 20 ∷ 30 ∷ []
unfolding read read_loop read_next lookahead fill fill_with put_back first
read_runs = refl

read-Content_example :
    (z' : Zio (List (List ℕ))) × (read stream (length {A = ℕ} (10 ∷ 20 ∷ []))
      ≡ (0, 10 ∷ 20 ∷ [], z'))
    × Content z' (30 ∷ [])
read-Content_example = read-Content stream (10 ∷ 20 ∷ []) (30 ∷ []) stream-Content

read-short_example :
    ((read stream 5).0 ≡ 5 - length {A = ℕ} (10 ∷ 20 ∷ 30 ∷ []))
    × ((read stream 5).1 ≡ 10 ∷ 20 ∷ 30 ∷ [])
read-short_example = read-short stream 5 (10 ∷ 20 ∷ 30 ∷ []) stream-Content (omega arith)

next_byte-Content_example :
    ((z' : Zio (List (List ℕ))) × (zgetc stream ≡ (some 10, z')) × Content z' (20 ∷ 30 ∷ []))
    × ((z' : Zio (List (List ℕ))) × (lookahead stream ≡ (some 10, z'))
        × Content z' (10 ∷ 20 ∷ 30 ∷ [])
        × (0 < z'.n))
next_byte-Content_example = next_byte-Content stream 10 (20 ∷ 30 ∷ []) stream-Content

openspace_room_example :
    (100 ≤ (openspace initbuffer 100).buffsize)
    × (initbuffer.buffsize ≤ (openspace initbuffer 100).buffsize)
    × ((openspace initbuffer 100).n ≡ initbuffer.n)
    × (openspace (openspace initbuffer 100) 50 ≡ openspace initbuffer 100)
openspace_room_example = openspace_room initbuffer 100 50 (omega arith)

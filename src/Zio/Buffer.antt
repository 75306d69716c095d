-- ===== src/Zio/Buffer.antt =====
-- `Mbuffer` (gzio.h): the scratch buffer of the lexer and of the loader of precompiled chunks. Its
-- memory is the allocator's; the model keeps the sizes.
use gafq.Prelude.{ℕ, ◌≤◌, ◌≡◌, arith, ltb, if◌then◌else◌}

pub record Mbuffer : Type 0 where
  pub n : ℕ
  pub buffsize : ℕ

abbrev pub minbuffer : ℕ
minbuffer = 32

-- `gafqZ_initbuffer`, with the length that the first `gafqZ_resetbuffer` gives.
unfoldable pub initbuffer : Mbuffer
initbuffer = record { n = 0; buffsize = 0 }

-- `gafqZ_resetbuffer`
unfoldable pub resetbuffer : Mbuffer → Mbuffer
resetbuffer buff = record buff { n = 0 }

-- `gafqZ_resizebuffer`, where the allocation succeeds.
unfoldable pub resizebuffer : Mbuffer → ℕ → Mbuffer
resizebuffer buff size = record buff { buffsize = size }

-- `gafqZ_openspace`
unfoldable pub openspace : Mbuffer → ℕ → Mbuffer
unfolding resizebuffer
openspace buff n =
    if ltb buff.buffsize n
    then resizebuffer buff (if ltb n minbuffer then minbuffer else n)
    else buff

-- After `gafqZ_openspace` the buffer has room for the bytes asked for and never less than before, and
-- a further call for no more than that changes nothing.
pub openspace_room :
    (buff : Mbuffer) (n m : ℕ)
    → m ≤ n
    → (n ≤ (openspace buff n).buffsize)
      × (buff.buffsize ≤ (openspace buff n).buffsize)
      × ((openspace buff n).n ≡ buff.n)
      × (openspace (openspace buff n) m ≡ openspace buff n)
unfolding openspace
openspace_room buff n m h = (ground arith, ground arith, ground arith, ground arith)

-- ===== src/Strings.antt =====
-- The table of interned strings (gstring.c, gstring.h).
pub mod Rehash
pub mod Interning
pub mod Addresses
mod Tests
use gafq.Prelude.{
  ℕ, zero, suc, ◌+◌, ◌-◌, ◌*◌, ◌/◌, ◌%◌, ◌^◌, Bool, true, false, ◌&&◌, Option, none, some, List, [],
  ◌∷◌, length, get_or, bit_and, bit_xor, ltb, leb, ◌==◌, if◌then◌else◌,
}
use gafq.Prelude.Run.{Run, ok, error, failing}
use gafq.Chunk.Header.{same_bytes}
use gafq.Mem.{MemError, block_too_big, max_sizet, max_int}

-- A string object: its address, its bytes, and the hash that it keeps.
pub record Str : Type 0 where
  pub address : ℕ
  pub text : List ℕ
  pub hash : ℕ

-- `stringtable`, and what the strings need of the collector: whether it sweeps them, and the objects
-- that are dead. The allocator gives the address `fresh` next.
pub record StringTable : Type 0 where
  pub chain : ℕ → List Str
  pub size : ℕ
  pub nuse : ℕ
  pub sweeping : Bool
  pub dead : ℕ → Bool
  pub fresh : ℕ

-- `lmod`, for a size that is a power of 2
unfoldable pub lmod : ℕ → ℕ → ℕ
lmod s size = bit_and s (size - 1)

abbrev pub put_at {ℓ} : {A : Type ℓ} → (ℕ → A) → ℕ → A → ℕ → A
put_at a i v j = if j == i then v else a j

-- `while (p)` over a chain: each string goes in front of its new chain.
unfoldable pub rehash_chain : ℕ → List Str → (ℕ → List Str) → ℕ → List Str
unfolding lmod
rehash_chain newsize [] newhash = newhash
rehash_chain newsize (p ∷ ps) newhash =
    let h1 = lmod p.hash newsize in rehash_chain newsize ps (put_at newhash h1 (p ∷ newhash h1))

-- `for (i=0; i<tb->size; i++)`, from the last chain that was done back to the first.
unfoldable pub rehash : ℕ → (ℕ → List Str) → ℕ → ℕ → List Str
unfolding rehash_chain
rehash newsize hash zero = λ i. []
rehash newsize hash (suc i) = rehash_chain newsize (hash i) (rehash newsize hash i)

-- `gafqS_resize`, where the allocation succeeds
unfoldable pub resize : ℕ → StringTable → StringTable
resize newsize tb =
    if tb.sweeping
    then tb
    else record tb { chain = rehash newsize tb.chain tb.size; size = newsize }

-- One step of the hash: `h ^ ((h<<5)+(h>>2)+c)` on 32 bits.
unfoldable pub hash_step : ℕ → ℕ → ℕ
hash_step h c = bit_xor h ((h * 2 ^ 5 % 2 ^ 32 + h / 2 ^ 2 + c) % 2 ^ 32)

-- `for (l1=l; l1>=step; l1-=step)`; a step is at least 1, so that `l` rounds are enough.
unfoldable pub hash_loop : List ℕ → ℕ → ℕ → ℕ → ℕ → ℕ
unfolding hash_step
hash_loop str step zero l1 h = h
hash_loop str step (suc fuel) l1 h =
    let rest = hash_loop str step fuel (l1 - step) (hash_step h (get_or str (l1 - 1) 0)) in
    if leb step l1 then rest else h

unfoldable pub hash_of : List ℕ → ℕ
unfolding hash_loop
hash_of str = let l = length str in hash_loop str (l / 2 ^ 5 + 1) l l (l % 2 ^ 32)

-- The string of a chain with the given bytes.
unfoldable pub find : List ℕ → List Str → Option Str
unfolding same_bytes
find str [] = none
find str (ts ∷ chain) =
    let rest = find str chain in
    if length ts.text == length str && same_bytes str ts.text then some ts else rest

-- `sizeof(TString)`
abbrev pub sizeof_tstring : ℕ
sizeof_tstring = 24

-- The object and the table after `newlstr` has chained it.
abbrev pub chained : List ℕ → ℕ → StringTable → Str × StringTable
chained str h tb =
    let ts : Str = record { address = tb.fresh; text = str; hash = h } in
    let i = lmod h tb.size in
    (
      ts,
      record tb {
        chain = put_at tb.chain i (ts ∷ tb.chain i);
        nuse = (tb.nuse + 1) % 2 ^ 32;
        dead = put_at tb.dead tb.fresh false;
        fresh = tb.fresh + 1;
      },
    )

-- `if (tb->nuse > tb->size && tb->size <= MAX_INT/2) gafqS_resize(L, tb->size*2)`
unfoldable pub uncrowd : StringTable → StringTable
unfolding resize
uncrowd tb =
    if ltb tb.size tb.nuse && leb tb.size (max_int / 2) then resize (tb.size * 2) tb else tb

-- `newlstr`
unfoldable pub new_string : List ℕ → ℕ → Run MemError StringTable Str
new_string str h tb =
    if ltb (max_sizet - sizeof_tstring) (length str + 1)
    then error block_too_big
    else (let (ts, tb') = chained str h tb in ok (ts, uncrowd tb'))

-- A dead string that is asked for comes back to life.
unfoldable pub newlstr_found : List ℕ → ℕ → Option Str → Run MemError StringTable Str
unfolding new_string
newlstr_found str h (some ts) tb = ok (ts, record tb { dead = put_at tb.dead ts.address false })
newlstr_found str h none tb = new_string str h tb

-- `gafqS_newlstr`
unfoldable pub newlstr : List ℕ → Run MemError StringTable Str
newlstr str tb =
    let h = hash_of str in newlstr_found str h (find str (tb.chain (lmod h tb.size))) tb

-- ===== src/Lib.antt =====
-- gafq is an interpreter in C for a language derived from Lua 5.1. This library models parts of its
-- core, at the root of the repository, and proves what makes them correct.
--
-- The parts and how they interact. The lexer and the loader of precompiled chunks read their bytes
-- from a buffered stream over a reader that the host supplies (gzio.c). A chunk holds a tree of
-- function prototypes, written by gdump.c and read back by gundump.c, which asks the verifier of
-- gdebug.c about each prototype (the loader has it as a parameter, which Verifier/Safety fills).
-- The parser calls the code generator (gcode.c) to fill a prototype: it puts 32-bit instructions
-- (gopcodes.h) into the code, keeps the jumps whose target is not known in lists inside the code,
-- reserves registers and collects constants. Arrays grow through gmem.c, and every string is an
-- object of the string table of gstring.c, so that one text has one address.
--
-- The files. Prelude.antt has the shared names, with Prelude/Int (signed integers), Prelude/Bits
-- (binary digits), Prelude/Run (computations on a state that may fail) and Prelude/Distinct.
--   Opcodes.antt: gopcodes.h, gopcodes.c; instruction fields (set_field is SETARG_A and its kin,
--     create_abc is CREATE_ABC) and the table gafqP_opmodes.
--   Object.antt: the integer functions of gobject.c (int2fb, fb2int, log2).
--   Zio.antt: gzio.c, gzio.h; fill, lookahead, zgetc, init, read, openspace are gafqZ_fill and so on.
--   Chunk.antt: Proto of gobject.h; Chunk/Dump is gdump.c (dump_function is DumpFunction, dump is
--     gafqU_dump), Chunk/Undump is gundump.c (load_function is LoadFunction, undump is gafqU_undump),
--     Chunk/Header is gafqU_header. Chunk/Image says, independently of the code, which blocks of
--     bytes a prototype is.
--   Mem.antt: gmem.c, gmem.h (realloc is gafqM_realloc_, growaux is gafqM_growaux_).
--   Strings.antt: gstring.c (newlstr is gafqS_newlstr, resize is gafqS_resize).
--   Tables.antt: gtable.c; the array size that a rehash chooses (computesizes). Tables/Slots has reading
--     and making entries (set is gafqH_set, with none for a table that is to be rehashed),
--     Tables/Fresh gafqH_new, Tables/Traversal gafqH_next, Tables/Length gafqH_getn. Nodes are
--     positions, and a slot is what a pointer to a value points to. Tables/Linked says what a well-formed node array is.
--   Codegen.antt: gcode.c; Codegen/Jumps has the patch lists, Codegen/Emit gafqK_code and what
--     calls it, Codegen/Registers registers and constants, Codegen/Expressions expressions,
--     conditions and operators. FuncState and expdesc (gparser.h) are passed along and returned
--     where the source changes them in place.
--   Closures.antt: the upvalues of gfunc.c (findupval is gafqF_findupval, close gafqF_close). The
--     upvalues are a store by address; a block is what the allocator answers. Closures/Shared is about
--     sharing an upvalue, Closures/Closed about closing it.
--   Verifier.antt: the verifier of gdebug.c (check_instr is a round of symbexec, Verifier/Symbolic its
--     loop, gafqG_checkcode is checkcode). Verifier/Flow has the control flow of gafqV_execute (gvm.c),
--     whatever the data: the code that is accepted keeps it inside.
--
-- Sizes and fuel. Machine words are natural numbers with the wrap written out; an int has 32 bits,
-- a size_t 64, as on x86-64. gafqZ_read takes at least one byte in a round, so that as many rounds
-- as bytes are asked for are enough. LoadFunction recurs on the C calls that GAFQI_MAXCCALLS still
-- allows, the source's own limit. A loop over a patch list goes round at most as often as there are
-- instructions, since the members of a list are different positions in the code; this is proved
-- (Prelude/Distinct) where a theorem needs it. A chain of nodes has at most as many as the table,
-- which Tables/Chains proves. The search for a table's length doubles at most 32 times, and its
-- linear part takes at most one round more than the table has places, which Tables/Searches and
-- Tables/Places prove. symbexec looks at each position at most once. computesizes ends within
-- MAXBITS + 2 rounds, for which its theorem has the bound on the number of keys. The hash of a
-- string takes at most its length in steps.
--
-- Not modelled. The reader, the writer, the allocation function and the arithmetic of the C type
-- double are parameters. Allocations succeed, but for Mem.antt and the block of a new upvalue. What
-- gafqC_barrier does with the value of a closed upvalue is left to the collector. The rehash of a
-- full table is not modelled beyond its choice of sizes. Messages of errors are constructors
-- without their text. The remaining files of the repository are not modelled.
pub mod Prelude
pub mod Opcodes
pub mod Object
pub mod Zio
pub mod Chunk
pub mod Mem
pub mod Strings
pub mod Tables
pub mod Codegen
pub mod Closures
pub mod Verifier

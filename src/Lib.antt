-- ===== src/Lib.antt =====
-- The C run time of the L compiler, between a throw and its handler, and the parser generator jay.
--
-- The program. llc compiles the language L. Its programs are linked with a run time in C, of which
-- this library models the two files that have logic of their own:
--
-- - lrt-unwind.c is what the system's unwinder calls for a frame of L. __l_personality reads the
--   exception table of the frame (handleLsda) with readers for DWARF's encodings (readULEB128,
--   readSLEB128, readEncodedPointer) and answers whether the frame has a handler. The file also
--   keeps the address ranges that the garbage collector scans (__add_root).
-- - lrt-exception.c unwinds by the compiler's own tables: findUnwindInfo looks an address up in a
--   cache, then in the tables of the program and of the libraries that were loaded later;
--   unwindStack walks the frames by it, restores registers and fills a backtrace, which
--   __find_line_numbers prints; catches and findMethodHandler choose among the handlers.
-- The repository also has jay, a parser generator in C that was taken over from Berkeley Yacc and
-- writes parsers in L. Of it the library models jay/mkpar.c, the rows of actions that it builds for
-- the states of the automaton and how their conflicts are resolved, jay/symtab.c, the symbol table,
-- jay/closure.c with jay/warshall.c, the closure of a set of items, jay/lr0.c, which makes the
-- states: generate_states closes a state's items (closure), sorts the items behind each symbol into
-- kernels (new_itemsets) and finds or makes the state of each kernel (get_state), and jay/lalr.c,
-- which gives each reduction its lookahead set: it numbers the transitions on variables
-- (set_goto_map), relates them (initialize_F, build_relations), and gathers the tokens along these
-- relations (digraph, compute_lookaheads). Of jay/output.c it models how the rows of actions and the
-- columns of gotos are packed into one table (pack_table).
--
-- The files.
-- - Common, and its children: the library's names, tests on numbers, lists over the native numbers,
--   bits, and Run, the outcomes of a run of C code.
-- - Unwind.Memory: memory as bytes. Unwind.Leb: readULEB128 and readSLEB128. Unwind.Pointer:
--   readEncodedPointer. Unwind.Lsda: handleLsda and __l_personality. Unwind.Actions:
--   handleActionValue. Unwind.Roots: __find_closest_root and __add_root.
-- - Exception.Words: memory as 64-bit words. Exception.Tables: one unwind table and its two
--   searches. Exception.Registry: the list of __add_unwind_info. Exception.Cache:
--   findCachedUnwindInfo and findUnwindInfo. Exception.Classes: the class tables and catches.
--   Exception.Handlers: nextExRecord and findMethodHandler. Exception.Lines: findLineNumber.
--   Exception.Frames: unwindFrame and unwindStack.
-- - Jay.Mkpar: parse_actions, remove_conflicts, sole_reduction and unused_rules.
--   Jay.Bits: the bit vectors of jay/defs.h. Jay.Warshall: transitive_closure. Jay.Grammar: the
--   tables of a grammar and set_derives. Jay.Closure: set_EFF, set_first_derives and closure.
--   Jay.Nullable: set_nullable. Jay.Lr0: allocate_itemsets, new_itemsets and get_state.
--   Jay.Pack: pack_grammar of jay/reader.c, which makes the tables of a grammar.
--   Jay.Automaton: append_states, save_shifts, save_reductions and generate_states.
--   Jay.Digraph: digraph and traverse of jay/lalr.c. Jay.Gotos: set_goto_map and map_goto.
--   Jay.Reads: initialize_LA and initialize_F. Jay.Relations: build_relations and transpose.
--   Jay.Lalr: compute_FOLLOWS, compute_lookaheads and lalr; below it, Read and Direct have what
--   initialize_F relates, Includes to Built what build_relations does.
--   Jay.Vectors: sort_actions, matching_vector, pack_vector and pack_table of jay/output.c.
--   Jay.Symtab: hash, make_bucket, lookup and create_symbol_table.
-- - Tests: the theorems on concrete input.
-- The modules below one of these hold its proofs, and the descriptions that they compare it with.
--
-- The model. A function of the code is a function of its name, in snake case, which takes the
-- memory that it reads and the globals that it uses, and returns those that it changes. Addresses
-- and 64-bit numbers are native numbers with the wrap-around written out; an `int` keeps its 32
-- bits. A null pointer is 0 or `none`. Reading memory that is not mapped and undefined behaviour
-- are `fault`, and abort is `abort`. What is printed for debugging is left out. jay keeps most
-- numbers as shorts and seldom checks that they fit. The model keeps the 16 bits of an item's number
-- (new_itemsets), and faults where an entry of rrhs (pack_grammar), infinity (digraph), a vector's
-- number (sort_actions) or a count of edges (transpose) does not fit: C leaves the conversion to the
-- implementation, and the last of them makes the code write where there is no list. The theorems
-- about these passes have the bounds as hypotheses. The record that ends an unwind table is taken to
-- be all zeros.
--
-- Fuel. Only loops without a bound of their own take fuel, and `stuck` is what runs out of it.
-- The readers have six rounds, since the sixth byte's shift is undefined; a call-site table takes
-- its length in bytes, since each site takes a byte; a binary search takes the table's length, since
-- each round leaves out a record; unwindStack, catches and findMethodHandler take the length of the
-- chain that they follow as an argument, since nothing but the chain bounds them. set_nullable takes
-- nsyms + 1 rounds, since each but the last one flags a symbol; generate_states takes MAXSHORT + 2,
-- since each round is a state and the code makes no more than MAXSHORT. traverse takes ngotos + 1
-- levels, since each call marks a goto; map_goto takes the length of its span and 2; the walk along
-- a right side in build_relations takes nitems + 1, since ritem has no more entries. pack_vector
-- takes a round for each place below the greatest table, since a higher one ends the program.
--
-- Not modelled: the compiler, which is written in L; LLVM's bindings; calls of the collector, of
-- threads, signals and the demanglers; x86/lrt/exception-old.c, an older version of lrt-exception.c;
-- the other passes of jay: the reader but pack_grammar, and of output.c how the vectors are collected
-- and what is printed. The functions of mkpar.c take the tables of the passes before them as a
-- record.
-- The unwinder's routines are arguments and recorded calls.
pub mod Common
pub mod Unwind
pub mod Exception
pub mod Jay
mod Tests

-- ===== src/Lib.antt =====
-- Verification of parts of gmqcc, the compiler of the QuakeC language, and of qcvm, the virtual
-- machine that runs what it compiles.
--
-- The compiler turns a program into an intermediate representation (ir.cpp, ir.h), in which each
-- value of a function has life ranges, the places where it is in use. The allocator puts values that
-- are in use at different times in the same slot of the globals. The statements and the
-- strings of the program go to the vectors that code.cpp keeps. The virtual machine (exec.cpp, with
-- its types in gmqcc.h) runs statements on those globals, with a pool of entities, a table of strings
-- and a stack of calls.
--
-- Ir models the life ranges and the allocator of ir.cpp:
--   Ir/Life: `ir_value::lives`, `setAlive`, `mergeLife` and `ir_values_overlap`, on lists of ranges
--     in the place of the vector `m_life`. Each loop over the vector is a recursion on its rest. Its
--     modules Ranges, Alive, Merge and Overlap relate them to the set of places of a value.
--   Ir/Allocator: `function_allocator_alloc`, `ir_function_allocator_assign` and
--     `ir_function_allocate_locals`. Slots keeps the slots and their values in step, Plan and Allocate
--     follow the passes of the allocation, Positions and Disjoint are about the storage.
--   Ir/Propagate: `ir_block_life_propagate` over the values of a function, as a client of `setAlive`. A
--     pointer to a value is its number. Grown has what a pass may change, Places where values live,
--     Rounds the walk of `ir_function_calculate_liferanges` over the blocks of a function.
--
-- Vm models exec.cpp. A machine word is the natural number of its 32 bits, and a signed test
-- is a test of the top bit. A definition that reads or writes outside of a vector returns none, where
-- the code has no defined behaviour.
--   Vm/State: `qc_program`, its frames, functions and statements.
--   Vm/Words: reads and writes of words and of blocks of words.
--   Vm/Entities: `prog_getedict`, `prog_spawn_entity`, `prog_free_entity`.
--   Vm/Strings: `prog_getstring` and `prog_tempstring`.
--   Vm/Frames: `prog_enterfunction` and `prog_leavefunction`.
--   Vm/Opcodes, Vm/Step, Vm/Access, Vm/Control: the instructions. Access has those that touch
--     entities, Control those that choose the next statement.
--   Vm/Exec: the switch, the loop and `prog_exec`. Its modules follow a turn (Effect,
--     Handlers, Access, Turn) and the loop (Ends, Program).
--   Vm/Samples: data for runs.
-- The float operations of the machine are the parameter `Floats`, on the bits of floats, and the
-- functions of `prog->builtins` are the parameter `Builtins`.
--
-- Table models the hash table of stat.cpp with the hash of util.cpp, on bins that are lists of nodes.
-- A value is a pointer as a number, with 0 for the null pointer.
--   Table: `util_htnew`, `util_htseth`, `util_htset`, `util_htgeth`, `util_htget`,
--     `util_htrmh`, `util_htrm`, `code_util_str_htgeth` and `hash`. Compare has the order of `strcmp`,
--     Lookup and Removal are about insertions and removals.
--
-- Code models code.cpp, through which the compiler puts out statements and strings.
--   Code/Statements: `code_push_statement` and `code_pop_statement`. Sorted compares the statement that
--     is pushed with the given one on the machine of Vm, Stack has the order of the vectors.
--   Code/Strings: `code_genstring` and its part of the constructor of `code_t`, over Table. Suffix has
--     what a bin finds, Stored what is entered, Entered the whole.
--   Code/Files: `code_create_header`, `code_size_generic` and the bytes that `code_write` writes for the
--     program, on a machine with the low byte first. Layout has the places of the sections.
--
-- Utf8 models utf8.cpp: `utf8_from` and `utf8_to`, with the words of 32 bits written out. Lengths goes
-- through all code points of an encoded length.
--
-- Sfloat models the software float of fold.cpp, on words of 32 bits with 16 bits for an exponent:
--   Sfloat: rounding, packing and the macros. Sfloat/Arith: `sfloat_add` to `sfloat_neg`.
--   Rounding and Shift are about the macros, Product, Normalize and Subnormal about the operations, the
--   last two with subnormal operands.
--
-- Fold models the rest of fold.cpp, less the intrinsics. The float operations of the machine that
-- compiles are the parameter `Arithmetic`, whose part `Floats` is the one of Vm.
--   Fold: `ast_value`, the tables of constants, `constgen_float`, `constgen_vector`,
--     `constgen_string` and the constructor.
--   Fold/Vectors, Fold/Except: the functions on vectors, the reports of exceptions.
--   Fold/Operators, Fold/Logic: the functions `op_*`. Fold/Select: `fold::op`, `fold::cond`,
--     `fold::superfluous` and `fold::binary`.
--   Pool, Reports, Kept, Tables, Initial and Intern follow the tables; Given, Machine, Branch, Elision and
--     Peephole compare what is folded with the instructions of Vm.
--
-- Lexer models lexer.cpp and the types of lexer.h. The state is `lex_file`, an explicit argument and
-- result; `int` characters are the numbers of their 32 bits, with EOF as 2^32 - 1. A write behind the
-- 256 elements of `peek` is the result `overrun`.
--   Lexer: the state, `lex_getch`, `lex_ungetch`, trigraphs and digraphs, `lex_open`,
--     `lex_open_string`. Lexer/Reads, Whole and Restored compare what is read with a translation of the
--     whole text.
--   Lexer/Chars: classes of characters, the token's buffer, the options and the functions of the C
--     library that the lexer uses (the parameter `Config`).
--   Lexer/Pragma, White, Frames, Strings, Digits: `lex_try_pragma`, `lex_skipwhite`,
--     `lex_finish_frames`, `lex_finish_string`, `lex_finish_digit`.
--   Lexer/Command, Operators, Words, Turn: the parts of `lex_do`, and `lex_do`.
--   Lexer/Bounds: what is left of a file and how many characters are put back, through all of these
--     for the preprocessor, which reads files with the flag `preprocessing`.
-- Where the preprocessor reads, the loops of the lexer need as much fuel as there are characters left,
-- and two more.
--
-- The loop of `prog_exec` has fuel for its turns. On code without calls a jump is taken at most
-- 10000000 times, and between two jumps there are at most as many turns as statements, so
-- (10000000 + 1) * (n + 2) + (n + 1) turns are enough for n statements. With calls nothing in
-- the code bounds the turns.
--
-- Not modelled are the parser, the syntax tree, the preprocessor, the folding of intrinsics, the
-- repetition of the walk over a function's blocks until it reports no change, the creation and the
-- output of the instructions of the intermediate representation, and what only reads or writes
-- files or prints (the loading of programs, the file of line numbers, profiles and traces).
pub mod Prelude
pub mod Ir
pub mod Vm
pub mod Table
pub mod Code
pub mod Utf8
pub mod Sfloat
pub mod Fold
pub mod Lexer

-- ===== src/Code/Tests.antt =====
-- Runs of the output of code.
use gmqcc.Prelude.{
  ℕ, ◌≡◌, refl, true, false, List, [], ◌∷◌, none, some, arith, length, length-replicate, drop,
}
use gmqcc.Vm.Samples.{words, no_builtins, statement, some_vm}
use gmqcc.Vm.Strings.{c_string}
use gmqcc.Vm.Step.{Machine, put_c}
use gmqcc.Table.{Node}
use gmqcc.Code.Statements.{
  typeless, pair_of, swap_pair, sorted_statement, Flags, Context, Statements, rewrite_statement,
}
use gmqcc.Code.Statements.Sorted.{turn_at, rewrite_statement-turn_at, sorted_add_f}
use gmqcc.Code.Strings.{Strings, genstring, new_strings}
use gmqcc.Code.Strings.Stored.{IsTable, Extends}
use gmqcc.Code.Strings.Entered.{
  fresh_strings, fresh_strings-IsTable, genstring-IsStored, new_strings-IsTable,
}
use gmqcc.Code.Files.{
  Program, FileOptions, bytes, statement_bytes, def_bytes, function_bytes, section_bytes,
  header_bytes, each_bytes, file_bytes, code_create_header, code_size, code_write,
}
use gmqcc.Code.Files.Layout.{section_at, code_write-section_at}

abbrev both_flags : Flags
both_flags = record { typeless_stores = true; sort_operands = true }

abbrev sort_only : Flags
sort_only = record { typeless_stores = false; sort_operands = true }

-- A comparison with its operands swapped, and a store without its type.
rewrite_statement_runs :
    (rewrite_statement both_flags (statement 22 4 9 1) ≡ statement 23 9 4 1)
    × (rewrite_statement both_flags (statement 33 4 9 1) ≡ statement 31 4 9 1)
unfolding rewrite_statement typeless sorted_statement pair_of swap_pair
rewrite_statement_runs = (refl, refl)

abbrev some_machine : Machine
some_machine = record { vm = some_vm; pc = 0; jumps = 0 }

rewrite_statement-turn_at_example :
    turn_at words no_builtins 100 some_machine (rewrite_statement both_flags (statement 22 4 9 1))
    ≡ turn_at words no_builtins 100 some_machine (statement 22 4 9 1)
rewrite_statement-turn_at_example =
    rewrite_statement-turn_at words no_builtins 100 some_machine both_flags (statement 22 4 9 1)
      refl

sorted_add_f_example :
    (turn_at words no_builtins 100 some_machine (statement 6 4 9 1)
      ≡ put_c some_machine (statement 6 4 9 1) 35)
    × (turn_at words no_builtins 100 some_machine (rewrite_statement sort_only (statement 6 4 9 1))
        ≡ put_c some_machine (statement 6 4 9 1) 60)
sorted_add_f_example =
    sorted_add_f words no_builtins 100 some_machine (statement 6 4 9 1) 5 30 refl (omega arith) refl
      refl

abbrev some_code : Statements
some_code = record { statements = statement 0 0 0 0 ∷ []; linenums = 0 ∷ []; columnnums = 0 ∷ [] }

abbrev some_context : Context
some_context = record { line = 3; column = 14 }

new_strings-IsTable_example : (code : Strings) × (new_strings true ≡ some code) × IsTable true code
new_strings-IsTable_example = new_strings-IsTable true

abbrev some_strings : Strings
some_strings = fresh_strings 256

-- "ab" and then its end "b", which is the same place one further on.
abbrev ab : List ℕ
ab = b'a' ∷ b'b' ∷ []

some_strings-IsTable : IsTable true some_strings
some_strings-IsTable = fresh_strings-IsTable true 256 (length-replicate {A = List Node} 256 [])

genstring-IsStored_example :
    (at : ℕ) × (code' : Strings) × (genstring true (some ab) some_strings ≡ some (at, code'))
    × (c_string (drop at code'.chars) ≡ some ab)
    × IsTable true code'
    × Extends (0 ∷ []) code'.chars
genstring-IsStored_example =
    genstring-IsStored true ab some_strings some_strings-IsTable (omega arith) (omega arith)
      (omega arith)

-- A program with two globals and one string.
abbrev some_program : Program
some_program = record {
  statements = statement 6 4 5 6 ∷ [];
  defs = record { type = 2; offset = 28; name = 1 } ∷ [];
  fields = [];
  functions = [];
  globals = 7 ∷ 0x3F80_0000 ∷ [];
  chars = 0 ∷ b'a' ∷ 0 ∷ [];
  crc = 5927;
  entfields = 3;
}

abbrev with_bug : FileOptions
with_bug = record { forced_crc = none; string_table_bug = true }

code_write-section_at_example :
    (length (code_write with_bug some_program)
      ≡ code_size (code_create_header with_bug some_program).1)
    × (section_at 8
          (code_create_header with_bug some_program).0.statements
          (code_write with_bug some_program)
        ≡ each_bytes statement_bytes some_program.statements)
    × (section_at 8
          (code_create_header with_bug some_program).0.defs
          (code_write with_bug some_program)
        ≡ each_bytes def_bytes some_program.defs)
    × (section_at 8
          (code_create_header with_bug some_program).0.fields
          (code_write with_bug some_program)
        ≡ each_bytes def_bytes some_program.fields)
    × (section_at 36
          (code_create_header with_bug some_program).0.functions
          (code_write with_bug some_program)
        ≡ each_bytes function_bytes some_program.functions)
    × (section_at 4
          (code_create_header with_bug some_program).0.globals
          (code_write with_bug some_program)
        ≡ each_bytes (bytes 4) some_program.globals)
    × (section_at 1
          (code_create_header with_bug some_program).0.strings
          (code_write with_bug some_program)
        ≡ each_bytes (bytes 1) some_program.chars)
unfolding code_size
code_write-section_at_example = code_write-section_at with_bug some_program (omega arith)

-- The end of the file, and its length.
code_write_run :
    (drop 76 (code_write with_bug some_program)
      ≡ 7 ∷ 0 ∷ 0 ∷ 0 ∷ 0 ∷ 0 ∷ 128 ∷ 63 ∷ 0 ∷ b'a' ∷ 0 ∷ 0 ∷ 0 ∷ 0 ∷ [])
    × (length (code_write with_bug some_program) ≡ 90)
unfolding code_write code_create_header file_bytes header_bytes section_bytes statement_bytes
    def_bytes function_bytes each_bytes bytes
code_write_run = (refl, refl)

-- ===== src/Vm/Samples.antt =====
-- Data for runs of the virtual machine: a program, its functions and its state.
use gmqcc.Prelude.{
  ℕ, ◌+◌, ◌*◌, ◌%◌, ◌^◌, true, false, List, [], ◌∷◌, none, replicate, ltb, leb, ◌==◌,
}
use gmqcc.Vm.State.{Vm, Statement, Function}
use gmqcc.Vm.Step.{Floats, Builtins}

-- Arithmetic on words, in the place of that on floats.
abbrev pub words : Floats
words = record {
  add = λ a b. (a + b) % 2 ^ 32;
  sub = λ a b. a;
  mul = λ a b. a * b % 2 ^ 32;
  div = λ a b. a;
  eq = λ a b. a == b;
  lt = λ a b. ltb a b;
  le = λ a b. leb a b;
  plus_tenth = λ a. a;
  of_int = λ a. a;
  to_int = λ a. a;
}

abbrev pub no_builtins : Builtins
no_builtins n = none

abbrev pub statement : ℕ → ℕ → ℕ → ℕ → Statement
statement op a b c = record { opcode = op; o1 = a; o2 = b; o3 = c }

-- Adds the local vector at 31 to itself, and returns it from 31.
abbrev pub some_code : List Statement
some_code = statement 7 31 31 31 ∷ statement 43 31 0 0 ∷ []

abbrev pub some_function : Function
some_function = record { entry = 0; first_local = 30; locals = 4; argsizes = 1 ∷ 3 ∷ [] }

-- Two entities of three fields, of which the second is not in use.
abbrev pub some_vm : Vm
some_vm = record {
  code = some_code;
  fields = 0 ∷ 1 ∷ 2 ∷ [];
  functions = some_function ∷ [];
  strings = b'a' ∷ 0 ∷ 7 ∷ 7 ∷ 7 ∷ 7 ∷ [];
  globals = 0 ∷ 0 ∷ 0 ∷ 0 ∷ 5 ∷ 0 ∷ 0 ∷ 10 ∷ 20 ∷ 30 ∷ replicate 30 1;
  entitydata = 0 ∷ 0 ∷ 0 ∷ 8 ∷ 8 ∷ 8 ∷ [];
  entitypool = true ∷ false ∷ [];
  tempstring_start = 2;
  tempstring_at = 5;
  vmerror = 0;
  entities = 2;
  entityfields = 3;
  allowworldwrites = false;
  localstack = [];
  stack = [];
  statement = 9;
  argc = 0;
  supports_state = false;
  field_frame = 0;
  field_nextthink = 0;
  field_think = 0;
  global_self = 0;
  global_time = 0;
}

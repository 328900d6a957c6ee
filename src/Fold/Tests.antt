-- ===== src/Fold/Tests.antt =====
-- Runs of the folding of constants.
use gmqcc.Prelude.{
  ℕ, ◌+◌, ◌%◌, ◌^◌, ◌≡◌, refl, ◌⊎◌, Bool, true, false, not, ◌&&◌, [], ◌∷◌, ◌++◌, none, some, ltb,
  leb, ◌==◌, if◌then◌else◌, arith, replicate,
}
use gmqcc.Sfloat.{isnan, issnan, shift, pack, clz, propagate_nan, pack_round, pack_normal}
use gmqcc.Sfloat.Arith.{sfloat_add, sfloat_sub, sfloat_mul, sfloat_div, sfloat_neg}
use gmqcc.Table.{HashTable}
use gmqcc.Vm.Samples.{words, no_builtins, statement, some_vm}
use gmqcc.Vm.Opcodes.{instr_add_f, instr_mul_f, instr_mul_v}
use gmqcc.Vm.Step.{Floats, Machine, put_c, is_true}
use gmqcc.Vm.Exec.{execute}
use gmqcc.Fold.{
  arithmetic, division_by_zero, constgen_float, constgen_vector, find_vector, AstValue, Options,
  Folder, ValueType, type_float, type_vector, named, float_value, vector_value, immvalue_float,
  fold_can_1, constgen_string, new_fold,
}
use gmqcc.Fold.Vectors.{Arithmetic, one, two}
use gmqcc.Fold.Except.{
  initial, check_except_float, sfloat_check, check, check_all, vec3_check_except, faulty,
  vec3_soft_exception,
}
use gmqcc.Fold.Operators.{
  operand, binary_node, member_node, op_add, op_mul, mul_vector, mul_components, op_mul_vec,
  checked_float, float_of, vector_of,
}
use gmqcc.Fold.Logic.{op_div}
use gmqcc.Fold.Select.{OperInfo, op, op_id_mul, fold_op_case, op_id_add, op_id_div, cond, binary}
use gmqcc.Fold.Pool.{first_floats, IsPool, Extends}
use gmqcc.Fold.Tables.{op-Extends}
use gmqcc.Fold.Given.{instruction}
use gmqcc.Fold.Machine.{op-execute}
use gmqcc.Fold.Branch.{cond-is_true}
use gmqcc.Fold.Peephole.{mul_v_ones}
use gmqcc.Fold.Elision.{HasUnits, eval, binary-value}
use gmqcc.Fold.Intern.{IsInterned, constgen_string_again}
use gmqcc.Fold.Initial.{new_fold-IsPool}

-- The software float in the place of the machine's.
soft_eq : ℕ → ℕ → Bool
unfolding isnan
soft_eq a b = if b % 2 ^ 31 == 0 then a % 2 ^ 31 == 0 else not (isnan b) && a == b

soft : Arithmetic
unfolding sfloat_add sfloat_sub sfloat_mul sfloat_div soft_eq
soft = record {
  floats = record {
    add = λ a b. (sfloat_add initial a b).1;
    sub = λ a b. (sfloat_sub initial a b).1;
    mul = λ a b. (sfloat_mul initial a b).1;
    div = λ a b. (sfloat_div initial a b).1;
    eq = soft_eq;
    lt = λ a b. ltb a b;
    le = λ a b. leb a b;
    plus_tenth = λ a. a;
    of_int = λ a. a;
    to_int = λ a. a;
  };
  negate = λ a. (a + 2 ^ 31) % 2 ^ 32;
  of_size = λ a. a;
  fmod = λ a b. a;
  powf = λ a b. a;
  floorf = λ a. a;
}

abbrev defaults : Options
defaults = record {
  arithmetic_exceptions = true;
  warn_inexact_compares = false;
  correct_logic = false;
  true_empty_strings = false;
  perl_logic = false;
  const_fold_dce = true;
  vector_components = true;
}

abbrev adding : OperInfo
adding = record { id = op_id_add; operands = 2; folds = true }

new_fold-IsPool_example :
    (f : Folder) × (new_fold words ≡ some f) × IsPool f × ((t : Bool) → IsInterned t f)
new_fold-IsPool_example = new_fold-IsPool words

-- A state of the folding, with what is known of it.
some_tables : (f : Folder) × (new_fold words ≡ some f) × IsPool f × ((t : Bool) → IsInterned t f)
some_tables = new_fold-IsPool words

abbrev some_folder : Folder
some_folder = some_tables.0

op-Extends_example :
    Extends some_folder
      (op soft defaults adding
        (some (float_value one false))
        (some (float_value two false))
        none
        some_folder).0
op-Extends_example =
    op-Extends soft defaults adding (some (float_value one false)) (some (float_value two false))
      none some_folder some_tables.2

-- The globals 4 and 5 hold 1 and 2.
abbrev two_floats : Machine
two_floats = record {
  vm = record some_vm { globals = 0 ∷ 0 ∷ 0 ∷ 0 ∷ one ∷ two ∷ replicate 30 1 };
  pc = 0;
  jumps = 0;
}

soft-zero : (w : ℕ) → soft.floats.eq w 0 ≡ (w % 2 ^ 31 == 0)
unfolding soft soft_eq
soft-zero w = refl

op-execute_example :
    (f' : Folder) × (v : AstValue) × (op soft defaults adding
        (some (float_value one false))
        (some (float_value two false))
        none
        some_folder
      ≡ (f', some (operand v)))
    × (v.vtype ≡ type_float)
    × (fold_can_1 v ≡ true)
    × (execute soft.floats no_builtins 100 instr_add_f two_floats (statement 6 4 5 6)
        ≡ put_c two_floats (statement 6 4 5 6) (immvalue_float v))
unfolding instruction
op-execute_example =
    op-execute soft defaults some_folder (float_value one false) (float_value two false) op_id_add
      instr_add_f no_builtins 100 two_floats (statement 6 4 5 6) soft-zero some_tables.2 refl refl
      refl refl refl (λ e. absurd (cc e)) refl refl

cond-is_true_example :
    ((cond soft.floats defaults
        (float_value two false)
        (record { on_true = true; on_false = true })).on_true
      ≡ (is_true two && true))
    × ((cond soft.floats defaults
          (float_value two false)
          (record { on_true = true; on_false = true })).on_false
        ≡ (not (is_true two) && true))
cond-is_true_example =
    cond-is_true soft.floats defaults (float_value two false)
      (record { on_true = true; on_false = true }) soft-zero refl refl refl

-- A variable of the type.
abbrev variable : ValueType → AstValue
variable t = record (float_value 0 false) {
  name = named 1;
  vtype = t;
  is_const = false;
  hasvalue = false;
}

mul_v_ones_example :
    ((op_mul soft defaults (variable type_vector) (vector_value (one, one, one)) some_folder).1
      ≡ none)
    × (binary soft.floats instr_mul_v (variable type_vector) (vector_value (one, one, one))
        ≡ operand (variable type_vector))
unfolding soft soft_eq isnan
mul_v_ones_example =
    mul_v_ones soft defaults some_folder (variable type_vector) (vector_value (one, one, one)) refl
      refl refl refl refl refl refl

-- Arithmetic in which 0 and 1 change nothing.
abbrev units : Floats
units = record words {
  add = λ a b. if b == 0 then a else if a == 0 then b else one;
  sub = λ a b. if b == 0 then a else one;
  mul = λ a b. if b == one then a else if a == one then b else two;
  div = λ a b. if b == one then a else two;
}

units-HasUnits : HasUnits units
units-HasUnits = record {
  one_nonzero = λ w h. ground arith;
  mul_one = λ v w h k. ground arith;
  one_mul = λ v w h k. ground arith;
  div_one = λ v w h k. ground arith;
  add_zero = λ v w h k. ground arith;
  zero_add = λ v w h k. ground arith;
  sub_zero = λ v w h k. ground arith;
}

-- A multiplication of a variable by 1.
binary-value_example :
    (w : ℕ) × (eval units immvalue_float
        (binary units instr_mul_f (variable type_float) (float_value one false))
      ≡ some w)
    × ((w ≡ units.mul 0 one) ⊎ (units.eq w (units.mul 0 one) ≡ true))
binary-value_example =
    binary-value units units-HasUnits immvalue_float (λ v h. refl) (variable type_float)
      (float_value one false) refl refl instr_mul_f units.mul refl

constgen_string_again_example :
    (f' : Folder) × (v : AstValue) × (constgen_string (b'a' ∷ []) true some_folder ≡ some (f', v))
    × (v.vstring ≡ some (b'a' ∷ []))
    × IsInterned true f'
    × (constgen_string (b'a' ∷ []) true f' ≡ some (f', v))
constgen_string_again_example =
    constgen_string_again (b'a' ∷ []) true some_folder (some_tables.3 true)

abbrev empty_table : HashTable
empty_table = record { size = 1; table = [] ∷ [] }

abbrev first_tables : Folder
first_tables = record {
  imm_float = first_floats;
  imm_vector = [];
  imm_string = [];
  untranslate = empty_table;
  dotranslated = empty_table;
  translated = 0;
  diagnostics = [];
  count_const_fold = 0;
  count_vector_components = 0;
}

fold_program : Unit {0}
unfolding soft soft_eq isnan issnan shift pack clz propagate_nan pack_round pack_normal sfloat_add
    sfloat_sub sfloat_mul sfloat_div sfloat_neg op fold_op_case op_add op_div op_mul mul_vector
    mul_components op_mul_vec checked_float float_of vector_of constgen_float constgen_vector
    find_vector check_except_float sfloat_check check check_all vec3_check_except faulty
    vec3_soft_exception
fold_program = tt

abbrev dividing : OperInfo
dividing = record { id = op_id_div; operands = 2; folds = true }

abbrev multiplying : OperInfo
multiplying = record { id = op_id_mul; operands = 2; folds = true }

-- 1 + 2, 1 / 0, '2 0 0' * v, and '1 2 1' + '1 1 1'.
fold_runs :
    (op soft defaults adding
        (some (float_value one false))
        (some (float_value two false))
        none
        first_tables
      ≡ (
        record first_tables {
          imm_float = first_floats ++ (float_value 0x40400000 false ∷ []);
          count_const_fold = 1;
        },
        some (operand (float_value 0x40400000 false)),
      ))
    × ((op soft defaults dividing
          (some (float_value one false))
          (some (float_value 0 false))
          none
          first_tables).0.diagnostics
        ≡ arithmetic division_by_zero none ∷ [])
    × ((op soft defaults multiplying
          (some (vector_value (two, 0, 0)))
          (some (variable type_vector))
          none
          first_tables).1
        ≡ some (
            binary_node instr_mul_f
              (operand (float_value two false))
              (member_node (variable type_vector) 0)))
    × ((op soft defaults adding
          (some (vector_value (one, two, one)))
          (some (vector_value (one, one, one)))
          none
          first_tables).1
        ≡ some (operand (vector_value (two, 0x40400000, two))))
unfolding fold_program
fold_runs = (refl, refl, refl, refl)

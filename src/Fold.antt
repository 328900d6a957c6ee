-- ===== src/Fold.antt =====
-- The constants of fold.cpp: the values that the compiler knows while it parses, the tables in which
-- each of them is entered once, and the state of the folding. An operand is a record with the fields
-- of `ast_value` that the folding reads; `is_value` says whether the expression is an `ast_value`.
pub mod Vectors
pub mod Except
pub mod Operators
pub mod Logic
pub mod Select
pub mod Pool
pub mod Reports
pub mod Kept
pub mod Tables
pub mod Given
pub mod Machine
pub mod Branch
pub mod Peephole
pub mod Elision
pub mod Intern
pub mod Initial
mod Tests
use gmqcc.Prelude.{
  ℕ, suc, ◌+◌, ◌-◌, Bool, true, false, not, ◌&&◌, ◌||◌, List, [], ◌∷◌, ◌++◌, Option, none, some,
  ◌==◌, if◌then◌else◌, length, get_elem?,
}
use gmqcc.Table.{HashTable, hthash, htseth, htgeth, htnew}
use gmqcc.Vm.Opcodes.{Opcode}
use gmqcc.Vm.Words.{◌>>=◌}
use gmqcc.Vm.Step.{Floats}
use gmqcc.Vm.Exec.{same_vector}

-- The types of gmqcc.h.
pub data ValueType : Type 0 where
  type_void type_string type_float type_vector type_entity type_field type_function type_pointer
        type_integer type_variant type_struct type_union type_array type_nil type_noexpr :
      ValueType

abbrev pub is_float : ValueType → Bool
is_float type_float = true
is_float other = false

abbrev pub is_vector : ValueType → Bool
is_vector type_vector = true
is_vector other = false

abbrev pub is_string : ValueType → Bool
is_string type_string = true
is_string other = false

abbrev pub is_array : ValueType → Bool
is_array type_array = true
is_array other = false

abbrev pub is_function : ValueType → Bool
is_function type_function = true
is_function other = false

-- `m_name`: that of an immediate, of a string to be translated, or another one.
pub data Name : Type 0 where
  immediate : Name
  dotranslate named : ℕ → Name

-- The words of a float are the first of `vvec`, as in the union `m_constval`. `pointer` is its
-- number or address for the other types, and `elements` the length of `m_initlist`.
pub record AstValue : Type 0 where
  pub name : Name
  pub is_value : Bool
  pub vtype : ValueType
  pub is_const : Bool
  pub hasvalue : Bool
  pub inexact : Bool
  pub isimm : Bool
  pub include_def : Bool
  pub vvec : ℕ × ℕ × ℕ
  pub vstring : Option (List ℕ)
  pub pointer : ℕ
  pub elements : ℕ

abbrev pub immvalue_float : AstValue → ℕ
immvalue_float v = v.vvec.0

abbrev pub immvalue_vector : AstValue → ℕ × ℕ × ℕ
immvalue_vector v = v.vvec

abbrev pub fold_can_1 : AstValue → Bool
fold_can_1 v = v.is_value && v.hasvalue && v.is_const && not (is_function v.vtype)

abbrev pub fold_can_2 : AstValue → AstValue → Bool
fold_can_2 a b = fold_can_1 a && fold_can_1 b

-- The flags, warnings and optimisations that the folding asks for.
pub record Options : Type 0 where
  pub arithmetic_exceptions : Bool
  pub warn_inexact_compares : Bool
  pub correct_logic : Bool
  pub true_empty_strings : Bool
  pub perl_logic : Bool
  pub const_fold_dce : Bool
  pub vector_components : Bool

pub data Component : Type 0 where
  comp_x comp_y comp_z : Component

pub data Fault : Type 0 where
  division_by_zero undefined_inf overflow underflow : Fault

-- What the compiler reports.
pub data Diagnostic : Type 0 where
  arithmetic : Fault → Option Component → Diagnostic
  inexact_comparison immediate_true_on_invalid_type no_operands unsupported_operator : Diagnostic

-- The class `fold`, the counter `translated` of the parser, the reports so far, the last one first,
-- and the counters of `opts_optimizationcount`.
pub record Folder : Type 0 where
  pub imm_float : List AstValue
  pub imm_vector : List AstValue
  pub imm_string : List AstValue
  pub untranslate : HashTable
  pub dotranslated : HashTable
  pub translated : ℕ
  pub diagnostics : List Diagnostic
  pub count_const_fold : ℕ
  pub count_vector_components : ℕ

abbrev pub report : Diagnostic → Folder → Folder
report d f = record f { diagnostics = d ∷ f.diagnostics }

abbrev pub new_value : Name → ValueType → AstValue
new_value name vtype = record {
  name = name;
  is_value = true;
  vtype = vtype;
  is_const = true;
  hasvalue = true;
  inexact = false;
  isimm = false;
  include_def = false;
  vvec = (0, 0, 0);
  vstring = none;
  pointer = 0;
  elements = 0;
}

-- The first value of the table with the same bits.
unfoldable pub find_float : ℕ → List AstValue → Option AstValue
find_float value [] = none
find_float value (v ∷ vs) =
    let rest = find_float value vs in if immvalue_float v == value then some v else rest

abbrev pub float_value : ℕ → Bool → AstValue
float_value value inexact = record (new_value immediate type_float) {
  inexact = inexact;
  vvec = (value, 0, 0);
}

abbrev pub enter_float : Option AstValue → ℕ → Bool → Folder → Folder × AstValue
enter_float (some v) value inexact f = (f, v)
enter_float none value inexact f =
    let out = float_value value inexact in (record f { imm_float = f.imm_float ++ (out ∷ []) }, out)

unfoldable pub constgen_float : ℕ → Bool → Folder → Folder × AstValue
unfolding find_float
constgen_float value inexact f = enter_float (find_float value f.imm_float) value inexact f

-- The first value of the table whose components compare equal.
unfoldable pub find_vector : Floats → ℕ × ℕ × ℕ → List AstValue → Option AstValue
find_vector fl value [] = none
find_vector fl value (v ∷ vs) =
    let rest = find_vector fl value vs in
    if same_vector fl (immvalue_vector v) value then some v else rest

abbrev pub vector_value : ℕ × ℕ × ℕ → AstValue
vector_value value = record (new_value immediate type_vector) { vvec = value }

abbrev pub enter_vector : Option AstValue → ℕ × ℕ × ℕ → Folder → Folder × AstValue
enter_vector (some v) value f = (f, v)
enter_vector none value f =
    let out = vector_value value in (record f { imm_vector = f.imm_vector ++ (out ∷ []) }, out)

unfoldable pub constgen_vector : Floats → ℕ × ℕ × ℕ → Folder → Folder × AstValue
unfolding find_vector
constgen_vector fl value f = enter_vector (find_vector fl value f.imm_vector) value f

-- The value of a pointer in one of the tables of strings, its place in `imm_string` and 1 more.
abbrev pub entered_string : ℕ → Folder → Option (Folder × AstValue)
entered_string found f = do v ← get_elem? f.imm_string (found - 1); some (f, v)

abbrev pub string_value : Name → List ℕ → Bool → AstValue
string_value name str translate = record (new_value name type_string) {
  isimm = true;
  include_def = translate;
  vstring = some str;
}

abbrev pub string_table : Bool → Folder → HashTable
string_table translate f = if translate then f.untranslate else f.dotranslated

abbrev pub with_table : Bool → HashTable → Folder → Folder
with_table true ht f = record f { untranslate = ht; translated = suc f.translated }
with_table false ht f = record f { dotranslated = ht }

abbrev pub with_string : Bool → HashTable → AstValue → Folder → Folder
with_string translate ht out f = record (with_table translate ht f) {
  imm_string = f.imm_string ++ (out ∷ []);
}

abbrev pub string_name : Bool → ℕ → Name
string_name translate n = if translate then dotranslate n else immediate

unfoldable pub constgen_string : List ℕ → Bool → Folder → Option (Folder × AstValue)
unfolding htgeth htseth hthash
constgen_string str translate f = do
  let table = string_table translate f
  let hash = hthash table str
  let out = string_value (string_name translate f.translated) str translate
  found ← htgeth table str hash
  if found == 0
      then (do
        table' ← htseth table str hash (suc (length f.imm_string))
        some (with_string translate table' out f, out))
      else entered_string found f

abbrev pub empty_fold : HashTable → HashTable → Folder
empty_fold untranslate dotranslated = record {
  imm_float = [];
  imm_vector = [];
  imm_string = [];
  untranslate = untranslate;
  dotranslated = dotranslated;
  translated = 0;
  diagnostics = [];
  count_const_fold = 0;
  count_vector_components = 0;
}

-- The constructor of `fold`.
unfoldable pub new_fold : Floats → Option Folder
unfolding htnew constgen_float constgen_vector
new_fold fl = do
  untranslate ← htnew 1024
  dotranslated ← htnew 1024
  let f₀ = (constgen_float 0 false (empty_fold untranslate dotranslated)).0
  let f₁ = (constgen_float 0x3F80_0000 false f₀).0
  let f₂ = (constgen_float 0xBF80_0000 false f₁).0
  let f₃ = (constgen_float 0x4000_0000 false f₂).0
  let f₄ = (constgen_vector fl (0, 0, 0) f₃).0
  some (constgen_vector fl (0xBF80_0000, 0xBF80_0000, 0xBF80_0000) f₄).0

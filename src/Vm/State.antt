-- ===== src/Vm/State.antt =====
-- The state of the virtual machine: `qc_program`, `qc_exec_stack_t`, `prog_section_function_t` and
-- `prog_section_statement_t` of gmqcc.h. A `qcint_t` and a float are the 32 bits that hold them. The
-- fields that only print or count (names, profile, trace) are left out; of a field definition the
-- offset is kept.
use gmqcc.Prelude.{ℕ, suc, Bool, List}

-- The operands are the `u1` of the three unions.
pub record Statement : Type 0 where
  pub opcode : ℕ
  pub o1 : ℕ
  pub o2 : ℕ
  pub o3 : ℕ

-- `entry` holds the bits of an `int32_t`; `argsizes` holds the first `nargs` entries of `argsize`.
pub record Function : Type 0 where
  pub entry : ℕ
  pub first_local : ℕ
  pub locals : ℕ
  pub argsizes : List ℕ

pub record Frame : Type 0 where
  pub stmt : ℕ
  pub localsp : ℕ
  pub function : Function

pub record Vm : Type 0 where
  pub code : List Statement
  pub fields : List ℕ
  pub functions : List Function
  pub strings : List ℕ
  pub globals : List ℕ
  pub entitydata : List ℕ
  pub entitypool : List Bool
  pub tempstring_start : ℕ
  pub tempstring_at : ℕ
  pub vmerror : ℕ
  pub entities : ℕ
  pub entityfields : ℕ
  pub allowworldwrites : Bool
  pub localstack : List ℕ
  pub stack : List Frame
  pub statement : ℕ
  pub argc : ℕ
  pub supports_state : Bool
  pub field_frame : ℕ
  pub field_nextthink : ℕ
  pub field_think : ℕ
  pub global_self : ℕ
  pub global_time : ℕ

-- `prog->vmerror++`, which `qcvmerror` does too.
abbrev pub error_once : Vm → Vm
error_once vm = record vm { vmerror = suc vm.vmerror }

-- ===== src/Fold/Machine.antt =====
-- Folded operators of two floats on the virtual machine.
use gmqcc.Prelude.{ℕ, ◌%◌, ◌^◌, ◌≡◌, refl, ap, ◌∙◌, true, false, none, some, ◌==◌, get_elem?}
use gmqcc.Vm.State.{Statement}
use gmqcc.Vm.Opcodes.{
  Opcode, instr_add_f, instr_sub_f, instr_mul_f, instr_div_f, instr_bitor, instr_bitand, instr_or,
  instr_and, instr_lt, instr_gt, instr_eq_f, instr_ne_f,
}
use gmqcc.Vm.Step.{Floats, Builtins, Machine, put_c, binary}
use gmqcc.Vm.Exec.{divide, execute}
use gmqcc.Fold.{
  AstValue, Options, Folder, type_float, immvalue_float, fold_can_1, fold_can_2, float_value,
}
use gmqcc.Fold.Vectors.{Arithmetic}
use gmqcc.Fold.Operators.{operand}
use gmqcc.Fold.Select.{
  Operator, op, op_id_add, op_id_sub, op_id_mul, op_id_div, op_id_bor, op_id_band, op_id_or,
  op_id_and, op_id_lt, op_id_gt, op_id_eq, op_id_ne,
}
use gmqcc.Fold.Pool.{IsPool}
use gmqcc.Fold.Given.{instruction, meaning, fold-Gives}

-- An instruction of two words.
binary-put_c :
    (g : ℕ → ℕ → ℕ) (vm : Machine) (st : Statement) (x y : ℕ)
    → get_elem? vm.vm.globals st.o1 ≡ some x
    → get_elem? vm.vm.globals st.o2 ≡ some y
    → binary g vm st ≡ put_c vm st (g x y)
unfolding binary
binary-put_c g vm st x y p q = rw (p, q) refl

divide-div : (fl : Floats) (x y : ℕ) → fl.eq y 0 ≡ false → divide fl x y ≡ fl.div x y
unfolding divide
divide-div fl x y h = rw h refl

module _ (fl : Floats) (builtins : Builtins) (maxjumps : ℕ) where
  execute-put_c :
      (id : Operator) (i : Opcode) (vm : Machine) (st : Statement) (x y : ℕ)
      → ((w : ℕ) → fl.eq w 0 ≡ (w % 2 ^ 31 == 0))
      → instruction id ≡ some i
      → (id ≡ op_id_div → fl.eq y 0 ≡ false)
      → get_elem? vm.vm.globals st.o1 ≡ some x
      → get_elem? vm.vm.globals st.o2 ≡ some y
      → execute fl builtins maxjumps i vm st ≡ put_c vm st (meaning fl id x y)
  unfolding instruction execute
  execute-put_c op_id_add i vm st x y zero e d p q =
      let known : i ≡ instr_add_f = cc e in rw known (binary-put_c _ vm st x y p q)
  execute-put_c op_id_sub i vm st x y zero e d p q =
      let known : i ≡ instr_sub_f = cc e in rw known (binary-put_c _ vm st x y p q)
  execute-put_c op_id_mul i vm st x y zero e d p q =
      let known : i ≡ instr_mul_f = cc e in rw known (binary-put_c _ vm st x y p q)
  execute-put_c op_id_bor i vm st x y zero e d p q =
      let known : i ≡ instr_bitor = cc e in rw known (binary-put_c _ vm st x y p q)
  execute-put_c op_id_band i vm st x y zero e d p q =
      let known : i ≡ instr_bitand = cc e in rw known (binary-put_c _ vm st x y p q)
  execute-put_c op_id_lt i vm st x y zero e d p q =
      let known : i ≡ instr_lt = cc e in rw known (binary-put_c _ vm st x y p q)
  execute-put_c op_id_gt i vm st x y zero e d p q =
      let known : i ≡ instr_gt = cc e in rw known (binary-put_c _ vm st x y p q)
  execute-put_c op_id_eq i vm st x y zero e d p q =
      let known : i ≡ instr_eq_f = cc e in rw known (binary-put_c _ vm st x y p q)
  execute-put_c op_id_ne i vm st x y zero e d p q =
      let known : i ≡ instr_ne_f = cc e in rw known (binary-put_c _ vm st x y p q)
  execute-put_c op_id_div i vm st x y zero e d p q =
      let known : i ≡ instr_div_f = cc e in
      let quotient : divide fl x y ≡ fl.div x y = divide-div fl x y (d refl) in
      rw known (binary-put_c _ vm st x y p q ∙ ap (put_c vm st) quotient)
  execute-put_c op_id_or i vm st x y zero e d p q =
      let known : i ≡ instr_or = cc e in rw (known, zero x, zero y) (binary-put_c _ vm st x y p q)
  execute-put_c op_id_and i vm st x y zero e d p q =
      let known : i ≡ instr_and = cc e in rw (known, zero x, zero y) (binary-put_c _ vm st x y p q)
  execute-put_c other i vm st x y zero e d p q = absurd (cc e)

-- On tables of constants as the constructor makes them and for an operator that has an instruction on
-- floats, without -fperl-logic and on two float constants, of which the second is not 0 in a
-- division, `fold::op` returns a float constant, and its word is the one that the instruction writes
-- where it finds the words of the two constants. The machine's comparison takes both 0 and -0, and no
-- other word, as equal to 0.
pub op-execute :
    (m : Arithmetic) (o : Options) (f : Folder) (a b : AstValue) (id : Operator) (i : Opcode)
    (builtins : Builtins) (maxjumps : ℕ) (vm : Machine) (st : Statement)
    → ((w : ℕ) → m.floats.eq w 0 ≡ (w % 2 ^ 31 == 0))
    → IsPool f
    → a.vtype ≡ type_float
    → b.vtype ≡ type_float
    → fold_can_2 a b ≡ true
    → o.perl_logic ≡ false
    → instruction id ≡ some i
    → (id ≡ op_id_div → m.floats.eq (immvalue_float b) 0 ≡ false)
    → get_elem? vm.vm.globals st.o1 ≡ some (immvalue_float a)
    → get_elem? vm.vm.globals st.o2 ≡ some (immvalue_float b)
    → (f' : Folder) × (v : AstValue) × (op m o
          (record { id = id; operands = 2; folds = true })
          (some a)
          (some b)
          none
          f
        ≡ (f', some (operand v)))
      × (v.vtype ≡ type_float)
      × (fold_can_1 v ≡ true)
      × (execute m.floats builtins maxjumps i vm st ≡ put_c vm st (immvalue_float v))
unfolding op
op-execute m o f a b id i builtins maxjumps vm st zero pool float_a float_b can logic e d p q =
    let g = fold-Gives m o pool a b float_a float_b can id i e logic in
    (
      g.state,
      float_value (meaning m.floats id (immvalue_float a) (immvalue_float b)) g.inexact,
      g.result,
      refl,
      refl,
      execute-put_c m.floats builtins maxjumps id i vm st _ _ zero e d p q,
    )

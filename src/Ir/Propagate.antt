-- ===== src/Ir/Propagate.antt =====
-- `ir_block_life_propagate` of ir.cpp: the life ranges of a function's values from the instructions of
-- a block, from the last to the first. A pointer to a value is its number in a store of values.
pub mod Grown
pub mod Places
pub mod Rounds
use gmqcc.Prelude.{
  ℕ, zero, suc, ◌+◌, ◌*◌, ◌/◌, ◌%◌, ◌^◌, Bool, true, false, not, ◌&&◌, ◌||◌, List, [], ◌∷◌, ◌++◌,
  Option, none, some, ◌==◌, if◌then◌else◌,
}
use gmqcc.Vm.Opcodes.{
  Opcode, instr_goto, instr_if, instr_ifnot, instr_return, instr_storep_f, instr_storep_v,
  instr_storep_s, instr_storep_ent, instr_storep_fld, instr_storep_fnc, instr_mul_vf, instr_mul_fv,
  instr_load_v, instr_call0, instr_call1, instr_call2, instr_call3, instr_call4, instr_call5,
  instr_call6, instr_call7, instr_call8,
}
use gmqcc.Ir.Life.{LifeEntry, set_alive}

pub data Store : Type 0 where
  store_global store_local store_param store_value store_return : Store

-- The instructions of the virtual machine, and those that only the compiler has.
pub data IrOpcode : Type 0 where
  instr : Opcode → IrOpcode
  vinstr_phi vinstr_jump vinstr_cond vinstr_nrcall vinstr_bitand_v vinstr_bitand_vf : IrOpcode
  vinstr_bitor_v vinstr_bitor_vf vinstr_bitxor vinstr_bitxor_v vinstr_bitxor_vf : IrOpcode
  vinstr_cross vinstr_neg_f vinstr_neg_v : IrOpcode

-- `members` are the elements of `m_members` that are not null.
pub record IrValue : Type 0 where
  pub store : Store
  pub life : List LifeEntry
  pub locked : Bool
  pub members : List ℕ
  pub memberof : Option ℕ

pub record Instr : Type 0 where
  pub opcode : IrOpcode
  pub ops : List (Option ℕ)
  pub phi : List ℕ
  pub params : List ℕ
  pub eid : ℕ

-- The values, `m_living` of the block, and the flag that `changed` points to.
pub record Liveness : Type 0 where
  pub values : ℕ → IrValue
  pub living : List ℕ
  pub changed : Bool

-- `read` and `write`, a bit for each operand.
unfoldable pub op_read_write : IrOpcode → ℕ × ℕ
op_read_write vinstr_jump = (0, 0)
op_read_write vinstr_cond = (1, 0)
op_read_write (instr instr_goto) = (0, 0)
op_read_write (instr instr_if) = (1, 0)
op_read_write (instr instr_ifnot) = (1, 0)
op_read_write (instr instr_return) = (1, 0)
op_read_write (instr instr_storep_f) = (7, 0)
op_read_write (instr instr_storep_v) = (7, 0)
op_read_write (instr instr_storep_s) = (7, 0)
op_read_write (instr instr_storep_ent) = (7, 0)
op_read_write (instr instr_storep_fld) = (7, 0)
op_read_write (instr instr_storep_fnc) = (7, 0)
op_read_write other = (6, 1)

abbrev pub find : List ℕ → ℕ → Bool
find [] v = false
find (x ∷ xs) v = x == v || find xs v

abbrev pub find_any : List ℕ → List ℕ → Bool
find_any living [] = false
find_any living (m ∷ ms) = find living m || find_any living ms

-- The first one, as `vec_ir_value_find` gives its index.
unfoldable pub erase : ℕ → List ℕ → List ℕ
erase v [] = []
erase v (x ∷ xs) = if x == v then xs else x ∷ erase v xs

abbrev pub put : (ℕ → IrValue) → ℕ → IrValue → ℕ → IrValue
put values v x u = if u == v then x else values u

-- `if (value->setAlive(s)) *changed = true;`
unfoldable pub alive_at : ℕ → ℕ → Liveness → Liveness
alive_at v s st =
    let r = set_alive s (st.values v).life in
    record st {
      values = put st.values v (record (st.values v) { life = r.0 });
      changed = st.changed || r.1;
    }

-- A value that is written ends to live above the instruction.
unfoldable pub end_life : ℕ → ℕ → Liveness → Liveness
end_life v eid st = let s = alive_at v eid st in record s { living = erase v s.living }

unfoldable pub end_members : List ℕ → ℕ → Liveness → Liveness
end_members [] eid st = st
end_members (m ∷ ms) eid st =
    end_members ms eid (if find st.living m then end_life m eid st else st)

-- The last member that is removed removes the vector.
unfoldable pub end_vector : Option ℕ → ℕ → Liveness → Liveness
end_vector none eid st = st
end_vector (some p) eid st =
    if not (find_any st.living (st.values p).members) && find st.living p
    then end_life p eid st
    else st

unfoldable pub write_value : ℕ → ℕ → Liveness → Liveness
write_value v eid st =
    end_vector (st.values v).memberof eid
      (end_members (st.values v).members eid (end_life v eid st))

unfoldable pub is_local : Store → Bool
is_local store_value = true
is_local store_local = true
is_local store_param = true
is_local store_global = false
is_local store_return = false

-- Whether the bit of operand `o` is set in a mask.
abbrev pub has_bit : ℕ → ℕ → Bool
has_bit mask o = mask / 2 ^ o % 2 == 1

-- The operands from number `o` on whose bit is set, less those that are no locals.
unfoldable pub operands : (ℕ → IrValue) → ℕ → ℕ → List (Option ℕ) → List ℕ
operands values mask o [] = []
operands values mask o (none ∷ ops) = operands values mask (suc o) ops
operands values mask o (some v ∷ ops) =
    let rest = operands values mask (suc o) ops in
    if is_local (values v).store && has_bit mask o then v ∷ rest else rest

unfoldable pub write_all : List ℕ → ℕ → Liveness → Liveness
write_all [] eid st = st
write_all (v ∷ vs) eid st = write_all vs eid (write_value v eid st)

unfoldable pub push_new : ℕ → List ℕ → List ℕ
push_new v living = if find living v then living else living ++ v ∷ []

unfoldable pub push_all : List ℕ → List ℕ → List ℕ
push_all [] living = living
push_all (v ∷ vs) living = push_all vs (push_new v living)

abbrev pub of_option : Option ℕ → List ℕ
of_option none = []
of_option (some v) = v ∷ []

-- Reading adds the full vector.
unfoldable pub read_value : (ℕ → IrValue) → ℕ → List ℕ → List ℕ
read_value values v living =
    push_all (v ∷ (of_option (values v).memberof ++ (values v).members)) living

unfoldable pub read_all : (ℕ → IrValue) → List ℕ → List ℕ → List ℕ
read_all values [] living = living
read_all values (v ∷ vs) living = read_all values vs (read_value values v living)

-- A source that gets an additional place, and its vector.
unfoldable pub alive_behind : Option ℕ → ℕ → Liveness → Liveness
alive_behind none s st = st
alive_behind (some v) s st = alive_at v s st

unfoldable pub extend_source : Option ℕ → ℕ → Liveness → Liveness
extend_source none s st = st
extend_source (some v) s st = let r = alive_at v s st in alive_behind (r.values v).memberof s r

abbrev pub operand : ℕ → List (Option ℕ) → Option ℕ
operand n [] = none
operand zero (o ∷ ops) = o
operand (suc n) (o ∷ ops) = operand n ops

unfoldable pub extends_second : IrOpcode → Bool
extends_second (instr instr_mul_vf) = true
extends_second vinstr_bitand_vf = true
extends_second vinstr_bitor_vf = true
extends_second vinstr_bitxor = true
extends_second vinstr_bitxor_vf = true
extends_second vinstr_bitxor_v = true
extends_second vinstr_cross = true
extends_second other = false

unfoldable pub extends_first : IrOpcode → Bool
extends_first (instr instr_mul_fv) = true
extends_first (instr instr_load_v) = true
extends_first vinstr_bitxor = true
extends_first vinstr_bitxor_vf = true
extends_first vinstr_bitxor_v = true
extends_first vinstr_cross = true
extends_first other = false

-- These instructions have the operand.
unfoldable pub extend_if : Bool → ℕ → Instr → Liveness → Liveness
extend_if true n i st = extend_source (operand n i.ops) (i.eid + 1) st
extend_if false n i st = st

unfoldable pub is_call : IrOpcode → Bool
is_call (instr instr_call0) = true
is_call (instr instr_call1) = true
is_call (instr instr_call2) = true
is_call (instr instr_call3) = true
is_call (instr instr_call4) = true
is_call (instr instr_call5) = true
is_call (instr instr_call6) = true
is_call (instr instr_call7) = true
is_call (instr instr_call8) = true
is_call other = false

-- `ir_block_living_lock` and `ir_block_living_add_instr` over the vector that they walk.
unfoldable pub lock_living : List ℕ → Liveness → Liveness
lock_living [] st = st
lock_living (v ∷ vs) st = lock_living vs (
    if (st.values v).locked then st else record st {
      values = put st.values v (record (st.values v) { locked = true });
      changed = true;
    })

unfoldable pub add_living : List ℕ → ℕ → Liveness → Liveness
add_living [] eid st = st
add_living (v ∷ vs) eid st = add_living vs eid (alive_at v eid st)

abbrev pub read_in : List ℕ → Liveness → Liveness
read_in vs st = record st { living = read_all st.values vs st.living }

abbrev pub reads_of : (ℕ → IrValue) → Instr → List ℕ
reads_of values i = operands values (op_read_write i.opcode).0 0 i.ops

abbrev pub writes_of : (ℕ → IrValue) → Instr → List ℕ
writes_of values i = operands values (op_read_write i.opcode).1 0 i.ops

-- The parts of the loop's body: what is written, what is read, and the call.
unfoldable pub instr_writes : Instr → Liveness → Liveness
instr_writes i st =
    extend_if (extends_first i.opcode) 1 i
      (extend_if (extends_second i.opcode) 2 i (write_all (writes_of st.values i) i.eid st))

unfoldable pub instr_reads : Instr → Liveness → Liveness
instr_reads i st = read_in i.phi (read_in (reads_of st.values i) st)

unfoldable pub instr_call : Instr → Liveness → Liveness
instr_call i st = read_in i.params (if is_call i.opcode then lock_living st.living st else st)

unfoldable pub propagate_instr : Instr → Liveness → Liveness
propagate_instr i st =
    let s = instr_call i (instr_reads i (instr_writes i st)) in add_living s.living i.eid s

-- The instructions of a block, from the last to the first.
unfoldable pub propagate_instrs : List Instr → Liveness → Liveness
propagate_instrs [] st = st
propagate_instrs (i ∷ is) st = propagate_instr i (propagate_instrs is st)

unfoldable pub exits_living : List (List ℕ) → List ℕ → List ℕ
exits_living [] living = living
exits_living (vs ∷ exits) living = exits_living exits (push_all vs living)

-- `exits` are the living values of the blocks behind this one.
unfoldable pub life_propagate : List (List ℕ) → List Instr → ℕ → Liveness → Liveness
life_propagate exits is entry_id st =
    let s = propagate_instrs is (record st { living = exits_living exits [] }) in
    add_living s.living entry_id s

-- ===== src/Vm/Opcodes.antt =====
-- The instructions: the enumeration of gmqcc.h up to VINSTR_END, in its order.
use gmqcc.Prelude.{ℕ, List, [], ◌∷◌, get_or}

pub data Opcode : Type 0 where
  instr_done instr_mul_f instr_mul_v instr_mul_fv instr_mul_vf instr_div_f instr_add_f instr_add_v
        instr_sub_f instr_sub_v instr_eq_f instr_eq_v instr_eq_s instr_eq_e instr_eq_fnc instr_ne_f
        instr_ne_v instr_ne_s instr_ne_e instr_ne_fnc instr_le instr_ge instr_lt instr_gt
        instr_load_f instr_load_v instr_load_s instr_load_ent instr_load_fld instr_load_fnc
        instr_address instr_store_f instr_store_v instr_store_s instr_store_ent instr_store_fld
        instr_store_fnc instr_storep_f instr_storep_v instr_storep_s instr_storep_ent
        instr_storep_fld instr_storep_fnc instr_return instr_not_f instr_not_v instr_not_s
        instr_not_ent instr_not_fnc instr_if instr_ifnot instr_call0 instr_call1 instr_call2
        instr_call3 instr_call4 instr_call5 instr_call6 instr_call7 instr_call8 instr_state
        instr_goto instr_and instr_or instr_bitand instr_bitor :
      Opcode
  -- any other number
  illegal : Opcode

-- The instructions by their numbers.
abbrev pub opcodes : List Opcode
opcodes =
    instr_done ∷ instr_mul_f ∷ instr_mul_v ∷ instr_mul_fv ∷ instr_mul_vf ∷ instr_div_f ∷ instr_add_f
    ∷ instr_add_v ∷ instr_sub_f ∷ instr_sub_v ∷ instr_eq_f ∷ instr_eq_v ∷ instr_eq_s ∷ instr_eq_e
    ∷ instr_eq_fnc ∷ instr_ne_f ∷ instr_ne_v ∷ instr_ne_s ∷ instr_ne_e ∷ instr_ne_fnc ∷ instr_le
    ∷ instr_ge ∷ instr_lt ∷ instr_gt ∷ instr_load_f ∷ instr_load_v ∷ instr_load_s ∷ instr_load_ent
    ∷ instr_load_fld ∷ instr_load_fnc ∷ instr_address ∷ instr_store_f ∷ instr_store_v
    ∷ instr_store_s ∷ instr_store_ent ∷ instr_store_fld ∷ instr_store_fnc ∷ instr_storep_f
    ∷ instr_storep_v ∷ instr_storep_s ∷ instr_storep_ent ∷ instr_storep_fld ∷ instr_storep_fnc
    ∷ instr_return ∷ instr_not_f ∷ instr_not_v ∷ instr_not_s ∷ instr_not_ent ∷ instr_not_fnc
    ∷ instr_if ∷ instr_ifnot ∷ instr_call0 ∷ instr_call1 ∷ instr_call2 ∷ instr_call3 ∷ instr_call4
    ∷ instr_call5 ∷ instr_call6 ∷ instr_call7 ∷ instr_call8 ∷ instr_state ∷ instr_goto ∷ instr_and
    ∷ instr_or ∷ instr_bitand ∷ instr_bitor ∷ []

unfoldable pub decode : ℕ → Opcode
decode n = get_or opcodes n illegal

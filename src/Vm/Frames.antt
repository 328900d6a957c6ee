-- ===== src/Vm/Frames.antt =====
-- Calls: `prog_enterfunction` and `prog_leavefunction` of exec.cpp, as they are built without
-- QCVM_BACKUP_STRATEGY_CALLER_VARS. The list of frames has the innermost one first.
pub mod Copy
pub mod Balance
use gmqcc.Prelude.{
  ℕ, zero, suc, ◌+◌, ◌*◌, Bool, List, [], ◌∷◌, ◌++◌, Option, none, some, length, get_elem?, take,
}
use gmqcc.Vm.State.{Vm, Function, Frame}
use gmqcc.Vm.Words.{◌>>=◌, write?, read_block, write_block}

-- OFS_PARM0
abbrev pub ofs_parm0 : ℕ
ofs_parm0 = 4

-- The inner loop: copies `n` words of the globals from `src` to `dst`, one after the other.
unfoldable pub copy_words : ℕ → ℕ → ℕ → List ℕ → Option (List ℕ)
copy_words zero src dst g = some g
copy_words (suc n) src dst g = do
  w ← get_elem? g src
  g' ← write? g dst w
  copy_words n (suc src) (suc dst) g'

-- The outer loop, from the parameter `p` on, whose words go to `pos`.
unfoldable pub copy_params : ℕ → List ℕ → ℕ → List ℕ → Option (List ℕ)
unfolding copy_words
copy_params p [] pos g = some g
copy_params p (size ∷ sizes) pos g = do
  g' ← copy_words size (ofs_parm0 + 3 * p) pos g
  copy_params (suc p) sizes (pos + size) g'

-- Returns the statement of the function's entry.
unfoldable pub enter_function : Function → Vm → Option (ℕ × Vm)
unfolding copy_params
enter_function func vm = do
  saved ← read_block func.locals vm.globals func.first_local
  g ← copy_params 0 func.argsizes func.first_local vm.globals
  let st : Frame = record { stmt = vm.statement; localsp = length vm.localstack; function = func }
  some (
    func.entry,
    record vm { localstack = vm.localstack ++ saved; globals = g; stack = st ∷ vm.stack },
  )

-- Returns the statement to go on with, which the caller of `prog_leavefunction` reaches by the step
-- that follows. The frames are those of the machine.
unfoldable pub leave_frame : List Frame → Vm → Option (ℕ × Vm)
leave_frame [] vm = none
leave_frame (st ∷ rest) vm = do
  saved ← read_block st.function.locals vm.localstack st.localsp
  g ← write_block vm.globals st.function.first_local saved
  some
      (st.stmt, record vm { globals = g; localstack = take st.localsp vm.localstack; stack = rest })

unfoldable pub leave_function : Vm → Option (ℕ × Vm)
unfolding leave_frame
leave_function vm = leave_frame vm.stack vm

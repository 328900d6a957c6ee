-- ===== src/Code/Statements/Stack.antt =====
-- The vectors of statements as a stack.
use gmqcc.Prelude.{◌≡◌, refl, List, [], ◌∷◌, ◌++◌, some}
use gmqcc.Vm.State.{Statement}
use gmqcc.Code.Statements.{
  Flags, Context, Statements, rewrite_statement, push_statement, pop_back, pop_statement,
}

pop_back-append : {A : Type 0} (xs : List A) (x : A) → pop_back (xs ++ x ∷ []) ≡ some xs
unfolding pop_back
pop_back-append [] x = refl
pop_back-append (y ∷ []) x = refl
pop_back-append (y ∷ z ∷ xs) x = rw (pop_back-append (z ∷ xs) x)

-- `code_pop_statement` after `code_push_statement` restores the three vectors, whatever the flags.
pub pop-push_statement :
    (flags : Flags) (st : Statement) (ctx : Context) (code : Statements)
    → pop_statement (push_statement flags st ctx code) ≡ some code
unfolding push_statement pop_statement
pop-push_statement flags st ctx code = rw (
  pop_back-append code.statements (rewrite_statement flags st),
  pop_back-append code.linenums ctx.line,
  pop_back-append code.columnnums ctx.column,
)

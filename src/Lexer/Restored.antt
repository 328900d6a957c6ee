-- ===== src/Lexer/Restored.antt =====
-- A character that is read and put back.
use gmqcc.Prelude.{
  ℕ, ◌^◌, ◌<◌, false, ◌∷◌, ◌≡◌, sym, subst, ◌∙◌, ◌==◌, if◌then◌else◌, length, lt→ltb, arith,
}
use gmqcc.Lexer.{LexFile, done, lex_getch, lex_ungetch, counts, down, end_of_file, ◌>>=◌}
use gmqcc.Lexer.Reads.{Reads, text, lex_getch-Reads}

unget_text :
    (c line column : ℕ) (l : LexFile)
    → (c == end_of_file) ≡ false
    → text (record l { line = line; column = column; peek = c ∷ l.peek }) ≡ c ∷ text l
unfolding text
unget_text c line column l e = rw e

-- A character that was read, by `lex_getch` or before, and is put back.
put_back_lem :
    (c : ℕ) (l l' : LexFile)
    → l.line < 2 ^ 64
    → length l'.peek < 256
    → (c == end_of_file) ≡ false
    → Reads l (done c l')
    → (k : LexFile) × (lex_ungetch c l' ≡ done tt k) × (text k ≡ text l) × (k.line ≡ l.line)
unfolding lex_ungetch
put_back_lem c l l' h f e (t, ln, pl) =
    let read : text l ≡ c ∷ text l' = rw t (rw e) in
    (
      record l' {
        peek = c ∷ l'.peek;
        line = if counts c l' then down l'.line else l'.line;
        column = if counts c l' then 0 else down l'.column;
      },
      rw (lt→ltb _ _ f),
      unget_text c _ _ l' e ∙ sym read,
      rw pl (rw ln (ground arith)),
    )

-- `lex_ungetch` undoes `lex_getch`, but for the column: behind a character that was read and put back
-- the file has the same text and the same line as before. The line is a `size_t`, the character is
-- not `EOF`, and there is room for it.
pub lex_getch-lex_ungetch :
    (c : ℕ) (l l' : LexFile)
    → l.line < 2 ^ 64
    → lex_getch l ≡ done c l'
    → (c == end_of_file) ≡ false
    → length l'.peek < 256
    → (k : LexFile) × ((lex_getch >>= lex_ungetch) l ≡ done tt k)
      × (text k ≡ text l)
      × (k.line ≡ l.line)
lex_getch-lex_ungetch c l l' h e n f =
    rw e (put_back_lem c l l' h f n (subst (Reads l) e (lex_getch-Reads l h)))

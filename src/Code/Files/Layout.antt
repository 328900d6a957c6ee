-- ===== src/Code/Files/Layout.antt =====
-- The places of the sections in the file.
use gmqcc.Prelude.{
  ℕ, zero, suc, ◌+◌, ◌*◌, ◌/◌, ◌^◌, ◌<◌, ◌≡◌, refl, sym, ap, ◌∙◌, List, [], ◌∷◌, ◌++◌, arith,
  length, take, drop, length-append, append_assoc,
}
use gmqcc.Vm.State.{Statement}
use gmqcc.Code.Files.{
  Def, FunctionEntry, Section, Header, Program, FileOptions, bytes, statement_bytes, def_bytes,
  function_bytes, section_bytes, header_bytes, each_bytes, code_create_header, code_size,
  file_bytes, code_write, added,
}

length-bytes : (n w : ℕ) → length (bytes n w) ≡ n
unfolding bytes
length-bytes zero w = refl
length-bytes (suc n) w = omega (arith, length-bytes n (w / 256))

length-each_bytes :
    {A : Type 0} (f : A → List ℕ) (size : ℕ) (xs : List A)
    → ((a : A) → length (f a) ≡ size)
    → length (each_bytes f xs) ≡ size * length xs
unfolding each_bytes
length-each_bytes f size [] h = omega arith
length-each_bytes f size (x ∷ xs) h =
    let parts = length-append (f x) (each_bytes f xs) in
    let first = h x in let rest = length-each_bytes f size xs h in grind arith

length-statement_bytes : (st : Statement) → length (statement_bytes st) ≡ 8
unfolding statement_bytes bytes
length-statement_bytes st = refl

length-def_bytes : (d : Def) → length (def_bytes d) ≡ 8
unfolding def_bytes bytes
length-def_bytes d = refl

length-function_bytes : (f : FunctionEntry) → length (function_bytes f) ≡ 36
unfolding function_bytes bytes
length-function_bytes f = refl

length-header_bytes : (h : Header) → length (header_bytes h) ≡ 60
unfolding header_bytes section_bytes bytes
length-header_bytes h = refl

drop-append : (xs ys : List ℕ) (k : ℕ) → drop (length xs + k) (xs ++ ys) ≡ drop k ys
drop-append [] ys k = ap (λ n. drop n ys) (omega arith)
drop-append (x ∷ xs) ys k =
    let longer : length (x ∷ xs) + k ≡ suc (length xs + k) = omega arith in
    rw longer (drop-append xs ys k)

take-append : (xs ys : List ℕ) → take (length xs) (xs ++ ys) ≡ xs
take-append [] ys = refl
take-append (x ∷ xs) ys = ap (λ zs. x ∷ zs) (take-append xs ys)

each_bytes-append :
    {A : Type 0} (f : A → List ℕ) (xs ys : List A)
    → each_bytes f (xs ++ ys) ≡ each_bytes f xs ++ each_bytes f ys
unfolding each_bytes
each_bytes-append f [] ys = refl
each_bytes-append f (x ∷ xs) ys =
    ap (λ zs. f x ++ zs) (each_bytes-append f xs ys)
    ∙ sym (append_assoc (f x) (each_bytes f xs) (each_bytes f ys))

-- What a reader finds that goes to the offset and reads the elements of that size.
abbrev pub section_at : ℕ → Section → List ℕ → List ℕ
section_at size s file = take (size * s.length) (drop s.offset file)

-- Six lists of bytes behind a first one.
module _ (h s d f n g c : List ℕ) where
  after_1 :
      (k : ℕ)
      → drop (length h + k) (h ++ (s ++ (d ++ (f ++ (n ++ (g ++ c))))))
        ≡ drop k (s ++ (d ++ (f ++ (n ++ (g ++ c)))))
  after_1 k = drop-append h _ k

  after_2 :
      (k : ℕ)
      → drop (length h + (length s + k)) (h ++ (s ++ (d ++ (f ++ (n ++ (g ++ c))))))
        ≡ drop k (d ++ (f ++ (n ++ (g ++ c))))
  after_2 k = after_1 (length s + k) ∙ drop-append s _ k

  after_3 :
      (k : ℕ)
      → drop (length h + (length s + (length d + k))) (h ++ (s ++ (d ++ (f ++ (n ++ (g ++ c))))))
        ≡ drop k (f ++ (n ++ (g ++ c)))
  after_3 k = after_2 (length d + k) ∙ drop-append d _ k

  after_4 :
      (k : ℕ)
      → drop
          (length h + (length s + (length d + (length f + k))))
          (h ++ (s ++ (d ++ (f ++ (n ++ (g ++ c))))))
        ≡ drop k (n ++ (g ++ c))
  after_4 k = after_3 (length f + k) ∙ drop-append f _ k

  after_5 :
      (k : ℕ)
      → drop
          (length h + (length s + (length d + (length f + (length n + k)))))
          (h ++ (s ++ (d ++ (f ++ (n ++ (g ++ c))))))
        ≡ drop k (g ++ c)
  after_5 k = after_4 (length n + k) ∙ drop-append n _ k

  after_6 :
      (k : ℕ)
      → drop
          (length h + (length s + (length d + (length f + (length n + (length g + k))))))
          (h ++ (s ++ (d ++ (f ++ (n ++ (g ++ c))))))
        ≡ drop k c
  after_6 k = after_5 (length g + k) ∙ drop-append g _ k

  length-file :
      length (h ++ (s ++ (d ++ (f ++ (n ++ (g ++ c))))))
      ≡ length h + (length s + (length d + (length f + (length n + (length g + length c)))))
  length-file =
      rw
        (
          length-append h _,
          length-append s _,
          length-append d _,
          length-append f _,
          length-append n _,
          length-append g c,
        )
        refl

-- A list that stands at a place, with the number of its bytes.
found :
    (file xs ys : List ℕ) (offset place count : ℕ)
    → drop place file ≡ drop 0 (xs ++ ys)
    → offset ≡ place
    → count ≡ length xs
    → take count (drop offset file) ≡ xs
found file xs ys offset place count p q r = rw (q, r, p) (take-append xs ys)

-- The file of a program whose size is below 2 ^ 32 has the size that `code_size_generic` says of what
-- is written, and each section of its header says where the elements of the vector stand in the file,
-- in their order, and how many they are: those of the strings without the bytes that are added for
-- the bug of an engine.
pub code_write-section_at :
    (o : FileOptions) (code : Program)
    → code_size code < 2 ^ 32
    → (length (code_write o code) ≡ code_size (code_create_header o code).1)
      × (section_at 8 (code_create_header o code).0.statements (code_write o code)
          ≡ each_bytes statement_bytes code.statements)
      × (section_at 8 (code_create_header o code).0.defs (code_write o code)
          ≡ each_bytes def_bytes code.defs)
      × (section_at 8 (code_create_header o code).0.fields (code_write o code)
          ≡ each_bytes def_bytes code.fields)
      × (section_at 36 (code_create_header o code).0.functions (code_write o code)
          ≡ each_bytes function_bytes code.functions)
      × (section_at 4 (code_create_header o code).0.globals (code_write o code)
          ≡ each_bytes (bytes 4) code.globals)
      × (section_at 1 (code_create_header o code).0.strings (code_write o code)
          ≡ each_bytes (bytes 1) code.chars)
unfolding code_write file_bytes code_create_header code_size
code_write-section_at o code small =
    let hd = (code_create_header o code).0 in
    let h = header_bytes hd in
    let s = each_bytes statement_bytes code.statements in
    let d = each_bytes def_bytes code.defs in
    let f = each_bytes def_bytes code.fields in
    let n = each_bytes function_bytes code.functions in
    let g = each_bytes (bytes 4) code.globals in
    let c = each_bytes (bytes 1) (code.chars ++ added o.string_table_bug) in
    let c₀ = each_bytes (bytes 1) code.chars in
    let lh = length-header_bytes hd in
    let ls = length-each_bytes statement_bytes 8 code.statements length-statement_bytes in
    let ld = length-each_bytes def_bytes 8 code.defs length-def_bytes in
    let lf = length-each_bytes def_bytes 8 code.fields length-def_bytes in
    let ln = length-each_bytes function_bytes 36 code.functions length-function_bytes in
    let lg = length-each_bytes (bytes 4) 4 code.globals (length-bytes 4) in
    let lc =
      length-each_bytes (bytes 1) 1 (code.chars ++ added o.string_table_bug) (length-bytes 1) in
    let lc₀ = length-each_bytes (bytes 1) 1 code.chars (length-bytes 1) in
    let split = each_bytes-append (bytes 1) code.chars (added o.string_table_bug) in
    let file = h ++ (s ++ (d ++ (f ++ (n ++ (g ++ c))))) in
    (
      omega (arith, length-file h s d f n g c),
      found file s _ hd.statements.offset _ (8 * hd.statements.length) (after_1 h s d f n g c 0)
          (omega arith) (omega arith),
      found file d _ hd.defs.offset _ (8 * hd.defs.length) (after_2 h s d f n g c 0) (omega arith)
          (omega arith),
      found file f _ hd.fields.offset _ (8 * hd.fields.length) (after_3 h s d f n g c 0)
          (omega arith) (omega arith),
      found file n _ hd.functions.offset _ (36 * hd.functions.length) (after_4 h s d f n g c 0)
          (omega arith) (omega arith),
      found file g _ hd.globals.offset _ (4 * hd.globals.length) (after_5 h s d f n g c 0)
          (omega arith) (omega arith),
      found file c₀ _ hd.strings.offset _ (1 * hd.strings.length) (after_6 h s d f n g c 0 ∙ split)
          (omega arith) (omega arith),
    )

-- ===== src/Code/Files.antt =====
-- The file that code.cpp writes on a machine with the low byte first: `code_create_header`,
-- `code_size_generic` and the part of `code_write` for the program. What is opened and written
-- without an error is a list of bytes.
pub mod Layout
use gmqcc.Prelude.{
  ℕ, zero, suc, ◌+◌, ◌*◌, ◌/◌, ◌%◌, ◌^◌, Bool, List, [], ◌∷◌, ◌++◌, Option, none, some, length,
  if◌then◌else◌,
}
use gmqcc.Vm.State.{Statement}

-- `prog_section_both_t`
pub record Def : Type 0 where
  pub type : ℕ
  pub offset : ℕ
  pub name : ℕ

-- `prog_section_function_t` with its eight sizes of arguments.
pub record FunctionEntry : Type 0 where
  pub entry : ℕ
  pub firstlocal : ℕ
  pub locals : ℕ
  pub profile : ℕ
  pub name : ℕ
  pub file : ℕ
  pub nargs : ℕ
  pub argsize : ℕ × ℕ × ℕ × ℕ × ℕ × ℕ × ℕ × ℕ

pub record Section : Type 0 where
  pub offset : ℕ
  pub length : ℕ

pub record Header : Type 0 where
  pub version : ℕ
  pub crc16 : ℕ
  pub skip : ℕ
  pub statements : Section
  pub defs : Section
  pub fields : Section
  pub functions : Section
  pub strings : Section
  pub globals : Section
  pub entfield : ℕ

-- The vectors and numbers of `code_t` that are written.
pub record Program : Type 0 where
  pub statements : List Statement
  pub defs : List Def
  pub fields : List Def
  pub functions : List FunctionEntry
  pub globals : List ℕ
  pub chars : List ℕ
  pub crc : ℕ
  pub entfields : ℕ

-- The options: the checksum that is forced, and whether the table of strings is written for the bug of
-- an engine.
pub record FileOptions : Type 0 where
  pub forced_crc : Option ℕ
  pub string_table_bug : Bool

-- The bytes of a number, the low one first.
unfoldable pub bytes : ℕ → ℕ → List ℕ
bytes zero w = []
bytes (suc n) w = (w % 256) ∷ bytes n (w / 256)

unfoldable pub statement_bytes : Statement → List ℕ
statement_bytes st = bytes 2 st.opcode ++ (bytes 2 st.o1 ++ (bytes 2 st.o2 ++ bytes 2 st.o3))

unfoldable pub def_bytes : Def → List ℕ
def_bytes d = bytes 2 d.type ++ (bytes 2 d.offset ++ bytes 4 d.name)

unfoldable pub function_bytes : FunctionEntry → List ℕ
function_bytes f =
    bytes 4 f.entry
    ++ (bytes 4 f.firstlocal
        ++ (bytes 4 f.locals
            ++ (bytes 4 f.profile
                ++ (bytes 4 f.name
                    ++ (bytes 4 f.file
                        ++ (bytes 4 f.nargs
                            ++ (bytes 1 f.argsize.0
                                ++ (bytes 1 f.argsize.1
                                    ++ (bytes 1 f.argsize.2
                                        ++ (bytes 1 f.argsize.3
                                            ++ (bytes 1 f.argsize.4
                                                ++ (bytes 1 f.argsize.5
                                                    ++ (bytes 1 f.argsize.6
                                                        ++ bytes 1 f.argsize.7)))))))))))))

unfoldable pub section_bytes : Section → List ℕ
section_bytes s = bytes 4 s.offset ++ bytes 4 s.length

unfoldable pub header_bytes : Header → List ℕ
header_bytes h =
    bytes 4 h.version
    ++ (bytes 2 h.crc16
        ++ (bytes 2 h.skip
            ++ (section_bytes h.statements
                ++ (section_bytes h.defs
                    ++ (section_bytes h.fields
                        ++ (section_bytes h.functions
                            ++ (section_bytes h.strings
                                ++ (section_bytes h.globals ++ bytes 4 h.entfield))))))))

-- The elements of a vector one behind another.
unfoldable pub each_bytes : {A : Type 0} → (A → List ℕ) → List A → List ℕ
each_bytes f [] = []
each_bytes f (a ∷ as') = f a ++ each_bytes f as'

-- A number of 32 bits.
abbrev word_32 : ℕ → ℕ
word_32 n = n % 2 ^ 32

abbrev crc_of : Option ℕ → ℕ → ℕ
crc_of none crc = crc
crc_of (some forced) crc = forced

-- The three bytes that `code_create_header` adds to the strings.
abbrev added : Bool → List ℕ
added b = if b then 0 ∷ 0 ∷ 0 ∷ [] else []

-- `code_create_header`: the header and the program that is written behind it.
unfoldable pub code_create_header : FileOptions → Program → Header × Program
code_create_header o code =
    let statements : ℕ = 60 in
    let defs : ℕ = word_32 (statements + 8 * length code.statements) in
    let fields : ℕ = word_32 (defs + 8 * length code.defs) in
    let functions : ℕ = word_32 (fields + 8 * length code.fields) in
    let globals : ℕ = word_32 (functions + 36 * length code.functions) in
    let strings : ℕ = word_32 (globals + 4 * length code.globals) in
    (
      record {
        version = 6;
        crc16 = crc_of o.forced_crc code.crc;
        skip = 0;
        statements = record { offset = statements; length = word_32 (length code.statements) };
        defs = record { offset = defs; length = word_32 (length code.defs) };
        fields = record { offset = fields; length = word_32 (length code.fields) };
        functions = record { offset = functions; length = word_32 (length code.functions) };
        strings = record { offset = strings; length = word_32 (length code.chars) };
        globals = record { offset = globals; length = word_32 (length code.globals) };
        entfield = code.entfields;
      },
      record code { chars = code.chars ++ added o.string_table_bug },
    )

-- `code_size_binary`
unfoldable pub code_size : Program → ℕ
code_size code =
    60
    + 8 * length code.statements
    + 8 * length code.defs
    + 8 * length code.fields
    + 36 * length code.functions
    + 4 * length code.globals
    + length code.chars

-- The bytes behind one another, as `code_write` passes them to `fwrite`.
unfoldable pub file_bytes : Header × Program → List ℕ
file_bytes (h, code) =
    header_bytes h
    ++ (each_bytes statement_bytes code.statements
        ++ (each_bytes def_bytes code.defs
            ++ (each_bytes def_bytes code.fields
                ++ (each_bytes function_bytes code.functions
                    ++ (each_bytes (bytes 4) code.globals ++ each_bytes (bytes 1) code.chars)))))

unfoldable pub code_write : FileOptions → Program → List ℕ
code_write o code = file_bytes (code_create_header o code)

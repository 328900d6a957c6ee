-- ===== src/Fold/Intern.antt =====
-- The tables of strings of fold.cpp.
use gmqcc.Prelude.{
  ℕ, suc, ◌-◌, ◌<◌, ◌≡◌, ◌≢◌, ◌⊎◌, refl, sym, ap, ◌∙◌, inl, inr, arith, Bool, true, false, List, [],
  ◌∷◌, ◌++◌, some, ◌==◌, length, get_elem?, get_elem?-append_left, get_elem?-append_right,
  ℕ_discrete,
}
use gmqcc.Table.Compare.{Ordering-cases, strcmp_self, strcmp-eq}
use gmqcc.Table.{HashTable, strcmp, hthash, htset, htget, htgeth, get_in}
use gmqcc.Table.Lookup.{htget-htset, hthash-lt}
use gmqcc.Vm.Words.Blocks.{get_elem?-some}
use gmqcc.Fold.{
  AstValue, Folder, string_table, string_value, string_name, with_string, constgen_string,
}
use gmqcc.Fold.Pool.{get_elem?-within}

-- What one of the two tables finds is a constant of that text.
pub record IsInterned (translate : Bool) (f : Folder) : Type 0 where
  pub size : 0 < (string_table translate f).size
  pub bins : length (string_table translate f).table ≡ (string_table translate f).size
  pub entry :
      (str : List ℕ) (n : ℕ)
      → htget (string_table translate f) str ≡ some n
      → n ≢ 0
      → (v : AstValue) × (get_elem? f.imm_string (n - 1) ≡ some v) × (v.vstring ≡ some str)

htget_total :
    (ht : HashTable) (str : List ℕ)
    → 0 < ht.size
    → length ht.table ≡ ht.size
    → (n : ℕ) × (htget ht str ≡ some n)
unfolding htget htgeth
htget_total ht str p q =
    let nodes = get_elem?-some ht.table (hthash ht str) (rw q (hthash-lt ht str p)) in
    (get_in str nodes.0, rw nodes.1 refl)

constgen_string-found :
    (str : List ℕ) (t : Bool) (f : Folder) (n : ℕ) (v : AstValue)
    → htget (string_table t f) str ≡ some n
    → (n == 0) ≡ false
    → get_elem? f.imm_string (n - 1) ≡ some v
    → constgen_string str t f ≡ some (f, v)
unfolding constgen_string htget
constgen_string-found str t f n v found some_n at = rw (found, some_n, at) refl

new_string : List ℕ → Bool → Folder → AstValue
new_string str t f = string_value (string_name t f.translated) str t

constgen_string-new :
    (str : List ℕ) (t : Bool) (f : Folder) (ht : HashTable)
    → htget (string_table t f) str ≡ some 0
    → htset (string_table t f) str (suc (length f.imm_string)) ≡ some ht
    → constgen_string str t f ≡ some (with_string t ht (new_string str t f) f, new_string str t f)
unfolding constgen_string htget htset new_string
constgen_string-new str t f ht missing set = rw (missing, set) refl

table-with_string :
    (t : Bool) (ht : HashTable) (v : AstValue) (f : Folder)
    → string_table t (with_string t ht v f) ≡ ht
table-with_string true ht v f = refl
table-with_string false ht v f = refl

last-string :
    (f : Folder) (v : AstValue)
    → get_elem? (f.imm_string ++ (v ∷ [])) (suc (length f.imm_string) - 1) ≡ some v
last-string f v =
    ap (get_elem? (f.imm_string ++ (v ∷ []))) (omega arith)
    ∙ get_elem?-append_right f.imm_string (v ∷ []) 0

some-eq : {x y : ℕ} → some x ≡ some y → x ≡ y
some-eq e = cc e

same_text : (xs ys : List ℕ) → (xs ≡ ys) ⊎ (xs ≢ ys)
same_text xs ys = elim (Ordering-cases (strcmp xs ys)) [
  | inl e ↦ inr (λ same. cc (e, strcmp_self xs, ap (strcmp xs) same))
  | inr (inl e) ↦ inl (strcmp-eq xs ys e)
  | inr (inr e) ↦ inr (λ same. cc (e, strcmp_self xs, ap (strcmp xs) same))
]

with_string-IsInterned :
    (str : List ℕ) (t : Bool) (f : Folder) (ht : HashTable)
    → IsInterned t f
    → 0 < ht.size
    → length ht.table ≡ ht.size
    → htget ht str ≡ some (suc (length f.imm_string))
    → ((other : List ℕ) → str ≢ other → htget ht other ≡ htget (string_table t f) other)
    → IsInterned t (with_string t ht (new_string str t f) f)
unfolding new_string
with_string-IsInterned str t f ht h p q here rest =
    let same = table-with_string t ht (new_string str t f) f in
    record {
      size = rw same p;
      bins = rw same q;
      entry = λ key n found some_n.
          let at : htget ht key ≡ some n = rw same at found in
          elim (same_text str key) [
            | inl e ↦
                let last : suc (length f.imm_string) ≡ n = some-eq (sym here ∙ rw e at) in
                (new_string str t f, rw (← last) (last-string f (new_string str t f)), rw e refl)
            | inr d ↦
                let (v, old, text) = h.entry key n (sym (rest key d) ∙ at) some_n in
                (
                  v,
                  get_elem?-append_left f.imm_string (new_string str t f ∷ []) (n - 1)
                        (get_elem?-within f.imm_string (n - 1) v old)
                      ∙ old,
                  text,
                )
          ];
    }

-- While what one of the two tables finds is a constant of its text, `constgen_string` on any text
-- and that table returns a constant of the text, what the table finds then is still a constant of its
-- text, and a second call on the same text returns the same constant and changes nothing.
pub constgen_string_again :
    (str : List ℕ) (t : Bool) (f : Folder)
    → IsInterned t f
    → (f' : Folder) × (v : AstValue) × (constgen_string str t f ≡ some (f', v))
      × (v.vstring ≡ some str)
      × IsInterned t f'
      × (constgen_string str t f' ≡ some (f', v))
unfolding new_string
constgen_string_again str t f h =
    let (n, found) = htget_total (string_table t f) str h.size h.bins in
    elim (ℕ_discrete n 0) [
      | yes missing ↦
          let v = new_string str t f in
          let (ht, set, here, rest, size, bins) =
            htget-htset (string_table t f) str (suc (length f.imm_string)) h.size h.bins in
          let f' = with_string t ht v f in
          (
            f',
            v,
            constgen_string-new str t f ht (found ∙ ap some missing) set,
            refl,
            with_string-IsInterned str t f ht h (rw size h.size) (bins ∙ sym size) here rest,
            constgen_string-found str t f' (suc (length f.imm_string)) v
                (rw (table-with_string t ht v f) here) (ground arith) (last-string f v),
          )
      | no some_n ↦
          let (v, at, text) = h.entry str n found some_n in
          let again = constgen_string-found str t f n v found (ground arith) at in
          (f, v, again, text, h, again)
    ]

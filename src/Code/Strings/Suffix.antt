-- ===== src/Code/Strings/Suffix.antt =====
-- The bins of the cache of strings, and what the walks along them find.
use Prim.Native.Nat.{eq}
use gmqcc.Prelude.{
  ℕ, zero, suc, ◌+◌, ◌-◌, ◌<◌, ◌≤◌, ◌≡◌, ◌∙◌, sym, refl, subst, ap, List, [], ◌∷◌, ◌++◌, ◌⊎◌, inl,
  inr, arith, ltb, ◌==◌, length, drop, get_elem?, Bool-cases,
}
use gmqcc.Vm.Strings.Temp.{Stands}
use gmqcc.Table.{Node, strcmp, set_in, get_in, get_suffix_in}
use gmqcc.Table.Compare.{Ordering-cases, strcmp-eq}

-- The string of the node stands at its value, which is not the null pointer.
pub record IsCached (m : List ℕ) (n : Node) : Type 0 where
  pub placed : 0 < n.value
  pub stands : Stands m n.value n.key

abbrev pub AreCached : List ℕ → List Node → Type 0
AreCached m [] = Unit
AreCached m (n ∷ ns) = IsCached m n × AreCached m ns

-- No place, or one where the string stands.
abbrev pub Found : List ℕ → List ℕ → ℕ → Type 0
Found m key at = (at ≡ 0) ⊎ ((0 < at) × Stands m at key)

-- A string that stands at `i` also stands behind its end there, from any byte on.
Stands-drop :
    (m key : List ℕ) (i d : ℕ) → d ≤ length key → Stands m i key → Stands m (i + d) (drop d key)
Stands-drop m key i d h s k w e =
    let there : i + d + k ≡ i + (d + k) = omega arith in
    rw there (s (d + k) w (drop_at d key k h ∙ e))
  where
    drop_at :
        (d : ℕ) (key : List ℕ) (k : ℕ)
        → d ≤ length key
        → get_elem? (key ++ 0 ∷ []) (d + k) ≡ get_elem? (drop d key ++ 0 ∷ []) k
    drop_at zero key k h = ap (get_elem? (key ++ 0 ∷ [])) (omega arith)
    drop_at (suc d) [] k h = absurd (omega arith)
    drop_at (suc d) (b ∷ key) k h =
        let step : suc d + k ≡ suc (d + k) = omega arith in rw step (drop_at d key k (omega arith))

Found-node :
    (m key : List ℕ) (n : Node) → IsCached m n → strcmp key n.key ≡ eq → Found m key n.value
Found-node m key n c e =
    inr (c.placed, subst (Stands m n.value) (sym (strcmp-eq key n.key e)) c.stands)

pub get_in-Found : (m key : List ℕ) (ns : List Node) → AreCached m ns → Found m key (get_in key ns)
unfolding get_in
get_in-Found m key [] h = inl refl
get_in-Found m key (n ∷ ns) h = elim (Ordering-cases (strcmp key n.key)) [
  | inl e ↦ rw (get_in, e) (inl refl)
  | inr (inl e) ↦ rw (get_in, e) (Found-node m key n h.0 e)
  | inr (inr e) ↦ rw (get_in, e) (get_in-Found m key ns h.1)
]

pub get_suffix_in-Found :
    (m key : List ℕ) (ns : List Node) → AreCached m ns → Found m key (get_suffix_in key ns)
unfolding get_suffix_in
get_suffix_in-Found m key [] h = inl refl
get_suffix_in-Found m key (n ∷ ns) h =
    let rest = get_suffix_in-Found m key ns h.1 in
    let d = length n.key - length key in
    elim (Bool-cases (ltb (length n.key) (length key))) [
      | inl less ↦ rw (get_suffix_in, less) rest
      | inr long ↦ elim (Bool-cases (length key == length n.key)) [
        | inl same ↦ elim (Ordering-cases (strcmp key n.key)) [
          | inl e ↦ rw (get_suffix_in, long, same, e) (inl refl)
          | inr (inl e) ↦ rw (get_suffix_in, long, same, e) (Found-node m key n h.0 e)
          | inr (inr e) ↦ rw (get_suffix_in, long, same, e) rest
        ]
        | inr differ ↦ elim (Ordering-cases (strcmp key (drop d n.key))) [
          | inl e ↦ rw (get_suffix_in, long, differ, e) rest
          | inr (inl e) ↦
              rw (get_suffix_in, long, differ, e)
                (inr (
                  omega (arith, h.0.placed),
                  subst (Stands m (n.value + d)) (sym (strcmp-eq key (drop d n.key) e))
                      (Stands-drop m n.key n.value d (omega arith) h.0.stands),
                ))
          | inr (inr e) ↦ rw (get_suffix_in, long, differ, e) rest
        ]
      ]
    ]

pub set_in-AreCached :
    (m key : List ℕ) (at : ℕ) (ns : List Node)
    → IsCached m (record { key = key; value = at })
    → AreCached m ns
    → AreCached m (set_in key at ns)
unfolding set_in
set_in-AreCached m key at [] c h = (c, tt)
set_in-AreCached m key at (n ∷ ns) c h = elim (Ordering-cases (strcmp key n.key)) [
  | inl e ↦ rw (set_in, e) (c, h)
  | inr (inl e) ↦
      rw (set_in, e)
        (
          record {
            placed = c.placed;
            stands = subst (Stands m at) (strcmp-eq key n.key e) c.stands;
          },
          h.1,
        )
  | inr (inr e) ↦ rw (set_in, e) (h.0, set_in-AreCached m key at ns c h.1)
]

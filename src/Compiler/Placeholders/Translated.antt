-- ===== src/Compiler/Placeholders/Translated.antt =====
-- The column that TranslateFieldName of workitem/table_join.go gives has no placeholder that the
-- field name and the aliases of the joins do not have.
use almighty_core.Prelude.{
  ℕ, ◌+◌, ◌≤◌, ◌≡◌, Bool, true, false, Option, none, some, [], ◌∷◌, All, if◌then◌else◌, arith,
  Bool-cases, inl, inr, Option-cases,
}
use almighty_core.Prelude.Texts.{
  Text, eqb_text, contains_byte, is_space, is_space2, is_space3, trim_left, trim_right, drop_prefix,
  trim_prefix,
}
use almighty_core.Joins.{
  TableJoin, TableJoinMap, Translated, column_of, refused, column, update, activate, find_join,
  handles_field_name, translate_at, delegated, first_delegate, first_prefix, column_is_allowed,
  is_empty_text, translate_field_name,
}
use almighty_core.Compiler.{find_handler}
use almighty_core.Compiler.Placeholders.{placeholders, placeholders-append, IsPlainJoin}

drop_prefix-le : (s p : Text) → placeholders (drop_prefix s p) ≤ placeholders s
drop_prefix-le s [] = omega arith
drop_prefix-le [] (b ∷ p) = omega arith
drop_prefix-le (a ∷ s) (b ∷ p) = omega (arith, drop_prefix-le s p)

trim_prefix-le : (s p : Text) → placeholders (trim_prefix s p) ≤ placeholders s
trim_prefix-le s p = ground (arith, drop_prefix-le s p)

if_le :
    (b : Bool) (s t : Text) (n : ℕ)
    → placeholders s ≤ n
    → placeholders t ≤ n
    → placeholders (if b then s else t) ≤ n
if_le true s t n h k = h
if_le false s t n h k = k

trim_left-le : (s : Text) → placeholders (trim_left s) ≤ placeholders s
unfolding trim_left
trim_left-le [] = omega arith
trim_left-le (a ∷ []) = ground arith
trim_left-le (a ∷ b ∷ []) =
    let n = placeholders (a ∷ b ∷ []) in
    let rest = if is_space2 a b then [] else a ∷ b ∷ [] in
    if_le (is_space a) (if is_space b then [] else b ∷ []) rest n
      (if_le (is_space b) [] (b ∷ []) n (omega arith) (omega arith))
      (if_le (is_space2 a b) [] (a ∷ b ∷ []) n (omega arith) (omega arith))
trim_left-le (a ∷ b ∷ c ∷ s) =
    let n = placeholders (a ∷ b ∷ c ∷ s) in
    let third = if is_space3 a b c then trim_left s else a ∷ b ∷ c ∷ s in
    let second = if is_space2 a b then trim_left (c ∷ s) else third in
    if_le (is_space a) (trim_left (b ∷ c ∷ s)) second n (omega (arith, trim_left-le (b ∷ c ∷ s))) (
      if_le (is_space2 a b) (trim_left (c ∷ s)) third n (omega (arith, trim_left-le (c ∷ s))) (
        if_le (is_space3 a b c) (trim_left s) (a ∷ b ∷ c ∷ s) n (omega (arith, trim_left-le s))
          (omega arith)))

trim_right-le : (s : Text) → placeholders (trim_right s) ≤ placeholders s
unfolding trim_right
trim_right-le [] = omega arith
trim_right-le (a ∷ s) = ground (arith, trim_right-le s)

pub update-plain :
    (n : Text) (f : TableJoin → TableJoin) (joins : TableJoinMap)
    → ((k : Text) (j : TableJoin) → IsPlainJoin (k, j) → IsPlainJoin (k, f j))
    → All IsPlainJoin joins
    → All IsPlainJoin (update n f joins)
update-plain n f [] keep h = tt
update-plain n f (x ∷ joins) keep h = elim (Bool-cases (eqb_text x.0 n)) [
  | inl t ↦ rw t (keep x.0 x.1 h.0, update-plain n f joins keep h.1)
  | inr g ↦ rw g (h.0, update-plain n f joins keep h.1)
]

pub activate-plain :
    (n : Text) (joins : TableJoinMap) → All IsPlainJoin joins → All IsPlainJoin (activate n joins)
activate-plain n joins h = update-plain n _ joins (λ k j p. p) h

pub find_handler-plain :
    (name : Text) (joins : TableJoinMap) {kj : Text × TableJoin}
    → All IsPlainJoin joins
    → find_handler name joins ≡ some kj
    → IsPlainJoin kj
find_handler-plain name [] h e = cc
find_handler-plain name (x ∷ joins) {kj} h e = elim (Bool-cases (handles_field_name x.1 name)) [
  | inl t ↦ let q : some x ≡ some _ = rw t at e in let r : x ≡ kj = cc in rw (← r) h.0
  | inr f ↦
      let q : find_handler name joins ≡ some _ = rw f at e in find_handler-plain name joins h.1 q
]

pub find_join-plain :
    (name : Text) (joins : TableJoinMap) {j : TableJoin}
    → All IsPlainJoin joins
    → find_join name joins ≡ some j
    → IsPlainJoin (name, j)
find_join-plain name [] h e = cc
find_join-plain name (x ∷ joins) {j} h e = elim (Bool-cases (eqb_text x.0 name)) [
  | inl t ↦ let q : some x.1 ≡ some _ = rw t at e in let r : x.1 ≡ j = cc in rw (← r) h.0
  | inr f ↦ let q : find_join name joins ≡ some _ = rw f at e in find_join-plain name joins h.1 q
]

pub column-placeholders : (a c : Text) → placeholders (column a c) ≡ placeholders a + placeholders c
unfolding column
column-placeholders a c = simp (placeholders-append) (omega arith)

abbrev pub PlainResult : Translated → Type 0
PlainResult (column_of t) = placeholders t ≡ 0
PlainResult (refused e) = Unit

abbrev pub IsPlainTranslated : Translated × TableJoinMap → Type 0
IsPlainTranslated x = PlainResult x.0 × All IsPlainJoin x.1

at-plain :
    (key col : Text) (d : TableJoin) (joins : TableJoinMap)
    → placeholders col ≡ 0
    → IsPlainJoin (key, d)
    → All IsPlainJoin joins
    → IsPlainTranslated (translate_at key col d joins)
at-plain key col d joins p q h = elim (Bool-cases (column_is_allowed d col)) [
  | inl t ↦ rw t (
    omega (arith, column-placeholders d.table_alias col),
    update-plain key _ joins (λ k j r. r) h,
  )
  | inr f ↦ rw f (tt, h)
]

delegated-plain :
    (key col : Text) (j : TableJoin) (o : Option (Option Text)) (joins : TableJoinMap)
    → placeholders col ≡ 0
    → IsPlainJoin (key, j)
    → All IsPlainJoin joins
    → IsPlainTranslated (delegated key col j o joins)
delegated-plain key col j none joins p q h = at-plain key col j joins p q h
delegated-plain key col j (some none) joins p q h = (tt, h)
delegated-plain key col j (some (some other)) joins p q h =
    elim (Option-cases (find_join other joins)) [
      | inl e ↦ rw e (tt, activate-plain other joins h)
      | inr (d, e) ↦ rw e (
          at-plain other col d (activate other joins) p (find_join-plain other joins h e)
            (activate-plain other joins h))
    ]

pub translate-plain :
    (key : Text) (j : TableJoin) (f : Text) (joins : TableJoinMap)
    → placeholders f ≡ 0
    → IsPlainJoin (key, j)
    → All IsPlainJoin joins
    → IsPlainTranslated (translate_field_name key j f joins)
unfolding translate_field_name
translate-plain key j f joins p q h =
    let col = trim_right (trim_left (trim_prefix f (first_prefix f j.prefix_activators))) in
    let c : placeholders col ≡ 0 = omega (
      arith,
      trim_right-le (trim_left (trim_prefix f (first_prefix f j.prefix_activators))),
      trim_left-le (trim_prefix f (first_prefix f j.prefix_activators)),
      trim_prefix-le f (first_prefix f j.prefix_activators),
    ) in
    let on = activate-plain key joins h in
    elim (Bool-cases (handles_field_name j f)) [
      | inr g ↦ rw g (tt, h)
      | inl t ↦ elim (Bool-cases (is_empty_text col)) [
        | inl e ↦ rw (t, e) (tt, on)
        | inr g ↦ elim (Bool-cases (contains_byte 39 col)) [
          | inl s ↦ rw (t, g, s) (tt, on)
          | inr s ↦
              rw (t, g, s)
                (delegated-plain key col j (first_delegate f j.delegate_to) (activate key joins) c q
                  on)
        ]
      ]
    ]

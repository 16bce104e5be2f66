-- ===== src/Joins/Defaults/Handling.antt =====
-- Which of DefaultTableJoins of workitem/expression_compiler.go handles a field name. The code asks
-- the joins in the random order of a map.
use almighty_core.Prelude.{
  ◌≡◌, refl, Bool, true, not, ◌&&◌, ◌||◌, List, [], ◌∷◌, all, Member, here, there, arith, inl, inr,
  Bool-cases,
}
use almighty_core.Prelude.Texts.{Text, has_prefix}
use almighty_core.Joins.{TableJoin, TableJoinMap, some_prefix, handles_field_name}
use almighty_core.Joins.Defaults.{default_table_joins}

prefixes_meet :
    (s p q : Text)
    → has_prefix s p ≡ true
    → has_prefix s q ≡ true
    → has_prefix p q || has_prefix q p ≡ true
prefixes_meet s p [] h k = refl
prefixes_meet s [] (b ∷ q) h k = refl
prefixes_meet [] (a ∷ p) (b ∷ q) h k = cc
prefixes_meet (c ∷ s) (a ∷ p) (b ∷ q) h k = ground (arith, prefixes_meet s p q)

abbrev apart : Text → Text → Bool
apart p q = not (has_prefix p q || has_prefix q p)

abbrev apart_all : List Text → List Text → Bool
apart_all ps qs = all (λ p. all (apart p) qs) ps

abbrev clear_of : Text × TableJoin → Text × TableJoin → Bool
clear_of x y = apart_all x.1.prefix_activators y.1.prefix_activators

-- no prefix of a join begins one of another join
abbrev are_disjoint : TableJoinMap → Bool
are_disjoint [] = true
are_disjoint (x ∷ joins) = all (clear_of x) joins && are_disjoint joins

pub and_left : (a b : Bool) → a && b ≡ true → a ≡ true
and_left a b h = ground arith

pub and_right : (a b : Bool) → a && b ≡ true → b ≡ true
and_right a b h = ground arith

pub all-Member {ℓ} :
    {A : Type ℓ} (p : A → Bool) {x : A} {xs : List A} → all p xs ≡ true → Member x xs → p x ≡ true
all-Member p h (here xs) = and_left _ _ h
all-Member p h (there y xs m) = all-Member p (and_right _ _ h) m

some_prefix-Member :
    (s : Text) (ps : List Text)
    → some_prefix s ps ≡ true
    → (p : Text) × Member p ps × (has_prefix s p ≡ true)
some_prefix-Member s [] h = cc
some_prefix-Member s (p ∷ ps) h = elim (Bool-cases (has_prefix s p)) [
  | inl t ↦ (p, here ps, t)
  | inr f ↦
      let h2 : some_prefix s ps ≡ true = rw f at h in
      let (q, m, t) = some_prefix-Member s ps h2 in (q, there p ps m, t)
]

never_both :
    (s : Text) (ps qs : List Text)
    → apart_all ps qs ≡ true
    → some_prefix s ps ≡ true
    → some_prefix s qs ≡ true
    → ⊥
never_both s ps qs a h k =
    let (p, m, t) = some_prefix-Member s ps h in
    let (q, n, u) = some_prefix-Member s qs k in
    let c : apart p q ≡ true = all-Member (apart p) (all-Member (λ p. all (apart p) qs) a m) n in
    let d : has_prefix p q || has_prefix q p ≡ true = prefixes_meet s p q t u in
    let e : not true ≡ true = rw d at c in cc e

handled_once :
    (s : Text) {x y : Text × TableJoin} (joins : TableJoinMap)
    → are_disjoint joins ≡ true
    → Member x joins
    → Member y joins
    → handles_field_name x.1 s ≡ true
    → handles_field_name y.1 s ≡ true
    → x ≡ y
handled_once s [] d m n h k = elim m [ ]
handled_once s (z ∷ xs) d (here _) (here _) h k = refl
handled_once s (z ∷ xs) d (here _) (there _ _ n) h k =
    absurd (never_both s _ _ (all-Member (clear_of z) (and_left _ _ d) n) h k)
handled_once s (z ∷ xs) d (there _ _ m) (here _) h k =
    absurd (never_both s _ _ (all-Member (clear_of z) (and_left _ _ d) m) k h)
handled_once s (z ∷ xs) d (there _ _ m) (there _ _ n) h k =
    handled_once s xs (and_right _ _ d) m n h k

-- Of the default table joins at most one handles a field name: whichever order the map is ranged
-- over in, the join that is found is the same.
pub default_handled_once :
    (field_name : Text) (x y : Text × TableJoin)
    → Member x default_table_joins
    → Member y default_table_joins
    → handles_field_name x.1 field_name ≡ true
    → handles_field_name y.1 field_name ≡ true
    → x ≡ y
unfolding default_table_joins
default_handled_once field_name x y m n h k =
    handled_once field_name default_table_joins refl m n h k

-- ===== src/Joins/Defaults/Ordered.antt =====
-- GetOrderdActivatedJoins on DefaultTableJoins of workitem/expression_compiler.go, any of them active.
use almighty_core.Prelude.{
  ℕ, ◌≡◌, refl, Bool, true, false, ◌&&◌, Option, none, some, [], ◌∷◌, all, ltb, ltb→lt, inl, inr,
  if◌then◌else◌, Option-cases,
}
use almighty_core.Prelude.Texts.{Text, codes, eqb_text}
use almighty_core.Field.Kind.{eqb_text→eq}
use almighty_core.Joins.{TableJoin, TableJoinMap, find_join}
use almighty_core.Joins.Activation.Growth.{
  IsFound, IsComplete, Grows, Grows-find, Grows-find_back, head_join,
}
use almighty_core.Joins.Activation.Closed.{All-members, All-at}
use almighty_core.Joins.Ordering.Topological.{IsAcyclic, Ordered, get_ordered_lem}
use almighty_core.Joins.Defaults.{default_table_joins}
use almighty_core.Joins.Defaults.Handling.{all-Member, and_left, and_right}

abbrev is_some : Option TableJoin → Bool
is_some none = false
is_some (some j) = true

-- the requirements of the joins, all of them found and of a lower rank
abbrev are_fit : TableJoinMap → (Text → ℕ) → TableJoinMap → Bool
are_fit joins rank [] = true
are_fit joins rank (x ∷ xs) =
    all (λ n. is_some (find_join n joins) && ltb (rank n) (rank x.0)) x.1.activate_other_joins
    && are_fit joins rank xs

fit-find :
    (joins : TableJoinMap) (rank : Text → ℕ) (xs : TableJoinMap) (k : Text) {j : TableJoin}
    → are_fit joins rank xs ≡ true
    → find_join k xs ≡ some j
    → all (λ n. is_some (find_join n joins) && ltb (rank n) (rank k)) j.activate_other_joins ≡ true
fit-find joins rank [] k h e = cc
fit-find joins rank (x ∷ xs) k {j} h e = elim (head_join k x xs e) [
  | inl (t, q) ↦ rw (← q, ← eqb_text→eq x.0 k t) (and_left _ _ h)
  | inr (f, q) ↦ fit-find joins rank xs k (and_right _ _ h) q
]

some-IsFound :
    (joins : TableJoinMap) (n : Text) → is_some (find_join n joins) ≡ true → IsFound joins n
some-IsFound joins n h = elim (Option-cases (find_join n joins)) [
  | inl e ↦ let q : false ≡ true = rw e at h in cc q
  | inr p ↦ p
]

pub fit-IsComplete :
    (joins : TableJoinMap) (rank : Text → ℕ) → are_fit joins rank joins ≡ true → IsComplete joins
fit-IsComplete joins rank h k j e =
    All-members (λ n m.
      some-IsFound joins n (and_left _ _ (all-Member _ (fit-find joins rank joins k h e) m)))

pub fit-IsAcyclic :
    (joins : TableJoinMap) (rank : Text → ℕ)
    → are_fit joins rank joins ≡ true
    → IsAcyclic joins rank
fit-IsAcyclic joins rank h k j e =
    All-members
      (λ n m. ltb→lt _ _ (and_right _ _ (all-Member _ (fit-find joins rank joins k h e) m)))

IsComplete-Grows : (a b : TableJoinMap) → Grows a b → IsComplete a → IsComplete b
IsComplete-Grows a b g c k j e =
    let (i, f, o) = Grows-find_back k a b g e in
    rw o (
      All-members (λ n m.
        let (x, y) = All-at (IsFound a) (c k i f) m in
        let (z, w, u, v) = Grows-find n a b g y in (z, w)))

IsAcyclic-Grows_on :
    (a b : TableJoinMap) (rank : Text → ℕ) → Grows a b → IsAcyclic a rank → IsAcyclic b rank
IsAcyclic-Grows_on a b rank g c k j e = let (i, f, o) = Grows-find_back k a b g e in rw o (c k i f)

abbrev pub default_rank : Text → ℕ
default_rank name =
    if eqb_text name (codes "typegroup_members")
    then 2
    else if eqb_text name (codes "typegroup")
    then 1
    else if eqb_text name (codes "parent")
    then 1
    else 0

-- Whichever of the default table joins are active, GetOrderdActivatedJoins succeeds: it names each
-- join that is active or that an active one requires, over any number of steps, once, no other, and
-- each after all those that it requires.
pub default-Ordered : (joins : TableJoinMap) → Grows default_table_joins joins → Ordered joins
unfolding default_table_joins
default-Ordered joins g =
    get_ordered_lem joins default_rank
      (IsComplete-Grows default_table_joins joins g
        (fit-IsComplete default_table_joins default_rank refl))
      (IsAcyclic-Grows_on default_table_joins joins default_rank g
        (fit-IsAcyclic default_table_joins default_rank refl))

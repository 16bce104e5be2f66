-- ===== src/Joins/Ordering/Topological.antt =====
-- GetOrderdActivatedJoins of workitem/table_join.go, whole.
use almighty_core.Prelude.{
  ℕ, suc, ◌<◌, ◌≡◌, refl, ◌↔◌, inl, inr, List, [], ◌∷◌, length, All, Member, Member-append,
  Member-cons, some, false, Bool-cases, arith,
}
use almighty_core.Prelude.Texts.{Text, eqb_text}
use almighty_core.Field.Kind.{eqb_text_refl}
use almighty_core.Joins.{TableJoin, TableJoinMap, find_join, keys}
use almighty_core.Joins.Activation.{walked}
use almighty_core.Joins.Activation.Growth.{
  IsActive, IsFound, IsComplete, Required, Grows, Grows-find_back,
}
use almighty_core.Joins.Activation.Closed.{activate_required, All-at, All-members, find-Member}
use almighty_core.Joins.Ordering.{new_orderer, order_joins, get_ordered_activated_joins}
use almighty_core.Joins.Ordering.Visited.{
  IsOrdered, start, next, Ranks, unvisited-le, Member-single,
}
use almighty_core.Joins.Ordering.Visits.{fuel-Visits, names-Visits}

-- what a join requires has a lower rank, so that no join requires itself over some steps
abbrev pub IsAcyclic : TableJoinMap → (Text → ℕ) → Type 0
IsAcyclic joins rank =
    (k : Text) (j : TableJoin)
    → find_join k joins ≡ some j
    → All (λ n. rank n < rank k) j.activate_other_joins

IsAcyclic-Grows :
    (joins js : TableJoinMap) (rank : Text → ℕ)
    → Grows joins js
    → IsAcyclic joins rank
    → Ranks js rank
IsAcyclic-Grows joins js rank g a k h =
    let (j, e, o) = Grows-find_back k joins js g h.found in rw o (a k j e)

length-keys : (joins : TableJoinMap) → length (keys joins) ≡ length joins
length-keys [] = refl
length-keys (x ∷ joins) = omega (arith, length-keys joins)

Member-IsFound : (k : Text) (joins : TableJoinMap) → Member k (keys joins) → IsFound joins k
Member-IsFound k [] m = elim m [ ]
Member-IsFound k (x ∷ joins) m = elim (Bool-cases (eqb_text x.0 k)) [
  | inl t ↦ (x.1, rw t refl)
  | inr f ↦ elim (Member-cons m) [
    | inl e ↦ let q : eqb_text k k ≡ false = rw (← e) at f in cc (eqb_text_refl k)
    | inr n ↦ let (j, e) = Member-IsFound k joins n in (j, rw f e)
  ]
]

Member-IsActive :
    (js : TableJoinMap) {names : List Text}
    → IsOrdered js names
    → (k : Text) → Member k names
    → IsActive js k
Member-IsActive js start k m = elim m [ ]
Member-IsActive js (next names name h o a once) k m = elim (Member-append names (name ∷ []) m) [
  | inl m2 ↦ Member-IsActive js o k m2
  | inr m2 ↦ rw (Member-single m2) h
]

pub record Ordered (joins : TableJoinMap) : Type 0 where
  pub names : List Text
  pub end : TableJoinMap
  pub answers : get_ordered_activated_joins joins ≡ walked (names, end)
  pub in_order : IsOrdered end names
  pub exactly : (k : Text) → Member k names ↔ Required joins k

-- When every join that another requires is in the map, and no join requires itself over any number
-- of steps (a rank falls along the requirements), GetOrderdActivatedJoins succeeds. Its answer names
-- each required join once, no other, and each after all those that it requires.
pub get_ordered_lem :
    (joins : TableJoinMap) (rank : Text → ℕ)
    → IsComplete joins
    → IsAcyclic joins rank
    → Ordered joins
unfolding get_ordered_activated_joins order_joins
get_ordered_lem joins rank complete acyclic =
    let a = activate_required joins complete in
    let js = a.end in
    let w =
      names-Visits js rank a.closed (IsAcyclic-Grows joins js rank a.grows acyclic)
        (suc (length js)) _
        (fuel-Visits js rank a.closed (IsAcyclic-Grows joins js rank a.grows acyclic)
          (suc (length js)))
        (keys js) [] new_orderer
        (All-members (λ k m. let (j, e) = Member-IsFound k js m in (j, e, tt)))
        (record { ordered = start; over = λ v t h. cc t; visited = λ v m. elim m [ ] })
        (omega (arith, unvisited-le (keys js) [], length-keys js)) in
    record {
      names = w.end.ordered_activated_joins;
      end = js;
      answers = rw (a.walks, w.walks) refl;
      in_order = w.invariant.ordered;
      exactly = λ k. (
        λ m. (a.active_iff k).0 (Member-IsActive js w.invariant.ordered k m),
        λ r. let h = (a.active_iff k).1 r in All-at _ w.reaches (find-Member k js h.found) h,
      );
    }

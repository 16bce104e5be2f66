-- ===== src/Compiler/Placeholders/Bound.antt =====
-- Compile of workitem/expression_compiler.go, with the conditions of the joins.
use almighty_core.Prelude.{
  ◌∙◌, ◌≡◌, refl, Bool, true, false, some, List, [], ◌∷◌, ◌++◌, All, length, if◌then◌else◌, arith,
  inl, inr, Option-cases,
}
use almighty_core.Prelude.Texts.{Text, codes}
use almighty_core.Field.Value.{Platform}
use almighty_core.Criteria.{Expression}
use almighty_core.Joins.{TableJoin, TableJoinMap, find_join}
use almighty_core.Joins.Activation.{Walk, walked, not_found, out_of_fuel, activate_required_joins}
use almighty_core.Joins.Activation.Kept.{bind-walked, activate_required-Keeps}
use almighty_core.Joins.Ordering.{get_ordered_activated_joins, order_joins}
use almighty_core.Compiler.{Compiled}
use almighty_core.Compiler.Accept.{
  result_text, new_compiler, is_empty, joins_of, add_conditions, with_joins, compile,
}
use almighty_core.Compiler.Placeholders.{
  placeholders, placeholders-append, IsPlainJoin, IsPlain, IsVisit,
}
use almighty_core.Compiler.Placeholders.Translated.{activate-plain, find_join-plain}
use almighty_core.Compiler.Placeholders.Counted.{append_one}
use almighty_core.Compiler.Placeholders.Whole.{accept-IsVisit}

joins_of-plain :
    (names : List Text) (joins : TableJoinMap)
    → All IsPlainJoin joins
    → All (λ (j : TableJoin). placeholders j.where_clause ≡ 0) (joins_of names joins)
joins_of-plain [] joins h = tt
joins_of-plain (n ∷ names) joins h = elim (Option-cases (find_join n joins)) [
  | inl e ↦ rw (e, All) (joins_of-plain names joins h)
  | inr (j, e) ↦ rw (e, All) ((find_join-plain n joins h e).1, joins_of-plain names joins h)
]

condition-plain :
    (a b : Bool) (w t : Text)
    → placeholders w ≡ 0
    → placeholders (if a then t else (if b then t else t ++ codes " AND ") ++ w) ≡ placeholders t
condition-plain true b w t h = refl
condition-plain false true w t h = omega (arith, placeholders-append t w)
condition-plain false false w t h =
    omega (arith, placeholders-append (t ++ codes " AND ") w, placeholders-append t (codes " AND "))

conditions-plain :
    (js : List TableJoin) (t : Text)
    → All (λ (j : TableJoin). placeholders j.where_clause ≡ 0) js
    → placeholders (add_conditions js t) ≡ placeholders t
conditions-plain [] t h = refl
conditions-plain (j ∷ js) t h =
    conditions-plain js _ h.1
    ∙ condition-plain (is_empty j.where_clause) (is_empty t) j.where_clause t h.0

ordered-plain :
    (joins js : TableJoinMap) (names : List Text)
    → All IsPlainJoin joins
    → get_ordered_activated_joins joins ≡ walked (names, js)
    → All IsPlainJoin js
unfolding get_ordered_activated_joins
ordered-plain joins js names h e =
    let (a, f, g) = bind-walked (activate_required_joins joins) _ e in
    let (n, f2, g2) = bind-walked (order_joins a) _ g in
    let q : a ≡ js = cc in
    rw (← q)
      (activate_required-Keeps (λ b. All IsPlainJoin b) (λ m b p. activate-plain m b p) joins a h f)

module _ {Float : Type 0} (go : Platform Float) (format_shortest : Float → Text) where
  clause-counted :
      (joins : TableJoinMap) (x : Compiled Float) (w : Walk (List Text × TableJoinMap))
      → IsVisit (new_compiler go format_shortest joins) x
      → ((names : List Text) (js : TableJoinMap) → w ≡ walked (names, js) → All IsPlainJoin js)
      → (with_joins go format_shortest x w).errors ≡ []
      → placeholders (with_joins go format_shortest x w).where_clause
        ≡ length (with_joins go format_shortest x w).parameters
  clause-counted joins x not_found v p h = absurd (append_one x.compiler.errors _ h)
  clause-counted joins x out_of_fuel v p h = absurd (append_one x.compiler.errors _ h)
  clause-counted joins x (walked (names, js)) v p h =
      let (u, t, e) = v.reported h in
      omega (
        arith,
        conditions-plain (joins_of names js) (result_text x.result)
            (joins_of-plain names js (p names js refl)),
        result t e,
        v.counted t e,
      )
    where
      result : (t : Text) → x.result ≡ some t → placeholders (result_text x.result) ≡ placeholders t
      result t e = rw e refl

  -- When Compile reports no error, the clause has as many placeholders `?` as there are parameters, so
  -- that the database binds each of them. The condition: no `?` stands in a field name, in a literal
  -- that is written into the clause (one in a JSON context), or in a join's alias or condition.
  pub compile-placeholders :
      (joins : TableJoinMap) (e : Expression Float)
      → All IsPlainJoin joins
      → IsPlain go format_shortest joins false e
      → (compile go format_shortest joins e).errors ≡ []
      → placeholders (compile go format_shortest joins e).where_clause
        ≡ length (compile go format_shortest joins e).parameters
  unfolding compile
  compile-placeholders joins e h p r =
      let v =
        accept-IsVisit go format_shortest joins false e (new_compiler go format_shortest joins) p
          h in
      clause-counted joins _ _ v (λ names js q. ordered-plain _ js names v.plain q) r

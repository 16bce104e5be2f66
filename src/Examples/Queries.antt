-- ===== src/Examples/Queries.antt =====
-- Expressions, their clauses and the joins of them, at concrete values.
use almighty_core.Prelude.{ℕ, suc, ◌≡◌, refl, Bool, true, false, [], ◌∷◌, length, here, All}
use almighty_core.Prelude.Int.{ℤ}
use almighty_core.Prelude.Texts.{Text, codes, trim_left, trim_right, is_blank}
use almighty_core.Field.Value.{str}
use almighty_core.Criteria.{
  Expression, field, literal, binary, op_and, op_equals, op_substring, iterate_post_order,
}
use almighty_core.Criteria.PostOrder.{visit_each, post_order, iterate_post_order_lem}
use almighty_core.Joins.{TableJoin, TableJoinMap, activate, column, translate_field_name}
use almighty_core.Joins.Activation.{activate_required_joins, walked}
use almighty_core.Joins.Ordering.{order_joins, get_ordered_activated_joins}
use almighty_core.Joins.Ordering.Topological.{Ordered, get_ordered_lem}
use almighty_core.Joins.Defaults.{default_table_joins, iteration_join}
use almighty_core.Joins.Defaults.Handling.{default_handled_once}
use almighty_core.Joins.Defaults.Ordered.{default_rank, fit-IsComplete, fit-IsAcyclic}
use almighty_core.Compiler.{fields_column}
use almighty_core.Compiler.Accept.{compile}
use almighty_core.Compiler.Placeholders.{placeholders, IsPlainJoin}
use almighty_core.Compiler.Placeholders.Bound.{compile-placeholders}
use almighty_core.Examples.{platform, one_byte, magnitude}

abbrev members : TableJoinMap
unfolding default_table_joins
members = activate (codes "typegroup_members") default_table_joins

-- the type group comes before its members, and the space before the type group
members_order :
    get_ordered_activated_joins members
    ≡ walked (
      codes "space" ∷ codes "typegroup" ∷ codes "typegroup_members" ∷ [],
      activate (codes "space") (activate (codes "typegroup") members),
    )
unfolding default_table_joins get_ordered_activated_joins activate_required_joins order_joins
members_order = refl

get_ordered_lem_example : Ordered members
unfolding default_table_joins
get_ordered_lem_example =
    get_ordered_lem members default_rank (fit-IsComplete members default_rank refl)
      (fit-IsAcyclic members default_rank refl)

-- the iteration's name, and the title of the item
abbrev query : Expression ℤ
query =
    binary op_and (binary op_equals (field (codes "iteration.name")) (literal (str (codes "one"))))
      (binary op_substring (field (codes "system.title")) (literal (str (codes "why?"))))

plain_defaults : All IsPlainJoin default_table_joins
unfolding default_table_joins column
plain_defaults = (
  (refl, refl),
  (
    (refl, refl),
    (
      (refl, refl),
      (
        (refl, refl),
        (
          (refl, refl),
          (
            (refl, refl),
            (
              (refl, refl),
              (
                (refl, refl),
                ((refl, refl), ((refl, refl), ((refl, refl), ((refl, refl), ((refl, refl), tt))))),
              ),
            ),
          ),
        ),
      ),
    ),
  ),
)

abbrev shortest : ℤ → Text
shortest f = one_byte (magnitude f)

query_clause :
    (compile platform shortest default_table_joins query).where_clause
    ≡ codes "((\"iter\".\"name\" = ?) AND \"work_items\".\"fields\"->>'system.title' ILIKE ?)"
unfolding default_table_joins compile get_ordered_activated_joins activate_required_joins
    order_joins translate_field_name trim_left trim_right column fields_column is_blank
query_clause = refl

query_errors : (compile platform shortest default_table_joins query).errors ≡ []
unfolding default_table_joins compile get_ordered_activated_joins activate_required_joins
    order_joins translate_field_name trim_left trim_right column fields_column is_blank
query_errors = refl

compile-placeholders_example :
    placeholders (compile platform shortest default_table_joins query).where_clause
    ≡ length (compile platform shortest default_table_joins query).parameters
unfolding default_table_joins
compile-placeholders_example =
    compile-placeholders platform shortest default_table_joins query plain_defaults
      ((refl, tt), (refl, λ h. cc)) query_errors

-- a quote in a title gets into the clause as it is
quoted_clause :
    (compile platform shortest default_table_joins
      (binary op_equals (field (codes "system.title")) (literal (str (codes "it's"))))).where_clause
    ≡ codes "(\"work_items\".\"fields\" @> '{\"system.title\" : \"it's\"}')"
unfolding default_table_joins compile get_ordered_activated_joins activate_required_joins
    order_joins translate_field_name trim_left trim_right column fields_column is_blank
quoted_clause = refl

-- the text that a joined name is to contain is not in the clause, nor a parameter
joined_substring :
    (compile platform shortest default_table_joins (
      binary op_substring
        (field (codes "iteration.name"))
        (literal (str (codes "one"))))).where_clause
    ≡ codes "\"iter\".\"name\""
unfolding default_table_joins compile get_ordered_activated_joins activate_required_joins
    order_joins translate_field_name trim_left trim_right column fields_column is_blank
joined_substring = refl

abbrev stop_at_literal : Expression ℤ → ℕ → Bool × ℕ
stop_at_literal (literal v) n = (false, suc n)
stop_at_literal e n = (true, suc n)

iterate_post_order_lem_example :
    iterate_post_order stop_at_literal query 0 ≡ visit_each stop_at_literal (post_order query) 0
iterate_post_order_lem_example = iterate_post_order_lem stop_at_literal query 0

abbrev iteration_entry : Text × TableJoin
iteration_entry = (codes "iteration", iteration_join)

default_handled_once_example : iteration_entry ≡ iteration_entry
unfolding default_table_joins iteration_join
default_handled_once_example =
    default_handled_once (codes "iteration.name") iteration_entry iteration_entry (here _) (here _)
      refl refl

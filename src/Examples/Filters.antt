-- ===== src/Examples/Filters.antt =====
-- Filters, their queries and expressions, at concrete values.
use almighty_core.Prelude.{◌≡◌, refl, true, some}
use almighty_core.Prelude.Int.{ℤ}
use almighty_core.Prelude.Texts.{codes}
use almighty_core.Field.Value.{nil, str, dict, entry, no_entry, ok, panic}
use almighty_core.Criteria.{Expression, field, literal, binary, op_and, op_equals, op_not}
use almighty_core.Joins.Defaults.{default_table_joins}
use almighty_core.Search.{
  Query, query, no_query, more, leaf_expression, determine_literal_type, generate_expression,
}
use almighty_core.Search.Meaning.{holds, map_option, meaning, generate-meaning}
use almighty_core.Search.Filled.{IsFilled, Answers, generate_filled}
use almighty_core.Search.Parsing.{empty_node, parse_map, parse_operators, parse_query}
use almighty_core.Search.Parsing.Written.{
  Filter, compare_to, all_or_any, no_filter, and_filter, is_equal, is_not_equal, write, query_of,
  IsWritten, parse_query-write,
}

abbrev filter : Filter
filter = all_or_any (codes "$AND") (
    and_filter (compare_to (codes "title") (is_equal (codes "one"))) (
      and_filter
        (all_or_any (codes "$OR")
          (and_filter (compare_to (codes "state") (is_not_equal (codes "closed"))) no_filter))
        no_filter))

parse_query-write_example : parse_query {Float = ℤ} (write filter) ≡ ok (query_of filter)
unfolding IsWritten
parse_query-write_example = parse_query-write ℤ filter (refl, ((refl, tt), tt))

abbrev expression : Expression ℤ
expression =
    binary op_and (binary op_equals (field (codes "system.title")) (literal (str (codes "one"))))
      (binary op_not (field (codes "system.state")) (literal (str (codes "closed"))))

filter-expression : generate_expression (query_of filter) ≡ ok (some expression)
unfolding query_of generate_expression leaf_expression determine_literal_type default_table_joins
filter-expression = refl

generate-meaning_example :
    map_option (holds (λ (e : Expression ℤ). true)) (some expression)
    ≡ meaning (λ (e : Expression ℤ). true) (query_of filter)
generate-meaning_example =
    generate-meaning (λ (e : Expression ℤ). true) (query_of filter) filter-expression

generate_filled_example : Answers ℤ (generate_expression (query_of filter))
unfolding query_of IsFilled
generate_filled_example =
    generate_filled ℤ (query_of filter)
      ((λ h. tt), (((λ h. cc), tt), (((λ h. tt), (((λ h. cc), tt), tt)), tt)))

-- an operator without parts behind another part
empty_group : Query
empty_group =
    query (record empty_node { name = codes "$AND" })
      (more
        (query (record empty_node { name = codes "title"; value = some (codes "one") }) no_query)
        (more (query (record empty_node { name = codes "$OR" }) no_query) no_query))

empty_group_panics : generate_expression {Float = ℤ} empty_group ≡ panic
unfolding empty_group generate_expression leaf_expression determine_literal_type default_table_joins
empty_group_panics = refl

-- {"state": {"$NE": null}}
not_null_panics :
    parse_query {Float = ℤ}
      (entry (codes "state") (dict (entry (codes "$NE") nil no_entry)) no_entry)
    ≡ panic
unfolding parse_map parse_operators
not_null_panics = refl

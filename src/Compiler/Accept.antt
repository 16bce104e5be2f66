-- ===== src/Compiler/Accept.antt =====
-- The visits of workitem/expression_compiler.go over a whole expression, and Compile.
use almighty_core.Prelude.{
  Bool, true, false, ◌||◌, Option, none, some, List, [], ◌∷◌, ◌++◌, if◌then◌else◌,
}
use almighty_core.Prelude.Texts.{Text, codes, join}
use almighty_core.Field.Value.{Value, bool, int, int64, float64, str, uuid, strings, Platform}
use almighty_core.Criteria.{
  Expression, field, literal, parameter, is_null, binary, op_and, op_or, op_equals, op_substring,
  op_not, op_child,
}
use almighty_core.Joins.{TableJoin, TableJoinMap, find_join}
use almighty_core.Joins.Activation.{Walk, walked}
use almighty_core.Joins.Ordering.{get_ordered_activated_joins}
use almighty_core.Compiler.{
  ExpressionCompiler, Compiled, Clause, joins_not_found, unknown_value, parameter_not_supported,
  format_bool, wrap_strings, is_json, fail, give, give_with, visit_field, visit_is_null,
  visit_child, joined, combine, negated, refers_to_joined_data, as_field, as_literal,
  activate_found, equals_operator, is_special, substring_special,
}

abbrev pub result_text : Option Text → Text
result_text none = []
result_text (some t) = t

abbrev pub is_empty : Text → Bool
is_empty [] = true
is_empty (a ∷ t) = false

-- the joins of the names
abbrev pub joins_of : List Text → TableJoinMap → List TableJoin
joins_of [] joins = []
joins_of (name ∷ names) joins = elim (find_join name joins) [
  | none ↦ joins_of names joins
  | some j ↦ j ∷ joins_of names joins
]

abbrev pub add_conditions : List TableJoin → Text → Text
add_conditions [] c = c
add_conditions (j ∷ js) c = add_conditions js (
    if is_empty j.where_clause
    then c
    else (if is_empty c then c else c ++ codes " AND ") ++ j.where_clause)

-- `go` formats numbers and UUIDs, and `format_shortest` is FormatFloat(f, 'f', -1, 64)
module _ {Float : Type 0} (go : Platform Float) (format_shortest : Float → Text) where
  abbrev pub convert_to_string : Value Float → Option Text
  convert_to_string (float64 f) = some (format_shortest f)
  convert_to_string (int i) = some (go.itoa i)
  convert_to_string (int64 i) = some (go.itoa i)
  convert_to_string (str t) = some (codes "\"" ++ t ++ codes "\"")
  convert_to_string (bool b) = some (format_bool b)
  convert_to_string (uuid u) = some (go.uuid_string u)
  convert_to_string _ = none

  -- what a literal is in a JSON context, before the end of the object
  abbrev pub json_text : Value Float → Option Text
  json_text (strings ss) = some (codes "[" ++ join 44 (wrap_strings ss) ++ codes "]")
  json_text v = convert_to_string v

  abbrev pub json_literal : Option Text → ExpressionCompiler Float → Compiled Float
  json_literal (some t) c = give (t ++ codes "}'") c
  json_literal none c = fail unknown_value c

  -- Literal
  abbrev pub visit_literal : Bool → Value Float → ExpressionCompiler Float → Compiled Float
  visit_literal json v c = if json then json_literal (json_text v) c else give_with (codes "?") v c

  -- Accept; `above` is whether a part around this one has the annotation, and `inner` whether the
  -- parts of this one are in a JSON context
  abbrev pub accept :
      TableJoinMap → Bool → Expression Float → ExpressionCompiler Float → Compiled Float
  accept marks above (field f) c = visit_field f c
  accept marks above (literal v) c = visit_literal above v c
  accept marks above parameter c = fail parameter_not_supported c
  accept marks above (is_null f) c = visit_is_null f c
  accept marks above (binary op_and l r) c =
      let x = accept marks above l c in joined (codes "AND") x (accept marks above r x.compiler)
  accept marks above (binary op_or l r) c =
      let x = accept marks above l c in joined (codes "OR") x (accept marks above r x.compiler)
  accept marks above (binary op_equals l r) c =
      let inner = above || (is_json marks l || is_json marks r) in
      let found = refers_to_joined_data (as_field l) c.joins in
      let x = accept marks inner l (activate_found found c) in
      joined (equals_operator inner found) x (accept marks inner r x.compiler)
  accept marks above (binary op_substring l r) c =
      let inner = above || (is_json marks l || is_json marks r) in
      let found = refers_to_joined_data (as_field l) c.joins in
      let x = accept marks inner l (activate_found found c) in
      let y = accept marks inner r x.compiler in
      if is_special inner found
      then substring_special inner (as_field l) (as_literal r) found (activate_found found c)
      else joined (codes "ILIKE") x y
  accept marks above (binary op_not l r) c =
      let inner = above || (is_json marks l || is_json marks r) in
      let x = accept marks inner l c in
      let y = accept marks inner r x.compiler in
      if inner
      then record {
        result = negated (combine (codes ":") x.result y.result);
        compiler = y.compiler;
      }
      else joined (codes "!=") x y
  accept marks above (binary op_child l r) c = visit_child (as_field l) (as_literal r) c

  abbrev pub new_compiler : TableJoinMap → ExpressionCompiler Float
  new_compiler joins = record { parameters = []; errors = []; joins = joins }

  abbrev pub with_joins : Compiled Float → Walk (List Text × TableJoinMap) → Clause Float
  with_joins x (walked (names, js)) = record {
    where_clause = add_conditions (joins_of names js) (result_text x.result);
    parameters = x.compiler.parameters;
    joins = joins_of names js;
    errors = x.compiler.errors;
  }
  with_joins x _ = record {
    where_clause = result_text x.result;
    parameters = x.compiler.parameters;
    joins = [];
    errors = x.compiler.errors ++ joins_not_found ∷ [];
  }

  -- Compile, with the table joins of newExpressionCompiler
  unfoldable pub compile : TableJoinMap → Expression Float → Clause Float
  compile joins e =
      let x = accept joins false e (new_compiler joins) in
      with_joins x (get_ordered_activated_joins x.compiler.joins)

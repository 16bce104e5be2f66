-- ===== src/Compiler.antt =====
-- Compile of workitem/expression_compiler.go: an expression to a WHERE clause with its parameters and
-- joins. An error is its message without the arguments. A literal holds no uint and no uint64.
pub mod Accept
pub mod Placeholders
use almighty_core.Prelude.{
  Bool, true, false, not, ◌||◌, Option, none, some, List, [], ◌∷◌, ◌++◌, if◌then◌else◌,
}
use almighty_core.Prelude.Int.{ℤ}
use almighty_core.Prelude.Texts.{Text, codes, eqb_text, contains_byte, lookup_text, join}
use almighty_core.Field.Value.{Value, nil, bool, int, int64, float64, str, uuid, strings, Platform}
use almighty_core.Criteria.{
  Expression, field, literal, parameter, is_null, binary, op_and, op_or, op_equals, op_substring,
  op_not, op_child,
}
use almighty_core.Joins.{
  TableJoin, TableJoinMap, JoinError, Translated, column_of, refused, find_join, activate, column,
  work_items, handles_field_name, translate_field_name,
}
use almighty_core.Joins.Activation.{Walk, walked, not_found, out_of_fuel}
use almighty_core.Joins.Ordering.{get_ordered_activated_joins}

pub data CompileError : Type 0 where
  double_quotes single_quotes single_quotes_in_value not_a_field not_a_literal not_a_string :
      CompileError
  invalid_child_field parameter_not_supported unknown_value joins_not_found : CompileError
  not_translated : JoinError → CompileError

pub record ExpressionCompiler (Float : Type 0) : Type 0 where
  pub parameters : List (Value Float)
  pub errors : List CompileError
  pub joins : TableJoinMap

-- what a visit returns, nil or a string, and the compiler after it
pub record Compiled (Float : Type 0) : Type 0 where
  pub result : Option Text
  pub compiler : ExpressionCompiler Float

-- the four results of Compile
pub record Clause (Float : Type 0) : Type 0 where
  pub where_clause : Text
  pub parameters : List (Value Float)
  pub joins : List TableJoin
  pub errors : List CompileError

-- fieldMap
abbrev pub field_map : List (Text × Text)
field_map =
    (codes "ID", codes "id")
    ∷ (codes "Type", codes "type")
    ∷ (codes "Version", codes "version")
    ∷ (codes "Number", codes "number")
    ∷ (codes "SpaceID", codes "space_id")
    ∷ []

-- the first join that handles the name, with its key
abbrev pub find_handler : Text → TableJoinMap → Option (Text × TableJoin)
find_handler name [] = none
find_handler name (kj ∷ joins) =
    if handles_field_name kj.1 name then some kj else find_handler name joins

unfoldable pub fields_column : Text
unfolding column
fields_column = column work_items (codes "fields")

abbrev pub mapped_name : Text → Option Text → Text × Bool
unfolding column
mapped_name f (some m) = (column work_items m, false)
mapped_name f none =
    if contains_byte 46 f || contains_byte 95 f then (f, true) else (column work_items f, false)

abbrev pub unless_joined : Text → Option (Text × TableJoin) → Text × Bool
unless_joined f (some kj) = (f, false)
unless_joined f none = mapped_name f (lookup_text f field_map)

abbrev pub get_field_name : TableJoinMap → Text → Text × Bool
get_field_name joins f = unless_joined f (find_handler f joins)

-- wrapStrings
abbrev pub wrap_strings : List Text → List Text
wrap_strings [] = []
wrap_strings (s ∷ ss) = (codes "\"" ++ s ++ codes "\"") ∷ wrap_strings ss

abbrev pub format_bool : Bool → Text
format_bool true = codes "true"
format_bool false = codes "false"

-- the end of binary
abbrev pub combine : Text → Option Text → Option Text → Option Text
combine op (some l) (some r) =
    some (codes "(" ++ l ++ codes " " ++ op ++ codes " " ++ r ++ codes ")")
combine op _ _ = none

-- what Not puts before the result in a JSON context
abbrev pub negated : Option Text → Option Text
negated none = none
negated (some t) = some (codes "NOT " ++ t)

abbrev pub equals_operator : Bool → Option (Text × TableJoin) → Text
equals_operator json (some kj) = codes "="
equals_operator json none = if json then codes ":" else codes "="

abbrev pub is_special : Bool → Option (Text × TableJoin) → Bool
is_special json none = json
is_special json (some kj) = true

-- `(uuid("work_items".fields->>'%[1]s') IN (...))` of Child
abbrev pub child_clause : Text → Text → Text → Text
child_clause field_name alias table =
    codes "(uuid(\"work_items\".fields->>'"
    ++ field_name
    ++ codes "') IN (\n\t\t\t\tSELECT "
    ++ alias
    ++ codes ".id\n\t\t\t\t\tWHERE\n\t\t\t\t\t\t(SELECT j.path\n\t\t\t\t\t\t\tFROM "
    ++ table
    ++ codes
        " j\n\t\t\t\t\t\t\tWHERE j.space_id = \"work_items\".\"space_id\" AND j.id = ? \n\t\t\t\t\t\t) @> "
    ++ alias
    ++ codes ".path\n\t\t\t\t\t\t\t  ))"

-- expressionRefersToJoinedData, for what as_field gives
abbrev pub refers_to_joined_data : Option Text → TableJoinMap → Option (Text × TableJoin)
refers_to_joined_data (some f) joins = find_handler f joins
refers_to_joined_data none joins = none

module _ {Float : Type 0} where
  -- the annotation that bubbleUpJSONContext sets
  abbrev pub is_json : TableJoinMap → Expression Float → Bool
  is_json joins (field f) = (get_field_name joins f).1
  is_json joins (binary op_equals l r) = is_json joins l || is_json joins r
  is_json joins (binary op_substring l r) = is_json joins l || is_json joins r
  is_json joins (binary op_not l r) = is_json joins l || is_json joins r
  is_json joins _ = false

  abbrev pub fail : CompileError → ExpressionCompiler Float → Compiled Float
  fail e c = record { result = none; compiler = record c { errors = c.errors ++ e ∷ [] } }

  abbrev pub give : Text → ExpressionCompiler Float → Compiled Float
  give t c = record { result = some t; compiler = c }

  abbrev pub give_with : Text → Value Float → ExpressionCompiler Float → Compiled Float
  give_with t v c = give t (record c { parameters = c.parameters ++ v ∷ [] })

  -- the column of a joined table; after an error Field returns the empty string that came with it
  abbrev pub field_translated :
      Translated × TableJoinMap → ExpressionCompiler Float → Compiled Float
  field_translated (column_of t, joins) c = give t (record c { joins = joins })
  field_translated (refused e, joins) c =
      give [] (record c { joins = joins; errors = c.errors ++ not_translated e ∷ [] })

  abbrev pub field_at :
      Text → Bool → Option (Text × TableJoin) → ExpressionCompiler Float → Compiled Float
  field_at name json (some kj) c =
      field_translated (translate_field_name kj.0 kj.1 name (activate kj.0 c.joins)) c
  field_at name json none c =
      if not json
      then give name c
      else if contains_byte 39 name
      then fail single_quotes c
      else give (fields_column ++ codes " @> '{\"" ++ name ++ codes "\"") c

  -- Field
  abbrev pub visit_field : Text → ExpressionCompiler Float → Compiled Float
  visit_field f c =
      let m = get_field_name c.joins f in
      if contains_byte 34 f
      then fail double_quotes c
      else if contains_byte 39 f
      then fail single_quotes c
      else field_at m.0 m.1 (find_handler m.0 c.joins) c

  -- IsNull
  abbrev pub visit_is_null : Text → ExpressionCompiler Float → Compiled Float
  visit_is_null f c =
      let m = get_field_name c.joins f in
      if m.1
      then give (codes "(" ++ fields_column ++ codes "->>'" ++ m.0 ++ codes "' IS NULL)") c
      else give (codes "(" ++ m.0 ++ codes " IS NULL)") c

  -- the results of the two sides, of which the second starts where the first ended
  abbrev pub joined : Text → Compiled Float → Compiled Float → Compiled Float
  joined op x y = record { result = combine op x.result y.result; compiler = y.compiler }

  -- e.(*criteria.FieldExpression), e.(*criteria.LiteralExpression) and v.(string)
  abbrev pub as_field : Expression Float → Option Text
  as_field (field f) = some f
  as_field _ = none

  abbrev pub as_literal : Expression Float → Option (Value Float)
  as_literal (literal v) = some v
  as_literal _ = none

  abbrev pub as_string : Value Float → Option Text
  as_string (str t) = some t
  as_string _ = none

  abbrev pub activate_found :
      Option (Text × TableJoin) → ExpressionCompiler Float → ExpressionCompiler Float
  activate_found none c = c
  activate_found (some kj) c = record c { joins = activate kj.0 c.joins }

  abbrev pub substring_translated :
      Translated × TableJoinMap → ExpressionCompiler Float → Compiled Float
  substring_translated (column_of t, joins) c = give t (record c { joins = joins })
  substring_translated (refused e, joins) c = fail (not_translated e) (record c { joins = joins })

  -- the end of Substring, outside a JSON context: the join is there
  abbrev pub substring_joined :
      Text → Option (Text × TableJoin) → ExpressionCompiler Float → Compiled Float
  substring_joined f none c = fail (not_translated JoinError.not_handled) c
  substring_joined f (some kj) c = substring_translated (translate_field_name kj.0 kj.1 f c.joins) c

  abbrev pub substring_text :
      Bool
      → Text
      → Option Text
      → Option (Text × TableJoin)
      → ExpressionCompiler Float
      → Compiled Float
  substring_text json f none join c = fail not_a_string c
  substring_text json f (some r) join c =
      if json
      then give_with (fields_column ++ codes "->>'" ++ f ++ codes "' ILIKE ?")
          (str (codes "%" ++ r ++ codes "%")) c
      else substring_joined f join c

  abbrev pub substring_right :
      Bool
      → Text
      → Option (Value Float)
      → Option (Text × TableJoin)
      → ExpressionCompiler Float
      → Compiled Float
  substring_right json f none join c = fail not_a_literal c
  substring_right json f (some v) join c = substring_text json f (as_string v) join c

  -- Substring, when the context is JSON or the field is of a joined table
  abbrev pub substring_special :
      Bool
      → Option Text
      → Option (Value Float)
      → Option (Text × TableJoin)
      → ExpressionCompiler Float
      → Compiled Float
  substring_special json none r join c = fail not_a_field c
  substring_special json (some f) r join c =
      if contains_byte 39 f then fail single_quotes c else substring_right json f r join c

  abbrev pub child_of : Text → Text → ExpressionCompiler Float → Compiled Float
  child_of f r c =
      if contains_byte 39 r
      then fail single_quotes_in_value c
      else if eqb_text f (codes "system.iteration")
      then give_with (child_clause f (codes "iter") (codes "iterations")) (str r)
          (record c { joins = activate (codes "iteration") c.joins })
      else if eqb_text f (codes "system.area")
      then give_with (child_clause f (codes "ar") (codes "areas")) (str r)
          (record c { joins = activate (codes "area") c.joins })
      else fail invalid_child_field c

  abbrev pub child_text : Text → Option Text → ExpressionCompiler Float → Compiled Float
  child_text f none c = fail not_a_string c
  child_text f (some r) c = child_of f r c

  abbrev pub child_right : Text → Option (Value Float) → ExpressionCompiler Float → Compiled Float
  child_right f none c = fail not_a_literal c
  child_right f (some v) c = child_text f (as_string v) c

  -- Child
  abbrev pub visit_child :
      Option Text → Option (Value Float) → ExpressionCompiler Float → Compiled Float
  visit_child none r c = fail not_a_field c
  visit_child (some f) r c = if contains_byte 39 f then fail single_quotes c else child_right f r c

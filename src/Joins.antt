-- ===== src/Joins.antt =====
-- TableJoin and TableJoinMap of workitem/table_join.go. The map is the list of its keys with their
-- joins, in the order in which a range over it meets them; a join that another delegates to is named
-- by its key, so that both share it. The dialect, which knows the columns of a table, is a parameter.
pub mod Defaults
pub mod Activation
pub mod Ordering
use almighty_core.Prelude.{
  ℕ, zero, suc, ◌==◌, Bool, true, false, not, ◌||◌, Option, none, some, List, [], ◌∷◌, ◌++◌, length,
  if◌then◌else◌,
}
use almighty_core.Prelude.Texts.{
  Text, codes, eqb_text, mem_text, contains_byte, has_prefix, trim_prefix, trim_left, trim_right,
}

pub record TableJoin : Type 0 where
  pub active : Bool
  pub table_name : Text
  pub table_alias : Text
  pub on_clause : Text
  pub where_clause : Text
  pub prefix_activators : List Text
  pub allowed_columns : List Text
  pub disallowed_columns : List Text
  pub handled_fields : List Text
  pub activate_other_joins : List Text
  -- a prefix, and the key of the join or nil
  pub delegate_to : List (Text × Option Text)

abbrev pub TableJoinMap : Type 0
TableJoinMap = List (Text × TableJoin)

-- the message of an error, without its arguments
pub data JoinError : Type 0 where
  not_handled empty_column single_quote nil_delegate column_not_allowed : JoinError

pub data Translated : Type 0 where
  column_of : Text → Translated
  refused : JoinError → Translated

-- joins[name]
abbrev pub find_join : Text → TableJoinMap → Option TableJoin
find_join name [] = none
find_join name (kj ∷ joins) = if eqb_text kj.0 name then some kj.1 else find_join name joins

abbrev pub keys : TableJoinMap → List Text
keys [] = []
keys (kj ∷ joins) = kj.0 ∷ keys joins

-- a change to the join of a key
abbrev pub update : Text → (TableJoin → TableJoin) → TableJoinMap → TableJoinMap
update name f [] = []
update name f (kj ∷ joins) =
    (kj.0, if eqb_text kj.0 name then f kj.1 else kj.1) ∷ update name f joins

abbrev pub activate : Text → TableJoinMap → TableJoinMap
activate name = update name (λ j. record j { active = true })

-- fmt.Sprintf(`"%s"."%s"`, table, column), of workitem/expression_compiler.go
unfoldable pub column : Text → Text → Text
column table name = codes "\"" ++ table ++ codes "\".\"" ++ name ++ codes "\""

abbrev pub work_items : Text
work_items = codes "work_items"

-- `%[1]s @> concat('{"%[2]s": "', %[3]s, '"}')::jsonb`
unfoldable pub join_on_json_field : Text → Text → Text
unfolding column
join_on_json_field json_field foreign_col =
    column work_items (codes "fields")
    ++ codes " @> concat('{\""
    ++ json_field
    ++ codes "\": \"', "
    ++ foreign_col
    ++ codes ", '\"}')::jsonb"

unfoldable pub get_join_expression : TableJoin → Text
get_join_expression j =
    codes "LEFT JOIN "
    ++ j.table_name
    ++ codes " \""
    ++ j.table_alias
    ++ codes "\" ON "
    ++ j.on_clause

-- Validate: the first handled field that is neither allowed nor a column of the table is an error
abbrev pub unknown_column : (Text → Text → Bool) → TableJoin → List Text → Bool
unknown_column has_column j [] = false
unknown_column has_column j (f ∷ fs) =
    not (mem_text f j.allowed_columns || has_column j.table_name f)
    || unknown_column has_column j fs

unfoldable pub is_valid_join : (Text → Text → Bool) → TableJoin → Bool
is_valid_join has_column j =
    not (if j.active then unknown_column has_column j j.handled_fields else false)

-- whether a prefix of the list begins the name
abbrev pub some_prefix : Text → List Text → Bool
some_prefix field_name [] = false
some_prefix field_name (t ∷ ts) = has_prefix field_name t || some_prefix field_name ts

abbrev pub handles_field_name : TableJoin → Text → Bool
handles_field_name j field_name = some_prefix field_name j.prefix_activators

-- the first prefix that begins the name, or ""
abbrev pub first_prefix : Text → List Text → Text
first_prefix field_name [] = []
first_prefix field_name (t ∷ ts) = if has_prefix field_name t then t else first_prefix field_name ts

abbrev pub first_delegate : Text → List (Text × Option Text) → Option (Option Text)
first_delegate field_name [] = none
first_delegate field_name (d ∷ ds) =
    if has_prefix field_name d.0 then some d.1 else first_delegate field_name ds

abbrev pub no_columns : List Text → Bool
no_columns [] = true
no_columns (c ∷ cs) = false

abbrev pub column_is_allowed : TableJoin → Text → Bool
column_is_allowed j col =
    if mem_text col j.disallowed_columns
    then false
    else no_columns j.allowed_columns || mem_text col j.allowed_columns

abbrev pub is_empty_text : Text → Bool
is_empty_text [] = true
is_empty_text (c ∷ s) = false

-- the delegator, once it is found
abbrev pub translate_at : Text → Text → TableJoin → TableJoinMap → Translated × TableJoinMap
translate_at key col delegator joins =
    if column_is_allowed delegator col
    then (
      column_of (column delegator.table_alias col),
      update key (λ j. record j { handled_fields = j.handled_fields ++ col ∷ [] }) joins,
    )
    else (refused column_not_allowed, joins)

-- a key that the map does not have stands for a nil pointer too
abbrev pub translate_by : Text → Text → Option TableJoin → TableJoinMap → Translated × TableJoinMap
translate_by key col none joins = (refused nil_delegate, joins)
translate_by key col (some d) joins = translate_at key col d joins

abbrev pub delegated :
    Text → Text → TableJoin → Option (Option Text) → TableJoinMap → Translated × TableJoinMap
delegated key col j none joins = translate_at key col j joins
delegated key col j (some none) joins = (refused nil_delegate, joins)
delegated key col j (some (some other)) joins =
    translate_by other col (find_join other joins) (activate other joins)

-- TranslateFieldName of the join `j`, which stands under `key`
unfoldable pub translate_field_name :
    Text → TableJoin → Text → TableJoinMap → Translated × TableJoinMap
unfolding trim_left trim_right
translate_field_name key j field_name joins =
    if not (handles_field_name j field_name)
    then (refused not_handled, joins)
    else let col =
        trim_right
          (trim_left (trim_prefix field_name (first_prefix field_name j.prefix_activators))) in
      if is_empty_text col
      then (refused empty_column, activate key joins)
      else if contains_byte 39 col
      then (refused single_quote, activate key joins)
      else delegated key col j (first_delegate field_name j.delegate_to) (activate key joins)

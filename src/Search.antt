-- ===== src/Search.antt =====
-- Query and generateExpression of search/search_repository.go. A value of error type is that of a bad
-- parameter in each case.
pub mod Meaning
pub mod Filled
pub mod Parsing
use almighty_core.Prelude.{
  Bool, true, false, not, ◌||◌, Option, none, some, List, [], ◌∷◌, ◌++◌, if◌then◌else◌,
}
use almighty_core.Prelude.Texts.{Text, codes, eqb_text, mem_text, lookup_text}
use almighty_core.Field.Value.{Value, str, strings, Outcome, ok, err, panic, ◌>>=◌}
use almighty_core.Criteria.{
  BinaryOperator, Expression, field, literal, is_null, binary, op_and, op_or, op_equals,
  op_substring, op_not, op_child,
}
use almighty_core.Joins.{TableJoin}
use almighty_core.Joins.Defaults.{default_table_joins}
use almighty_core.Compiler.{find_handler}

-- the fields of a Query, without the children and the options
pub record Node : Type 0 where
  pub name : Text
  pub value : Option Text
  pub negate : Bool
  pub substring : Bool
  pub child : Bool

mutual
  pub data Query : Type 0 where
    query : Node → Queries → Query

  pub data Queries : Type 0 where
    no_query : Queries
    more : Query → Queries → Queries

abbrev pub op_text_and : Text
op_text_and = codes "$AND"

abbrev pub op_text_or : Text
op_text_or = codes "$OR"

abbrev pub opts : Text
opts = codes "$OPTS"

abbrev pub is_operator : Text → Bool
is_operator s = eqb_text s op_text_and || eqb_text s op_text_or

abbrev pub search_key_map : List (Text × Text)
search_key_map =
    (codes "area", codes "system.area")
    ∷ (codes "iteration", codes "system.iteration")
    ∷ (codes "assignee", codes "system.assignees")
    ∷ (codes "title", codes "system.title")
    ∷ (codes "creator", codes "system.creator")
    ∷ (codes "label", codes "system.labels")
    ∷ (codes "state", codes "system.state")
    ∷ (codes "boardcolumn", codes "system.boardcolumns")
    ∷ (codes "type", codes "Type")
    ∷ (codes "workitemtype", codes "Type")
    ∷ (codes "space", codes "SpaceID")
    ∷ (codes "number", codes "Number")
    ∷ []

abbrev name_of : Query → Text
name_of (query n cs) = n.name

-- the key of a name, and no error: one of the default joins that handles the name takes it as it is
abbrev pub key_of : Text → Option Text → Option (Text × TableJoin) → Outcome Text
key_of name found (some kj) = ok name
key_of name (some key) none = ok key
key_of name none none = err

module _ {Float : Type 0} where
  unfoldable pub determine_literal_type : Text → Text → Expression Float
  determine_literal_type key val =
      if mem_text key (
        codes "system.assignees"
        ∷ codes "system.labels"
        ∷ codes "system.boardcolumns"
        ∷ codes "Board"
        ∷ [])
      then literal (strings (val ∷ []))
      else literal (str val)

  abbrev pub compared : Node → Text → Expression Float → Expression Float
  compared n key right =
      if n.negate
      then binary op_not (field key) right
      else if n.substring
      then binary op_substring (field key) right
      else if n.child
      then binary op_child (field key) right
      else binary op_equals (field key) right

  abbrev pub comparison : Node → Text → Option Text → Outcome (Expression Float)
  comparison n key (some v) = ok (compared n key (determine_literal_type key v))
  comparison n key none = if n.negate then err else ok (is_null key)

  -- the expression of a name that is no operator
  unfoldable pub leaf_expression : Node → Outcome (Expression Float)
  leaf_expression n =
      key_of n.name (lookup_text n.name search_key_map) (find_handler n.name default_table_joins)
      >>= λ key. comparison n key n.value

  -- the loop of an operator over the expressions, which nil may be among: criteria.And and criteria.Or
  -- panic where the right side is nil
  abbrev pub join_all :
      BinaryOperator
      → Option (Expression Float)
      → List (Option (Expression Float))
      → Outcome (Option (Expression Float))
  join_all op res [] = ok res
  join_all op none (e ∷ es) = join_all op e es
  join_all op (some r) (some e ∷ es) = join_all op (some (binary op r e)) es
  join_all op (some r) (none ∷ es) = panic

  abbrev pub first_of :
      Option (Expression Float) → List (Option (Expression Float)) → Option (Expression Float)
  first_of res [] = res
  first_of none (e ∷ es) = first_of e es
  first_of (some r) (e ∷ es) = first_of (some r) es

  abbrev pub join_by : Text → List (Option (Expression Float)) → Outcome (Option (Expression Float))
  join_by name es =
      if eqb_text name op_text_and
      then join_all op_and none es
      else if eqb_text name op_text_or
      then join_all op_or none es
      else ok (first_of none es)

  -- the expression of the node itself, unless it is an operator
  abbrev pub own_expression : Node → Outcome (List (Option (Expression Float)))
  own_expression n =
      if not (is_operator n.name) || eqb_text n.name opts
      then (leaf_expression n >>= λ e. ok (some e ∷ []))
      else ok []

  abbrev pub one_more :
      Option (Expression Float)
      → List (Option (Expression Float))
      → Outcome (List (Option (Expression Float)))
  one_more e es = ok (e ∷ es)

  abbrev pub leaf_of : Query → Outcome (Option (Expression Float))
  leaf_of (query n cs) = leaf_expression n >>= λ e. ok (some e)

  unfoldable mutual
    -- generateExpression; an answer with no error may be nil
    pub generate_expression : Query → Outcome (Option (Expression Float))
    generate_expression (query n cs) =
        own_expression n >>= λ own. generate_children n.name cs >>= λ es. join_by n.name (own ++ es)

    pub generate_children : Text → Queries → Outcome (List (Option (Expression Float)))
    generate_children name no_query = ok []
    generate_children name (more q qs) =
        let sub = generate_expression q in
        (if is_operator (name_of q) || eqb_text name opts then sub else leaf_of q) >>= λ e.
        generate_children name qs >>= one_more e

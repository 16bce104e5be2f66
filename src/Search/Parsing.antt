-- ===== src/Search/Parsing.antt =====
-- parseMap, parseArray, parseOptions and ParseFilterString of search/search_repository.go, after the
-- text was decoded: a JSON object is the list of its entries in the order in which a range meets them.
pub mod Written
use almighty_core.Prelude.{
  Bool, true, false, not, ◌&&◌, ◌||◌, Option, none, some, List, [], ◌∷◌, if◌then◌else◌,
}
use almighty_core.Prelude.Texts.{Text, codes, eqb_text}
use almighty_core.Field.Value.{
  Value, nil, bool, str, slice, dict, Values, end, item, Entries, no_entry, entry, Outcome, ok, err,
  panic, ◌>>=◌, lookup,
}
use almighty_core.Criteria.{Expression}
use almighty_core.Search.{
  Node, Query, Queries, query, no_query, more, op_text_or, opts, generate_expression,
}

pub record QueryOptions : Type 0 where
  pub tree_view : Bool
  pub parent_exists : Bool

-- the query that parseMap fills, with childSet
pub record Parsed : Type 0 where
  pub node : Node
  pub children : Queries
  pub child_set : Bool

abbrev pub empty_node : Node
empty_node = record { name = []; value = none; negate = false; substring = false; child = false }

abbrev pub new_query : Parsed
new_query = record { node = empty_node; children = no_query; child_set = false }

abbrev pub append_query : Queries → Query → Queries
append_query no_query q = more q no_query
append_query (more p qs) q = more p (append_query qs q)

abbrev pub with_child : Text → Bool → Bool → Bool
with_child key child_set child =
    if eqb_text key (codes "iteration") || eqb_text key (codes "area")
    then (if child_set then child else true)
    else child

-- the flags: another name of a Boolean is passed over
abbrev pub parse_bool : Text → Bool → Parsed → Parsed
parse_bool key b q =
    if eqb_text key (codes "negate")
    then record q { node = record q.node { negate = b } }
    else if eqb_text key (codes "child")
    then record q { node = record q.node { child = b }; child_set = true }
    else q

abbrev pub children_in : Parsed → Queries → Outcome Parsed
children_in q qs = ok (record q { node = record q.node { name = op_text_or }; children = qs })

abbrev pub named : Text → Parsed → Parsed
named key q = record q { node = record q.node { name = key } }

abbrev pub with_children : Parsed → Queries → Outcome Parsed
with_children q qs = ok (record q { children = qs })

abbrev pub append_parsed : Queries → Parsed → Outcome Queries
append_parsed qs q = ok (append_query qs (query q.node q.children))

module _ {Float : Type 0} where
  -- the values of $IN: v.([]interface{}) and vl.(string)
  abbrev pub parse_in : Text → Values Float → Queries → Outcome Queries
  parse_in key end qs = ok qs
  parse_in key (item (str t) vs) qs =
      parse_in key vs
        (append_query qs (query (record empty_node { name = key; value = some t }) no_query))
  parse_in key (item v vs) qs = panic

  abbrev pub parse_eq : Value Float → Parsed → Parsed
  parse_eq (str t) q = record q { node = record q.node { value = some t } }
  parse_eq nil q = record q { node = record q.node { value = none } }
  parse_eq v q = q

  abbrev pub parse_ne : Value Float → Parsed → Outcome Parsed
  parse_ne (str t) q = ok (record q { node = record q.node { value = some t; negate = true } })
  parse_ne v q = panic

  abbrev pub parse_substr : Value Float → Parsed → Outcome Parsed
  parse_substr (str t) q =
      ok (record q { node = record q.node { value = some t; substring = true } })
  parse_substr v q = panic

  abbrev pub parse_list : Text → Value Float → Parsed → Outcome Parsed
  parse_list key (slice vs) q = parse_in key vs q.children >>= children_in q
  parse_list key v q = panic

  abbrev substr_or_none : Option (Value Float) → Parsed → Outcome Parsed
  substr_or_none (some v) q = parse_substr v q
  substr_or_none none q = ok q

  abbrev ne_or_else : Option (Value Float) → Outcome Parsed → Parsed → Outcome Parsed
  ne_or_else (some v) other q = parse_ne v q
  ne_or_else none other q = other

  abbrev eq_or_else : Option (Value Float) → Outcome Parsed → Parsed → Outcome Parsed
  eq_or_else (some v) other q = ok (parse_eq v q)
  eq_or_else none other q = other

  abbrev in_or_else : Text → Option (Value Float) → Outcome Parsed → Parsed → Outcome Parsed
  in_or_else key (some v) other q = parse_list key v q
  in_or_else key none other q = other

  -- an object of operators on the key: the first of $IN, $EQ, $NE and $SUBSTR that it has
  unfoldable pub parse_operators : Text → Entries Float → Parsed → Outcome Parsed
  parse_operators key m q =
      in_or_else key (lookup (codes "$IN") m)
        (eq_or_else (lookup (codes "$EQ") m)
          (ne_or_else (lookup (codes "$NE") m) (substr_or_none (lookup (codes "$SUBSTR") m) q) q) q)
        q

  unfoldable mutual
    pub parse_map : Entries Float → Parsed → Outcome Parsed
    parse_map no_entry q = ok q
    parse_map (entry key val m) q = parse_value key val q >>= parse_map m

    -- one round of the loop
    pub parse_value : Text → Value Float → Parsed → Outcome Parsed
    parse_value key (slice vs) q = parse_array vs q.children >>= with_children (named key q)
    parse_value key (str s) q = ok (record q {
      node = record q.node {
        name = key;
        value = some s;
        child = with_child key q.child_set q.node.child;
      };
    })
    parse_value key (bool b) q = ok (parse_bool key b q)
    parse_value key nil q = ok (record q { node = record q.node { name = key; value = none } })
    parse_value key (dict m) q =
        if eqb_text key opts then ok q else parse_operators key m (named key q)
    parse_value key v q = ok q

    pub parse_array : Values Float → Queries → Outcome Queries
    parse_array end qs = ok qs
    parse_array (item (dict m) vs) qs =
        parse_map m new_query >>= append_parsed qs >>= parse_array vs
    parse_array (item v vs) qs = parse_array vs qs

  abbrev pub parse_query : Entries Float → Outcome Query
  parse_query m = parse_map m new_query >>= λ q. ok (query q.node q.children)

  -- the options of an object, whose values are v.(bool)
  abbrev pub option_value : Text → Value Float → QueryOptions → Outcome QueryOptions
  option_value k (bool b) o =
      if eqb_text k (codes "parent-exists")
      then ok (record o { parent_exists = b })
      else if eqb_text k (codes "tree-view")
      then ok (record o { tree_view = b })
      else ok o
  option_value k v o =
      if eqb_text k (codes "parent-exists") || eqb_text k (codes "tree-view") then panic else ok o

  abbrev pub option_values : Entries Float → QueryOptions → Outcome QueryOptions
  option_values no_entry o = ok o
  option_values (entry k v m) o = option_value k v o >>= option_values m

  abbrev pub options_of : Option (Value Float) → Outcome (Option QueryOptions)
  options_of (some (dict m)) =
      option_values m (record { tree_view = false; parent_exists = false }) >>= λ o. ok (some o)
  options_of v = ok none

  unfoldable pub parse_options : Entries Float → Outcome (Option QueryOptions)
  parse_options m = options_of (lookup opts m)

  unfoldable pub parse_filter :
      Entries Float → Outcome (Option (Expression Float) × Option QueryOptions)
  parse_filter m =
      parse_query m >>= λ q. parse_options m >>= λ o. generate_expression q >>= λ e. ok (e, o)

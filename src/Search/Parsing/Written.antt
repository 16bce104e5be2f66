-- ===== src/Search/Parsing/Written.antt =====
-- Filters as they are written, and what parseMap of search/search_repository.go reads of them.
use almighty_core.Prelude.{◌≡◌, refl, ap, Bool, true, false, ◌||◌, some}
use almighty_core.Prelude.Texts.{Text, codes, eqb_text}
use almighty_core.Field.Value.{
  Value, nil, str, slice, dict, Values, end, item, Entries, no_entry, entry, ok,
}
use almighty_core.Search.{Node, Query, Queries, query, no_query, more, opts}
use almighty_core.Search.Parsing.{
  Parsed, empty_node, new_query, append_query, parse_operators, parse_map, parse_value, parse_array,
  parse_query,
}

-- the name has a word of its own for parts: the items under the iteration or the area
abbrev pub has_child_form : Text → Bool
has_child_form name = eqb_text name (codes "iteration") || eqb_text name (codes "area")

-- A filter: a name with a condition, or a name with filters.
pub data Condition : Type 0 where
  is_missing : Condition
  is_child is_equal is_not_equal is_like : Text → Condition

mutual
  pub data Filter : Type 0 where
    compare_to : Text → Condition → Filter
    all_or_any : Text → Filters → Filter

  pub data Filters : Type 0 where
    no_filter : Filters
    and_filter : Filter → Filters → Filters

module _ {Float : Type 0} where
  abbrev condition_value : Condition → Value Float
  condition_value is_missing = nil
  condition_value (is_child t) = str t
  condition_value (is_equal t) = dict (entry (codes "$EQ") (str t) no_entry)
  condition_value (is_not_equal t) = dict (entry (codes "$NE") (str t) no_entry)
  condition_value (is_like t) = dict (entry (codes "$SUBSTR") (str t) no_entry)

  unfoldable mutual
    -- the JSON object of a filter
    pub write : Filter → Entries Float
    write (compare_to name c) = entry name (condition_value c) no_entry
    write (all_or_any name fs) = entry name (slice (write_all fs)) no_entry

    pub write_all : Filters → Values Float
    write_all no_filter = end
    write_all (and_filter f fs) = item (dict (write f)) (write_all fs)

abbrev condition_node : Text → Condition → Node
condition_node name is_missing = record empty_node { name = name }
condition_node name (is_child t) = record empty_node { name = name; value = some t; child = true }
condition_node name (is_equal t) = record empty_node { name = name; value = some t }
condition_node name (is_not_equal t) = record empty_node {
  name = name;
  value = some t;
  negate = true;
}
condition_node name (is_like t) = record empty_node {
  name = name;
  value = some t;
  substring = true;
}

unfoldable mutual
  -- the query that a filter stands for
  pub query_of : Filter → Query
  query_of (compare_to name c) = query (condition_node name c) no_query
  query_of (all_or_any name fs) = query (record empty_node { name = name }) (queries_of fs)

  pub queries_of : Filters → Queries
  queries_of no_filter = no_query
  queries_of (and_filter f fs) = more (query_of f) (queries_of fs)

-- A name with a condition is not $OPTS, and has the form for parts where the condition has it.
abbrev IsNamed : Text → Condition → Type 0
IsNamed name (is_child t) = has_child_form name ≡ true
IsNamed name c = eqb_text name opts ≡ false

unfoldable mutual
  pub IsWritten : Filter → Type 0
  IsWritten (compare_to name c) = IsNamed name c
  IsWritten (all_or_any name fs) = AreWritten fs

  pub AreWritten : Filters → Type 0
  AreWritten no_filter = Unit {0}
  AreWritten (and_filter f fs) = IsWritten f × AreWritten fs

abbrev concat_queries : Queries → Queries → Queries
concat_queries no_query rest = rest
concat_queries (more q qs) rest = more q (concat_queries qs rest)

concat_queries-end : (qs : Queries) → concat_queries qs no_query ≡ qs
concat_queries-end no_query = refl
concat_queries-end (more q qs) = ap (more q) (concat_queries-end qs)

concat_queries-append :
    (qs : Queries) (q : Query) (rest : Queries)
    → concat_queries (append_query qs q) rest ≡ concat_queries qs (more q rest)
concat_queries-append no_query q rest = refl
concat_queries-append (more p qs) q rest = ap (more p) (concat_queries-append qs q rest)

-- what parseMap leaves of a query
abbrev parsed_of : Query → Parsed
parsed_of (query n cs) = record { node = n; children = cs; child_set = false }

query_parsed : (q : Query) → query (parsed_of q).node (parsed_of q).children ≡ q
query_parsed (query n cs) = refl

module _ (Float : Type 0) where
  value-condition :
      (name : Text) (c : Condition)
      → IsNamed name c
      → parse_value {Float = Float} name (condition_value c) new_query
        ≡ ok (record new_query { node = condition_node name c })
  unfolding parse_value parse_operators
  value-condition name is_missing h = refl
  value-condition name (is_child t) h = rw h refl
  value-condition name (is_equal t) h = rw h refl
  value-condition name (is_not_equal t) h = rw h refl
  value-condition name (is_like t) h = rw h refl

  mutual
    unfolding write query_of IsWritten parse_map

    map-write :
        (f : Filter)
        → IsWritten f
        → parse_map {Float = Float} (write f) new_query ≡ ok (parsed_of (query_of f))
    map-write (compare_to name c) h = rw (value-condition name c h) refl
    map-write (all_or_any name fs) h = rw (array-write fs no_query h) refl

    array-write :
        (fs : Filters) (qs : Queries)
        → AreWritten fs
        → parse_array {Float = Float} (write_all fs) qs ≡ ok (concat_queries qs (queries_of fs))
    array-write no_filter qs h = rw (concat_queries-end qs) refl
    array-write (and_filter f fs) qs h =
        rw
          (
            map-write f h.0,
            query_parsed (query_of f),
            ← concat_queries-append qs (query_of f) (queries_of fs),
          )
          (array-write fs (append_query qs (query_of f)) h.1)

  -- A filter that was written out is read back as the query that it stands for, whatever its depth.
  -- The conditions: no name with a condition is $OPTS, and only an iteration and an area have the
  -- form that asks for the parts.
  pub parse_query-write :
      (f : Filter) → IsWritten f → parse_query {Float = Float} (write f) ≡ ok (query_of f)
  parse_query-write f h = rw (map-write f h) (ap ok (query_parsed (query_of f)))

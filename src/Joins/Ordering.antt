-- ===== src/Joins/Ordering.antt =====
-- GetOrderdActivatedJoins and visitDepthFirst of workitem/table_join.go. A join is visited once, so
-- the number of joins bounds the depth: the fuel. A join is known by its key.
pub mod Visited
pub mod Visits
pub mod Topological
use almighty_core.Prelude.{
  ℕ, zero, suc, Bool, true, false, Option, none, some, List, [], ◌∷◌, ◌++◌, length, if◌then◌else◌,
}
use almighty_core.Prelude.Texts.{Text, mem_text}
use almighty_core.Joins.{TableJoin, TableJoinMap, find_join, keys}
use almighty_core.Joins.Activation.{
  Walk, walked, not_found, out_of_fuel, ◌>>=◌, activate_required_joins,
}

-- activationOrderer, without the map
pub record ActivationOrderer : Type 0 where
  pub already_visited : List Text
  pub ordered_activated_joins : List Text

-- for _, subJoinName := range j.ActivateOtherJoins
abbrev pub visit_names :
    (Text → ActivationOrderer → Walk ActivationOrderer)
    → List Text
    → ActivationOrderer
    → Walk ActivationOrderer
visit_names visit [] o = walked o
visit_names visit (name ∷ names) o = visit name o >>= visit_names visit names

abbrev pub add_joined : Text → ActivationOrderer → Walk ActivationOrderer
add_joined name o =
    walked (record o { ordered_activated_joins = o.ordered_activated_joins ++ name ∷ [] })

abbrev pub visit_found :
    (Text → ActivationOrderer → Walk ActivationOrderer)
    → Text
    → Option TableJoin
    → ActivationOrderer
    → Walk ActivationOrderer
visit_found visit name none o = not_found
visit_found visit name (some j) o =
    let marked = record o { already_visited = name ∷ o.already_visited } in
    if mem_text name o.already_visited
    then walked o
    else if j.active
    then visit_names visit j.activate_other_joins marked >>= add_joined name
    else walked marked

abbrev pub visit_depth_first : ℕ → TableJoinMap → Text → ActivationOrderer → Walk ActivationOrderer
visit_depth_first zero joins name o = out_of_fuel
visit_depth_first (suc n) joins name o =
    visit_found (visit_depth_first n joins) name (find_join name joins) o

abbrev pub new_orderer : ActivationOrderer
new_orderer = record { already_visited = []; ordered_activated_joins = [] }

abbrev pub ordered_joins : ActivationOrderer → Walk (List Text)
ordered_joins o = walked o.ordered_activated_joins

-- the loop of GetOrderdActivatedJoins, on joins of which the required ones are active
unfoldable pub order_joins : TableJoinMap → Walk (List Text)
order_joins joins =
    visit_names (visit_depth_first (suc (length joins)) joins) (keys joins) new_orderer
    >>= ordered_joins

unfoldable pub get_ordered_activated_joins : TableJoinMap → Walk (List Text × TableJoinMap)
get_ordered_activated_joins joins =
    activate_required_joins joins >>= λ js. order_joins js >>= λ names. walked (names, js)

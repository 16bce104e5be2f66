-- ===== src/Link/Ancestors.antt =====
-- GetAncestors of workitem/link/link_repository.go, whose query climbs the links of one type, and
-- AncestorList of ancestor.go. UNION drops rows that are equal to earlier ones: there are none where
-- the ids of the links differ, since a row holds the ids of the links that led to it.
pub mod Bounded
pub mod Complete
use almighty_core.Prelude.{
  ℕ, zero, suc, Bool, true, false, not, ◌&&◌, ◌||◌, Option, none, some, List, [], ◌∷◌, ◌++◌, ◌==◌,
  length, ltb, select, flat_map, if◌then◌else◌,
}
use almighty_core.Prelude.Int.{ℤ, pos, negsuc}
use almighty_core.Link.{WorkItemLink, is_live}

-- a row of the working table, its already_visited with the newest first
pub record Row : Type 0 where
  pub id : ℕ
  pub ancestor : ℕ
  pub direct_child : ℕ
  pub original_child : ℕ
  pub already_visited : List ℕ
  pub cycle : Bool

pub record Ancestor : Type 0 where
  pub id : ℕ
  pub direct_child_id : ℕ
  pub original_child_id : ℕ
  pub is_root : Bool
  pub level : ℕ

-- id = ANY(ids)
abbrev pub elem : ℕ → List ℕ → Bool
elem x [] = false
elem x (y ∷ ys) = (x == y) || elem x ys

-- the level limitation, if any: array_length(already_visited, 1) < upToLevel
abbrev within : ℤ → List ℕ → Bool
within (pos n) ids = ltb (length ids) n
within (negsuc n) ids = true

module _ (links : List WorkItemLink) (link_type_id : ℕ) where
  abbrev pub counts : WorkItemLink → Bool
  counts l = (l.link_type_id == link_type_id) && is_live l

  abbrev pub first_row : WorkItemLink → Row
  first_row l = record {
    id = l.id;
    ancestor = l.source_id;
    direct_child = l.target_id;
    original_child = l.target_id;
    already_visited = l.id ∷ [];
    cycle = false;
  }

  abbrev pub next_row : Row → WorkItemLink → Row
  next_row w l = record {
    id = l.id;
    ancestor = l.source_id;
    direct_child = l.target_id;
    original_child = w.original_child;
    already_visited = l.id ∷ w.already_visited;
    cycle = elem l.id w.already_visited;
  }

  -- the non recursive term
  unfoldable pub first_rows : List ℕ → List Row
  first_rows ids = select (λ l. elem l.target_id ids && counts l) first_row links

  abbrev pub joins : ℤ → Row → WorkItemLink → Bool
  joins up_to_level w l =
      (l.target_id == w.ancestor)
      && (counts l && (not w.cycle && within up_to_level w.already_visited))

  -- the recursive term, on the rows that the last round added
  unfoldable pub next_rows : ℤ → List Row → List Row
  next_rows up_to_level rows = flat_map (λ w. select (joins up_to_level w) (next_row w) links) rows

  unfoldable pub rounds : ℕ → ℤ → List Row → List Row
  rounds zero up_to_level rows = []
  rounds (suc fuel) up_to_level rows = rows ++ rounds fuel up_to_level (next_rows up_to_level rows)

  -- a round for each link, and one more, leave no row to climb from
  unfoldable pub working_table : ℤ → List ℕ → List Row
  working_table up_to_level ids = rounds (suc (length links)) up_to_level (first_rows ids)

  -- NOT EXISTS of a link to the ancestor, deleted or not
  abbrev no_parent : List WorkItemLink → ℕ → Bool
  no_parent [] ancestor = true
  no_parent (l ∷ ls) ancestor =
      not ((l.target_id == ancestor) && (l.link_type_id == link_type_id)) && no_parent ls ancestor

  abbrev pub to_ancestor : Row → Ancestor
  to_ancestor w = record {
    id = w.ancestor;
    direct_child_id = w.direct_child;
    original_child_id = w.original_child;
    is_root = no_parent links w.ancestor;
    level = length w.already_visited;
  }

  abbrev pub to_ancestors : List Row → List Ancestor
  to_ancestors [] = []
  to_ancestors (w ∷ ws) = to_ancestor w ∷ to_ancestors ws

  -- upToLevel <= 0 && upToLevel != AncestorLevelAll, which is -1
  abbrev no_level : ℤ → Bool
  no_level (pos zero) = true
  no_level (negsuc (suc n)) = true
  no_level _ = false

  unfoldable pub get_ancestors : ℤ → List ℕ → List Ancestor
  get_ancestors up_to_level [] = []
  get_ancestors up_to_level (i ∷ ids) =
      if no_level up_to_level then [] else to_ancestors (working_table up_to_level (i ∷ ids))

unfoldable pub get_parent_of : List Ancestor → ℕ → Option Ancestor
get_parent_of [] work_item_id = none
get_parent_of (a ∷ l) work_item_id =
    if a.direct_child_id == work_item_id then some a else get_parent_of l work_item_id

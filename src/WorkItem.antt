-- ===== src/WorkItem.antt =====
-- Reorder of workitem/workitem_repository.go, and what it calls, on the table of the work items, whose
-- rows stand in the order of their ids: gorm's First sorts by the primary key. gorm skips a deleted
-- row, but not in a subquery that is written out.
pub mod Reorder
pub mod Neighbours
pub mod Placement
pub mod Ends
pub mod Create
pub mod Newest
pub mod Names
pub mod Change
pub mod Save
use almighty_core.Prelude.{
  ℕ, suc, ◌≡◌, Bool, true, false, not, ◌&&◌, ◌||◌, Option, none, some, List, [], ◌∷◌, ◌==◌,
  if◌then◌else◌,
}
use almighty_core.Prelude.Texts.{Text, codes, eqb_text}
use almighty_core.Errors.{
  Class, bad_parameter_class, not_found_class, internal_class, version_conflict_class,
  conversion_class,
}
use almighty_core.Answer.{Answer, done, failed, panicked, ◌>>=◌}
use almighty_core.Field.Value.{
  Value, nil, float64, Entries, no_entry, entry, lookup, Platform, Outcome, ok, err, panic,
}
use almighty_core.Field.Definition as Definition
use almighty_core.Field.Definition.{FieldDefinition}

-- the float64 values of the orders: NaN, which no order is, is left out
pub record Orders (Float : Type 0) : Type 0 where
  pub zero : Float
  pub thousand : Float
  pub add : Float → Float → Float
  -- f / 2
  pub half : Float → Float
  -- f < g
  pub less : Float → Float → Bool
  pub less_irrefl : (f : Float) → less f f ≡ false
  pub less_trans : (f g h : Float) → less f g ≡ true → less g h ≡ true → less f h ≡ true
  pub less_total : (f g : Float) → less f g ≡ false → less g f ≡ false → f ≡ g

pub record WorkItemStorage (Float : Type 0) : Type 0 where
  pub id : ℕ
  pub number : ℕ
  pub space_id : ℕ
  pub type : ℕ
  pub version : ℕ
  pub fields : Entries Float
  pub execution_order : Float
  pub deleted : Bool

pub record WorkItem (Float : Type 0) : Type 0 where
  pub id : ℕ
  pub number : ℕ
  pub type : ℕ
  pub version : ℕ
  pub fields : Entries Float

-- a field of a work item type: its name and its definition
pub record TypeField (Float : Type 0) : Type 0 where
  pub name : Text
  pub definition : FieldDefinition Float

pub record WorkItemType (Float : Type 0) : Type 0 where
  pub type_id : ℕ
  pub name : Text
  pub can_construct : Bool
  pub space_template_id : ℕ
  pub fields : List (TypeField Float)

pub data DirectionType : Type 0 where
  direction_above direction_below direction_top direction_bottom : DirectionType
  direction_other : Text → DirectionType

abbrev pub system_order : Text
system_order = codes "system.order"

abbrev pub system_created_at : Text
system_created_at = codes "system.created_at"

abbrev pub is_other : DirectionType → Bool
is_other (direction_other d) = true
is_other _ = false

module _ {Float : Type 0} where
  abbrev pub find_row : List (WorkItemStorage Float) → ℕ → Option (WorkItemStorage Float)
  find_row [] id = none
  find_row (r ∷ rs) id = if (r.id == id) && not r.deleted then some r else find_row rs id

  abbrev pub find_type : List (WorkItemType Float) → ℕ → Option (WorkItemType Float)
  find_type [] id = none
  find_type (t ∷ ts) id = if t.type_id == id then some t else find_type ts id

  -- the value of the map, or nil
  abbrev pub value_at : Text → Entries Float → Value Float
  value_at key m = elim (lookup key m) [ none ↦ nil | some v ↦ v ]

  -- wi.Fields[SystemOrder].(float64)
  abbrev pub as_order : Value Float → Answer Float
  as_order (float64 f) = done f
  as_order _ = panicked

  abbrev pub order_of : WorkItem Float → Answer Float
  order_of wi = as_order (value_at system_order wi.fields)

  abbrev pub replace_row :
      ℕ → WorkItemStorage Float → List (WorkItemStorage Float) → List (WorkItemStorage Float)
  replace_row id new [] = []
  replace_row id new (r ∷ rs) = (if r.id == id then new else r) ∷ replace_row id new rs

  abbrev pub moved :
      WorkItemStorage Float → WorkItem Float → Float → Entries Float → WorkItemStorage Float
  moved res wi order m = record res {
    version = suc res.version;
    type = wi.type;
    fields = m;
    execution_order = order;
  }

module _ {Float : Type 0} (orders : Orders Float) where
  abbrev pub same_order : Float → Float → Bool
  same_order f g = not (orders.less f g) && not (orders.less g f)

  unfoldable pub calculate_order : Float → Float → Float
  calculate_order above below = orders.half (orders.add above below)

  abbrev pub greater : Float → Option Float → Option Float
  greater f none = some f
  greater f (some g) = if orders.less g f then some f else some g

  abbrev pub smaller : Float → Option Float → Option Float
  smaller f none = some f
  smaller f (some g) = if orders.less f g then some f else some g

  -- SELECT max(execution_order) FROM work_items WHERE p
  abbrev pub max_order :
      (WorkItemStorage Float → Bool) → List (WorkItemStorage Float) → Option Float
  max_order p [] = none
  max_order p (r ∷ rs) =
      let rest = max_order p rs in if p r then greater r.execution_order rest else rest

  abbrev pub min_order :
      (WorkItemStorage Float → Bool) → List (WorkItemStorage Float) → Option Float
  min_order p [] = none
  min_order p (r ∷ rs) =
      let rest = min_order p rs in if p r then smaller r.execution_order rest else rest

  -- the first row with that order that is not deleted, of whatever space
  abbrev pub first_with : List (WorkItemStorage Float) → Float → Option (WorkItemStorage Float)
  first_with [] f = none
  first_with (r ∷ rs) f =
      if same_order r.execution_order f && not r.deleted then some r else first_with rs f

  abbrev pub first_at : List (WorkItemStorage Float) → Option Float → Option (WorkItemStorage Float)
  first_at rows none = none
  first_at rows (some f) = first_with rows f

  unfoldable pub find_first_item : List (WorkItemStorage Float) → ℕ → ℕ → Option Float
  find_first_item [] space_id id = none
  find_first_item (r ∷ rs) space_id id =
      if (r.id == id) && ((r.space_id == space_id) && not r.deleted)
      then some r.execution_order
      else find_first_item rs space_id id

  -- FindSecondItem for DirectionAbove, and for DirectionBelow
  unfoldable pub item_below :
      List (WorkItemStorage Float) → Float → ℕ → Option (WorkItemStorage Float)
  item_below rows order space_id =
      first_at rows
        (max_order (λ r. (r.space_id == space_id) && orders.less r.execution_order order) rows)

  unfoldable pub item_above :
      List (WorkItemStorage Float) → Float → ℕ → Option (WorkItemStorage Float)
  item_above rows order space_id =
      first_at rows
        (min_order (λ r. (r.space_id == space_id) && orders.less order r.execution_order) rows)

  -- the item that LoadTopWorkitem finds, and that of LoadBottomWorkitem
  unfoldable pub top_item : List (WorkItemStorage Float) → ℕ → Option (WorkItemStorage Float)
  top_item rows space_id = first_at rows (max_order (λ r. r.space_id == space_id) rows)

  unfoldable pub bottom_item : List (WorkItemStorage Float) → ℕ → Option (WorkItemStorage Float)
  bottom_item rows space_id = first_at rows (min_order (λ r. r.space_id == space_id) rows)

  abbrev pub below_target : WorkItem Float → Float → Option (WorkItemStorage Float) → Answer Float
  below_target wi above none = done (calculate_order above orders.zero)
  below_target wi above (some r) =
      if r.id == wi.id then order_of wi else done (calculate_order above r.execution_order)

  abbrev pub above_target : WorkItem Float → Float → Option (WorkItemStorage Float) → Answer Float
  above_target wi below none = done (orders.add below orders.thousand)
  above_target wi below (some r) =
      if r.id == wi.id then order_of wi else done (calculate_order r.execution_order below)

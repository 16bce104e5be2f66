-- ===== src/Examples/Orders.antt =====
-- The order of work items at concrete inputs: orders are integers.
use almighty_core.Prelude.{
  ℕ, ◌≡◌, refl, true, false, not, List, [], ◌∷◌, arith, Member, here, there,
}
use almighty_core.Prelude.Int.{ℤ, pos, ltb_ℤ, ◌+ℤ◌, ◌/ℤ◌}
use almighty_core.Field.Value.{no_entry}
use almighty_core.WorkItem.{
  Orders, WorkItemStorage, WorkItem, WorkItemType, calculate_order, item_below, find_first_item,
}
use almighty_core.WorkItem.Reorder.{reorder, new_order, convert_fields}
use almighty_core.WorkItem.Placement.{reorder_below}
use almighty_core.WorkItem.{top_item}
use almighty_core.WorkItem.Ends.{reorder_top}
use almighty_core.Prelude.Texts.{codes}
use almighty_core.Field.Value.{nil, entry}
use almighty_core.Field.Kind.{kind_string}
use almighty_core.Field.Simple as Simple
use almighty_core.Field.Definition as Definition
use almighty_core.Field.Definition.{simple}
use almighty_core.Prelude.{some}
use almighty_core.WorkItem.{find_type}
use almighty_core.WorkItem.Create.{
  create, check_type_and_space_share_template, stored_fields, load_highest_order,
}
use almighty_core.WorkItem.Newest.{create_top}
use almighty_core.Examples.{platform}

pub ltb_ℤ_irrefl : (i : ℤ) → ltb_ℤ i i ≡ false
ltb_ℤ_irrefl i = ground arith

pub ltb_ℤ_trans : (i j k : ℤ) → ltb_ℤ i j ≡ true → ltb_ℤ j k ≡ true → ltb_ℤ i k ≡ true
ltb_ℤ_trans i j k a b = ground arith

pub ltb_ℤ_total : (i j : ℤ) → ltb_ℤ i j ≡ false → ltb_ℤ j i ≡ false → i ≡ j
ltb_ℤ_total i j a b = ground arith

abbrev pub whole : Orders ℤ
whole = record {
  zero = pos 0;
  thousand = pos 1000;
  add = ◌+ℤ◌;
  half = λ i. i /ℤ pos 2;
  less = ltb_ℤ;
  less_irrefl = ltb_ℤ_irrefl;
  less_trans = ltb_ℤ_trans;
  less_total = ltb_ℤ_total;
}

abbrev pub row : ℕ → ℕ → WorkItemStorage ℤ
row id order = record {
  id = id;
  number = id;
  space_id = 5;
  type = 6;
  version = 0;
  fields = no_entry;
  execution_order = pos order;
  deleted = false;
}

abbrev pub rows : List (WorkItemStorage ℤ)
rows = row 1 1000 ∷ row 2 2000 ∷ row 3 3000 ∷ []

abbrev lowest : WorkItem ℤ
lowest = record { id = 1; number = 1; type = 6; version = 0; fields = no_entry }

abbrev plain : WorkItemType ℤ
plain = record {
  type_id = 6;
  name = codes "Task";
  can_construct = true;
  space_template_id = 9;
  fields = [];
}

abbrev in_between : WorkItemStorage ℤ
in_between = record (row 1 2500) { version = 1 }

-- the lowest item goes below the highest one, so above the middle one
reorder_below_example :
    (new : WorkItemStorage ℤ) × Member new (in_between ∷ row 2 2000 ∷ row 3 3000 ∷ [])
    × (new.id ≡ 1)
    × (new.version ≡ 1)
    × Member (row 2 2000) (in_between ∷ row 2 2000 ∷ row 3 3000 ∷ [])
    × (ltb_ℤ (pos 2000) new.execution_order ≡ ltb_ℤ (pos 2000) (pos 3000))
    × (ltb_ℤ new.execution_order (pos 2000) ≡ not (ltb_ℤ (pos 2000) (pos 3000)))
unfolding reorder new_order calculate_order item_below find_first_item convert_fields ◌+ℤ◌ ◌/ℤ◌
reorder_below_example =
    reorder_below whole platform (plain ∷ []) rows (in_between ∷ row 2 2000 ∷ row 3 3000 ∷ []) 5 3
      lowest (pos 3000) (row 2 2000) (row 2 2000) refl refl refl (λ e. cc) refl refl
      (there (row 1 1000) _ (here _)) refl (λ e. cc)

abbrev pub titled : WorkItemType ℤ
titled = record {
  type_id = 6;
  name = codes "Task";
  can_construct = true;
  space_template_id = 9;
  fields =
      record {
        name = codes "title";
        definition = record {
          required = false;
          read_only = false;
          label = codes "Title";
          description = [];
          type = simple (record { kind = kind_string; default_value = nil });
        };
      }
      ∷ [];
}

abbrev on_top : WorkItemStorage ℤ
on_top = record (row 1 4000) { version = 1; fields = entry (codes "title") nil no_entry }

reorder_top_example :
    (new : WorkItemStorage ℤ) × Member new (on_top ∷ row 2 2000 ∷ row 3 3000 ∷ [])
    × (new.id ≡ 1)
    × Member (row 2 2000) (on_top ∷ row 2 2000 ∷ row 3 3000 ∷ [])
    × (ltb_ℤ (pos 2000) new.execution_order ≡ true)
unfolding reorder new_order top_item convert_fields ◌+ℤ◌ Definition.convert_from_model
    Definition.convert_to_model Simple.convert_to_model Simple.convert_from_model Simple.from_model
    Simple.to_model
reorder_top_example =
    reorder_top whole platform (titled ∷ []) rows (on_top ∷ row 2 2000 ∷ row 3 3000 ∷ []) 5 lowest
      (row 3 3000) (row 2 2000) refl refl (λ e. cc) refl (there (row 1 1000) _ (here _)) refl
      (λ e. cc)

abbrev newest : WorkItemStorage ℤ
newest = record (row 4 4000) { fields = entry (codes "title") nil no_entry }

create_top_example :
    (t : WorkItemType ℤ) × (find_type (titled ∷ []) 6 ≡ some t)
    × (t.can_construct ≡ true)
    × (new : WorkItemStorage ℤ) × Member new (row 1 1000 ∷ row 2 2000 ∷ row 3 3000 ∷ newest ∷ [])
    × (new.id ≡ 4)
    × (new.version ≡ 0)
    × Member (row 2 2000) (row 1 1000 ∷ row 2 2000 ∷ row 3 3000 ∷ newest ∷ [])
    × (ltb_ℤ (pos 2000) new.execution_order ≡ true)
unfolding create check_type_and_space_share_template stored_fields load_highest_order top_item ◌+ℤ◌
    Definition.convert_from_model Definition.convert_to_model Simple.convert_to_model
    Simple.convert_from_model Simple.from_model Simple.to_model
create_top_example =
    create_top whole platform (record { space_id = 5; space_template_id = 9 } ∷ []) (titled ∷ [])
      rows (row 1 1000 ∷ row 2 2000 ∷ row 3 3000 ∷ newest ∷ []) 4 4 5 6 no_entry 8 (row 3 3000)
      (row 2 2000) refl refl refl (there (row 1 1000) _ (here _)) refl

-- ===== src/WorkItem/Reorder.antt =====
-- Reorder of workitem/workitem_repository.go, with the conversions of the fields that it stores and
-- answers.
use almighty_core.Prelude.{
  ℕ, Bool, false, not, ◌||◌, Option, none, some, List, [], ◌∷◌, ◌==◌, if◌then◌else◌,
}
use almighty_core.WorkItem.{
  Orders, WorkItemStorage, WorkItem, WorkItemType, TypeField, DirectionType, direction_above,
  direction_below, direction_top, direction_bottom, direction_other, is_other, system_created_at,
  find_row, find_type, value_at, order_of, top_item, bottom_item, find_first_item, item_below,
  item_above, below_target, above_target, replace_row, moved,
}
use almighty_core.Prelude.Texts.{eqb_text}
use almighty_core.Errors.{
  bad_parameter_class, not_found_class, internal_class, version_conflict_class, conversion_class,
}
use almighty_core.Answer.{Answer, done, failed, panicked, ◌>>=◌}
use almighty_core.Field.Value.{Entries, no_entry, entry, Platform, ok, err, panic}
use almighty_core.Field.Definition as Definition
use almighty_core.Field.Definition.{FieldDefinition}

module _ {Float : Type 0} (orders : Orders Float) (go : Platform Float) where
  -- ConvertWorkItemStorageToModel, as far as it can fail and for the order that it sets
  abbrev pub converts : List (TypeField Float) → Entries Float → Answer (Unit {0})
  converts [] m = done tt
  converts (f ∷ fs) m =
      let rest = converts fs m in
      if eqb_text f.name system_created_at
      then rest
      else elim (Definition.convert_from_model go f.definition (value_at f.name m)) [
        | ok v ↦ rest
        | err ↦ failed conversion_class
        | panic ↦ panicked
      ]

  -- whether the loop runs, or the type has the field: without it there is no order to read
  abbrev pub sets_order : List (TypeField Float) → Bool
  sets_order [] = false
  sets_order (f ∷ fs) = not (eqb_text f.name system_created_at) || sets_order fs

  abbrev pub end_typed :
      WorkItem Float
      → (Float → Float)
      → WorkItemStorage Float
      → Option (WorkItemType Float)
      → Answer Float
  end_typed wi next r none = failed internal_class
  end_typed wi next r (some t) = converts t.fields r.fields >>= λ u.
      if r.id == wi.id
      then order_of wi
      else if sets_order t.fields
      then done (next r.execution_order)
      else panicked

  -- LoadTopWorkitem and LoadBottomWorkitem: no row gives an item of no type, which fails to load
  abbrev pub at_end :
      List (WorkItemType Float)
      → WorkItem Float
      → (Float → Float)
      → Option (WorkItemStorage Float)
      → Answer Float
  at_end types wi next none = failed internal_class
  at_end types wi next (some r) = end_typed wi next r (find_type types r.type)

  abbrev pub target_order : List (WorkItemStorage Float) → ℕ → Option ℕ → Answer Float
  target_order rows space_id none = failed bad_parameter_class
  target_order rows space_id (some id) = elim (find_first_item orders rows space_id id) [
    | none ↦ failed not_found_class
    | some f ↦ done f
  ]

  -- the switch on the direction, without its default
  unfoldable pub new_order :
      List (WorkItemType Float)
      → List (WorkItemStorage Float)
      → ℕ
      → DirectionType
      → Option ℕ
      → WorkItem Float
      → Answer Float
  new_order types rows space_id direction_below target wi =
      target_order rows space_id target >>= λ above.
      below_target orders wi above (item_below orders rows above space_id)
  new_order types rows space_id direction_above target wi =
      target_order rows space_id target >>= λ below.
      above_target orders wi below (item_above orders rows below space_id)
  new_order types rows space_id direction_top (some id) wi = failed bad_parameter_class
  new_order types rows space_id direction_top none wi =
      at_end types wi (λ f. orders.add f orders.thousand) (top_item orders rows space_id)
  new_order types rows space_id direction_bottom (some id) wi = failed bad_parameter_class
  new_order types rows space_id direction_bottom none wi =
      at_end types wi orders.half (bottom_item orders rows space_id)
  new_order types rows space_id (direction_other d) target wi = panicked

  -- the loop over the fields of the type, which leaves out the read-only ones
  unfoldable pub convert_fields : List (TypeField Float) → Entries Float → Answer (Entries Float)
  convert_fields [] m = done no_entry
  convert_fields (f ∷ fs) m =
      let rest = convert_fields fs m in
      if f.definition.read_only
      then rest
      else elim (Definition.convert_to_model go f.definition (value_at f.name m)) [
        | ok v ↦ rest >>= λ r. done (entry f.name v r)
        | err ↦ failed bad_parameter_class
        | panic ↦ panicked
      ]

  -- the conversion of the fields, the saving, and the conversion of the answer
  abbrev pub save_moved :
      WorkItemType Float
      → List (WorkItemStorage Float)
      → WorkItem Float
      → WorkItemStorage Float
      → Float
      → Answer (List (WorkItemStorage Float))
  save_moved t rows wi res order = convert_fields t.fields wi.fields >>= λ m.
      converts t.fields m >>= λ u. done (replace_row wi.id (moved res wi order m) rows)

  abbrev pub reorder_typed :
      List (WorkItemType Float)
      → List (WorkItemStorage Float)
      → ℕ
      → DirectionType
      → Option ℕ
      → WorkItem Float
      → WorkItemStorage Float
      → Option (WorkItemType Float)
      → Answer (List (WorkItemStorage Float))
  reorder_typed types rows space_id direction target wi res none = failed bad_parameter_class
  reorder_typed types rows space_id direction target wi res (some t) =
      if is_other direction
      then done rows
      else new_order types rows space_id direction target wi >>= save_moved t rows wi res

  abbrev pub reorder_found :
      List (WorkItemType Float)
      → List (WorkItemStorage Float)
      → ℕ
      → DirectionType
      → Option ℕ
      → WorkItem Float
      → Option (WorkItemStorage Float)
      → Answer (List (WorkItemStorage Float))
  reorder_found types rows space_id direction target wi none = failed not_found_class
  reorder_found types rows space_id direction target wi (some res) =
      if not (res.version == wi.version)
      then failed version_conflict_class
      else reorder_typed types rows space_id direction target wi res (find_type types wi.type)

  -- what becomes of the table; an unknown direction changes nothing
  unfoldable pub reorder :
      List (WorkItemType Float)
      → List (WorkItemStorage Float)
      → ℕ
      → DirectionType
      → Option ℕ
      → WorkItem Float
      → Answer (List (WorkItemStorage Float))
  reorder types rows space_id direction target wi =
      reorder_found types rows space_id direction target wi (find_row rows wi.id)

-- ===== src/WorkItem/Save.antt =====
-- Save and Delete of workitem/workitem_repository.go, with the revision that Create of
-- workitem/workitem_revision_repository.go stores, but for its time.
pub mod Removed
pub mod Fields
pub mod Conflict
use almighty_core.Prelude.{
  ℕ, suc, Bool, true, false, not, ◌&&◌, ◌==◌, Option, none, some, List, [], ◌∷◌, if◌then◌else◌,
}
use almighty_core.Prelude.Texts.{Text}
use almighty_core.Errors.{
  bad_parameter_class, not_found_class, internal_class, version_conflict_class,
}
use almighty_core.Answer.{Answer, done, failed, panicked, ◌>>=◌}
use almighty_core.Field.Value.{
  Value, strings, slice, end, Entries, no_entry, entry, Platform, Outcome, ok, err, panic,
}
use almighty_core.Field.Kind.{Kind}
use almighty_core.Field.ListOf.{is_list}
use almighty_core.Field.Definition as Definition
use almighty_core.Field.Definition.{get_kind}
use almighty_core.WorkItem.{
  Orders, WorkItemStorage, WorkItem, WorkItemType, TypeField, find_row, find_type, value_at,
  replace_row,
}
use almighty_core.WorkItem.Reorder.{converts}
use almighty_core.WorkItem.Create.{SpaceTemplate}
use almighty_core.WorkItem.Change.{change_work_item_type}

pub data RevisionType : Type 0 where
  revision_type_create revision_type_delete revision_type_update : RevisionType

pub record Revision (Float : Type 0) : Type 0 where
  pub type : RevisionType
  pub modifier_identity : ℕ
  pub work_item_id : ℕ
  pub work_item_type_id : ℕ
  pub work_item_version : ℕ
  pub work_item_fields : Entries Float

-- the table after the operation, and the revision that it stored
pub record Saved (Float : Type 0) : Type 0 where
  pub rows : List (WorkItemStorage Float)
  pub revision : Revision Float

module _ {Float : Type 0} where
  -- do not store fields when the work item is deleted
  unfoldable pub create_revision : ℕ → RevisionType → WorkItemStorage Float → Revision Float
  create_revision modifier_id type wi = record {
    type = type;
    modifier_identity = modifier_id;
    work_item_id = wi.id;
    work_item_type_id = wi.type;
    work_item_version = wi.version;
    work_item_fields = elim type [ revision_type_delete ↦ no_entry | _ ↦ wi.fields ];
  }

  -- the row of loadWorkItemStorage
  abbrev pub find_numbered : List (WorkItemStorage Float) → ℕ → ℕ → Option (WorkItemStorage Float)
  find_numbered [] space_id number = none
  find_numbered (r ∷ rs) space_id number =
      if (r.number == number) && ((r.space_id == space_id) && not r.deleted)
      then some r
      else find_numbered rs space_id number

  abbrev pub mark_deleted : ℕ → List (WorkItemStorage Float) → List (WorkItemStorage Float)
  mark_deleted id [] = []
  mark_deleted id (r ∷ rs) =
      (if (r.id == id) && not r.deleted then record r { deleted = true } else r)
      ∷ mark_deleted id rs

  abbrev pub delete_found :
      List (WorkItemStorage Float) → ℕ → Option (WorkItemStorage Float) → Answer (Saved Float)
  delete_found rows suppressor_id none = failed not_found_class
  delete_found rows suppressor_id (some r) = done (record {
    rows = mark_deleted r.id rows;
    revision = create_revision suppressor_id revision_type_delete r;
  })

  -- Delete
  unfoldable pub delete : List (WorkItemStorage Float) → ℕ → ℕ → Answer (Saved Float)
  delete rows work_item_id suppressor_id =
      delete_found rows suppressor_id (find_row rows work_item_id)

  -- a []string or a []interface{} of no items
  abbrev pub is_empty_list : Value Float → Bool
  is_empty_list (strings []) = true
  is_empty_list (slice end) = true
  is_empty_list _ = false

  -- the fields that the loop of Save passes over: read-only ones, and lists that are empty
  abbrev pub is_passed : TypeField Float → Entries Float → Bool
  is_passed f given =
      if f.definition.read_only
      then true
      else is_list (get_kind f.definition.type) && is_empty_list (value_at f.name given)

module _ {Float : Type 0} (orders : Orders Float) (go : Platform Float) where
  -- the loop over the fields of the type; no field of the row is kept
  unfoldable pub save_fields : List (TypeField Float) → Entries Float → Answer (Entries Float)
  save_fields [] given = done no_entry
  save_fields (f ∷ fs) given =
      let rest = save_fields fs given in
      if is_passed f given
      then rest
      else elim (Definition.convert_to_model go f.definition (value_at f.name given)) [
        | ok v ↦ rest >>= λ m. done (entry f.name v m)
        | err ↦ failed bad_parameter_class
        | panic ↦ panicked
      ]

  module _ (sprint : Value Float → Text) (relational : Kind → Value Float → Answer Text) where
    -- the row with its new fields and version
    abbrev pub renewed : WorkItemStorage Float → Entries Float → WorkItemStorage Float
    renewed r m = record r { version = suc r.version; fields = m }

    -- the row and the type that it has then
    abbrev pub of_new_type :
        List SpaceTemplate
        → WorkItemStorage Float
        → WorkItemType Float
        → ℕ
        → Option (WorkItemType Float)
        → Answer (WorkItemStorage Float × WorkItemType Float)
    of_new_type spaces r old space_id none = failed not_found_class
    of_new_type spaces r old space_id (some new) =
        change_work_item_type go sprint relational spaces r old new space_id >>= λ c. done (c, new)

    abbrev pub retyped :
        List SpaceTemplate
        → List (WorkItemType Float)
        → WorkItemStorage Float
        → WorkItemType Float
        → ℕ
        → ℕ
        → Answer (WorkItemStorage Float × WorkItemType Float)
    retyped spaces types r old type_id space_id =
        if r.type == type_id
        then done (r, old)
        else of_new_type spaces r old space_id (find_type types type_id)

    -- the UPDATE, the revision and the conversion of the answer
    abbrev pub store :
        List (WorkItemStorage Float)
        → ℕ
        → WorkItemStorage Float × WorkItemType Float
        → Answer (Saved Float)
    store rows modifier_id x = converts orders go x.1.fields x.0.fields >>= λ u. done (record {
      rows = replace_row x.0.id x.0 rows;
      revision = create_revision modifier_id revision_type_update x.0;
    })

    abbrev pub save_typed :
        List SpaceTemplate
        → List (WorkItemType Float)
        → List (WorkItemStorage Float)
        → ℕ
        → WorkItem Float
        → ℕ
        → WorkItemStorage Float
        → Option (WorkItemType Float)
        → Answer (Saved Float)
    save_typed spaces types rows space_id wi modifier_id r none = failed internal_class
    save_typed spaces types rows space_id wi modifier_id r (some old) =
        if not (r.version == wi.version)
        then failed version_conflict_class
        else (save_fields old.fields wi.fields >>= λ m.
            retyped spaces types (renewed r m) old wi.type space_id >>= store rows modifier_id)

    abbrev pub save_found :
        List SpaceTemplate
        → List (WorkItemType Float)
        → List (WorkItemStorage Float)
        → ℕ
        → WorkItem Float
        → ℕ
        → Option (WorkItemStorage Float)
        → Answer (Saved Float)
    save_found spaces types rows space_id wi modifier_id none = failed not_found_class
    save_found spaces types rows space_id wi modifier_id (some r) =
        save_typed spaces types rows space_id wi modifier_id r (find_type types r.type)

    -- Save
    unfoldable pub save :
        List SpaceTemplate
        → List (WorkItemType Float)
        → List (WorkItemStorage Float)
        → ℕ
        → WorkItem Float
        → ℕ
        → Answer (Saved Float)
    save spaces types rows space_id wi modifier_id =
        save_found spaces types rows space_id wi modifier_id (find_numbered rows space_id wi.number)

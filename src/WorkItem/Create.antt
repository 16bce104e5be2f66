-- ===== src/WorkItem/Create.antt =====
-- Create of workitem/workitem_repository.go, with CheckTypeAndSpaceShareTemplate and LoadHighestOrder.
use almighty_core.Prelude.{
  ℕ, Bool, false, not, ◌&&◌, Option, none, some, List, [], ◌∷◌, ◌==◌, leb, if◌then◌else◌,
}
use almighty_core.Prelude.Texts.{Text, codes, eqb_text}
use almighty_core.Errors.{bad_parameter_class, forbidden_class}
use almighty_core.Answer.{Answer, done, failed, panicked, ◌>>=◌}
use almighty_core.Field.Value.{
  Value, nil, str, dict, Entries, no_entry, entry, Platform, Outcome, ok, err, panic, is_nil,
  MarkupContent,
}
use almighty_core.Field.Rendering.{new_markup_content_from_map, is_markup_supported}
use almighty_core.Field.ListOf.{is_list}
use almighty_core.Field.Definition as Definition
use almighty_core.Field.Definition.{FieldDefinition, get_kind}
use almighty_core.WorkItem.{
  Orders, WorkItemStorage, WorkItemType, TypeField, find_type, value_at, top_item,
}
use almighty_core.WorkItem.Reorder.{converts}

-- a row of the spaces: its id and its template
pub record SpaceTemplate : Type 0 where
  pub space_id : ℕ
  pub space_template_id : ℕ

abbrev template_of : List SpaceTemplate → ℕ → Option ℕ
template_of [] space_id = none
template_of (s ∷ ss) space_id =
    if s.space_id == space_id then some s.space_template_id else template_of ss space_id

abbrev same_template : Option ℕ → ℕ → Bool
same_template none id = false
same_template (some t) id = t == id

abbrev pub system_creator : Text
system_creator = codes "system.creator"

abbrev pub system_description : Text
system_description = codes "system.description"

-- IsMarkupSupported of what the description holds
abbrev supports : Outcome MarkupContent → Answer (Unit {0})
supports (ok m) = if is_markup_supported m.markup then done tt else failed bad_parameter_class
supports err = failed bad_parameter_class
supports panic = panicked

module _ {Float : Type 0} where
  -- whether an error is returned, and which; the first result is false in no other case
  unfoldable pub check_type_and_space_share_template :
      List SpaceTemplate → WorkItemType Float → ℕ → Answer (Unit {0})
  check_type_and_space_share_template spaces t space_id =
      if not t.can_construct
      then failed forbidden_class
      else if same_template (template_of spaces space_id) t.space_template_id
      then done tt
      else failed bad_parameter_class

  -- the description is a map: value.(map[string]interface{})
  abbrev pub check_description : Value Float → Answer (Unit {0})
  check_description nil = done tt
  check_description (dict m) = supports (new_markup_content_from_map m)
  check_description _ = panicked

  -- a row stands where its id has it
  abbrev pub insert_row :
      WorkItemStorage Float → List (WorkItemStorage Float) → List (WorkItemStorage Float)
  insert_row new [] = new ∷ []
  insert_row new (r ∷ rs) = if leb new.id r.id then new ∷ r ∷ rs else r ∷ insert_row new rs

  abbrev pub new_row : ℕ → ℕ → ℕ → ℕ → Float → Entries Float → WorkItemStorage Float
  new_row id number space_id type_id order m = record {
    id = id;
    number = number;
    space_id = space_id;
    type = type_id;
    version = 0;
    fields = m;
    execution_order = order;
    deleted = false;
  }

module _ {Float : Type 0} (orders : Orders Float) (go : Platform Float) where
  -- no row gives the order of an empty one
  unfoldable pub load_highest_order : List (WorkItemStorage Float) → ℕ → Float
  load_highest_order rows space_id = elim (top_item orders rows space_id) [
    | none ↦ orders.zero
    | some r ↦ r.execution_order
  ]

  -- one field of the loop: its value, none where it is deleted again
  abbrev pub stored_field :
      TypeField Float → Value Float → Value Float → Answer (Option (Value Float))
  stored_field f given v =
      let kept = if is_list (get_kind f.definition.type) && is_nil given then none else some v in
      if eqb_text f.name system_description
      then elim kept [ none ↦ done none | some d ↦ check_description d >>= λ u. done (some d) ]
      else done kept

  abbrev with_field : Text → Option (Value Float) → Entries Float → Entries Float
  with_field name none m = m
  with_field name (some v) m = entry name v m

  unfoldable pub stored_fields : List (TypeField Float) → Entries Float → Answer (Entries Float)
  stored_fields [] given = done no_entry
  stored_fields (f ∷ fs) given =
      let rest = stored_fields fs given in
      if f.definition.read_only
      then rest
      else elim (Definition.convert_to_model go f.definition (value_at f.name given)) [
        | ok v ↦ stored_field f (value_at f.name given) v >>= λ o.
            rest >>= λ m. done (with_field f.name o m)
        | err ↦ failed bad_parameter_class
        | panic ↦ panicked
      ]

  abbrev pub create_typed :
      List SpaceTemplate
      → List (WorkItemStorage Float)
      → ℕ
      → ℕ
      → ℕ
      → ℕ
      → Entries Float
      → ℕ
      → Option (WorkItemType Float)
      → Answer (List (WorkItemStorage Float))
  create_typed spaces rows id number space_id type_id fields creator_id none =
      failed bad_parameter_class
  create_typed spaces rows id number space_id type_id fields creator_id (some t) =
      check_type_and_space_share_template spaces t space_id >>= λ u.
      stored_fields t.fields (entry system_creator (str (go.uuid_string creator_id)) fields)
      >>= λ m. converts orders go t.fields m >>= λ w. done (
          insert_row
            (new_row id number space_id type_id
              (orders.add (load_highest_order rows space_id) orders.thousand) m)
            rows)

  -- `id` is the id that the database makes up for the new row, and `number` the next one of the space
  unfoldable pub create :
      List SpaceTemplate
      → List (WorkItemType Float)
      → List (WorkItemStorage Float)
      → ℕ
      → ℕ
      → ℕ
      → ℕ
      → Entries Float
      → ℕ
      → Answer (List (WorkItemStorage Float))
  create spaces types rows id number space_id type_id fields creator_id =
      create_typed spaces rows id number space_id type_id fields creator_id
        (find_type types type_id)

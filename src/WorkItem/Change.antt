-- ===== src/WorkItem/Change.antt =====
-- ChangeWorkItemType of workitem/workitem_repository.go. fmt.Sprint and the lookup of the text of a
-- user, an area, an iteration and the like in their tables are parameters. Maps are ranged over in the
-- order of the fields of the type; the code sorts where the order is seen.
pub mod Typed
use almighty_core.Prelude.{
  ℕ, Bool, true, false, not, ◌&&◌, ◌||◌, ltb, ◌==◌, Option, none, some, List, [], ◌∷◌, ◌++◌,
  if◌then◌else◌,
}
use almighty_core.Prelude.Texts.{Text, codes, eqb_text}
use almighty_core.Errors.{foreign_class}
use almighty_core.Answer.{Answer, done, failed, panicked, ◌>>=◌}
use almighty_core.Field.Value.{
  Value, nil, str, slice, markup, MarkupContent, Values, end, item, Entries, no_entry, entry,
  lookup, is_nil, Platform, Outcome, ok, err, panic,
}
use almighty_core.Field.Kind.{Kind, kind_enum, kind_list, is_relational}
use almighty_core.Field.Rendering.{new_markup_content_from_value}
use almighty_core.Field.Simple.{SimpleType}
use almighty_core.Field.ListOf.{is_list}
use almighty_core.Field.Definition as Definition
use almighty_core.Field.Definition.{
  FieldType, simple, enum, list, FieldDefinition, get_kind, simple_type,
}
use almighty_core.WorkItem.{WorkItemStorage, WorkItemType, TypeField, value_at}
use almighty_core.WorkItem.Create.{
  SpaceTemplate, check_type_and_space_share_template, system_description,
}

abbrev pub system_meta_state : Text
system_meta_state = codes "system.metastate"

-- a < b of two strings
abbrev pub less_text : Text → Text → Bool
less_text s [] = false
less_text [] (b ∷ t) = true
less_text (a ∷ s) (b ∷ t) = let rest = less_text s t in if a == b then rest else ltb a b

-- a map from labels to texts, whose entries are shown in the order of the labels
abbrev pub put_label : Text → Text → List (Text × Text) → List (Text × Text)
put_label label t [] = (label, t) ∷ []
put_label label t (kv ∷ m) =
    let rest = put_label label t m in
    if eqb_text kv.0 label
    then (label, t) ∷ m
    else if less_text label kv.0
    then (label, t) ∷ kv ∷ m
    else kv ∷ rest

abbrev pub label_lines : List (Text × Text) → Text
label_lines [] = []
label_lines (kv ∷ m) = codes "\n" ++ kv.0 ++ codes " : " ++ kv.1 ++ label_lines m

-- the template of the description
unfoldable pub missing_fields : Text → List (Text × Text) → Text → Text
missing_fields type_name labels original =
    codes "```\nMissing fields in workitem type: "
    ++ type_name
    ++ codes "\n"
    ++ label_lines labels
    ++ codes "\n```\n"
    ++ original
    ++ codes "\n"

abbrev pub join_comma : List Text → Text
join_comma [] = []
join_comma (t ∷ []) = t
join_comma (t ∷ u ∷ ts) = t ++ codes ", " ++ join_comma (u ∷ ts)

-- a field that the new type does not take, and its value
pub record Missing (Float : Type 0) : Type 0 where
  pub field : TypeField Float
  pub value : Value Float

-- the fields of the item, and fieldDiff in the order of the names
pub record Changed (Float : Type 0) : Type 0 where
  pub fields : Entries Float
  pub missing : List (Missing Float)

module _ {Float : Type 0} where
  -- delete(m, key), and m[key] = v
  abbrev pub remove : Text → Entries Float → Entries Float
  remove key no_entry = no_entry
  remove key (entry k v m) =
      let rest = remove key m in if eqb_text k key then rest else entry k v rest

  abbrev pub put : Text → Value Float → Entries Float → Entries Float
  put key v no_entry = entry key v no_entry
  put key v (entry k w m) =
      let rest = put key v m in if eqb_text k key then entry k v m else entry k w rest

  abbrev pub find_field : List (TypeField Float) → Text → Option (FieldDefinition Float)
  find_field [] name = none
  find_field (f ∷ fs) name = if eqb_text f.name name then some f.definition else find_field fs name

  abbrev pub add_missing : Missing Float → List (Missing Float) → List (Missing Float)
  add_missing x [] = x ∷ []
  add_missing x (y ∷ ys) =
      let rest = add_missing x ys in
      if less_text x.field.name y.field.name then x ∷ y ∷ ys else y ∷ rest

  abbrev pub take_out : TypeField Float → Changed Float → Changed Float
  take_out f c = record {
    fields = remove f.name c.fields;
    missing = add_missing (record { field = f; value = value_at f.name c.fields }) c.missing;
  }

  abbrev pub absent_in_new : TypeField Float → Changed Float → Changed Float
  absent_in_new f c = if is_nil (value_at f.name c.fields) then c else take_out f c

  abbrev pub converted_to :
      TypeField Float → Outcome (Value Float) → Changed Float → Answer (Changed Float)
  converted_to f (ok v) c = done (record c { fields = put f.name v c.fields })
  converted_to f err c = done (take_out f c)
  converted_to f panic c = panicked

module _ {Float : Type 0} (go : Platform Float) where
  abbrev pub change_field :
      TypeField Float → Option (FieldDefinition Float) → Changed Float → Answer (Changed Float)
  change_field f none c = done (absent_in_new f c)
  change_field f (some new) c =
      converted_to f
        (Definition.convert_to_model_with_type go (simple_type f.definition.type) new.type
          (value_at f.name c.fields))
        c

  -- the loop over the fields of the old type
  unfoldable pub change_fields :
      List (TypeField Float) → List (TypeField Float) → Changed Float → Answer (Changed Float)
  change_fields [] new c = done c
  change_fields (f ∷ fs) new c =
      (if eqb_text f.name system_meta_state
        then done c
        else change_field f (find_field new f.name) c)
      >>= change_fields fs new

  -- the loop over the fields of the new type
  unfoldable pub set_defaults : List (TypeField Float) → Entries Float → Answer (Entries Float)
  set_defaults [] m = done m
  set_defaults (f ∷ fs) m =
      if eqb_text f.name system_meta_state
      then set_defaults fs m
      else elim (Definition.convert_to_model go f.definition (value_at f.name m)) [
        | ok v ↦ set_defaults fs (put f.name v m)
        | err ↦ failed foreign_class
        | panic ↦ panicked
      ]

  module _ (sprint : Value Float → Text) (relational : Kind → Value Float → Answer Text) where
    -- oldKind: that of the base of an enum
    abbrev pub kind_of_base : FieldType Float → Answer Kind
    kind_of_base (enum t) = done t.base_type.kind
    kind_of_base t = failed foreign_class

    abbrev pub kind_of_field : FieldType Float → Answer Kind
    kind_of_field t = elim (get_kind t) [ kind_enum ↦ kind_of_base t | k ↦ done k ]

    abbrev pub text_of : Kind → Value Float → Answer Text
    text_of k v = if is_relational k then relational k v else done (sprint v)

    abbrev pub texts_of : Kind → Values Float → Answer (List Text)
    texts_of k end = done []
    texts_of k (item v vs) = text_of k v >>= λ t. texts_of k vs >>= λ ts. done (t ∷ ts)

    -- listType.ComponentType and the assertion to []interface{}
    abbrev pub list_text : FieldType Float → Value Float → Answer Text
    list_text (list t) (slice vs) = texts_of t.component_type.kind vs >>= λ ts. done (join_comma ts)
    list_text (list t) v = failed foreign_class
    list_text t v = failed foreign_class

    abbrev pub missing_text : Missing Float → Answer Text
    missing_text x = kind_of_field x.field.definition.type >>= λ k.
        if is_list k then list_text x.field.definition.type x.value else text_of k x.value

    abbrev pub labels_of : List (Missing Float) → List (Text × Text) → Answer (List (Text × Text))
    labels_of [] m = done m
    labels_of (x ∷ xs) m =
        missing_text x >>= λ t. labels_of xs (put_label x.field.definition.label t m)

    -- the description that is there, or the empty text; another value than a text, a markup or a map
    -- gives a nil pointer
    abbrev pub original_of : Outcome (Option MarkupContent) → Answer Text
    original_of (ok (some m)) = done m.content
    original_of (ok none) = panicked
    original_of err = panicked
    original_of panic = panicked

    abbrev pub original_text : Value Float → Answer Text
    original_text v = if is_nil v then done [] else original_of (new_markup_content_from_value v)

    abbrev pub describe_missing : Text → Changed Float → Answer (Entries Float)
    describe_missing type_name c =
        original_text (value_at system_description c.fields) >>= λ original.
        labels_of c.missing [] >>= λ labels. done (
          put system_description
            (markup (record {
              content = missing_fields type_name labels original;
              markup = codes "Markdown";
            }))
            c.fields)

    unfoldable pub add_description : Text → Changed Float → Answer (Entries Float)
    add_description type_name c = elim c.missing [
      | [] ↦ done c.fields
      | ◌∷◌ x xs ↦ describe_missing type_name c
    ]

    unfoldable pub change_work_item_type :
        List SpaceTemplate
        → WorkItemStorage Float
        → WorkItemType Float
        → WorkItemType Float
        → ℕ
        → Answer (WorkItemStorage Float)
    change_work_item_type spaces wi old new space_id =
        check_type_and_space_share_template spaces new space_id >>= λ u.
        change_fields old.fields new.fields (record { fields = wi.fields; missing = [] }) >>= λ c.
        add_description new.name c >>= λ m.
        set_defaults new.fields m >>= λ d. done (record wi { fields = d; type = new.type_id })

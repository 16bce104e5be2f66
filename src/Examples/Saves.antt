-- ===== src/Examples/Saves.antt =====
-- Two writers of a work item, and its deletion, at concrete inputs.
use almighty_core.Prelude.{◌≡◌, refl, true, false, some, [], ◌∷◌, Member, here, there}
use almighty_core.Prelude.Int.{ℤ}
use almighty_core.Prelude.Texts.{Text, codes}
use almighty_core.Errors.{version_conflict_class}
use almighty_core.Answer.{Answer, done, failed}
use almighty_core.Field.Value.{Value, Entries, no_entry, entry, nil, str}
use almighty_core.Field.Kind.{Kind, kind_string}
use almighty_core.Field.Simple as Simple
use almighty_core.Field.Definition as Definition
use almighty_core.Field.Definition.{simple}
use almighty_core.WorkItem.Change.{Changed, change_fields}
use almighty_core.WorkItem.Change.Typed.{Fate, change_fields-Fate}
use almighty_core.WorkItem.{WorkItemStorage, WorkItem, TypeField}
use almighty_core.WorkItem.Save.{
  Saved, revision_type_update, revision_type_delete, find_numbered, save_fields, save,
  create_revision,
}
use almighty_core.WorkItem.Save.Conflict.{save-conflict}
use almighty_core.WorkItem.Save.Fields.{Stored, save-Stored}
use almighty_core.Examples.{platform}
use almighty_core.Examples.Orders.{whole, row, rows, titled}

abbrev no_text : Value ℤ → Text
no_text v = []

abbrev no_lookup : Kind → Value ℤ → Answer Text
no_lookup k v = done []

abbrev given : Text → Entries ℤ
given t = entry (codes "title") (str t) no_entry

abbrev first_writer : WorkItem ℤ
first_writer = record { id = 1; number = 1; type = 6; version = 0; fields = given (codes "a") }

abbrev second_writer : WorkItem ℤ
second_writer = record first_writer { fields = given (codes "b") }

abbrev written : WorkItemStorage ℤ
written = record (row 1 1000) { version = 1; fields = given (codes "a") }

abbrev after_save : Saved ℤ
after_save = record {
  rows = written ∷ row 2 2000 ∷ row 3 3000 ∷ [];
  revision = record {
    type = revision_type_update;
    modifier_identity = 8;
    work_item_id = 1;
    work_item_type_id = 6;
    work_item_version = 1;
    work_item_fields = given (codes "a");
  };
}

first_saved :
    save whole platform no_text no_lookup [] (titled ∷ []) rows 5 first_writer 8 ≡ done after_save
unfolding save save_fields create_revision Definition.convert_from_model Definition.convert_to_model
    Simple.convert_to_model Simple.convert_from_model Simple.from_model Simple.to_model
first_saved = refl

save-conflict_example :
    save whole platform no_text no_lookup [] (titled ∷ []) after_save.rows 5 second_writer 9
    ≡ failed version_conflict_class
save-conflict_example =
    save-conflict whole platform no_text no_lookup [] (titled ∷ []) rows 5 first_writer
      second_writer 8 9 after_save first_saved refl refl

save-Stored_example :
    (s : WorkItemStorage ℤ) × (find_numbered after_save.rows 5 1 ≡ some s)
    × (s.version ≡ 1)
    × ((f : TypeField ℤ)
        → Member f titled.fields
        → Stored whole platform f first_writer.fields s.fields)
save-Stored_example =
    save-Stored whole platform no_text no_lookup [] (titled ∷ []) rows 5 first_writer 8 after_save
      (row 1 1000) titled refl refl refl (tt, tt) first_saved

abbrev after_delete : Saved ℤ
after_delete = record {
  rows = record (row 1 1000) { deleted = true } ∷ row 2 2000 ∷ row 3 3000 ∷ [];
  revision = record {
    type = revision_type_delete;
    modifier_identity = 8;
    work_item_id = 1;
    work_item_type_id = 6;
    work_item_version = 0;
    work_item_fields = no_entry;
  };
}

abbrev text_field : Text → TypeField ℤ
text_field name = record {
  name = name;
  definition = record {
    required = false;
    read_only = false;
    label = name;
    description = [];
    type = simple (record { kind = kind_string; default_value = nil });
  };
}

abbrev change : Changed ℤ
change = record {
  fields = given (codes "a");
  missing = record { field = text_field (codes "effort"); value = str (codes "b") } ∷ [];
}

change_fields-Fate_example :
    Fate platform
      (text_field (codes "effort"))
      (text_field (codes "title") ∷ [])
      (str (codes "b"))
      change
unfolding change_fields Definition.convert_to_model_with_type Definition.convert_to_model
    Simple.convert_to_model Simple.to_model
change_fields-Fate_example =
    change_fields-Fate platform (text_field (codes "title") ∷ text_field (codes "effort") ∷ [])
      (text_field (codes "title") ∷ [])
      (record {
        fields = entry (codes "effort") (str (codes "b")) (given (codes "a"));
        missing = [];
      })
      change (there _ _ (here [])) ((refl, tt), (tt, tt)) refl refl

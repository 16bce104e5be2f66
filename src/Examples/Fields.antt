-- ===== src/Examples/Fields.antt =====
-- The fields of a work item at concrete types and values.
use almighty_core.Prelude.{ℕ, ◌≡◌, ◌≢◌, ◌↔◌, inl, refl, true, false, []}
use almighty_core.Prelude.Int.{ℤ, pos}
use almighty_core.Prelude.Texts.{codes, is_blank}
use almighty_core.Field.Value.{
  Value, nil, int, int64, dict, str, time, slice, end, item, Content, MarkupContent, ok, err,
  is_nil, elements, interface_eq,
}
use almighty_core.Field.Kind.{
  Kind, kind_string, kind_integer, kind_instant, kind_markup, kind_enum, kind_list,
}
use almighty_core.Field.Rendering.{markup_to_map}
use almighty_core.Field.Simple
use almighty_core.Field.Simple.{SimpleType, to_model}
use almighty_core.Field.Simple.Stored.{stored_round_trip}
use almighty_core.Field.Simple.Defaults.{default_refused}
use almighty_core.Field.Enum
use almighty_core.Field.Enum.{EnumType}
use almighty_core.Field.Enum.Members.{Permitted, convert_to_model-Permitted}
use almighty_core.Field.ListOf
use almighty_core.Field.ListOf.{ListType}
use almighty_core.Field.ListOf.Items.{Each, convert_to_model_iff}
use almighty_core.Field.ListOf.Defaults.{list_default_refused}
use almighty_core.Field.Definition.{
  simple, list, FieldDefinition, convert_to_model, convert_to_model_with_type,
}
use almighty_core.Field.Definition.Required.{required_not_nil}
use almighty_core.Field.Definition.Retype.{retype_round_trip}
use almighty_core.Examples.{platform, one_byte}

abbrev repository : Content
repository = record {
  repository = codes "git@host:repo.git";
  branch = codes "master";
  file_name = codes "main.go";
  line_number = pos 7;
  codebase_id = [];
}

abbrev text : MarkupContent
text = record { content = codes "# title"; markup = codes "Markdown" }

abbrev field : Kind → SimpleType ℤ
field k = record { kind = k; default_value = nil }

abbrev with_default : Kind → Value ℤ → SimpleType ℤ
with_default k v = record { kind = k; default_value = v }

stored_round_trip_example :
    (w : Value ℤ) × (Simple.convert_from_model platform (field kind_integer) (int (pos 7)) ≡ ok w)
    × (Simple.convert_to_model platform (field kind_integer) w ≡ ok (int (pos 7)))
unfolding Simple.convert_to_model to_model
stored_round_trip_example =
    stored_round_trip platform (field kind_integer) (int (pos 7)) (int (pos 7)) refl refl

abbrev seconds : Value ℤ
seconds = int64 (pos 60)

default_refused_example :
    (Simple.convert_to_model platform (with_default kind_instant seconds) seconds ≡ err)
    × (Simple.validate platform (with_default kind_instant seconds) ≡ err)
unfolding Simple.set_default_value Simple.convert_to_model to_model
default_refused_example =
    default_refused platform (field kind_instant) (with_default kind_instant seconds)
      (time (pos 60)) (inl refl) refl refl

abbrev marked : SimpleType ℤ
marked = with_default kind_markup (dict (markup_to_map text))

abbrev priority : EnumType ℤ
priority = record {
  simple_type = field kind_enum;
  base_type = field kind_string;
  values = item (str (codes "high")) (item (str (codes "low")) end);
  rewritable_values = false;
  default_value = nil;
}

convert_to_model-Permitted_example :
    Permitted platform priority.values (str (codes "low"))
    × (Simple.convert_to_model platform priority.base_type (str (codes "low"))
        ≡ ok (str (codes "low")))
unfolding Enum.convert_to_model Enum.contains Simple.convert_to_model to_model interface_eq
convert_to_model-Permitted_example =
    convert_to_model-Permitted platform priority (str (codes "low")) (str (codes "low")) refl

abbrev numbers : ListType ℤ
numbers = record {
  simple_type = field kind_list;
  component_type = field kind_integer;
  default_value = nil;
}

abbrev two : Value ℤ
two = slice (item (int (pos 3)) (item (int (pos 4)) end))

convert_to_model_iff_example :
    (ListOf.convert_to_model platform numbers two ≡ ok two)
    ↔ Each
        (Simple.convert_to_model platform (field kind_integer))
        (elements platform two)
        (item (int (pos 3)) (item (int (pos 4)) end))
convert_to_model_iff_example =
    convert_to_model_iff platform numbers two (item (int (pos 3)) (item (int (pos 4)) end)) refl
      refl

abbrev numbers' : ListType ℤ
numbers' = record {
  simple_type = field kind_list;
  component_type = field kind_integer;
  default_value = int (pos 3);
}

byte-not_empty : (u : ℕ) → one_byte u ≢ []
byte-not_empty u = λ h. cc

list_default_refused_example :
    (Simple.convert_to_model platform numbers.component_type (int (pos 3)) ≡ ok (int (pos 3)))
    × (ListOf.convert_to_model platform numbers' (int (pos 3)) ≡ err)
unfolding ListOf.set_default_value Simple.convert_to_model to_model
list_default_refused_example =
    list_default_refused platform numbers numbers' (int (pos 3)) byte-not_empty refl refl refl

abbrev title : FieldDefinition ℤ
title = record {
  required = true;
  read_only = false;
  label = codes "Title";
  description = [];
  type = simple (field kind_string);
}

required_not_nil_example : is_nil {Float = ℤ} (str (codes "bug")) ≡ false
unfolding convert_to_model Simple.convert_to_model to_model is_blank
required_not_nil_example =
    required_not_nil platform title (str (codes "bug")) (str (codes "bug")) refl refl

retype_round_trip_example :
    (convert_to_model_with_type platform (field kind_integer) (list numbers) (int (pos 3))
      ≡ ok (slice (item (int (pos 3)) end)))
    × (convert_to_model_with_type platform
          (field kind_list)
          (simple (field kind_integer))
          (slice (item (int (pos 3)) end))
        ≡ ok (int (pos 3)))
unfolding Simple.convert_to_model to_model
retype_round_trip_example =
    retype_round_trip platform (field kind_integer) numbers (int (pos 3)) (int (pos 3)) refl refl
      refl refl refl refl refl

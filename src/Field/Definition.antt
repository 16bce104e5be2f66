-- ===== src/Field/Definition.antt =====
-- FieldType and FieldDefinition of workitem/field_definition.go, and ConvertToModelWithType of
-- workitem/simple_type.go. The embedded SimpleType of an enum or a list passes its methods on:
-- GetKind and ConvertToModelWithType are those of the SimpleType. EqualValue of every field type is
-- Equal, so convert.CascadeEqual is Equal here.
pub mod Required
pub mod Retype
use almighty_core.Prelude.{Bool, true, false, not, ◌&&◌, List, if◌then◌else◌}
use almighty_core.Prelude.Texts.{Text, eqb_text, is_blank}
use almighty_core.Field.Value.{
  Value, Values, nil, end, item, str, slice, Platform, Outcome, ok, err, panic, ◌>>=◌, ◌>>◌, guard,
  is_nil,
}
use almighty_core.Field.Kind.{Kind, kind_string}
use almighty_core.Field.Simple
use almighty_core.Field.Simple.{SimpleType}
use almighty_core.Field.Enum
use almighty_core.Field.Enum.{EnumType}
use almighty_core.Field.ListOf
use almighty_core.Field.ListOf.{ListType, is_list}

pub data FieldType (Float : Type 0) : Type 0 where
  simple : SimpleType Float → FieldType Float
  enum : EnumType Float → FieldType Float
  list : ListType Float → FieldType Float

pub record FieldDefinition (Float : Type 0) : Type 0 where
  pub required : Bool
  pub read_only : Bool
  pub label : Text
  pub description : Text
  pub type : FieldType Float

abbrev pub is_string : Kind → Bool
is_string kind_string = true
is_string _ = false

module _ {Float : Type 0} where
  abbrev pub simple_type : FieldType Float → SimpleType Float
  simple_type (simple t) = t
  simple_type (enum t) = t.simple_type
  simple_type (list t) = t.simple_type

  abbrev pub get_kind : FieldType Float → Kind
  get_kind t = (simple_type t).kind

  abbrev pub get_default_value : FieldType Float → Value Float
  get_default_value (simple t) = t.default_value
  get_default_value (enum t) = Enum.get_default_value t
  get_default_value (list t) = t.default_value

abbrev same_flag : Bool → Bool → Bool
same_flag true b = b
same_flag false b = not b

module _ {Float : Type 0} where
  -- value.(string), and the test on its trimmed text
  abbrev pub not_blank : Value Float → Outcome (Unit {0})
  not_blank (str s) = guard (not (is_blank s))
  not_blank _ = err

  -- the tests of a required field
  abbrev pub check_required : Kind → Value Float → Outcome (Unit {0})
  check_required k v = if is_nil v then err else if is_string k then not_blank v else ok tt

module _ {Float : Type 0} (go : Platform Float) where
  abbrev pub type_to_model : FieldType Float → Value Float → Outcome (Value Float)
  type_to_model (simple t) v = Simple.convert_to_model go t v
  type_to_model (enum t) v = Enum.convert_to_model go t v
  type_to_model (list t) v = ListOf.convert_to_model go t v

  abbrev pub type_from_model : FieldType Float → Value Float → Outcome (Value Float)
  type_from_model (simple t) v = Simple.convert_from_model go t v
  type_from_model (enum t) v = Enum.convert_from_model go t v
  type_from_model (list t) v = ListOf.convert_from_model go t v

  abbrev pub validate_type : FieldType Float → Outcome (Unit {0})
  validate_type (simple t) = Simple.validate go t
  validate_type (enum t) = Enum.validate go t
  validate_type (list t) = ListOf.validate go t

  -- other, ok := u.(T)
  abbrev pub equal_type : FieldType Float → FieldType Float → Outcome Bool
  equal_type (simple t) (simple u) = Simple.equal go t u
  equal_type (enum t) (enum u) = Enum.equal go t u
  equal_type (list t) (list u) = ListOf.equal go t u
  equal_type _ _ = ok false

  abbrev otherwise : Outcome (Value Float) → Outcome (Value Float) → Outcome (Value Float)
  otherwise (ok v) rest = ok v
  otherwise err rest = rest
  otherwise panic rest = panic

  -- "the old type is a list but the new one isn't"
  abbrev from_singleton : FieldType Float → Value Float → Outcome (Value Float)
  from_singleton new (slice (item v end)) = otherwise (type_to_model new v) err
  from_singleton new _ = err

  unfoldable pub convert_to_model_with_type :
      SimpleType Float → FieldType Float → Value Float → Outcome (Value Float)
  convert_to_model_with_type t new v = otherwise (type_to_model new v) (
      otherwise (if is_list (get_kind new) then type_to_model new (slice (item v end)) else err)
        (if is_list t.kind && not (is_list (get_kind new)) then from_singleton new v else err))

  unfoldable pub validate : FieldDefinition Float → Outcome (Unit {0})
  validate f = do guard (not (is_blank f.label)); validate_type f.type

  unfoldable pub equal : FieldDefinition Float → FieldDefinition Float → Outcome Bool
  equal f other =
      if not (same_flag f.required other.required)
      then ok false
      else if not (same_flag f.read_only other.read_only)
      then ok false
      else if not (eqb_text f.label other.label)
      then ok false
      else if not (eqb_text f.description other.description)
      then ok false
      else equal_type f.type other.type

  unfoldable pub compatible_fields : FieldDefinition Float → FieldDefinition Float → Outcome Bool
  compatible_fields existing new =
      if not (same_flag existing.required new.required)
      then ok false
      else equal_type existing.type new.type

  unfoldable pub convert_to_model : FieldDefinition Float → Value Float → Outcome (Value Float)
  convert_to_model f value =
      let v = if is_nil value then get_default_value f.type else value in
      do (if f.required then check_required (get_kind f.type) v else ok tt); type_to_model f.type v

  unfoldable pub convert_from_model : FieldDefinition Float → Value Float → Outcome (Value Float)
  convert_from_model f value =
      if f.required && is_nil value then err else type_from_model f.type value

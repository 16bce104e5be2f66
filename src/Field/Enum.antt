-- ===== src/Field/Enum.antt =====
-- EnumType of workitem/enum_type.go: a simple base type and the list of its permitted values.
pub mod Members
use almighty_core.Prelude.{Bool, true, false, not, List, arith, if◌then◌else◌}
use almighty_core.Prelude.Texts.{Text}
use almighty_core.Field.Value.{
  Value, Values, nil, end, item, Platform, Outcome, ok, err, panic, ◌>>=◌, ◌>>◌, guard, is_nil,
  interface_eq, deep_equal, deep_equal_values,
}
use almighty_core.Field.Kind.{Kind, kind_enum, is_simple_type}
use almighty_core.Field.Simple
use almighty_core.Field.Simple.{SimpleType}

pub record EnumType (Float : Type 0) : Type 0 where
  pub simple_type : SimpleType Float
  pub base_type : SimpleType Float
  pub values : Values Float
  pub rewritable_values : Bool
  pub default_value : Value Float

abbrev pub is_enum : Kind → Bool
is_enum kind_enum = true
is_enum _ = false

module _ {Float : Type 0} where
  abbrev pub first_of_values : Values Float → Value Float
  first_of_values end = nil
  first_of_values (item v vs) = v

  unfoldable pub get_default_value : EnumType Float → Value Float
  get_default_value t = if is_nil t.default_value then first_of_values t.values else t.default_value

  abbrev pub is_end : Values Float → Bool
  is_end end = true
  is_end (item v vs) = false

module _ {Float : Type 0} (go : Platform Float) where
  unfoldable pub contains : Values Float → Value Float → Outcome Bool
  contains end v = ok false
  contains (item element a) v =
      let rest = contains a v in do same ← interface_eq go element v; if same then ok true else rest

  -- `result && contains(a, element)` calls contains only while the result is true
  unfoldable pub contains_all : Values Float → Values Float → Outcome Bool
  contains_all a end = ok true
  contains_all a (item element v) =
      let rest = contains_all a v in do found ← contains a element; if found then rest else ok false

  unfoldable pub convert_to_model : EnumType Float → Value Float → Outcome (Value Float)
  convert_to_model t value = do
    converted ← Simple.convert_to_model go t.base_type value
    found ← contains t.values converted
    guard found
    ok converted

  unfoldable pub set_default_value : EnumType Float → Value Float → Outcome (EnumType Float)
  set_default_value t v =
      if is_nil v
      then ok (record t { default_value = nil })
      else do def_val ← convert_to_model t v; ok (record t { default_value = def_val })

  -- the loop over the values at the end of Validate
  unfoldable pub validate_values : EnumType Float → Values Float → Outcome (Unit {0})
  validate_values t end = ok tt
  validate_values t (item v vs) =
      let rest = validate_values t vs in do c ← convert_to_model t v; rest

  unfoldable pub validate : EnumType Float → Outcome (Unit {0})
  validate t = do
    guard (is_enum t.simple_type.kind)
    guard (is_simple_type t.base_type.kind)
    t' ← set_default_value t t.default_value
    guard (not (is_end t.values))
    validate_values t t.values

  unfoldable pub equal : EnumType Float → EnumType Float → Outcome Bool
  equal t other = do
    simple ← Simple.equal go t.simple_type other.simple_type
    if not simple then ok false else do
      base ← Simple.equal go t.base_type other.base_type
      ok (
          if not base
          then false
          else if (if t.rewritable_values
              then false
              else not (deep_equal_values go t.values other.values))
          then false
          else deep_equal go t.default_value other.default_value)

  unfoldable pub equal_enclosing : EnumType Float → EnumType Float → Outcome Bool
  equal_enclosing t other = do
    simple ← Simple.equal go t.simple_type other.simple_type
    if not simple then ok false else do
      base ← Simple.equal go t.base_type other.base_type
      (if not base
          then ok false
          else if t.rewritable_values
          then ok true
          else contains_all t.values other.values)

  unfoldable pub convert_to_string_slice : EnumType Float → Value Float → Outcome (List Text)
  convert_to_string_slice t value = do
    found ← (if is_nil value then ok true else contains t.values value)
    guard found
    Simple.convert_to_string_slice go t.base_type value

  unfoldable pub convert_from_model : EnumType Float → Value Float → Outcome (Value Float)
  convert_from_model t value = if is_nil value then ok nil else do
    converted ← Simple.convert_from_model go t.base_type value
    found ← contains t.values converted
    guard found
    ok converted

-- ===== src/Field/ListOf.antt =====
-- ListType of workitem/list_type.go: lists of the values of a simple component type.
pub mod Items
pub mod Defaults
use almighty_core.Prelude.{Bool, true, false, not, List, [], ◌∷◌, if◌then◌else◌}
use almighty_core.Prelude.Texts.{Text}
use almighty_core.Field.Value.{
  Value, Values, nil, end, item, slice, strings, Platform, Outcome, ok, err, panic, ◌>>=◌, ◌>>◌,
  guard, is_nil, is_array_or_slice, elements, deep_equal,
}
use almighty_core.Field.Kind.{Kind, kind_list, is_simple_type}
use almighty_core.Field.Simple
use almighty_core.Field.Simple.{SimpleType}

pub record ListType (Float : Type 0) : Type 0 where
  pub simple_type : SimpleType Float
  pub component_type : SimpleType Float
  pub default_value : Value Float

abbrev pub is_list : Kind → Bool
is_list kind_list = true
is_list _ = false

module _ {Float : Type 0} (go : Platform Float) where
  -- the loop of ConvertList
  unfoldable pub convert_items :
      (Value Float → Outcome (Value Float)) → Values Float → Outcome (Values Float)
  convert_items converter end = ok end
  convert_items converter (item v vs) =
      let rest = convert_items converter vs in do w ← converter v; ws ← rest; ok (item w ws)

  -- `converter` is applied to the component type already
  unfoldable pub convert_list :
      (Value Float → Outcome (Value Float)) → Value Float → Outcome (Values Float)
  convert_list converter value =
      if is_nil value
      then ok end
      else if is_array_or_slice value
      then convert_items converter (elements go value)
      else err

  -- The []interface{} goes into an interface{}, and is not nil there even if it is a nil slice.
  unfoldable pub convert_to_model : ListType Float → Value Float → Outcome (Value Float)
  unfolding convert_list
  convert_to_model t value = do
    converted ← convert_list (Simple.convert_to_model go t.component_type) value
    ok (slice converted)

  unfoldable pub convert_from_model : ListType Float → Value Float → Outcome (Value Float)
  unfolding convert_list
  convert_from_model t value = do
    converted ← convert_list (Simple.convert_from_model go t.component_type) value
    ok (slice converted)

  -- the []string of an element, as an interface{}
  abbrev pub as_strings : SimpleType Float → Value Float → Outcome (Value Float)
  as_strings t v = do ss ← Simple.convert_to_string_slice go t v; ok (strings ss)

  abbrev pub only : List Text → Outcome Text
  only (s ∷ []) = ok s
  only _ = err

  -- valueList[i].([]string)
  abbrev pub string_slice : Value Float → Outcome (List Text)
  string_slice (strings ss) = ok ss
  string_slice _ = panic

  -- the loop that fills the buffer
  unfoldable pub buffer : Values Float → Outcome (List Text)
  buffer end = ok []
  buffer (item v vs) =
      let rest = buffer vs in do ss ← string_slice v; s ← only ss; t ← rest; ok (s ∷ t)

  unfoldable pub convert_to_string_slice : ListType Float → Value Float → Outcome (List Text)
  convert_to_string_slice t value =
      if is_nil value
      then ok []
      else do value_list ← convert_list (as_strings t.component_type) value; buffer value_list

  unfoldable pub set_default_value : ListType Float → Value Float → Outcome (ListType Float)
  set_default_value t v = if is_nil v then ok (record t { default_value = nil }) else do
    def_val ← Simple.convert_to_model go t.component_type v
    ok (record t { default_value = def_val })

  unfoldable pub validate : ListType Float → Outcome (Unit {0})
  unfolding set_default_value
  validate t = do
    guard (is_list t.simple_type.kind)
    guard (is_simple_type t.component_type.kind)
    t' ← set_default_value t t.default_value
    ok tt

  unfoldable pub equal : ListType Float → ListType Float → Outcome Bool
  equal t other = do
    simple ← Simple.equal go t.simple_type other.simple_type
    (if not simple
        then ok false
        else if not (deep_equal go t.default_value other.default_value)
        then ok false
        else Simple.equal go t.component_type other.component_type)

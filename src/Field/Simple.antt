-- ===== src/Field/Simple.antt =====
-- SimpleType of workitem/simple_type.go: the conversions of one value, by the kind of its field.
pub mod Stored
pub mod Defaults
pub mod Shapes
use almighty_core.Prelude.{
  ℕ, Bool, true, false, Option, none, some, List, [], ◌∷◌, ◌++◌, if◌then◌else◌,
}
use almighty_core.Prelude.Int.{ℤ}
use almighty_core.Prelude.Texts.{Text, codes, eqb_text}
use almighty_core.Field.Value.{
  Value, nil, bool, int, int64, float64, str, uuid, time, markup, codebase, dict, MarkupContent,
  Content, Platform, Outcome, ok, err, panic, ◌>>=◌, ◌>>◌, guard, of_option, is_nil,
  is_array_or_slice, is_struct, interface_eq,
}
use almighty_core.Field.Kind.{
  Kind, kind_string, kind_integer, kind_float, kind_boolean, kind_instant, kind_url, kind_markup,
  kind_iteration, kind_user, kind_label, kind_board_column, kind_area, kind_codebase,
  kind_remote_tracker, kind_enum, kind_list, is_simple_type, to_string,
}
use almighty_core.Field.Rendering.{
  is_markup_supported, markup_to_map, new_markup_content_from_map, content_to_map, is_valid,
  new_codebase_content,
}

pub record SimpleType (Float : Type 0) : Type 0 where
  pub kind : Kind
  pub default_value : Value Float

module _ {Float : Type 0} (go : Platform Float) where
  unfoldable pub any_to_uuid : Value Float → Outcome ℕ
  any_to_uuid (uuid u) = ok u
  any_to_uuid (str s) = of_option (go.uuid_from_string s)
  any_to_uuid _ = err

  string_to_model : Value Float → Outcome (Value Float)
  string_to_model (str s) = ok (str s)
  string_to_model _ = err

  url_to_model : Value Float → Outcome (Value Float)
  url_to_model (str s) = if go.is_url s then ok (str s) else err
  url_to_model _ = err

  float_to_model : Value Float → Outcome (Value Float)
  float_to_model (float64 f) = ok (float64 f)
  float_to_model _ = err

  integer_to_model : Value Float → Outcome (Value Float)
  integer_to_model (int n) = ok (int n)
  integer_to_model (int64 n) = ok (int64 n)
  integer_to_model (float64 f) = if go.is_whole f then ok (int (go.to_int f)) else err
  integer_to_model _ = err

  -- the test is on the dynamic kind, which is Struct for every struct; the assertion is on the type
  unfoldable pub instant_to_model : Value Float → Outcome (Value Float)
  instant_to_model (time t) = ok (int64 t)
  instant_to_model v = if is_struct v then panic else err

  list_to_model : Value Float → Outcome (Value Float)
  list_to_model v = if is_array_or_slice v then ok v else err

  unfoldable pub supported : MarkupContent → Outcome MarkupContent
  supported m = if is_markup_supported m.markup then ok m else err

  unfoldable pub markup_to_model : Value Float → Outcome (Value Float)
  unfolding supported
  markup_to_model (markup m) = do m' ← supported m; ok (dict (markup_to_map m'))
  markup_to_model (dict e) = do
    m ← new_markup_content_from_map e
    m' ← supported m
    ok (dict (markup_to_map m'))
  markup_to_model _ = err

  unfoldable pub codebase_to_model : Value Float → Outcome (Value Float)
  codebase_to_model (codebase c) = if is_valid go c then ok (dict (content_to_map c)) else err
  codebase_to_model _ = err

  boolean_to_model : Value Float → Outcome (Value Float)
  boolean_to_model (bool b) = ok (bool b)
  boolean_to_model _ = err

  -- the switch of ConvertToModel
  unfoldable pub to_model : Kind → Value Float → Outcome (Value Float)
  unfolding string_to_model url_to_model float_to_model integer_to_model instant_to_model
      list_to_model markup_to_model codebase_to_model boolean_to_model any_to_uuid
  to_model kind_string v = string_to_model v
  to_model kind_user v = string_to_model v
  to_model kind_iteration v = string_to_model v
  to_model kind_area v = string_to_model v
  to_model kind_label v = string_to_model v
  to_model kind_board_column v = string_to_model v
  to_model kind_remote_tracker v = do u ← any_to_uuid v; ok (uuid u)
  to_model kind_url v = url_to_model v
  to_model kind_float v = float_to_model v
  to_model kind_integer v = integer_to_model v
  to_model kind_instant v = instant_to_model v
  to_model kind_list v = list_to_model v
  to_model kind_enum v = ok v
  to_model kind_markup v = markup_to_model v
  to_model kind_codebase v = codebase_to_model v
  to_model kind_boolean v = boolean_to_model v
  to_model _ v = err

  unfoldable pub convert_to_model : SimpleType Float → Value Float → Outcome (Value Float)
  unfolding to_model
  convert_to_model t v = if is_nil v then ok nil else to_model t.kind v

  unfoldable pub set_default_value : SimpleType Float → Value Float → Outcome (SimpleType Float)
  set_default_value t v =
      if is_nil v
      then ok (record t { default_value = nil })
      else do def_val ← convert_to_model t v; ok (record t { default_value = def_val })

  unfoldable pub validate : SimpleType Float → Outcome (Unit {0})
  unfolding set_default_value
  validate t = do guard (is_simple_type t.kind); t' ← set_default_value t t.default_value; ok tt

  integer_to_strings : Value Float → Outcome (List Text)
  integer_to_strings (int n) = ok (go.itoa n ∷ [])
  integer_to_strings (int64 n) = ok (go.itoa n ∷ [])
  integer_to_strings (float64 f) = if go.is_whole f then ok (go.format0 f ∷ []) else err
  integer_to_strings _ = err

  string_to_strings : Value Float → Outcome (List Text)
  string_to_strings (str s) = ok (s ∷ [])
  string_to_strings _ = err

  url_to_strings : Value Float → Outcome (List Text)
  url_to_strings (str s) = if go.is_url s then ok (s ∷ []) else err
  url_to_strings _ = err

  float_to_strings : Value Float → Outcome (List Text)
  float_to_strings (float64 f) = ok (go.format6 f ∷ [])
  float_to_strings _ = err

  instant_to_strings : Value Float → Outcome (List Text)
  instant_to_strings (time t) = ok (go.rfc3339 t ∷ [])
  instant_to_strings _ = err

  boolean_to_strings : Value Float → Outcome (List Text)
  boolean_to_strings (bool b) = ok (if b then codes "true" ∷ [] else codes "false" ∷ [])
  boolean_to_strings _ = err

  markup_to_strings : Value Float → Outcome (List Text)
  unfolding supported
  markup_to_strings (markup m) = do m' ← supported m; ok (m'.content ∷ [])
  markup_to_strings (dict e) = do
    m ← new_markup_content_from_map e
    m' ← supported m
    ok (m'.content ∷ [])
  markup_to_strings _ = err

  codebase_to_strings : Value Float → Outcome (List Text)
  codebase_to_strings (codebase c) =
      if is_valid go c
      then ok (
          (c.repository
            ++ (b'#' ∷ (c.branch ++ (b'#' ∷ (c.file_name ++ (b':' ∷ go.itoa c.line_number))))))
          ∷ [])
      else err
  codebase_to_strings _ = err

  -- the switch of ConvertToStringSlice, with no case for enums and lists
  to_strings : Kind → Value Float → Outcome (List Text)
  unfolding any_to_uuid integer_to_strings string_to_strings url_to_strings float_to_strings
      instant_to_strings boolean_to_strings markup_to_strings codebase_to_strings
  to_strings kind_string v = string_to_strings v
  to_strings kind_user v = string_to_strings v
  to_strings kind_iteration v = string_to_strings v
  to_strings kind_area v = string_to_strings v
  to_strings kind_label v = string_to_strings v
  to_strings kind_board_column v = string_to_strings v
  to_strings kind_remote_tracker v = do u ← any_to_uuid v; ok (go.uuid_string u ∷ [])
  to_strings kind_url v = url_to_strings v
  to_strings kind_float v = float_to_strings v
  to_strings kind_integer v = integer_to_strings v
  to_strings kind_instant v = instant_to_strings v
  to_strings kind_boolean v = boolean_to_strings v
  to_strings kind_markup v = markup_to_strings v
  to_strings kind_codebase v = codebase_to_strings v
  to_strings _ v = err

  unfoldable pub convert_to_string_slice : SimpleType Float → Value Float → Outcome (List Text)
  unfolding to_strings
  convert_to_string_slice t v = if is_nil v then ok ([] ∷ []) else to_strings t.kind v

  -- time.Unix(0, n)
  instant_from_model : Value Float → Outcome (Value Float)
  instant_from_model (float64 f) = if go.is_whole f then ok (time (go.to_int f)) else err
  instant_from_model (int64 n) = ok (time n)
  instant_from_model _ = err

  markup_from_model : Value Float → Outcome (Value Float)
  markup_from_model (dict e) = do m ← new_markup_content_from_map e; ok (markup m)
  markup_from_model _ = err

  codebase_from_model : Value Float → Outcome (Value Float)
  codebase_from_model (dict e) = do c ← new_codebase_content go e; ok (codebase c)
  codebase_from_model _ = err

  -- the switch of ConvertFromModel
  unfoldable pub from_model : Kind → Value Float → Outcome (Value Float)
  unfolding any_to_uuid instant_from_model markup_from_model codebase_from_model
  from_model kind_string v = ok v
  from_model kind_url v = ok v
  from_model kind_user v = ok v
  from_model kind_integer v = ok v
  from_model kind_float v = ok v
  from_model kind_iteration v = ok v
  from_model kind_area v = ok v
  from_model kind_label v = ok v
  from_model kind_board_column v = ok v
  from_model kind_boolean v = ok v
  from_model kind_remote_tracker v = do u ← any_to_uuid v; ok (uuid u)
  from_model kind_instant v = instant_from_model v
  from_model kind_markup v = markup_from_model v
  from_model kind_codebase v = codebase_from_model v
  from_model _ v = err

  unfoldable pub convert_from_model : SimpleType Float → Value Float → Outcome (Value Float)
  unfolding from_model
  convert_from_model t v = if is_nil v then ok nil else from_model t.kind v

  unfoldable pub equal : SimpleType Float → SimpleType Float → Outcome Bool
  equal t other = do
    same ← interface_eq go t.default_value other.default_value
    ok (if same then eqb_text (to_string t.kind) (to_string other.kind) else false)

-- ===== src/Field/Definition/Required.antt =====
-- ConvertToModel of workitem/field_definition.go for a required field.
use almighty_core.Prelude.{
  ◌≡◌, refl, true, false, arith, inl, inr, if◌then◌else◌, Bool-cases, ◌∙◌, sym,
}
use almighty_core.Prelude.Texts.{Text, is_blank}
use almighty_core.Field.Value.{Value, str, slice, Platform, ok, ◌>>◌, bind-eq-ok, is_nil}
use almighty_core.Field.Kind.{Kind, is_simple_type, kind_string, kind_list, kind_enum}
use almighty_core.Field.Simple
use almighty_core.Field.Simple.{SimpleType, to_model}
use almighty_core.Field.Simple.Stored.{stored_not_nil}
use almighty_core.Field.Simple.Shapes.{to_model_of}
use almighty_core.Field.Enum.Members.{convert_to_model-Permitted}
use almighty_core.Field.ListOf
use almighty_core.Field.ListOf.{ListType}
use almighty_core.Field.Definition.{
  FieldType, simple, enum, list, FieldDefinition, get_kind, get_default_value, type_to_model,
  check_required, convert_to_model,
}

module _ {Float : Type 0} (go : Platform Float) where
  composite_not_nil :
      (k : Kind) (v m : Value Float)
      → is_simple_type k ≡ false
      → is_nil v ≡ false
      → to_model go k v ≡ ok m
      → is_nil m ≡ false
  unfolding to_model
  composite_not_nil kind_list v m s n h = ground arith
  composite_not_nil kind_enum v m s n h = ground arith
  composite_not_nil _ v m s n h = cc

  list_not_nil :
      (t : ListType Float) (v m : Value Float)
      → ListOf.convert_to_model go t v ≡ ok m
      → is_nil m ≡ false
  unfolding ListOf.convert_to_model
  list_not_nil t v m h =
      let f = Simple.convert_to_model go t.component_type in
      let (ws, e, q) = bind-eq-ok (ListOf.convert_list go f v) (λ c. ok (slice c)) h in ground arith

  checked_not_nil :
      (k : Kind) (v : Value Float) {u : Unit {0}} → check_required k v ≡ ok u → is_nil v ≡ false
  checked_not_nil k v h = ground arith

  checked_at :
      (v : Value Float) {u : Unit {0}}
      → check_required kind_string v ≡ ok u
      → (s : Text) × (v ≡ str s) × (is_blank s ≡ false)
  checked_at (str s) h = (s, refl, ground arith)
  checked_at _ h = cc

  checked_string :
      (k : Kind) (v : Value Float) {u : Unit {0}}
      → k ≡ kind_string
      → check_required k v ≡ ok u
      → (s : Text) × (v ≡ str s) × (is_blank s ≡ false)
  checked_string k v {u} e h =
      let p : check_required kind_string v ≡ ok u = rw e at h in checked_at v p

  -- a simple type converts no value but nil to nil
  simple_not_nil :
      (t : SimpleType Float) (v m : Value Float)
      → is_nil v ≡ false
      → Simple.convert_to_model go t v ≡ ok m
      → is_nil m ≡ false
  simple_not_nil t v m n h = elim (Bool-cases (is_simple_type t.kind)) [
    | inl s ↦ stored_not_nil go t.kind v m s (sym (to_model_of go t v n) ∙ h)
    | inr s ↦ composite_not_nil t.kind v m s n (sym (to_model_of go t v n) ∙ h)
  ]

  type_not_nil :
      (t : FieldType Float) (v m : Value Float)
      → is_nil v ≡ false
      → type_to_model go t v ≡ ok m
      → is_nil m ≡ false
  type_not_nil (simple t) v m n h = simple_not_nil t v m n h
  type_not_nil (enum t) v m n h =
      let (p, e) = convert_to_model-Permitted go t v m h in simple_not_nil t.base_type v m n e
  type_not_nil (list t) v m n h = list_not_nil t v m h

  -- A required field stores no nil.
  pub required_not_nil :
      (f : FieldDefinition Float) (v m : Value Float)
      → f.required ≡ true
      → convert_to_model go f v ≡ ok m
      → is_nil m ≡ false
  unfolding convert_to_model
  required_not_nil f v m r h =
      let w : Value Float = if is_nil v then get_default_value f.type else v in
      let p : (check_required (get_kind f.type) w >> type_to_model go f.type w) ≡ ok m =
        rw r at h in
      let (u, c, q) =
        bind-eq-ok (check_required (get_kind f.type) w) (λ _. type_to_model go f.type w) p in
      type_not_nil f.type w m (checked_not_nil (get_kind f.type) w c) q

  -- A required string field stores a value only if the value, or the default where none is given, is
  -- a string that is not blank.
  pub required_not_blank :
      (f : FieldDefinition Float) (v m : Value Float)
      → f.required ≡ true
      → get_kind f.type ≡ kind_string
      → convert_to_model go f v ≡ ok m
      → (s : Text) × ((if is_nil v then get_default_value f.type else v) ≡ str s)
        × (is_blank s ≡ false)
  unfolding convert_to_model
  required_not_blank f v m r k h =
      let w : Value Float = if is_nil v then get_default_value f.type else v in
      let p : (check_required (get_kind f.type) w >> type_to_model go f.type w) ≡ ok m =
        rw r at h in
      let (u, c, q) =
        bind-eq-ok (check_required (get_kind f.type) w) (λ _. type_to_model go f.type w) p in
      checked_string (get_kind f.type) w k c

-- ===== src/Field/Definition/Retype.antt =====
-- ConvertToModelWithType of workitem/simple_type.go between a simple field and a list of its kind, as a work item changes type.
use almighty_core.Prelude.{◌≡◌, refl, true, false, inl, inr, ◌∙◌, sym, Bool-cases}
use almighty_core.Field.Value.{
  Value, end, item, slice, Platform, ok, err, is_nil, is_array_or_slice,
}
use almighty_core.Field.Kind.{Kind, is_simple_type, kind_list}
use almighty_core.Field.Simple
use almighty_core.Field.Simple.{SimpleType, to_model}
use almighty_core.Field.Simple.Stored.{is_self_stored, to_model_again, stored_not_nil}
use almighty_core.Field.Simple.Shapes.{is_tracker, array-err, to_model_of}
use almighty_core.Field.ListOf
use almighty_core.Field.ListOf.{ListType, convert_items, is_list}
use almighty_core.Field.ListOf.Defaults.{not_list}
use almighty_core.Field.Definition.{simple, list, convert_to_model_with_type}

is_simple_type-is_list : (k : Kind) → is_simple_type k ≡ true → is_list k ≡ false
is_simple_type-is_list kind_list h = sym h
is_simple_type-is_list _ h = refl

module _ {Float : Type 0} (go : Platform Float) where
  -- a value that a simple field takes is no list
  taken_not_array :
      (t : SimpleType Float) (v m : Value Float)
      → is_simple_type t.kind ≡ true
      → is_tracker t.kind ≡ false
      → to_model go t.kind v ≡ ok m
      → is_array_or_slice v ≡ false
  taken_not_array t v m s n h = elim (Bool-cases (is_array_or_slice v)) [
    | inl a ↦ cc (array-err go t.kind v s n a)
    | inr b ↦ b
  ]

  one_item :
      (t : ListType Float) (v m : Value Float)
      → Simple.convert_to_model go t.component_type v ≡ ok m
      → ListOf.convert_to_model go t (slice (item v end)) ≡ ok (slice (item m end))
  unfolding ListOf.convert_to_model convert_items
  one_item t v m h = rw h

  to_list :
      (s : SimpleType Float) (t : ListType Float) (v m : Value Float)
      → ListOf.convert_to_model go t v ≡ err
      → t.simple_type.kind ≡ kind_list
      → ListOf.convert_to_model go t (slice (item v end)) ≡ ok m
      → convert_to_model_with_type go s (list t) v ≡ ok m
  unfolding convert_to_model_with_type
  to_list s t v m e k h = rw e (simp (k, h))

  to_simple :
      (t s : SimpleType Float) (v m : Value Float)
      → t.kind ≡ kind_list
      → is_simple_type s.kind ≡ true
      → Simple.convert_to_model go s (slice (item v end)) ≡ err
      → Simple.convert_to_model go s v ≡ ok m
      → convert_to_model_with_type go t (simple s) (slice (item v end)) ≡ ok m
  unfolding convert_to_model_with_type
  to_simple t s v m k i e h = simp (e, is_simple_type-is_list s.kind i, k, h)

  -- A value other than nil that a simple field takes, of a kind other than instant, codebase and
  -- remote tracker, becomes, in a list field whose component type is the type of the simple field,
  -- its default included, the list of what the simple field stores, and back in the simple field it
  -- is the stored value again.
  pub retype_round_trip :
      (s : SimpleType Float) (t : ListType Float) (v m : Value Float)
      → is_simple_type s.kind ≡ true
      → is_self_stored s.kind ≡ true
      → is_tracker s.kind ≡ false
      → is_nil v ≡ false
      → t.simple_type.kind ≡ kind_list
      → t.component_type ≡ s
      → Simple.convert_to_model go s v ≡ ok m
      → (convert_to_model_with_type go s (list t) v ≡ ok (slice (item m end)))
        × (convert_to_model_with_type go t.simple_type (simple s) (slice (item m end)) ≡ ok m)
  retype_round_trip s t v m i n r z k c h =
      let p : to_model go s.kind v ≡ ok m = sym (to_model_of go s v z) ∙ h in
      let a = taken_not_array s v m i r p in
      let again = to_model_again go s.kind v m i n p in
      let m_nil = stored_not_nil go s.kind v m i p in
      (
        to_list s t v (slice (item m end)) (not_list go t v z a) k (one_item t v m (rw c h)),
        to_simple t.simple_type s m m k i
            (to_model_of go s (slice (item m end)) refl
              ∙ array-err go s.kind (slice (item m end)) i r refl)
            (to_model_of go s m m_nil ∙ again),
      )

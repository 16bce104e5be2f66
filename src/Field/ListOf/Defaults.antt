-- ===== src/Field/ListOf/Defaults.antt =====
-- SetDefaultValue of workitem/list_type.go: default values of list fields.
use almighty_core.Prelude.{
  ℕ, ◌≡◌, ◌≢◌, refl, sym, ◌∙◌, true, false, List, [], ◌∷◌, arith, inl, inr, Bool-cases,
}
use almighty_core.Field.Value.{
  Value, uuid, uint8, Platform, Outcome, ok, err, ◌>>=◌, bind-eq-ok, is_nil, is_array_or_slice,
  of_bytes,
}
use almighty_core.Field.Kind.{is_simple_type}
use almighty_core.Field.Simple
use almighty_core.Field.Simple.{SimpleType, to_model}
use almighty_core.Field.Simple.Stored.{stored_not_nil}
use almighty_core.Field.Simple.Shapes.{
  is_tracker, stored_shape, tracker_shape, tracker-byte, to_model_of,
}
use almighty_core.Field.ListOf.{ListType, convert_items, convert_to_model, set_default_value}

module _ {Float : Type 0} (go : Platform Float) where
  abbrev store : ListType Float → Value Float → Outcome (ListType Float)
  store t d = ok (record t { default_value = d })

  -- what SetDefaultValue stores
  set_default_inv :
      (t t' : ListType Float) (v : Value Float)
      → is_nil v ≡ false
      → set_default_value go t v ≡ ok t'
      → (Simple.convert_to_model go t.component_type v ≡ ok t'.default_value)
        × (t'.component_type ≡ t.component_type)
  unfolding set_default_value
  set_default_inv t t' v n h =
      let p : (Simple.convert_to_model go t.component_type v >>= store t) ≡ ok t' = rw n at h in
      let (d, e, q) = bind-eq-ok (Simple.convert_to_model go t.component_type v) (store t) p in
      (rw e (ground arith), ground arith)

  pub not_list :
      (t : ListType Float) (v : Value Float)
      → is_nil v ≡ false
      → is_array_or_slice v ≡ false
      → convert_to_model go t v ≡ err
  unfolding convert_to_model
  not_list t v n a = rw (n, a) refl

  of_bytes-err :
      (t : ListType Float) (bs : List ℕ)
      → bs ≢ []
      → is_tracker t.component_type.kind ≡ true
      → convert_items go (Simple.convert_to_model go t.component_type) (of_bytes bs) ≡ err
  unfolding convert_items
  of_bytes-err t [] h k = absurd (h refl)
  of_bytes-err t (b ∷ bs) h k =
      rw (to_model_of go t.component_type (uint8 b) refl)
        (rw (tracker-byte go t.component_type.kind b k))

  uuid-err :
      (t : ListType Float) (u : ℕ)
      → go.uuid_bytes u ≢ []
      → is_tracker t.component_type.kind ≡ true
      → convert_to_model go t (uuid u) ≡ err
  unfolding convert_to_model
  uuid-err t u h k = rw (of_bytes-err t (go.uuid_bytes u) h k)

  -- The default value that a value other than nil sets on a list field of a simple component type is
  -- what the component type stores of that value, and the field refuses it, if the bytes of a UUID are
  -- not empty.
  pub list_default_refused :
      (t t' : ListType Float) (v : Value Float)
      → ((u : ℕ) → go.uuid_bytes u ≢ [])
      → is_simple_type t.component_type.kind ≡ true
      → is_nil v ≡ false
      → set_default_value go t v ≡ ok t'
      → (Simple.convert_to_model go t.component_type v ≡ ok t'.default_value)
        × (convert_to_model go t' t'.default_value ≡ err)
  list_default_refused t t' v u s n h =
      let (p, c) = set_default_inv t t' v n h in
      let q : to_model go t.component_type.kind v ≡ ok t'.default_value =
        sym (to_model_of go t.component_type v n) ∙ p in
      (
        p,
        elim (Bool-cases (is_tracker t.component_type.kind)) [
          | inl k ↦
              let (x, e) = tracker_shape go t.component_type.kind v t'.default_value k q in
              simp e (uuid-err t' x (u x) (rw c k))
          | inr k ↦
              not_list t' t'.default_value
                (stored_not_nil go t.component_type.kind v t'.default_value s q)
                (stored_shape go t.component_type.kind v t'.default_value s k q)
        ],
      )

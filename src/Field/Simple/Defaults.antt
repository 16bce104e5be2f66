-- ===== src/Field/Simple/Defaults.antt =====
-- Default values of workitem/simple_type.go: SetDefaultValue converts them to the model, and what is stored
-- in the type is converted once more whenever it is used.
use almighty_core.Prelude.{◌≡◌, ◌⊎◌, refl, true, false, inl, inr, arith, Bool-cases}
use almighty_core.Field.Value.{
  Value, Entries, nil, dict, Platform, Outcome, ok, err, panic, ◌>>=◌, is_nil, interface_eq,
}
use almighty_core.Field.Kind.{Kind, is_simple_type, kind_markup, kind_instant, kind_codebase}
use almighty_core.Field.Rendering.{markup_to_map, content_to_map}
use almighty_core.Field.Simple.{
  SimpleType, to_model, convert_to_model, set_default_value, validate, equal,
}
use almighty_core.Field.Simple.Stored.{
  is_self_stored, to_model_again, not_nil, instant_inv, codebase_inv, markup_inv,
}

module _ {Float : Type 0} (go : Platform Float) where
  abbrev store : SimpleType Float → Value Float → Outcome (SimpleType Float)
  store t d = ok (record t { default_value = d })

  store_inv :
      (o : Outcome (Value Float)) (t t' : SimpleType Float)
      → (o >>= store t) ≡ ok t'
      → (o ≡ ok t'.default_value) × (t'.kind ≡ t.kind)
  store_inv (ok d) t t' h = ground arith
  store_inv err t t' h = cc
  store_inv panic t t' h = cc

  -- what SetDefaultValue stores
  set_default_inv :
      (t t' : SimpleType Float) (v : Value Float)
      → is_nil v ≡ false
      → set_default_value go t v ≡ ok t'
      → (to_model go t.kind v ≡ ok t'.default_value) × (t'.kind ≡ t.kind)
  unfolding set_default_value convert_to_model
  set_default_inv t t' v n h =
      let p : (to_model go t.kind v >>= store t) ≡ ok t' = rw n at h in
      store_inv (to_model go t.kind v) t t' p

  set_default_nil :
      (t t' : SimpleType Float) (v : Value Float)
      → is_nil v ≡ true
      → set_default_value go t v ≡ ok t'
      → t'.default_value ≡ nil
  unfolding set_default_value
  set_default_nil t t' v n h = ground arith

  nil_accepted :
      (t : SimpleType Float)
      → t.default_value ≡ nil
      → convert_to_model go t t.default_value ≡ ok t.default_value
  unfolding convert_to_model
  nil_accepted t e = rw e refl

  accepted :
      (t : SimpleType Float)
      → to_model go t.kind t.default_value ≡ ok t.default_value
      → is_nil t.default_value ≡ false
      → convert_to_model go t t.default_value ≡ ok t.default_value
  unfolding convert_to_model
  accepted t h n = rw n h

  -- The default value that was set on a simple field of any kind but instant and codebase is
  -- accepted by the field, unchanged.
  pub default_accepted :
      (t t' : SimpleType Float) (v : Value Float)
      → is_simple_type t.kind ≡ true
      → is_self_stored t.kind ≡ true
      → set_default_value go t v ≡ ok t'
      → convert_to_model go t' t'.default_value ≡ ok t'.default_value
  default_accepted t t' v s n h = elim (Bool-cases (is_nil v)) [
    | inl e ↦ nil_accepted t' (set_default_nil t t' v e h)
    | inr e ↦
        let (p, k) = set_default_inv t t' v e h in
        let again = to_model_again go t.kind v t'.default_value s n p in
        accepted t' (rw k again) (not_nil go t.kind t'.default_value t'.default_value s again)
  ]

  instant_again :
      (v m : Value Float)
      → to_model go kind_instant v ≡ ok m
      → (to_model go kind_instant m ≡ err) × (is_nil m ≡ false)
  unfolding to_model
  instant_again v m h = let (x, e) = instant_inv go v m h in (rw e refl, rw e refl)

  codebase_again :
      (v m : Value Float)
      → to_model go kind_codebase v ≡ ok m
      → (to_model go kind_codebase m ≡ err) × (is_nil m ≡ false)
  unfolding to_model
  codebase_again v m h = let (c, e, u) = codebase_inv go v m h in (rw e refl, rw e refl)

  stored_refused :
      (k : Kind) (v m : Value Float)
      → (k ≡ kind_instant) ⊎ (k ≡ kind_codebase)
      → to_model go k v ≡ ok m
      → (to_model go k m ≡ err) × (is_nil m ≡ false)
  stored_refused k v m (inl e) h =
      let p : to_model go kind_instant v ≡ ok m = rw e at h in rw e (instant_again v m p)
  stored_refused k v m (inr e) h =
      let p : to_model go kind_codebase v ≡ ok m = rw e at h in rw e (codebase_again v m p)

  refused :
      (t : SimpleType Float)
      → to_model go t.kind t.default_value ≡ err
      → is_nil t.default_value ≡ false
      → (convert_to_model go t t.default_value ≡ err) × (validate go t ≡ err)
  unfolding convert_to_model validate
  refused t h n = ground arith

  -- The default value, other than nil, that was set on an instant or a codebase field is refused by
  -- the field, and so the field's type is no longer valid.
  pub default_refused :
      (t t' : SimpleType Float) (v : Value Float)
      → (t.kind ≡ kind_instant) ⊎ (t.kind ≡ kind_codebase)
      → is_nil v ≡ false
      → set_default_value go t v ≡ ok t'
      → (convert_to_model go t' t'.default_value ≡ err) × (validate go t' ≡ err)
  default_refused t t' v s n h =
      let (p, k) = set_default_inv t t' v n h in
      let (e, d) = stored_refused t.kind v t'.default_value s p in refused t' (rw k e) d

  stored_dict :
      (k : Kind) (v m : Value Float)
      → (k ≡ kind_markup) ⊎ (k ≡ kind_codebase)
      → to_model go k v ≡ ok m
      → (e : Entries Float) × (m ≡ dict e)
  unfolding to_model
  stored_dict k v m (inl e) h =
      let p : to_model go kind_markup v ≡ ok m = rw e at h in
      let (c, q, u) = markup_inv go v m p in (markup_to_map c, q)
  stored_dict k v m (inr e) h =
      let p : to_model go kind_codebase v ≡ ok m = rw e at h in
      let (c, q, u) = codebase_inv go v m p in (content_to_map c, q)

  -- A markup or codebase field with a default value other than nil cannot be compared: Equal panics,
  -- also on the type itself.
  pub equal_panics :
      (t t' : SimpleType Float) (v : Value Float)
      → (t.kind ≡ kind_markup) ⊎ (t.kind ≡ kind_codebase)
      → is_nil v ≡ false
      → set_default_value go t v ≡ ok t'
      → equal go t' t' ≡ panic
  unfolding equal interface_eq
  equal_panics t t' v s n h =
      let (p, k) = set_default_inv t t' v n h in
      let (e, d) = stored_dict t.kind v t'.default_value s p in rw d

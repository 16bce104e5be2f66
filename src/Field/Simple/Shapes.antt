-- ===== src/Field/Simple/Shapes.antt =====
-- The dynamic kinds of the values that ConvertToModel of workitem/simple_type.go takes and stores.
use almighty_core.Prelude.{ℕ, ◌≡◌, refl, Bool, List, true, false, inl, inr, Bool-cases}
use almighty_core.Prelude.Texts.{Text}
use almighty_core.Field.Value.{
  Value, Values, uuid, strings, slice, Platform, ok, err, uint8, is_nil, is_array_or_slice,
}
use almighty_core.Field.Kind.{
  Kind, kind_list, kind_enum, kind_remote_tracker, kind_instant, kind_codebase, is_simple_type,
}
use almighty_core.Field.Simple.{SimpleType, to_model, convert_to_model, any_to_uuid}
use almighty_core.Field.Simple.Stored.{to_model_again, instant_inv, codebase_inv, tracker_inv}

abbrev pub is_tracker : Kind → Bool
is_tracker kind_remote_tracker = true
is_tracker _ = false

module _ {Float : Type 0} (go : Platform Float) where
  slice-err :
      (k : Kind) (vs : Values Float) → is_simple_type k ≡ true → to_model go k (slice vs) ≡ err
  unfolding to_model
  slice-err kind_list vs s = cc
  slice-err kind_enum vs s = cc
  slice-err _ vs s = refl

  strings-err :
      (k : Kind) (ss : List Text) → is_simple_type k ≡ true → to_model go k (strings ss) ≡ err
  unfolding to_model
  strings-err kind_list vs s = cc
  strings-err kind_enum vs s = cc
  strings-err _ vs s = refl

  uuid-err :
      (k : Kind) (u : ℕ)
      → is_simple_type k ≡ true
      → is_tracker k ≡ false
      → to_model go k (uuid u) ≡ err
  unfolding to_model
  uuid-err kind_list u s n = cc
  uuid-err kind_enum u s n = cc
  uuid-err kind_remote_tracker u s n = cc
  uuid-err _ u s n = refl

  -- a simple field other than a remote tracker takes no array and no slice
  pub array-err :
      (k : Kind) (v : Value Float)
      → is_simple_type k ≡ true
      → is_tracker k ≡ false
      → is_array_or_slice v ≡ true
      → to_model go k v ≡ err
  array-err k (slice vs) s n a = slice-err k vs s
  array-err k (strings ss) s n a = strings-err k ss s
  array-err k (uuid u) s n a = uuid-err k u s n
  array-err k _ s n a = cc

  instant_shape :
      (v m : Value Float) → to_model go kind_instant v ≡ ok m → is_array_or_slice m ≡ false
  unfolding to_model
  instant_shape v m h = let (x, e) = instant_inv go v m h in rw e refl

  codebase_shape :
      (v m : Value Float) → to_model go kind_codebase v ≡ ok m → is_array_or_slice m ≡ false
  unfolding to_model
  codebase_shape v m h = let (c, e, u) = codebase_inv go v m h in rw e refl

  pub tracker_shape :
      (k : Kind) (v m : Value Float)
      → is_tracker k ≡ true
      → to_model go k v ≡ ok m
      → (u : ℕ) × (m ≡ uuid u)
  unfolding to_model
  tracker_shape kind_remote_tracker v m t h = tracker_inv go (any_to_uuid go v) m h
  tracker_shape _ v m t h = cc

  pub tracker-byte : (k : Kind) (b : ℕ) → is_tracker k ≡ true → to_model go k (uint8 b) ≡ err
  unfolding to_model any_to_uuid
  tracker-byte kind_remote_tracker b t = refl
  tracker-byte _ b t = cc

  pub to_model_of :
      (t : SimpleType Float) (v : Value Float)
      → is_nil v ≡ false
      → convert_to_model go t v ≡ to_model go t.kind v
  unfolding convert_to_model
  to_model_of t v n = rw n

  -- nor does it store one
  pub stored_shape :
      (k : Kind) (v m : Value Float)
      → is_simple_type k ≡ true
      → is_tracker k ≡ false
      → to_model go k v ≡ ok m
      → is_array_or_slice m ≡ false
  stored_shape kind_instant v m s n h = instant_shape v m h
  stored_shape kind_codebase v m s n h = codebase_shape v m h
  stored_shape kind_list v m s n h = cc
  stored_shape kind_enum v m s n h = cc
  stored_shape kind_remote_tracker v m s n h = cc
  stored_shape k v m s n h = elim (Bool-cases (is_array_or_slice m)) [
    | inl a ↦ cc (array-err k m s n a, to_model_again go k v m s refl h)
    | inr b ↦ b
  ]

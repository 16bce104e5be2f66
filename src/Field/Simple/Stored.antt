-- ===== src/Field/Simple/Stored.antt =====
-- ConvertToModel and ConvertFromModel of workitem/simple_type.go, one after the other.
use almighty_core.Prelude.{ℕ, ◌≡◌, refl, Bool, true, false, inl, inr, arith, Bool-cases}
use almighty_core.Prelude.Int.{ℤ}
use almighty_core.Field.Value.{
  Value, nil, bool, int, int64, float64, str, uuid, time, markup, codebase, dict, Content,
  MarkupContent, Platform, Outcome, ok, err, panic, ◌>>=◌, is_nil,
}
use almighty_core.Field.Kind.{
  Kind, kind_string, kind_integer, kind_float, kind_boolean, kind_instant, kind_url, kind_markup,
  kind_iteration, kind_user, kind_label, kind_board_column, kind_area, kind_codebase,
  kind_remote_tracker, kind_enum, kind_list, kind_other, is_simple_type,
}
use almighty_core.Field.Rendering.{
  is_markup_supported, markup_to_map, new_markup_content_from_map, content_to_map, is_valid,
  content-round_trip, markup-round_trip,
}
use almighty_core.Field.Simple.{
  SimpleType, string_to_model, url_to_model, float_to_model, integer_to_model, instant_to_model,
  markup_to_model, codebase_to_model, boolean_to_model, any_to_uuid, to_model, from_model,
  supported, convert_to_model, convert_from_model,
}

-- The kinds whose stored values are values of the REST layer too.
abbrev pub is_self_stored : Kind → Bool
is_self_stored kind_instant = false
is_self_stored kind_codebase = false
is_self_stored _ = true

module _ {Float : Type 0} (go : Platform Float) where
  -- `m` can be read back, and what is read is stored as `m` again.
  abbrev pub Restores : Kind → Value Float → Type 0
  Restores k m =
      (w : Value Float) × (from_model go k m ≡ ok w)
      × (to_model go k w ≡ ok m)
      × (is_nil m ≡ false)
      × (is_nil w ≡ false)

  to_model-nil : (k : Kind) → is_simple_type k ≡ true → to_model go k nil ≡ err
  unfolding to_model
  to_model-nil kind_list s = cc
  to_model-nil kind_enum s = cc
  to_model-nil _ s = refl

  pub not_nil :
      (k : Kind) (v m : Value Float)
      → is_simple_type k ≡ true
      → to_model go k v ≡ ok m
      → is_nil v ≡ false
  not_nil k nil m s h = cc (to_model-nil k s)
  not_nil k _ m s h = refl

  same :
      (k : Kind) (m : Value Float)
      → is_simple_type k ≡ true
      → from_model go k m ≡ ok m
      → to_model go k m ≡ ok m
      → Restores k m
  same k m s f h = (m, f, h, not_nil k m m s h, not_nil k m m s h)

  string_again : (v m : Value Float) → string_to_model go v ≡ ok m → string_to_model go m ≡ ok m
  unfolding string_to_model
  string_again (str s) m h = ground arith
  string_again _ m h = cc

  url_again : (v m : Value Float) → url_to_model go v ≡ ok m → url_to_model go m ≡ ok m
  unfolding url_to_model
  url_again (str s) m h = ground arith
  url_again _ m h = cc

  float_again : (v m : Value Float) → float_to_model go v ≡ ok m → float_to_model go m ≡ ok m
  unfolding float_to_model
  float_again (float64 f) m h = ground arith
  float_again _ m h = cc

  integer_again : (v m : Value Float) → integer_to_model go v ≡ ok m → integer_to_model go m ≡ ok m
  unfolding integer_to_model
  integer_again (int n) m h = ground arith
  integer_again (int64 n) m h = ground arith
  integer_again (float64 f) m h = ground arith
  integer_again _ m h = cc

  boolean_again : (v m : Value Float) → boolean_to_model go v ≡ ok m → boolean_to_model go m ≡ ok m
  unfolding boolean_to_model
  boolean_again (bool b) m h = ground arith
  boolean_again _ m h = cc

  abbrev as_uuid : ℕ → Outcome (Value Float)
  as_uuid u = ok (uuid u)

  pub tracker_inv :
      (o : Outcome ℕ) (m : Value Float) → (o >>= as_uuid) ≡ ok m → (u : ℕ) × (m ≡ uuid u)
  tracker_inv (ok u) m h = (u, cc)
  tracker_inv err m h = cc
  tracker_inv panic m h = cc

  pub instant_inv : (v m : Value Float) → instant_to_model go v ≡ ok m → (t : ℤ) × (m ≡ int64 t)
  unfolding instant_to_model
  instant_inv (time t) m h = (t, cc)
  instant_inv _ m h = cc

  pub codebase_inv :
      (v m : Value Float)
      → codebase_to_model go v ≡ ok m
      → (c : Content) × (m ≡ dict (content_to_map c)) × (is_valid go c ≡ true)
  unfolding codebase_to_model
  codebase_inv (codebase c) m h = (c, ground arith, ground arith)
  codebase_inv _ m h = cc

  -- the rest of the conversion of a markup that was read from a map
  abbrev stored : MarkupContent → Outcome (Value Float)
  stored c = do c' ← supported go c; ok (dict (markup_to_map c'))

  stored_inv :
      (o : Outcome MarkupContent) (m : Value Float)
      → (o >>= stored) ≡ ok m
      → (c : MarkupContent) × (m ≡ dict (markup_to_map c)) × (is_markup_supported c.markup ≡ true)
  unfolding supported
  stored_inv (ok c) m h = (c, ground arith, ground arith)
  stored_inv err m h = cc
  stored_inv panic m h = cc

  pub markup_inv :
      (v m : Value Float)
      → markup_to_model go v ≡ ok m
      → (c : MarkupContent) × (m ≡ dict (markup_to_map c)) × (is_markup_supported c.markup ≡ true)
  unfolding markup_to_model supported
  markup_inv (markup c) m h = (c, ground arith, ground arith)
  markup_inv (dict e) m h = stored_inv (new_markup_content_from_map e) m h
  markup_inv _ m h = cc

  to_model-Restores :
      (k : Kind) (v m : Value Float)
      → is_simple_type k ≡ true
      → to_model go k v ≡ ok m
      → Restores k m
  unfolding to_model from_model
  to_model-Restores kind_string v m s h = same kind_string m s refl (string_again v m h)
  to_model-Restores kind_user v m s h = same kind_user m s refl (string_again v m h)
  to_model-Restores kind_iteration v m s h = same kind_iteration m s refl (string_again v m h)
  to_model-Restores kind_area v m s h = same kind_area m s refl (string_again v m h)
  to_model-Restores kind_label v m s h = same kind_label m s refl (string_again v m h)
  to_model-Restores kind_board_column v m s h = same kind_board_column m s refl (string_again v m h)
  to_model-Restores kind_url v m s h = same kind_url m s refl (url_again v m h)
  to_model-Restores kind_float v m s h = same kind_float m s refl (float_again v m h)
  to_model-Restores kind_integer v m s h = same kind_integer m s refl (integer_again v m h)
  to_model-Restores kind_boolean v m s h = same kind_boolean m s refl (boolean_again v m h)
  to_model-Restores kind_instant v m s h =
      let (t, e) = instant_inv v m h in (time t, rw e refl, rw e refl, rw e refl, refl)
  to_model-Restores kind_remote_tracker v m s h =
      let (u, e) = tracker_inv (any_to_uuid go v) m h in
      (uuid u, unfold any_to_uuid in rw e refl, unfold any_to_uuid in rw e refl, rw e refl, refl)
  to_model-Restores kind_markup v m s h =
      let (c, e, u) = markup_inv v m h in
      (markup c, rw e (rw (markup-round_trip go c u)), rw e (rw u), rw e refl, refl)
  to_model-Restores kind_codebase v m s h =
      let (c, e, u) = codebase_inv v m h in
      (codebase c, rw e (rw (content-round_trip go c u)), rw e (rw u), rw e refl, refl)
  to_model-Restores kind_list v m s h = cc
  to_model-Restores kind_enum v m s h = cc
  to_model-Restores (kind_other x) v m s h = cc

  pub stored_not_nil :
      (k : Kind) (v m : Value Float)
      → is_simple_type k ≡ true
      → to_model go k v ≡ ok m
      → is_nil m ≡ false
  stored_not_nil k v m s h = let (w, f, g, n, o) = to_model-Restores k v m s h in n

  -- of the kinds other than instant and codebase a stored value is stored as itself
  pub to_model_again :
      (k : Kind) (v m : Value Float)
      → is_simple_type k ≡ true
      → is_self_stored k ≡ true
      → to_model go k v ≡ ok m
      → to_model go k m ≡ ok m
  unfolding to_model
  to_model_again kind_string v m s n h = string_again v m h
  to_model_again kind_user v m s n h = string_again v m h
  to_model_again kind_iteration v m s n h = string_again v m h
  to_model_again kind_area v m s n h = string_again v m h
  to_model_again kind_label v m s n h = string_again v m h
  to_model_again kind_board_column v m s n h = string_again v m h
  to_model_again kind_url v m s n h = url_again v m h
  to_model_again kind_float v m s n h = float_again v m h
  to_model_again kind_integer v m s n h = integer_again v m h
  to_model_again kind_boolean v m s n h = boolean_again v m h
  to_model_again kind_instant v m s n h = cc
  to_model_again kind_remote_tracker v m s n h =
      let (u, e) = tracker_inv (any_to_uuid go v) m h in unfold any_to_uuid in rw e refl
  to_model_again kind_markup v m s n h =
      let (c, e, u) = markup_inv v m h in
      rw e (rw (markup-round_trip go c u) (unfold supported in rw u))
  to_model_again kind_codebase v m s n h = cc
  to_model_again kind_list v m s n h = cc
  to_model_again kind_enum v m s n h = cc
  to_model_again (kind_other x) v m s n h = cc

  -- What a simple field stores of a value can always be read back, and what is read back is stored
  -- as the same value again.
  pub stored_round_trip :
      (t : SimpleType Float) (v m : Value Float)
      → is_simple_type t.kind ≡ true
      → convert_to_model go t v ≡ ok m
      → (w : Value Float) × (convert_from_model go t m ≡ ok w) × (convert_to_model go t w ≡ ok m)
  unfolding convert_to_model convert_from_model
  stored_round_trip t v m s h = elim (Bool-cases (is_nil v)) [
    | inl e ↦ let p : ok nil ≡ ok m = rw e at h in let q : m ≡ nil = cc in (nil, rw q, p)
    | inr e ↦
        let p : to_model go t.kind v ≡ ok m = rw e at h in
        let (w, f, g, n, o) = to_model-Restores t.kind v m s p in (w, rw n f, rw o g)
  ]

-- ===== src/Field/ListOf/Items.antt =====
-- ConvertToModel and ConvertToStringSlice of workitem/list_type.go, item by item.
use almighty_core.Prelude.{
  ◌↔◌, suc, ◌≡◌, refl, true, false, List, [], ◌∷◌, ap, ◌∙◌, length, inl, inr, Bool-cases,
}
use almighty_core.Prelude.Texts.{Text}
use almighty_core.Field.Value.{
  Value, Values, end, item, slice, Platform, Outcome, ok, err, ◌>>=◌, bind-eq-ok, is_nil,
  is_array_or_slice, elements, length_values,
}
use almighty_core.Field.Simple
use almighty_core.Field.Simple.{SimpleType}
use almighty_core.Field.ListOf.{
  ListType, convert_items, convert_list, as_strings, buffer, only, string_slice, convert_to_model,
  convert_to_string_slice,
}

-- The items of two lists, in pairs: `g` is what `f` makes of each.
pub data Each {Float : Type 0} (converter : Value Float → Outcome (Value Float))
    : Values Float → Values Float → Type 0 where
  end_each : Each converter end end
  item_each :
      {v w : Value Float} {vs ws : Values Float}
      → converter v ≡ ok w
      → Each converter vs ws
      → Each converter (item v vs) (item w ws)

module _ {Float : Type 0} (go : Platform Float) where
  convert_items-Each :
      (f : Value Float → Outcome (Value Float)) (vs ws : Values Float)
      → convert_items go f vs ≡ ok ws
      → Each f vs ws
  unfolding convert_items
  convert_items-Each f end end h = end_each
  convert_items-Each f end (item w ws) h = cc
  convert_items-Each f (item v vs) ws h =
      let (w, e, p) = bind-eq-ok (f v) (λ x. convert_items go f vs >>= λ xs. ok (item x xs)) h in
      let (us, d, q) = bind-eq-ok (convert_items go f vs) (λ xs. ok (item w xs)) p in
      let r : item w us ≡ ws = cc in rw (← r) (item_each e (convert_items-Each f vs us d))

  Each-convert_items :
      (f : Value Float → Outcome (Value Float)) {vs ws : Values Float}
      → Each f vs ws
      → convert_items go f vs ≡ ok ws
  unfolding convert_items
  Each-convert_items f end_each = refl
  Each-convert_items f (item_each e r) = rw e (rw (Each-convert_items f r))

  convert_list-Each :
      (f : Value Float → Outcome (Value Float)) (v : Value Float) (ws : Values Float)
      → is_nil v ≡ false
      → convert_list go f v ≡ ok ws
      → Each f (elements go v) ws
  unfolding convert_list
  convert_list-Each f v ws n h = elim (Bool-cases (is_array_or_slice v)) [
    | inl a ↦
        let p : convert_items go f (elements go v) ≡ ok ws = rw (n, a) at h in
        convert_items-Each f (elements go v) ws p
    | inr a ↦ let p : err ≡ ok ws = rw (n, a) at h in cc
  ]

  -- A list value, not nil, converts to a list exactly if each of its items converts, and then to the
  -- list of what they convert to, in order.
  pub convert_to_model_iff :
      (t : ListType Float) (v : Value Float) (ws : Values Float)
      → is_nil v ≡ false
      → is_array_or_slice v ≡ true
      → (convert_to_model go t v ≡ ok (slice ws))
        ↔ Each (Simple.convert_to_model go t.component_type) (elements go v) ws
  unfolding convert_to_model
  convert_to_model_iff t v ws n a =
      let f = Simple.convert_to_model go t.component_type in
      (
        λ h.
            let p : (convert_items go f (elements go v) >>= λ c. ok (slice c)) ≡ ok (slice ws) =
              rw (n, a) at h in
            let (us, e, q) =
              bind-eq-ok (convert_items go f (elements go v)) (λ c. ok (slice c)) p in
            let r : us ≡ ws = cc in rw (← r) (convert_items-Each f (elements go v) us e),
        λ r. rw (n, a) (rw (Each-convert_items f r)),
      )

  abbrev after_only : Values Float → Text → Outcome (List Text)
  after_only vs s = do t ← buffer go vs; ok (s ∷ t)

  abbrev after_slice : Values Float → List Text → Outcome (List Text)
  after_slice vs us = do s ← only go us; after_only vs s

  length-Each :
      (f : Value Float → Outcome (Value Float)) {vs ws : Values Float}
      → Each f vs ws
      → length_values ws ≡ length_values vs
  length-Each f end_each = refl
  length-Each f (item_each e r) = ap suc (length-Each f r)

  length-buffer :
      (vs : Values Float) (ss : List Text) → buffer go vs ≡ ok ss → length ss ≡ length_values vs
  unfolding buffer
  length-buffer end [] h = refl
  length-buffer end (s ∷ ss) h = cc
  length-buffer (item v vs) ss h =
      let (us, e, p) = bind-eq-ok (string_slice go v) (after_slice vs) h in
      let (s, d, q) = bind-eq-ok (only go us) (after_only vs) p in
      let (t, c, r) = bind-eq-ok (buffer go vs) (λ t. ok (s ∷ t)) q in
      let x : s ∷ t ≡ ss = cc in rw (← x) (ap suc (length-buffer vs t c))

  -- The strings that a list value, not nil, converts to are as many as its items.
  pub length-convert_to_string_slice :
      (t : ListType Float) (v : Value Float) (ss : List Text)
      → is_nil v ≡ false
      → convert_to_string_slice go t v ≡ ok ss
      → length ss ≡ length_values (elements go v)
  unfolding convert_to_string_slice
  length-convert_to_string_slice t v ss n h =
      let f = as_strings go t.component_type in
      let p : (convert_list go f v >>= buffer go) ≡ ok ss = rw n at h in
      let (vs, e, q) = bind-eq-ok (convert_list go f v) (buffer go) p in
      length-buffer vs ss q ∙ length-Each f (convert_list-Each f v vs n e)

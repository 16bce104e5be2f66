-- ===== src/Path/Stored.antt =====
-- Value, Scan, Convert and ToExpression of path/path.go, one against the other.
use almighty_core.Prelude.{
  ℕ, ◌≡◌, ◌≢◌, refl, ap, ◌∙◌, true, false, some, List, [], ◌∷◌, ◌++◌, arith, all,
}
use mathlib.Core.List.{append_assoc}
use almighty_core.Prelude.Texts.{Text, eqb_text, replace_byte, join, split}
use almighty_core.Field.Value.{ok}
use almighty_core.Path.{
  UuidPackage, is_uuid_byte, strings, convert, convert_to_ltree, value, from_strings,
  convert_from_ltree, to_expression, runes, bytes, scan, dash, underscore, sep_in_database,
}
use almighty_core.Path.Splitting.{
  lacks, lacks_uuid, is_ltree_byte, replace_back, replace_separated, split-join, runes-ascii,
}

ltree_bytes :
    (s : Text)
    → all is_uuid_byte s ≡ true
    → all is_ltree_byte (replace_byte dash underscore s) ≡ true
unfolding replace_byte
ltree_bytes [] h = refl
ltree_bytes (c ∷ s) h = ground (arith, ltree_bytes s)

append_bytes :
    (s t : Text)
    → all is_ltree_byte s ≡ true
    → all is_ltree_byte t ≡ true
    → all is_ltree_byte (s ++ t) ≡ true
append_bytes [] t h k = k
append_bytes (c ∷ s) t h k = ground (arith, append_bytes s t)

join_filled :
    (s : Text) (ss : List Text)
    → s ≢ []
    → eqb_text (replace_byte dash underscore (join sep_in_database (s ∷ ss))) [] ≡ false
unfolding join replace_byte
join_filled [] ss h = absurd (h refl)
join_filled (c ∷ s) [] h = refl
join_filled (c ∷ s) (t ∷ ts) h = refl

module _ (uuids : UuidPackage) where
  value_bytes : (p : List ℕ) → all is_ltree_byte (value uuids p) ≡ true
  unfolding value join convert_to_ltree
  value_bytes [] = refl
  value_bytes (x ∷ []) = ltree_bytes (uuids.to_string x) (uuids.to_string-bytes x)
  value_bytes (x ∷ y ∷ p) =
      append_bytes (convert_to_ltree uuids x) (sep_in_database ∷ value uuids (y ∷ p))
        (ltree_bytes (uuids.to_string x) (uuids.to_string-bytes x)) (value_bytes (y ∷ p))

  ltree_back : (x : ℕ) → replace_byte underscore dash (convert_to_ltree uuids x) ≡ uuids.to_string x
  unfolding convert_to_ltree
  ltree_back x =
      replace_back dash underscore (uuids.to_string x)
        (lacks_uuid (uuids.to_string x) (uuids.to_string-bytes x)).0

  value_back :
      (p : List ℕ)
      → replace_byte underscore dash (value uuids p) ≡ join sep_in_database (strings uuids p)
  unfolding value join
  value_back [] = unfold replace_byte in refl
  value_back (x ∷ []) = ltree_back x
  value_back (x ∷ y ∷ p) =
      let h =
        replace_separated underscore dash sep_in_database (convert_to_ltree uuids x)
          (value uuids (y ∷ p)) refl in
      h
      ∙ rw (ltree_back x) (ap (λ r. uuids.to_string x ++ sep_in_database ∷ r) (value_back (y ∷ p)))

  strings_lack : (p : List ℕ) → all (lacks sep_in_database) (strings uuids p) ≡ true
  strings_lack [] = refl
  strings_lack (x ∷ p) =
      ground (arith, (lacks_uuid (uuids.to_string x) (uuids.to_string-bytes x)).1, strings_lack p)

  from_strings-strings : (p : List ℕ) → from_strings uuids (strings uuids p) ≡ some p
  unfolding from_strings
  from_strings-strings [] = refl
  from_strings-strings (x ∷ p) = rw (uuids.from_string-to_string x, from_strings-strings p) refl

  convert_from_ltree-value :
      (x : ℕ) (p : List ℕ) → convert_from_ltree uuids (value uuids (x ∷ p)) ≡ some (x ∷ p)
  unfolding convert_from_ltree
  convert_from_ltree-value x p = rw (value_back (x ∷ p)) (
      rw (split-join sep_in_database (uuids.to_string x) (strings uuids p) (strings_lack (x ∷ p)))
        (from_strings-strings (x ∷ p)))

  -- What the store keeps of a path, the empty one included, is read back as the path.
  pub scan-value : (p : List ℕ) → scan uuids (bytes (value uuids p)) ≡ ok p
  unfolding scan
  scan-value [] =
      unfold value join runes convert_from_ltree from_strings replace_byte split in
      rw uuids.from_string-empty refl
  scan-value (x ∷ p) =
      rw (runes-ascii (value uuids (x ∷ p)) (value_bytes (x ∷ p)))
        (rw (convert_from_ltree-value x p) refl)

  -- Convert, which replaces the dashes of the joined ids, and Value, which joins the replaced ids,
  -- write the same text.
  pub convert-value : (p : List ℕ) → convert uuids p ≡ value uuids p
  unfolding convert value join convert_to_ltree
  convert-value [] = refl
  convert-value (x ∷ []) = refl
  convert-value (x ∷ y ∷ p) =
      replace_separated dash underscore sep_in_database (uuids.to_string x)
        (join sep_in_database (strings uuids (y ∷ p))) refl
      ∙ ap (λ r. convert_to_ltree uuids x ++ sep_in_database ∷ r) (convert-value (y ∷ p))

  to_string_filled : (x : ℕ) → uuids.to_string x ≢ []
  to_string_filled x e =
      let p : uuids.from_string [] ≡ some x = rw (← e) (uuids.from_string-to_string x) in
      let q = uuids.from_string-empty in cc

  convert_filled : (y : ℕ) (p : List ℕ) → eqb_text (convert uuids (y ∷ p)) [] ≡ false
  unfolding convert
  convert_filled y p = join_filled (uuids.to_string y) (strings uuids p) (to_string_filled y)

  snoc_value :
      (p : List ℕ) (y x : ℕ)
      → value uuids (y ∷ p) ++ sep_in_database ∷ convert_to_ltree uuids x
        ≡ value uuids ((y ∷ p) ++ x ∷ [])
  unfolding value join
  snoc_value [] y x = refl
  snoc_value (z ∷ p) y x =
      append_assoc (convert_to_ltree uuids y) (sep_in_database ∷ value uuids (z ∷ p))
        (sep_in_database ∷ convert_to_ltree uuids x)
      ∙ ap (λ r. convert_to_ltree uuids y ++ sep_in_database ∷ r) (snoc_value p z x)

  -- The expression of a path and an id is what the store keeps of the path with the id behind it.
  pub to_expression-value :
      (p : List ℕ) (x : ℕ) → to_expression uuids p x ≡ value uuids (p ++ x ∷ [])
  unfolding to_expression
  to_expression-value [] x = unfold convert value join in refl
  to_expression-value (y ∷ p) x =
      rw (convert_filled y p) (rw (convert-value (y ∷ p)) (snoc_value p y x))

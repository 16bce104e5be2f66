-- ===== src/Field/Enum/Members.antt =====
-- The permitted values of workitem/enum_type.go: ConvertToModel and Validate.
use almighty_core.Prelude.{◌≡◌, Bool, true, false, not, inl, inr, if◌then◌else◌, Bool-cases}
use almighty_core.Field.Value.{
  Value, Values, end, item, Platform, Outcome, ok, ◌>>=◌, ◌>>◌, guard, is_nil, interface_eq,
  bind-eq-ok, guard-eq-ok,
}
use almighty_core.Field.Kind.{is_simple_type}
use almighty_core.Field.Simple
use almighty_core.Field.Simple.{SimpleType}
use almighty_core.Field.Enum.{
  EnumType, contains, convert_to_model, set_default_value, get_default_value, validate_values,
  validate, is_enum, is_end, first_of_values,
}

-- `e` stands in the list.
pub data In {Float : Type 0} (e : Value Float) : Values Float → Type 0 where
  head : (vs : Values Float) → In e (item e vs)
  tail : (v : Value Float) (vs : Values Float) → In e vs → In e (item v vs)

module _ {Float : Type 0} (go : Platform Float) where
  -- a permitted value that == holds equal to `m`
  abbrev pub Permitted : Values Float → Value Float → Type 0
  Permitted vs m = (e : Value Float) × In e vs × (interface_eq go e m ≡ ok true)

  contains-Permitted :
      (vs : Values Float) (m : Value Float) → contains go vs m ≡ ok true → Permitted vs m
  unfolding contains
  contains-Permitted end m h = cc
  contains-Permitted (item v vs) m h =
      let (same, e, q) =
        bind-eq-ok (interface_eq go v m) (λ s. if s then ok true else contains go vs m) h in
      elim (Bool-cases same) [
        | inl yes' ↦ (v, head vs, rw (← yes') e)
        | inr no' ↦
            let rest : contains go vs m ≡ ok true = rw no' at q in
            let (x, i, p) = contains-Permitted vs m rest in (x, tail v vs i, p)
      ]

  -- the rest of a conversion behind that of the base type
  abbrev kept : Value Float → Bool → Outcome (Value Float)
  kept c found = do guard found; ok c

  abbrev checked : EnumType Float → Value Float → Outcome (Value Float)
  checked t c = do found ← contains go t.values c; guard found; ok c

  -- What an enum converts a value to is one of its permitted values, and the conversion of the base
  -- type.
  pub convert_to_model-Permitted :
      (t : EnumType Float) (v m : Value Float)
      → convert_to_model go t v ≡ ok m
      → Permitted t.values m × (Simple.convert_to_model go t.base_type v ≡ ok m)
  unfolding convert_to_model
  convert_to_model-Permitted t v m h =
      let (c, e, q) = bind-eq-ok (Simple.convert_to_model go t.base_type v) (checked t) h in
      let (found, e', q') = bind-eq-ok (contains go t.values c) (kept c) q in
      let (f, p) = guard-eq-ok found (ok c) q' in
      let same : ok c ≡ ok m = p in
      let c_m : c ≡ m = cc in (contains-Permitted t.values m (cc), rw e p)

  abbrev after_default : EnumType Float → Outcome (Unit {0})
  after_default t = do guard (not (is_end t.values)); validate_values go t t.values

  abbrev after_base : EnumType Float → Outcome (Unit {0})
  after_base t = do t' ← set_default_value go t t.default_value; after_default t

  abbrev after_kind : EnumType Float → Outcome (Unit {0})
  after_kind t = do guard (is_simple_type t.base_type.kind); after_base t

  first_converts :
      (t : EnumType Float) (vs : Values Float)
      → not (is_end vs) ≡ true
      → validate_values go t vs ≡ ok tt
      → (m : Value Float) × (convert_to_model go t (first_of_values vs) ≡ ok m)
  unfolding validate_values
  first_converts t end n h = cc
  first_converts t (item v vs) n h =
      let (m, e, q) = bind-eq-ok (convert_to_model go t v) (λ _. validate_values go t vs) h in
      (m, e)

  default_converts :
      (t t' : EnumType Float) (v : Value Float)
      → is_nil v ≡ false
      → set_default_value go t v ≡ ok t'
      → (m : Value Float) × (convert_to_model go t v ≡ ok m)
  unfolding set_default_value
  default_converts t t' v n h =
      let p : (convert_to_model go t v >>= λ d. ok (record t { default_value = d })) ≡ ok t' =
        rw n at h in
      let (m, e, q) =
        bind-eq-ok (convert_to_model go t v) (λ d. ok (record t { default_value = d })) p in
      (m, e)

  -- An enum that is valid converts its default value, set or not.
  pub valid_default :
      (t : EnumType Float)
      → validate go t ≡ ok tt
      → (m : Value Float) × (convert_to_model go t (get_default_value t) ≡ ok m)
  unfolding validate
  valid_default t h =
      let (s, p) = guard-eq-ok (is_enum t.simple_type.kind) (after_kind t) h in
      let (b, q) = guard-eq-ok (is_simple_type t.base_type.kind) (after_base t) p in
      let (t', d, r) =
        bind-eq-ok (set_default_value go t t.default_value) (λ _. after_default t) q in
      let (n, w) = guard-eq-ok (not (is_end t.values)) (validate_values go t t.values) r in
      elim (Bool-cases (is_nil t.default_value)) [
        | inl e ↦
            let (m, c) = first_converts t t.values n w in (m, unfold get_default_value in rw e c)
        | inr e ↦
            let (m, c) = default_converts t t' t.default_value e d in
            (m, unfold get_default_value in rw e c)
      ]

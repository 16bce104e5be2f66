-- ===== src/WorkItem/Change/Typed.antt =====
-- The fields of a work item through ChangeWorkItemType of workitem/workitem_repository.go.
use almighty_core.Prelude.{
  ◌≡◌, refl, ap, ◌∙◌, ◌⊎◌, inl, inr, true, false, none, some, List, [], ◌∷◌, All, Member, here,
  there, Bool-cases, Option-cases, if◌then◌else◌,
}
use almighty_core.Prelude.Texts.{Text, eqb_text}
use almighty_core.Answer.{Answer, done, panicked}
use almighty_core.Field.Value.{
  Value, Platform, Entries, no_entry, entry, lookup, is_nil, nil, Outcome, ok, err, panic,
}
use almighty_core.Field.Kind.{eqb_text→eq, eqb_text_refl}
use almighty_core.Field.Definition as Definition
use almighty_core.Field.Definition.{FieldDefinition, simple_type}
use almighty_core.WorkItem.{TypeField, value_at}
use almighty_core.WorkItem.Names.{DistinctNames, eqb_text_comm, Member-All, Outcome-cases}
use almighty_core.Answer.{bind-done}
use almighty_core.WorkItem.Change.{
  Missing, Changed, remove, put, find_field, add_missing, take_out, converted_to, change_field,
  change_fields, less_text, system_meta_state,
}

module _ {Float : Type 0} where
  lookup-remove : (key : Text) (m : Entries Float) → lookup key (remove key m) ≡ none
  lookup-remove key no_entry = refl
  lookup-remove key (entry k v m) = elim (Bool-cases (eqb_text k key)) [
    | inl t ↦ rw t (lookup-remove key m)
    | inr f ↦ rw (f, f) (lookup-remove key m)
  ]

  lookup-remove_other :
      (k key : Text) (m : Entries Float)
      → eqb_text k key ≡ false
      → lookup key (remove k m) ≡ lookup key m
  lookup-remove_other k key no_entry h = refl
  lookup-remove_other k key (entry x v m) h = elim (Bool-cases (eqb_text x k)) [
    | inl t ↦
        let e : eqb_text x key ≡ false = ap (λ y. eqb_text y key) (eqb_text→eq x k t) ∙ h in
        rw (t, e) (lookup-remove_other k key m h)
    | inr f ↦ elim (Bool-cases (eqb_text x key)) [
      | inl t ↦ rw (f, t) refl
      | inr g ↦ rw (f, g) (lookup-remove_other k key m h)
    ]
  ]

  lookup-put :
      (key : Text) (v : Value Float) (m : Entries Float) → lookup key (put key v m) ≡ some v
  lookup-put key v no_entry = rw (eqb_text_refl key) refl
  lookup-put key v (entry k w m) = elim (Bool-cases (eqb_text k key)) [
    | inl t ↦ rw (t, t) refl
    | inr f ↦ rw (f, f) (lookup-put key v m)
  ]

  lookup-put_other :
      (k key : Text) (v : Value Float) (m : Entries Float)
      → eqb_text k key ≡ false
      → lookup key (put k v m) ≡ lookup key m
  lookup-put_other k key v no_entry h = rw h refl
  lookup-put_other k key v (entry x w m) h = elim (Bool-cases (eqb_text x k)) [
    | inl t ↦
        let e : eqb_text x key ≡ false = ap (λ y. eqb_text y key) (eqb_text→eq x k t) ∙ h in
        rw (t, e) refl
    | inr f ↦ elim (Bool-cases (eqb_text x key)) [
      | inl t ↦ rw (f, t) refl
      | inr g ↦ rw (f, g) (lookup-put_other k key v m h)
    ]
  ]

  Member-add_missing : (x : Missing Float) (ys : List (Missing Float)) → Member x (add_missing x ys)
  Member-add_missing x [] = here []
  Member-add_missing x (y ∷ ys) = elim (Bool-cases (less_text x.field.name y.field.name)) [
    | inl t ↦ rw t (here (y ∷ ys))
    | inr f ↦ rw f (there y (add_missing x ys) (Member-add_missing x ys))
  ]

  Member-add_missing_old :
      (x : Missing Float) {z : Missing Float} {ys : List (Missing Float)}
      → Member z ys
      → Member z (add_missing x ys)
  Member-add_missing_old x {z} (here ys) = elim (Bool-cases (less_text x.field.name z.field.name)) [
    | inl t ↦ rw t (there x (z ∷ ys) (here ys))
    | inr f ↦ rw f (here (add_missing x ys))
  ]
  Member-add_missing_old x (there y ys m) =
      elim (Bool-cases (less_text x.field.name y.field.name)) [
        | inl t ↦ rw t (there x (y ∷ ys) (there y ys m))
        | inr f ↦ rw f (there y (add_missing x ys) (Member-add_missing_old x m))
      ]

  -- what a change of other fields leaves of a field
  record Keeps (key : Text) (a b : Changed Float) : Type 0 where
    same_value : lookup key b.fields ≡ lookup key a.fields
    still_missing : {x : Missing Float} → Member x a.missing → Member x b.missing

  take_out-Keeps :
      (g : TypeField Float) (key : Text) (c : Changed Float)
      → eqb_text g.name key ≡ false
      → Keeps key c (take_out g c)
  take_out-Keeps g key c h = record {
    same_value = lookup-remove_other g.name key c.fields h;
    still_missing = Member-add_missing_old _;
  }

  Keeps-refl : (key : Text) (c : Changed Float) → Keeps key c c
  Keeps-refl key c = record { same_value = refl; still_missing = λ m. m }

  converted_to-Keeps :
      (g : TypeField Float) (o : Outcome (Value Float)) (key : Text) (a b : Changed Float)
      → eqb_text g.name key ≡ false
      → converted_to g o a ≡ done b
      → Keeps key a b
  converted_to-Keeps g (ok v) key a b h e =
      let q : record a { fields = put g.name v a.fields } ≡ b = cc in
      rw (← q)
        record { same_value = lookup-put_other g.name key v a.fields h; still_missing = λ m. m }
  converted_to-Keeps g err key a b h e =
      let q : take_out g a ≡ b = cc in rw (← q) (take_out-Keeps g key a h)
  converted_to-Keeps g panic key a b h e = cc

module _ {Float : Type 0} (go : Platform Float) where
  abbrev turn : TypeField Float → List (TypeField Float) → Changed Float → Answer (Changed Float)
  turn g new a =
      if eqb_text g.name system_meta_state
      then done a
      else change_field go g (find_field new g.name) a

  turn-Keeps :
      (g : TypeField Float) (new : List (TypeField Float)) (key : Text) (a b : Changed Float)
      → eqb_text g.name key ≡ false
      → turn g new a ≡ done b
      → Keeps key a b
  turn-Keeps g new key a b h e = elim (Bool-cases (eqb_text g.name system_meta_state)) [
    | inl t ↦
        let p : done a ≡ done b = rw t at e in let q : a ≡ b = cc in rw (← q) (Keeps-refl key a)
    | inr f ↦ elim (Option-cases (find_field new g.name)) [
      | inl n ↦ elim (Bool-cases (is_nil (value_at g.name a.fields))) [
        | inl v ↦
            let p : done a ≡ done b = rw (f, n, v) at e in
            let q : a ≡ b = cc in rw (← q) (Keeps-refl key a)
        | inr v ↦
            let p : done (take_out g a) ≡ done b = rw (f, n, v) at e in
            let q : take_out g a ≡ b = cc in rw (← q) (take_out-Keeps g key a h)
      ]
      | inr (d, n) ↦
          let p : change_field go g (some d) a ≡ done b = rw (f, n) at e in
          converted_to-Keeps g _ key a b h p
    ]
  ]

  change_fields-Keeps :
      (old new : List (TypeField Float)) (key : Text) (a b : Changed Float)
      → All (λ g. eqb_text g.name key ≡ false) old
      → change_fields go old new a ≡ done b
      → Keeps key a b
  unfolding change_fields
  change_fields-Keeps [] new key a b h e = let q : a ≡ b = cc in rw (← q) (Keeps-refl key a)
  change_fields-Keeps (g ∷ old) new key a b (u, h) e =
      let (c, p, q) = bind-done (turn g new a) (change_fields go old new) b e in
      let k = turn-Keeps g new key a c u p in
      let l = change_fields-Keeps old new key c b h q in
      record {
        same_value = l.same_value ∙ k.same_value;
        still_missing = λ m. l.still_missing (k.still_missing m);
      }

  -- what becomes of a field of the old type with the value
  abbrev pub Fate : TypeField Float → List (TypeField Float) → Value Float → Changed Float → Type 0
  Fate f new v c =
      ((d : FieldDefinition Float) × (w : Value Float) × (find_field new f.name ≡ some d)
        × (Definition.convert_to_model_with_type go (simple_type f.definition.type) d.type v ≡ ok w)
        × (lookup f.name c.fields ≡ some w))
      ⊎ (((find_field new f.name ≡ none) × (is_nil v ≡ true))
          ⊎ (Member (record { field = f; value = v }) c.missing × (lookup f.name c.fields ≡ none)))

  take_out-Fate :
      (f : TypeField Float) (new : List (TypeField Float)) (a b : Changed Float)
      → take_out f a ≡ b
      → Fate f new (value_at f.name a.fields) b
  take_out-Fate f new a b q =
      rw (← q) (inr (inr (Member-add_missing _ a.missing, lookup-remove f.name a.fields)))

  turn-Fate :
      (f : TypeField Float) (new : List (TypeField Float)) (a b : Changed Float)
      → eqb_text f.name system_meta_state ≡ false
      → turn f new a ≡ done b
      → Fate f new (value_at f.name a.fields) b
  turn-Fate f new a b m e = elim (Option-cases (find_field new f.name)) [
    | inl n ↦ elim (Bool-cases (is_nil (value_at f.name a.fields))) [
      | inl v ↦ inr (inl (n, v))
      | inr v ↦
          let p : done (take_out f a) ≡ done b = rw (m, n, v) at e in take_out-Fate f new a b cc
    ]
    | inr (d, n) ↦
        let p : change_field go f (some d) a ≡ done b = rw (m, n) at e in
        elim (Outcome-cases (
          Definition.convert_to_model_with_type go (simple_type f.definition.type) d.type
            (value_at f.name a.fields))) [
              | inl (w, o) ↦
                  let r : done (record a { fields = put f.name w a.fields }) ≡ done b = rw o at p in
                  let q : record a { fields = put f.name w a.fields } ≡ b = cc in
                  inl (d, w, n, o, rw (← q) (lookup-put f.name w a.fields))
              | inr (inl o) ↦
                  let r : done (take_out f a) ≡ done b = rw o at p in take_out-Fate f new a b cc
              | inr (inr o) ↦
                  let r : ◌≡◌ {A = Answer (Changed Float)} panicked (done b) = rw o at p in cc
            ]
  ]

  Keeps-Fate :
      (f : TypeField Float) (new : List (TypeField Float)) (v : Value Float) (b c : Changed Float)
      → Keeps f.name b c
      → Fate f new v b
      → Fate f new v c
  Keeps-Fate f new v b c k t = elim t [
    | inl (d, w, n, o, l) ↦ inl (d, w, n, o, k.same_value ∙ l)
    | inr (inl n) ↦ inr (inl n)
    | inr (inr (m, l)) ↦ inr (inr (k.still_missing m, k.same_value ∙ l))
  ]

  -- After the loop of ChangeWorkItemType over the fields of the old type, whose names differ, where it
  -- succeeds, a field of the old type but the metastate is either a field of the new type, to which
  -- its value converts, and has the converted value; or it is no field of the new type and had the
  -- value nil; or the fields have no value for it, and fieldDiff has the value that it had before the
  -- loop.
  pub change_fields-Fate :
      {f : TypeField Float} (old new : List (TypeField Float)) (a c : Changed Float)
      → Member f old
      → DistinctNames old
      → eqb_text f.name system_meta_state ≡ false
      → change_fields go old new a ≡ done c
      → Fate f new (value_at f.name a.fields) c
  unfolding change_fields
  change_fields-Fate {f} _ new a c (here old) (u, d) m e =
      let (b, p, q) = bind-done (turn f new a) (change_fields go old new) c e in
      Keeps-Fate f new (value_at f.name a.fields) b c (change_fields-Keeps old new f.name b c u q)
        (turn-Fate f new a b m p)
  change_fields-Fate {f} _ new a c (there g old i) (u, d) m e =
      let (b, p, q) = bind-done (turn g new a) (change_fields go old new) c e in
      let w : eqb_text g.name f.name ≡ false =
        eqb_text_comm g.name f.name ∙ Member-All (λ x. eqb_text x.name g.name ≡ false) old i u in
      let k = turn-Keeps g new f.name a b w p in
      let v : value_at f.name b.fields ≡ value_at f.name a.fields =
        ap (λ o. elim o [ none ↦ nil | some x ↦ x ]) k.same_value in
      rw (← v) (change_fields-Fate old new b c i d m q)

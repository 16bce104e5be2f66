-- ===== src/WorkItem/Save/Fields.antt =====
-- The fields of a work item after Save of workitem/workitem_repository.go.
use almighty_core.Prelude.{
  arith, ℕ, suc, ◌≡◌, refl, sym, ap, ◌∙◌, ◌⊎◌, inl, inr, ◌&&◌, true, false, none, some, List, [],
  ◌∷◌, All, Member, here, there, Bool-cases,
}
use almighty_core.Prelude.Texts.{Text, eqb_text}
use almighty_core.Errors.{bad_parameter_class}
use almighty_core.Answer.{Answer, done, failed, panicked, ◌>>=◌}
use almighty_core.Field.Value.{Value, Platform, Entries, no_entry, entry, lookup, ok}
use almighty_core.Field.Kind.{Kind, eqb_text_refl}
use almighty_core.Field.Definition as Definition
use almighty_core.Field.Definition.{get_kind}
use almighty_core.Field.ListOf.{is_list}
use almighty_core.WorkItem.{
  Orders, WorkItemStorage, WorkItem, WorkItemType, TypeField, find_type, value_at,
}
use almighty_core.WorkItem.Names.{DistinctNames, eqb_text_comm, Member-All, Outcome-cases}
use almighty_core.Answer.{bind-done}
use almighty_core.WorkItem.Create.{SpaceTemplate}
use almighty_core.WorkItem.Save.{is_empty_list, Saved, find_numbered, is_passed, save_fields, save}
use almighty_core.WorkItem.Save.Conflict.{save-Renewed, Renewed-found}

module _ {Float : Type 0} where
  -- a read-only field, or a list that is given an empty one
  abbrev pub Passed : TypeField Float → Entries Float → Type 0
  Passed f given =
      (f.definition.read_only ≡ true)
      ⊎ ((is_list (get_kind f.definition.type) ≡ true)
          × (is_empty_list (value_at f.name given) ≡ true))

  abbrev pub NotPassed : TypeField Float → Entries Float → Type 0
  NotPassed f given =
      (f.definition.read_only ≡ false)
      × ((is_list (get_kind f.definition.type) ≡ false)
          ⊎ (is_empty_list (value_at f.name given) ≡ false))

  is_passed-Passed :
      (f : TypeField Float) (given : Entries Float) → is_passed f given ≡ true → Passed f given
  is_passed-Passed f given h = elim (Bool-cases f.definition.read_only) [
    | inl r ↦ inl r
    | inr r ↦
        let p : (is_list (get_kind f.definition.type) && is_empty_list (value_at f.name given))
            ≡ true =
          rw r at h in
        inr (ground arith, ground arith)
  ]

  is_passed-NotPassed :
      (f : TypeField Float) (given : Entries Float) → is_passed f given ≡ false → NotPassed f given
  is_passed-NotPassed f given h = elim (Bool-cases f.definition.read_only) [
    | inl r ↦ let p : true ≡ false = rw r at h in cc
    | inr r ↦
        let p : (is_list (get_kind f.definition.type) && is_empty_list (value_at f.name given))
            ≡ false =
          rw r at h in
        elim (Bool-cases (is_list (get_kind f.definition.type))) [
          | inl l ↦ (r, inr (ground arith))
          | inr l ↦ (r, inl l)
        ]
  ]

module _ {Float : Type 0} (orders : Orders Float) (go : Platform Float) where
  -- what Save stores of one field
  abbrev pub Stored : TypeField Float → Entries Float → Entries Float → Type 0
  Stored f given m =
      (Passed f given × (lookup f.name m ≡ none))
      ⊎ (NotPassed f given
          × ((v : Value Float) × (Definition.convert_to_model go f.definition
                  (value_at f.name given)
                ≡ ok v)
              × (lookup f.name m ≡ some v)))

  -- one turn of the loop
  save_fields_step :
      (f : TypeField Float) (fs : List (TypeField Float)) (given m : Entries Float)
      → save_fields orders go (f ∷ fs) given ≡ done m
      → ((is_passed f given ≡ true) × (save_fields orders go fs given ≡ done m))
        ⊎ ((is_passed f given ≡ false)
            × ((v : Value Float) × (n : Entries Float) × (Definition.convert_to_model go
                    f.definition
                    (value_at f.name given)
                  ≡ ok v)
                × (save_fields orders go fs given ≡ done n)
                × (entry f.name v n ≡ m)))
  unfolding save_fields
  save_fields_step f fs given m h = elim (Bool-cases (is_passed f given)) [
    | inl t ↦ inl (t, rw t at h)
    | inr e ↦
        elim (Outcome-cases (Definition.convert_to_model go f.definition (value_at f.name given))) [
          | inl (v, c) ↦
              let p : (save_fields orders go fs given >>= λ m. done (entry f.name v m)) ≡ done m =
                rw (e, c) at h in
              let (n, a, b) =
                bind-done (save_fields orders go fs given) (λ m. done (entry f.name v m)) m p in
              inr (e, (v, n, c, a, cc))
          | inr (inl c) ↦ let p : failed bad_parameter_class ≡ done m = rw (e, c) at h in cc
          | inr (inr c) ↦
              let p : ◌≡◌ {A = Answer (Entries Float)} panicked (done m) = rw (e, c) at h in cc
        ]
  ]

  save_fields-absent :
      (fs : List (TypeField Float)) (given m : Entries Float) (key : Text)
      → save_fields orders go fs given ≡ done m
      → All (λ g. eqb_text g.name key ≡ false) fs
      → lookup key m ≡ none
  unfolding save_fields
  save_fields-absent [] given m key h a = let q : no_entry ≡ m = cc in rw (← q) refl
  save_fields-absent (f ∷ fs) given m key h (u, a) = elim (save_fields_step f fs given m h) [
    | inl (t, p) ↦ save_fields-absent fs given m key p a
    | inr (e, (v, n, c, p, q)) ↦ rw (← q, u) (save_fields-absent fs given n key p a)
  ]

  save_fields-Stored :
      {f : TypeField Float} (fs : List (TypeField Float)) (given m : Entries Float)
      → Member f fs
      → DistinctNames fs
      → save_fields orders go fs given ≡ done m
      → Stored f given m
  save_fields-Stored {f} _ given m (here fs) (a, d) h = elim (save_fields_step f fs given m h) [
    | inl (t, p) ↦ inl (is_passed-Passed f given t, save_fields-absent fs given m f.name p a)
    | inr (e, (v, n, c, p, q)) ↦
        let r : eqb_text f.name f.name ≡ true = eqb_text_refl f.name in
        inr (is_passed-NotPassed f given e, (v, c, rw (← q, r) refl))
  ]
  save_fields-Stored {f} _ given m (there g fs i) (a, d) h =
      elim (save_fields_step g fs given m h) [
        | inl (t, p) ↦ save_fields-Stored fs given m i d p
        | inr (e, (v, n, c, p, q)) ↦
            let u : eqb_text f.name g.name ≡ false =
              Member-All (λ x. eqb_text x.name g.name ≡ false) fs i a in
            let w : eqb_text g.name f.name ≡ false = eqb_text_comm g.name f.name ∙ u in
            elim (save_fields-Stored fs given n i d p) [
              | inl (x, l) ↦ inl (x, rw (← q, w) l)
              | inr (x, (y, k, l)) ↦ inr (x, (y, k, rw (← q, w) l))
            ]
      ]

  module _ (sprint : Value Float → Text) (relational : Kind → Value Float → Answer Text) where
    -- A Save that succeeds and keeps the type of the work item stores exactly this of the fields of
    -- the type, in a row that has the next version and replaces the one that was found: of each
    -- field, the converted value that it was given, or nothing, where the field is read-only or it is
    -- a list and was given an empty one.
    pub save-Stored :
        (spaces : List SpaceTemplate) (types : List (WorkItemType Float))
        (rows : List (WorkItemStorage Float)) (space_id : ℕ) (wi : WorkItem Float) (modifier_id : ℕ)
        (z : Saved Float) (r : WorkItemStorage Float) (t : WorkItemType Float)
        → find_numbered rows space_id wi.number ≡ some r
        → find_type types r.type ≡ some t
        → wi.type ≡ r.type
        → DistinctNames t.fields
        → save orders go sprint relational spaces types rows space_id wi modifier_id ≡ done z
        → (s : WorkItemStorage Float) × (find_numbered z.rows space_id wi.number ≡ some s)
          × (s.version ≡ suc r.version)
          × ((f : TypeField Float) → Member f t.fields → Stored f wi.fields s.fields)
    save-Stored spaces types rows space_id wi modifier_id z r t e g k d h =
        let w =
          save-Renewed orders go sprint relational spaces types rows space_id wi modifier_id z h in
        let p : some w.before ≡ some r = sym w.found ∙ e in
        let q : w.before ≡ r = cc in
        let o : some w.before_type ≡ some t =
          sym w.before_typed ∙ ap (λ x. find_type types x.type) q ∙ g in
        let u : w.before_type ≡ t = cc in
        let (i, a, b, l, v) = w.same in
        let y : save_fields orders go t.fields wi.fields ≡ done w.after.fields =
          ap (λ x. save_fields orders go x.fields wi.fields) (sym u)
          ∙ w.fields_saved (ap (λ x. x.type) q ∙ sym k) in
        (
          w.after,
          Renewed-found orders go sprint relational types rows space_id wi z w,
          v ∙ ap (λ x. suc x.version) q,
          (λ f i. save_fields-Stored t.fields wi.fields w.after.fields i d y),
        )

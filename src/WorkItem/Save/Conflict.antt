-- ===== src/WorkItem/Save/Conflict.antt =====
-- Two writers of one work item: Save of workitem/workitem_repository.go.
use almighty_core.Prelude.{
  ℕ, ◌≡◌, refl, sym, ap, ◌∙◌, inl, inr, Bool, true, false, not, ◌&&◌, some, List, [], ◌∷◌, arith,
  ◌==◌, ==_iff, Bool-cases, Option-cases,
}
use almighty_core.Prelude.Texts.{Text}
use almighty_core.Errors.{version_conflict_class, internal_class, not_found_class}
use almighty_core.Answer.{Answer, done, failed, ◌>>=◌}
use almighty_core.Field.Value.{Value, Platform}
use almighty_core.Field.Kind.{Kind}
use almighty_core.WorkItem.{Orders, WorkItemStorage, WorkItem, WorkItemType, find_type, replace_row}
use almighty_core.Answer.{bind-done}
use almighty_core.WorkItem.Reorder.{converts}
use almighty_core.WorkItem.Create.{SpaceTemplate, check_type_and_space_share_template}
use almighty_core.WorkItem.Change.{
  Changed, change_work_item_type, change_fields, add_description, set_defaults,
}
use almighty_core.WorkItem.Save.{
  Saved, create_revision, revision_type_update, find_numbered, renewed, of_new_type, retyped,
  save_fields, store, save,
}

module _ {Float : Type 0} where
  -- the same item, whatever its type and fields
  abbrev pub SameItem : WorkItemStorage Float → WorkItemStorage Float → Type 0
  SameItem r s =
      (s.id ≡ r.id)
      × (s.number ≡ r.number)
      × (s.space_id ≡ r.space_id)
      × (s.deleted ≡ r.deleted)
      × (s.version ≡ r.version)

  abbrev matches : ℕ → ℕ → WorkItemStorage Float → Bool
  matches space_id number r = (r.number == number) && ((r.space_id == space_id) && not r.deleted)

  pub found_matches :
      (rows : List (WorkItemStorage Float)) (space_id number : ℕ) {r : WorkItemStorage Float}
      → find_numbered rows space_id number ≡ some r
      → matches space_id number r ≡ true
  found_matches [] space_id number h = cc
  found_matches (x ∷ rows) space_id number {r} h = elim (Bool-cases (matches space_id number x)) [
    | inl t ↦ let p : some x ≡ some r = rw t at h in let q : r ≡ x = cc in rw q t
    | inr f ↦
        let p : find_numbered rows space_id number ≡ some r = rw f at h in
        found_matches rows space_id number p
  ]

  pub find_numbered-replace_row :
      (rows : List (WorkItemStorage Float)) (space_id number : ℕ) (r s : WorkItemStorage Float)
      → find_numbered rows space_id number ≡ some r
      → s.id ≡ r.id
      → matches space_id number s ≡ true
      → find_numbered (replace_row s.id s rows) space_id number ≡ some s
  find_numbered-replace_row [] space_id number r s h i m = cc
  find_numbered-replace_row (x ∷ rows) space_id number r s h i m =
      elim (Bool-cases (x.id == s.id)) [
        | inl t ↦ rw (t, m) refl
        | inr f ↦ elim (Bool-cases (matches space_id number x)) [
          | inl u ↦
              let p : some x ≡ some r = rw u at h in
              let q : x ≡ r = cc in
              let e : (r.id == r.id) ≡ false = rw (q, i) at f in absurd (ground arith)
          | inr g ↦
              let p : find_numbered rows space_id number ≡ some r = rw g at h in
              rw (f, g) (find_numbered-replace_row rows space_id number r s p i m)
        ]
      ]

  SameItem-matches :
      (space_id number : ℕ) (r s : WorkItemStorage Float)
      → SameItem r s
      → matches space_id number r ≡ true
      → matches space_id number s ≡ true
  SameItem-matches space_id number r s (i, n, p, d, v) m = rw (n, p, d) m

module _ {Float : Type 0} (orders : Orders Float) (go : Platform Float)
    (sprint : Value Float → Text) (relational : Kind → Value Float → Answer Text) where
  change-SameItem :
      (spaces : List SpaceTemplate) (r s : WorkItemStorage Float) (old new : WorkItemType Float)
      (space_id : ℕ)
      → change_work_item_type go sprint relational spaces r old new space_id ≡ done s
      → SameItem r s × (s.type ≡ new.type_id)
  unfolding change_work_item_type
  change-SameItem spaces r s old new space_id h =
      let start : Changed Float = record { fields = r.fields; missing = [] } in
      let (u, a, h1) = bind-done (check_type_and_space_share_template spaces new space_id) _ s h in
      let (c, b, h2) = bind-done (change_fields go old.fields new.fields start) _ s h1 in
      let (m, e, h3) = bind-done (add_description go sprint relational new.name c) _ s h2 in
      let (d, f, h4) = bind-done (set_defaults go new.fields m) _ s h3 in
      let q : record r { fields = d; type = new.type_id } ≡ s = cc in
      rw (← q) ((refl, refl, refl, refl, refl), refl)

  find_type-id :
      (types : List (WorkItemType Float)) (id : ℕ) {t : WorkItemType Float}
      → find_type types id ≡ some t
      → t.type_id ≡ id
  find_type-id [] id h = cc
  find_type-id (x ∷ types) id {t} h = elim (Bool-cases (x.type_id == id)) [
    | inl e ↦
        let p : some x ≡ some t = rw e at h in
        let q : x ≡ t = cc in rw (← q) ((==_iff x.type_id id).0 e)
    | inr f ↦ let p : find_type types id ≡ some t = rw f at h in find_type-id types id p
  ]

  retyped-SameItem :
      (spaces : List SpaceTemplate) (types : List (WorkItemType Float)) (r : WorkItemStorage Float)
      (old : WorkItemType Float) (type_id space_id : ℕ)
      (x : WorkItemStorage Float × WorkItemType Float)
      → find_type types r.type ≡ some old
      → retyped orders go sprint relational spaces types r old type_id space_id ≡ done x
      → SameItem r x.0 × (find_type types x.0.type ≡ some x.1)
  retyped-SameItem spaces types r old type_id space_id x o h =
      elim (Bool-cases (r.type == type_id)) [
        | inl t ↦
            let p : done (r, old) ≡ done x = rw t at h in
            let q : (r, old) ≡ x = cc in rw (← q) ((refl, refl, refl, refl, refl), o)
        | inr f ↦ elim (Option-cases (find_type types type_id)) [
          | inl e ↦ let p : failed not_found_class ≡ done x = rw (f, e) at h in cc
          | inr (new, e) ↦
              let p : of_new_type orders go sprint relational spaces r old space_id (some new)
                  ≡ done x =
                rw (f, e) at h in
              let (c, a, b) =
                bind-done (change_work_item_type go sprint relational spaces r old new space_id) _ x
                  p in
              let q : (c, new) ≡ x = cc in
              let (k, n) = change-SameItem spaces r c old new space_id a in
              let g : find_type types c.type ≡ some new =
                ap (find_type types) (n ∙ find_type-id types type_id e) ∙ e in
              rw (← q) (k, g)
        ]
      ]

  retyped-same :
      (spaces : List SpaceTemplate) (types : List (WorkItemType Float)) (r : WorkItemStorage Float)
      (old : WorkItemType Float) (type_id space_id : ℕ)
      (x : WorkItemStorage Float × WorkItemType Float)
      → r.type ≡ type_id
      → retyped orders go sprint relational spaces types r old type_id space_id ≡ done x
      → (r, old) ≡ x
  retyped-same spaces types r old type_id space_id x t h =
      let e : (r.type == type_id) ≡ true = (==_iff r.type type_id).1 t in
      let p : done (r, old) ≡ done x = rw e at h in cc

  -- what a Save that succeeds has found and done
  pub record Renewed (types : List (WorkItemType Float)) (rows : List (WorkItemStorage Float))
      (space_id : ℕ) (wi : WorkItem Float) (z : Saved Float) : Type 0 where
    pub before : WorkItemStorage Float
    pub after : WorkItemStorage Float
    pub found : find_numbered rows space_id wi.number ≡ some before
    pub of_version : before.version ≡ wi.version
    pub same : SameItem (renewed orders go sprint relational before after.fields) after
    pub type : WorkItemType Float
    pub typed : find_type types after.type ≡ some type
    pub before_type : WorkItemType Float
    pub before_typed : find_type types before.type ≡ some before_type
    pub fields_saved :
        before.type ≡ wi.type
        → save_fields orders go before_type.fields wi.fields ≡ done after.fields
    pub replaced : z.rows ≡ replace_row after.id after rows

  pub save-Renewed :
      (spaces : List SpaceTemplate) (types : List (WorkItemType Float))
      (rows : List (WorkItemStorage Float)) (space_id : ℕ) (wi : WorkItem Float) (modifier_id : ℕ)
      (z : Saved Float)
      → save orders go sprint relational spaces types rows space_id wi modifier_id ≡ done z
      → Renewed types rows space_id wi z
  unfolding save
  save-Renewed spaces types rows space_id wi modifier_id z h =
      elim (Option-cases (find_numbered rows space_id wi.number)) [
        | inl e ↦ let p : failed not_found_class ≡ done z = rw e at h in cc
        | inr (r, e) ↦ elim (Option-cases (find_type types r.type)) [
          | inl f ↦ let p : failed internal_class ≡ done z = rw (e, f) at h in cc
          | inr (old, f) ↦ elim (Bool-cases (r.version == wi.version)) [
            | inr g ↦ let p : failed version_conflict_class ≡ done z = rw (e, f, g) at h in cc
            | inl v ↦
                let p : (save_fields orders go old.fields wi.fields >>= λ m.
                retyped orders go sprint relational spaces types
                  (renewed orders go sprint relational r m) old wi.type space_id
                >>= store orders go sprint relational rows modifier_id)
                    ≡ done z =
                  rw (e, f, v) at h in
                let (m, a, b) = bind-done (save_fields orders go old.fields wi.fields) _ z p in
                let (x, c, d) =
                  bind-done
                    (retyped orders go sprint relational spaces types
                      (renewed orders go sprint relational r m) old wi.type space_id)
                    _ z b in
                let (k, ty) =
                  retyped-SameItem spaces types (renewed orders go sprint relational r m) old
                    wi.type space_id x f c in
                let (u, y, l) = bind-done (converts orders go x.1.fields x.0.fields) _ z d in
                let kept_fields : r.type ≡ wi.type → x.0.fields ≡ m = λ t.
                  ap (λ (y : WorkItemStorage Float × WorkItemType Float). y.0.fields)
                    (sym (
                      retyped-same spaces types (renewed orders go sprint relational r m) old
                        wi.type space_id x t c)) in
                let q : record {
                  rows = replace_row x.0.id x.0 rows;
                  revision = create_revision modifier_id revision_type_update x.0;
                }
                    ≡ z =
                  cc in
                record {
                  before = r;
                  after = x.0;
                  found = e;
                  of_version = (==_iff r.version wi.version).0 v;
                  same = k;
                  type = x.1;
                  typed = ty;
                  before_type = old;
                  before_typed = f;
                  fields_saved = λ e. rw (kept_fields e) a;
                  replaced = sym (ap (λ s. s.rows) q);
                }
          ]
        ]
      ]

  -- the row that replaced the one that was found is found after it
  pub Renewed-found :
      (types : List (WorkItemType Float)) (rows : List (WorkItemStorage Float)) (space_id : ℕ)
      (wi : WorkItem Float) (z : Saved Float) (w : Renewed types rows space_id wi z)
      → find_numbered z.rows space_id wi.number ≡ some w.after
  Renewed-found types rows space_id wi z w =
      let r = renewed orders go sprint relational w.before w.after.fields in
      let m =
        SameItem-matches space_id wi.number r w.after w.same
          (found_matches rows space_id wi.number w.found) in
      rw w.replaced
        (find_numbered-replace_row rows space_id wi.number w.before w.after w.found w.same.0 m)

  -- Of two writers that read the same version of a work item, one succeeds: when a Save is done, a
  -- Save into the table that it leaves, of a work item with the same number and version, answers a
  -- version conflict, whatever its type, its fields and its modifier.
  pub save-conflict :
      (spaces : List SpaceTemplate) (types : List (WorkItemType Float))
      (rows : List (WorkItemStorage Float)) (space_id : ℕ) (wi other : WorkItem Float)
      (modifier_id other_id : ℕ) (z : Saved Float)
      → save orders go sprint relational spaces types rows space_id wi modifier_id ≡ done z
      → other.number ≡ wi.number
      → other.version ≡ wi.version
      → save orders go sprint relational spaces types z.rows space_id other other_id
        ≡ failed version_conflict_class
  unfolding save
  save-conflict spaces types rows space_id wi other modifier_id other_id z h n v =
      let w = save-Renewed spaces types rows space_id wi modifier_id z h in
      let e = Renewed-found types rows space_id wi z w in
      let (i, a, b, d, k) = w.same in
      let f : (w.after.version == other.version) ≡ false = rw (k, w.of_version, v) (ground arith) in
      rw (n, e, w.typed, f) refl

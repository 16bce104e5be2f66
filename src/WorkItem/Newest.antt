-- ===== src/WorkItem/Newest.antt =====
-- Create of workitem/workitem_repository.go, and the order that it gives.
use almighty_core.Prelude.{
  ℕ, ◌≡◌, refl, ap, ◌∙◌, inl, inr, true, Option, none, some, List, [], ◌∷◌, arith, leb, Bool-cases,
  Member, here, there,
}
use almighty_core.Answer.{done, ◌>>=◌}
use almighty_core.Field.Value.{Platform, Entries, entry, str}
use almighty_core.WorkItem.{Orders, WorkItemStorage, WorkItemType, find_type, top_item}
use almighty_core.WorkItem.Reorder.{converts}
use almighty_core.WorkItem.Create.{
  SpaceTemplate, check_type_and_space_share_template, insert_row, load_highest_order, stored_fields,
  new_row, system_creator, create_typed, create,
}
use almighty_core.WorkItem.Neighbours.{less_mixed, top_item_greatest}
use almighty_core.Answer.{bind-done}

module _ {Float : Type 0} where
  Member-insert_new :
      (new : WorkItemStorage Float) (rows : List (WorkItemStorage Float))
      → Member new (insert_row new rows)
  Member-insert_new new [] = here []
  Member-insert_new new (r ∷ rs) = elim (Bool-cases (leb new.id r.id)) [
    | inl a ↦ rw a (here (r ∷ rs))
    | inr a ↦ rw a (there r (insert_row new rs) (Member-insert_new new rs))
  ]

  Member-insert_old :
      (new : WorkItemStorage Float) {r : WorkItemStorage Float}
      {rows : List (WorkItemStorage Float)}
      → Member r rows
      → Member r (insert_row new rows)
  Member-insert_old new {r} (here rs) = elim (Bool-cases (leb new.id r.id)) [
    | inl a ↦ rw a (there new (r ∷ rs) (here rs))
    | inr a ↦ rw a (here (insert_row new rs))
  ]
  Member-insert_old new (there s rs m) = elim (Bool-cases (leb new.id s.id)) [
    | inl a ↦ rw a (there new (s ∷ rs) (there s rs m))
    | inr a ↦ rw a (there s (insert_row new rs) (Member-insert_old new m))
  ]

module _ {Float : Type 0} (orders : Orders Float) (go : Platform Float) where
  create_typed-done :
      (spaces : List SpaceTemplate) (rows rows' : List (WorkItemStorage Float))
      (id number space_id type_id : ℕ) (fields : Entries Float) (creator_id : ℕ)
      (found : Option (WorkItemType Float))
      → create_typed orders go spaces rows id number space_id type_id fields creator_id found
        ≡ done rows'
      → (t : WorkItemType Float) × (found ≡ some t)
        × (t.can_construct ≡ true)
        × (m : Entries Float) × (rows'
            ≡ insert_row
                (new_row id number space_id type_id
                  (orders.add (load_highest_order orders go rows space_id) orders.thousand)
                  m)
                rows)
  unfolding check_type_and_space_share_template
  create_typed-done spaces rows rows' id number space_id type_id fields creator_id none h = cc
  create_typed-done spaces rows rows' id number space_id type_id fields creator_id (some t) h =
      let given = entry system_creator (str (go.uuid_string creator_id)) fields in
      let order = orders.add (load_highest_order orders go rows space_id) orders.thousand in
      let last = λ (m : Entries Float). converts orders go t.fields m >>= λ w.
      done (insert_row (new_row id number space_id type_id order m) rows) in
      let (u, a, p) =
        bind-done (check_type_and_space_share_template spaces t space_id)
          (λ u. stored_fields orders go t.fields given >>= last) rows' h in
      let (m, b, q) = bind-done (stored_fields orders go t.fields given) last rows' p in
      let (w, c, r) =
        bind-done (converts orders go t.fields m)
          (λ w. done (insert_row (new_row id number space_id type_id order m) rows)) rows' q in
      (t, refl, ground arith, m, cc)

  -- A new work item, where the space has a top item and 1000 more than the order of that is greater
  -- than its order, is of a type that can be constructed, has the first version, and a greater order
  -- than each other item of the space, which all stay.
  pub create_top :
      (spaces : List SpaceTemplate) (types : List (WorkItemType Float))
      (rows rows' : List (WorkItemStorage Float)) (id number space_id type_id : ℕ)
      (fields : Entries Float) (creator_id : ℕ) (top r : WorkItemStorage Float)
      → create orders go spaces types rows id number space_id type_id fields creator_id ≡ done rows'
      → top_item orders rows space_id ≡ some top
      → orders.less top.execution_order (orders.add top.execution_order orders.thousand) ≡ true
      → Member r rows
      → r.space_id ≡ space_id
      → (t : WorkItemType Float) × (find_type types type_id ≡ some t)
        × (t.can_construct ≡ true)
        × (new : WorkItemStorage Float) × Member new rows'
        × (new.id ≡ id)
        × (new.version ≡ 0)
        × Member r rows'
        × (orders.less r.execution_order new.execution_order ≡ true)
  unfolding create load_highest_order
  create_top spaces types rows rows' id number space_id type_id fields creator_id top r h g high i
        e =
      let (t, a, c, m, q) =
        create_typed-done spaces rows rows' id number space_id type_id fields creator_id
          (find_type types type_id) h in
      let new =
        new_row id number space_id type_id
          (orders.add (load_highest_order orders go rows space_id) orders.thousand) m in
      let z : load_highest_order orders go rows space_id ≡ top.execution_order =
        rw (g, load_highest_order) refl in
      let x =
        less_mixed orders r.execution_order top.execution_order
          (orders.add top.execution_order orders.thousand)
          (top_item_greatest orders rows space_id top r g i e) high in
      (
        t,
        a,
        c,
        new,
        rw q (Member-insert_new new rows),
        refl,
        refl,
        rw q (Member-insert_old new i),
        ap (λ f. orders.less r.execution_order (orders.add f orders.thousand)) z ∙ x,
      )

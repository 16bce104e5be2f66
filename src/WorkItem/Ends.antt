-- ===== src/WorkItem/Ends.antt =====
-- Reorder of workitem/workitem_repository.go, to the top of the list.
use almighty_core.Prelude.{
  ℕ, ◌≡◌, ◌≢◌, refl, ap, ◌∙◌, true, false, Option, none, some, List, arith, ◌==◌, if◌then◌else◌,
  Member,
}
use almighty_core.Answer.{done, panicked, bind-done}
use almighty_core.Field.Value.{Platform}
use almighty_core.WorkItem.{
  Orders, WorkItemStorage, WorkItem, WorkItemType, direction_top, find_row, find_type, top_item,
  replace_row, moved, order_of,
}
use almighty_core.WorkItem.Reorder.{new_order, converts, end_typed, sets_order, reorder}
use almighty_core.WorkItem.Neighbours.{less_mixed, top_item_greatest}
use almighty_core.WorkItem.Placement.{find_row-id, Member-replace_row, reorder-Moved}

module _ {Float : Type 0} (orders : Orders Float) (go : Platform Float) where
  end_typed-done :
      (wi : WorkItem Float) (next : Float → Float) (r : WorkItemStorage Float)
      (found : Option (WorkItemType Float)) (f : Float)
      → r.id ≢ wi.id
      → end_typed orders go wi next r found ≡ done f
      → f ≡ next r.execution_order
  end_typed-done wi next r none f d h = cc
  end_typed-done wi next r (some t) f d h =
      let e : (r.id == wi.id) ≡ false = ground arith in
      let (u, c, q) =
        bind-done (converts orders go t.fields r.fields)
          (λ u.
            if r.id == wi.id
            then order_of wi
            else if sets_order orders go t.fields
            then done (next r.execution_order)
            else panicked)
          f h in
      let p : (if sets_order orders go t.fields then done (next r.execution_order) else panicked)
          ≡ done f =
        rw e at q in
      ground arith

  -- A work item that was moved to the top, where the top item is not itself and 1000 more than its
  -- order is greater than its order, has a greater order than each other item of the space.
  pub reorder_top :
      (types : List (WorkItemType Float)) (rows rows' : List (WorkItemStorage Float)) (space_id : ℕ)
      (wi : WorkItem Float) (top r : WorkItemStorage Float)
      → reorder orders go types rows space_id direction_top none wi ≡ done rows'
      → top_item orders rows space_id ≡ some top
      → top.id ≢ wi.id
      → orders.less top.execution_order (orders.add top.execution_order orders.thousand) ≡ true
      → Member r rows
      → r.space_id ≡ space_id
      → r.id ≢ wi.id
      → (new : WorkItemStorage Float) × Member new rows'
        × (new.id ≡ wi.id)
        × Member r rows'
        × (orders.less r.execution_order new.execution_order ≡ true)
  unfolding reorder new_order
  reorder_top types rows rows' space_id wi top r h g d high i e n =
      let (res, a, v, order, o, m, q) =
        reorder-Moved orders go types rows rows' space_id direction_top none wi
          (find_row rows wi.id) refl refl h in
      let next = λ (f : Float). orders.add f orders.thousand in
      let p : end_typed orders go wi next top (find_type types top.type) ≡ done order = rw g at o in
      let z = end_typed-done wi next top (find_type types top.type) order d p in
      let new = moved res wi order m in
      let (k, w) = find_row-id rows wi.id res a in
      let t : (res.id == wi.id) ≡ true = ground arith in
      let u : (r.id == wi.id) ≡ false = ground arith in
      let j : Member (if res.id == wi.id then new else res) (replace_row wi.id new rows) =
        Member-replace_row wi.id new k in
      let k' : Member new (replace_row wi.id new rows) = rw t at j in
      let l : Member (if r.id == wi.id then new else r) (replace_row wi.id new rows) =
        Member-replace_row wi.id new i in
      let i' : Member r (replace_row wi.id new rows) = rw u at l in
      let x =
        less_mixed orders r.execution_order top.execution_order (next top.execution_order)
          (top_item_greatest orders rows space_id top r g i e) high in
      (new, rw q k', w, rw q i', ap (orders.less r.execution_order) z ∙ x)

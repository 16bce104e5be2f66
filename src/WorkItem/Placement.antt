-- ===== src/WorkItem/Placement.antt =====
-- Reorder of workitem/workitem_repository.go, below a target.
use almighty_core.Prelude.{
  ℕ, suc, ◌≡◌, ◌≢◌, refl, sym, ap, ◌∙◌, inl, inr, true, false, not, ◌&&◌, Option, none, some, List,
  [], ◌∷◌, arith, ◌==◌, if◌then◌else◌, Bool-cases, Member, here, there,
}
use almighty_core.Answer.{done, failed, ◌>>=◌, bind-done}
use almighty_core.Field.Value.{Platform, Entries}
use almighty_core.WorkItem.{
  Orders, WorkItemStorage, WorkItem, WorkItemType, DirectionType, direction_below, find_row,
  find_type, calculate_order, find_first_item, item_below, replace_row, moved, is_other,
}
use almighty_core.WorkItem.Reorder.{
  new_order, target_order, convert_fields, converts, save_moved, reorder_typed, reorder_found,
  reorder,
}
use almighty_core.WorkItem.Neighbours.{less_mixed, item_below_nearest}

module _ {Float : Type 0} where
  pub find_row-id :
      (rows : List (WorkItemStorage Float)) (id : ℕ) (r : WorkItemStorage Float)
      → find_row rows id ≡ some r
      → Member r rows × (r.id ≡ id)
  find_row-id [] id r h = cc
  find_row-id (s ∷ rs) id r h = elim (Bool-cases ((s.id == id) && not s.deleted)) [
    | inl a ↦
        let p : some s ≡ some r = rw a at h in
        let q : r ≡ s = cc in
        let e : s.id ≡ id = ground arith in
        (rw q (here rs), ap (λ (x : WorkItemStorage Float). x.id) q ∙ e)
    | inr a ↦
        let p : find_row rs id ≡ some r = rw a at h in
        let (m, e) = find_row-id rs id r p in (there s rs m, e)
  ]

  pub Member-replace_row :
      (id : ℕ) (new : WorkItemStorage Float) {r : WorkItemStorage Float}
      {rows : List (WorkItemStorage Float)}
      → Member r rows
      → Member (if r.id == id then new else r) (replace_row id new rows)
  Member-replace_row id new {r} (here rs) = here (replace_row id new rs)
  Member-replace_row id new (there s rs m) =
      there (if s.id == id then new else s) (replace_row id new rs) (Member-replace_row id new m)

module _ {Float : Type 0} (orders : Orders Float) (go : Platform Float) where
  -- what a reordering that succeeds has found and done
  abbrev pub Moved :
      List (WorkItemType Float)
      → List (WorkItemStorage Float)
      → ℕ
      → DirectionType
      → Option ℕ
      → WorkItem Float
      → List (WorkItemStorage Float)
      → Type 0
  Moved types rows space_id direction target wi rows' =
      (res : WorkItemStorage Float) × (find_row rows wi.id ≡ some res)
      × (res.version ≡ wi.version)
      × (order : Float) × (new_order orders go types rows space_id direction target wi ≡ done order)
      × (m : Entries Float) × (rows' ≡ replace_row wi.id (moved res wi order m) rows)

  typed-Moved :
      (types : List (WorkItemType Float)) (rows rows' : List (WorkItemStorage Float)) (space_id : ℕ)
      (direction : DirectionType) (target : Option ℕ) (wi : WorkItem Float)
      (res : WorkItemStorage Float) (found : Option (WorkItemType Float))
      → find_row rows wi.id ≡ some res
      → res.version ≡ wi.version
      → is_other direction ≡ false
      → reorder_typed orders go types rows space_id direction target wi res found ≡ done rows'
      → Moved types rows space_id direction target wi rows'
  typed-Moved types rows rows' space_id direction target wi res none f v o h = cc
  typed-Moved types rows rows' space_id direction target wi res (some t) f v o h =
      let p : (new_order orders go types rows space_id direction target wi
            >>= save_moved orders go t rows wi res)
          ≡ done rows' =
        rw o at h in
      let (order, a, q) =
        bind-done (new_order orders go types rows space_id direction target wi)
          (save_moved orders go t rows wi res) rows' p in
      let (m, b, r) =
        bind-done (convert_fields orders go t.fields wi.fields)
          (λ m. converts orders go t.fields m >>= λ u.
            done (replace_row wi.id (moved res wi order m) rows))
          rows' q in
      let (u, c, s) =
        bind-done (converts orders go t.fields m)
          (λ u. done (replace_row wi.id (moved res wi order m) rows)) rows' r in
      (res, f, v, order, a, m, cc)

  pub reorder-Moved :
      (types : List (WorkItemType Float)) (rows rows' : List (WorkItemStorage Float)) (space_id : ℕ)
      (direction : DirectionType) (target : Option ℕ) (wi : WorkItem Float)
      (found : Option (WorkItemStorage Float))
      → find_row rows wi.id ≡ found
      → is_other direction ≡ false
      → reorder_found orders go types rows space_id direction target wi found ≡ done rows'
      → Moved types rows space_id direction target wi rows'
  reorder-Moved types rows rows' space_id direction target wi none f o h = cc
  reorder-Moved types rows rows' space_id direction target wi (some res) f o h =
      elim (Bool-cases (res.version == wi.version)) [
        | inl a ↦
            let p : reorder_typed orders go types rows space_id direction target wi res
                  (find_type types wi.type)
                ≡ done rows' =
              rw a at h in
            typed-Moved types rows rows' space_id direction target wi res (find_type types wi.type)
              f (ground arith) o p
        | inr a ↦ let p : failed _ ≡ done rows' = rw a at h in cc
      ]

  new_order-below :
      (types : List (WorkItemType Float)) (rows : List (WorkItemStorage Float))
      (space_id target : ℕ) (wi : WorkItem Float) (above : Float) (b : WorkItemStorage Float)
      → find_first_item orders rows space_id target ≡ some above
      → item_below orders rows above space_id ≡ some b
      → b.id ≢ wi.id
      → new_order orders go types rows space_id direction_below (some target) wi
        ≡ done (calculate_order orders above b.execution_order)
  unfolding new_order
  new_order-below types rows space_id target wi above b f g d =
      let t : (b.id == wi.id) ≡ false = ground arith in rw (f, target_order) (rw g (rw t refl))

  asymmetric : (f g : Float) → orders.less f g ≡ true → orders.less g f ≡ false
  asymmetric f g h = elim (Bool-cases (orders.less g f)) [
    | inl c ↦ let z = orders.less_trans f g f h c in let y = orders.less_irrefl f in cc
    | inr c ↦ c
  ]

  -- the middle of two orders with nothing between them has the same ones below it as the upper one
  between :
      (low mid high x : Float)
      → orders.less low mid ≡ true
      → orders.less mid high ≡ true
      → (orders.less x high ≡ true → orders.less low x ≡ false)
      → (orders.less x mid ≡ orders.less x high) × (orders.less mid x ≡ not (orders.less x high))
  between low mid high x a b f = elim (Bool-cases (orders.less x high)) [
    | inl c ↦
        let d : orders.less x mid ≡ true = less_mixed orders x low mid (f c) a in
        let e : orders.less mid x ≡ false = asymmetric x mid d in (d ∙ sym c, e ∙ sym (ap not c))
    | inr c ↦ elim (Bool-cases (orders.less mid x)) [
      | inl d ↦ (asymmetric mid x d ∙ sym c, d ∙ sym (ap not c))
      | inr d ↦ let z = less_mixed orders x mid high d b in cc
    ]
  ]

  -- A work item that was put below another one, where the item next below that one is not itself and
  -- the middle of their orders lies between them, stands next below it: each other item of the space
  -- is below it if it was below the target, and above it if it was not. It keeps its id, and gets the
  -- next version.
  pub reorder_below :
      (types : List (WorkItemType Float)) (rows rows' : List (WorkItemStorage Float))
      (space_id target : ℕ) (wi : WorkItem Float) (above : Float) (b r : WorkItemStorage Float)
      → reorder orders go types rows space_id direction_below (some target) wi ≡ done rows'
      → find_first_item orders rows space_id target ≡ some above
      → item_below orders rows above space_id ≡ some b
      → b.id ≢ wi.id
      → orders.less b.execution_order (calculate_order orders above b.execution_order) ≡ true
      → orders.less (calculate_order orders above b.execution_order) above ≡ true
      → Member r rows
      → r.space_id ≡ space_id
      → r.id ≢ wi.id
      → (new : WorkItemStorage Float) × Member new rows'
        × (new.id ≡ wi.id)
        × (new.version ≡ suc wi.version)
        × Member r rows'
        × (orders.less r.execution_order new.execution_order ≡ orders.less r.execution_order above)
        × (orders.less new.execution_order r.execution_order
            ≡ not (orders.less r.execution_order above))
  unfolding reorder
  reorder_below types rows rows' space_id target wi above b r h f g d low high i e n =
      let (res, a, v, order, o, m, q) =
        reorder-Moved types rows rows' space_id direction_below (some target) wi
          (find_row rows wi.id) refl refl h in
      let mid = calculate_order orders above b.execution_order in
      let y = new_order-below types rows space_id target wi above b f g d in
      let z : order ≡ mid = cc in
      let new = moved res wi order m in
      let (k, w) = find_row-id rows wi.id res a in
      let t : (res.id == wi.id) ≡ true = ground arith in
      let u : (r.id == wi.id) ≡ false = ground arith in
      let j : Member (if res.id == wi.id then new else res) (replace_row wi.id new rows) =
        Member-replace_row wi.id new k in
      let k' : Member new (replace_row wi.id new rows) = rw t at j in
      let l : Member (if r.id == wi.id then new else r) (replace_row wi.id new rows) =
        Member-replace_row wi.id new i in
      let i' : Member r (replace_row wi.id new rows) = rw u at l in
      let (x, x') =
        between b.execution_order mid above r.execution_order low high
          (item_below_nearest orders rows above space_id b r g i e) in
      (
        new,
        rw q k',
        w,
        ap suc v,
        rw q i',
        ap (orders.less r.execution_order) z ∙ x,
        ap (λ f. orders.less f r.execution_order) z ∙ x',
      )

-- ===== src/WorkItem/Neighbours.antt =====
-- FindSecondItem and LoadTopWorkitem of workitem/workitem_repository.go: the nearest order on one side.
use almighty_core.Prelude.{
  ℕ, ◌≡◌, refl, sym, ap, inl, inr, Bool, true, false, not, ◌&&◌, Option, none, some, List, [], ◌∷◌,
  arith, ◌==◌, Bool-cases, Member, here, there,
}
use almighty_core.WorkItem.{
  Orders, WorkItemStorage, max_order, greater, first_with, first_at, item_below, top_item,
  same_order,
}

module _ {Float : Type 0} (orders : Orders Float) where
  -- a number that is not less than a second one and that is less than a third one
  pub less_mixed :
      (f g h : Float) → orders.less g f ≡ false → orders.less g h ≡ true → orders.less f h ≡ true
  less_mixed f g h a b = elim (Bool-cases (orders.less f g)) [
    | inl c ↦ orders.less_trans f g h c b
    | inr c ↦ let e : f ≡ g = orders.less_total f g c a in rw e b
  ]

  -- no order that counts is greater than the maximum
  abbrev AtMost : Option Float → Float → Type 0
  AtMost o f = (g : Float) × (o ≡ some g) × (orders.less g f ≡ false)

  greater-left : (f : Float) (o : Option Float) → AtMost (greater orders f o) f
  greater-left f none = (f, refl, orders.less_irrefl f)
  greater-left f (some g) = elim (Bool-cases (orders.less g f)) [
    | inl a ↦ rw a (f, refl, orders.less_irrefl f)
    | inr a ↦ rw a (g, refl, a)
  ]

  not_less :
      (f h k : Float) → orders.less k h ≡ false → orders.less k f ≡ true → orders.less f h ≡ false
  not_less f h k q b = elim (Bool-cases (orders.less f h)) [
    | inl c ↦ let z = orders.less_trans k f h b c in cc
    | inr c ↦ c
  ]

  greater-right : (f h : Float) (o : Option Float) → AtMost o h → AtMost (greater orders f o) h
  greater-right f h none m = let (g, e, a) = m in cc
  greater-right f h (some k) m =
      let (g, e, a) = m in
      let q : orders.less k h ≡ false = cc in
      elim (Bool-cases (orders.less k f)) [
        | inl b ↦ rw b (f, refl, not_less f h k q b)
        | inr b ↦ rw b (k, refl, q)
      ]

  max_order-Member :
      (p : WorkItemStorage Float → Bool) {r : WorkItemStorage Float}
      {rows : List (WorkItemStorage Float)}
      → Member r rows
      → p r ≡ true
      → AtMost (max_order orders p rows) r.execution_order
  max_order-Member p {r} (here rs) h = rw h (greater-left r.execution_order (max_order orders p rs))
  max_order-Member p {r} (there s rs m) h = elim (Bool-cases (p s)) [
    | inl a ↦ rw a (
        greater-right s.execution_order r.execution_order (max_order orders p rs)
          (max_order-Member p m h))
    | inr a ↦ rw a (max_order-Member p m h)
  ]

  first_with-order :
      (rows : List (WorkItemStorage Float)) (f : Float) (r : WorkItemStorage Float)
      → first_with orders rows f ≡ some r
      → r.execution_order ≡ f
  first_with-order [] f r h = cc
  first_with-order (s ∷ rs) f r h =
      elim (Bool-cases (same_order orders s.execution_order f && not s.deleted)) [
        | inl a ↦
            let p : some s ≡ some r = rw a at h in
            let q : s ≡ r = cc in
            let e = orders.less_total s.execution_order f (ground arith) (ground arith) in
            rw (← q) e
        | inr a ↦ let p : first_with orders rs f ≡ some r = rw a at h in first_with-order rs f r p
      ]

  first_at-order :
      (rows : List (WorkItemStorage Float)) (o : Option Float) (r : WorkItemStorage Float)
      → first_at orders rows o ≡ some r
      → o ≡ some r.execution_order
  first_at-order rows none r h = cc
  first_at-order rows (some f) r h = ap some (sym (first_with-order rows f r h))

  -- the item below is the nearest: an order of the space that is less than the given one is not
  -- greater than that item's
  pub item_below_nearest :
      (rows : List (WorkItemStorage Float)) (order : Float) (space_id : ℕ)
      (b r : WorkItemStorage Float)
      → item_below orders rows order space_id ≡ some b
      → Member r rows
      → r.space_id ≡ space_id
      → orders.less r.execution_order order ≡ true
      → orders.less b.execution_order r.execution_order ≡ false
  unfolding item_below
  item_below_nearest rows order space_id b r h m e l =
      let p = λ (r : WorkItemStorage Float).
        (r.space_id == space_id) && orders.less r.execution_order order in
      let (g, q, a) = max_order-Member p m (ground arith) in
      let z : g ≡ b.execution_order =
        let y = first_at-order rows (max_order orders p rows) b h in cc in
      rw (← z) a

  -- no order of the space is greater than that of the top item
  pub top_item_greatest :
      (rows : List (WorkItemStorage Float)) (space_id : ℕ) (t r : WorkItemStorage Float)
      → top_item orders rows space_id ≡ some t
      → Member r rows
      → r.space_id ≡ space_id
      → orders.less t.execution_order r.execution_order ≡ false
  unfolding top_item
  top_item_greatest rows space_id t r h m e =
      let p = λ (r : WorkItemStorage Float). r.space_id == space_id in
      let (g, q, a) = max_order-Member p m (ground arith) in
      let z : g ≡ t.execution_order =
        let y = first_at-order rows (max_order orders p rows) t h in cc in
      rw (← z) a

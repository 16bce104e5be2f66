-- ===== src/Link/Ancestors/Complete.antt =====
-- What the query of GetAncestors finds, against the links that lead from one work item to another.
use almighty_core.Prelude.{
  ℕ, zero, suc, ◌≡◌, refl, sym, ap, ◌∙◌, ◌↔◌, inl, inr, true, false, List, [], ◌∷◌, arith, ◌==◌,
  Bool-cases, Member, Member-select, Member-flat_map, select-Member, flat_map-Member, All,
}
use almighty_core.Prelude.Int.{ℤ, negsuc}
use almighty_core.Link.{WorkItemLink}
use almighty_core.Link.Ancestors.{
  Row, elem, counts, first_row, next_row, joins, first_rows, next_rows, working_table,
}
use almighty_core.Link.Ancestors.Bounded.{round, working_table_iff, joins-fresh}

-- `a` is above `c`: links of the type that are not deleted lead from `a` down to `c`.
pub data Above (links : List WorkItemLink) (link_type_id : ℕ) : ℕ → ℕ → Type 0 where
  parent :
      (l : WorkItemLink)
      → Member l links
      → counts links link_type_id l ≡ true
      → {a c : ℕ} → l.source_id ≡ a
      → l.target_id ≡ c
      → Above links link_type_id a c
  further :
      (l : WorkItemLink)
      → Member l links
      → counts links link_type_id l ≡ true
      → {a b c : ℕ} → l.source_id ≡ a
      → l.target_id ≡ b
      → Above links link_type_id b c
      → Above links link_type_id a c

-- The id is the primary key of the table.
abbrev pub IsKeyed : List WorkItemLink → Type 0
IsKeyed links = (k l : WorkItemLink) → Member k links → Member l links → k.id ≡ l.id → k ≡ l

module _ (links : List WorkItemLink) (link_type_id : ℕ) where
  round-Above :
      (k : ℕ) (up : ℤ) (c : ℕ) (w : Row)
      → Member w (round links link_type_id k up (c ∷ []))
      → Above links link_type_id w.ancestor c
  unfolding round first_rows next_rows
  round-Above zero up c w m =
      let (l, i, p, e) = Member-select _ (first_row links link_type_id) links m in
      parent l i (ground arith) (ap (λ (r : Row). r.ancestor) (sym e)) (ground arith)
  round-Above (suc k) up c w m =
      let (v, n, o) = Member-flat_map _ (round links link_type_id k up (c ∷ [])) m in
      let (l, i, p, e) =
        Member-select (joins links link_type_id up v) (next_row links link_type_id v) links o in
      let (f, t, y) = joins-fresh links link_type_id up v l p in
      further l i y (ap (λ (r : Row). r.ancestor) (sym e)) t (round-Above k up c v n)

  -- some round has a row that climbs on from the source of the link `i`
  abbrev Climbed : ℕ → ℕ → Type 0
  Climbed c i =
      (k : ℕ) × (w : Row) × Member w (round links link_type_id k (negsuc 0) (c ∷ []))
      × (w.cycle ≡ false)
      × (l : WorkItemLink) × Member l links
      × (l.id ≡ i)
      × (l.source_id ≡ w.ancestor)

  visited-Climbed :
      (k c : ℕ) (w : Row)
      → Member w (round links link_type_id k (negsuc 0) (c ∷ []))
      → w.cycle ≡ false
      → All (Climbed c) w.already_visited
  unfolding round first_rows next_rows
  visited-Climbed zero c w m f =
      let (l, i, p, e) = Member-select _ (first_row links link_type_id) links m in
      let n : Member (first_row links link_type_id l)
          (round links link_type_id zero (negsuc 0) (c ∷ [])) =
        rw e at m in
      rw e ((zero, first_row links link_type_id l, n, refl, l, i, refl, refl), tt)
  visited-Climbed (suc k) c w m f =
      let (v, n, o) = Member-flat_map _ (round links link_type_id k (negsuc 0) (c ∷ [])) m in
      let (l, i, p, e) =
        Member-select (joins links link_type_id (negsuc 0) v) (next_row links link_type_id v) links
          o in
      let (g, t, y) = joins-fresh links link_type_id (negsuc 0) v l p in
      let q : Member (next_row links link_type_id v l)
          (round links link_type_id (suc k) (negsuc 0) (c ∷ [])) =
        rw e at m in
      let r : elem l.id v.already_visited ≡ false = rw e at f in
      rw e (
        (suc k, next_row links link_type_id v l, q, r, l, i, refl, refl),
        visited-Climbed k c v n g,
      )

  All-elem : (P : ℕ → Type 0) (i : ℕ) (ids : List ℕ) → All P ids → elem i ids ≡ true → P i
  All-elem P i [] a h = cc
  All-elem P i (j ∷ ids) a h = elim (Bool-cases (i == j)) [
    | inl e ↦ let q : i ≡ j = ground arith in rw q a.0
    | inr e ↦ All-elem P i ids a.1 (ground arith)
  ]

  -- a row that climbs on leads to a row of each link that ends at its ancestor
  abbrev Open : ℕ → ℕ → Type 0
  Open c a =
      (k : ℕ) × (w : Row) × Member w (round links link_type_id k (negsuc 0) (c ∷ []))
      × (w.cycle ≡ false)
      × (w.ancestor ≡ a)

  climb :
      IsKeyed links
      → (c b : ℕ) (l : WorkItemLink) → Member l links
      → counts links link_type_id l ≡ true
      → l.target_id ≡ b
      → Open c b
      → Open c l.source_id
  unfolding round next_rows
  climb key c b l i y t (k, w, m, f, a) =
      let j : joins links link_type_id (negsuc 0) w l ≡ true = ground arith in
      let n : Member (next_row links link_type_id w l)
          (round links link_type_id (suc k) (negsuc 0) (c ∷ [])) =
        flat_map-Member _ (round links link_type_id k (negsuc 0) (c ∷ [])) m (
          select-Member (joins links link_type_id (negsuc 0) w) (next_row links link_type_id w)
            links i j) in
      elim (Bool-cases (elem l.id w.already_visited)) [
        | inl e ↦
            let (q, v, o, g, x, p, d, s) =
              All-elem (Climbed c) l.id w.already_visited (visited-Climbed k c w m f) e in
            let z : x ≡ l = key x l p i d in
            (q, v, o, g, sym s ∙ ap (λ (r : WorkItemLink). r.source_id) z)
        | inr e ↦ (suc k, next_row links link_type_id w l, n, e, refl)
      ]

  Above-Open : IsKeyed links → {a c : ℕ} → Above links link_type_id a c → Open c a
  unfolding round first_rows
  Above-Open key (parent l i y {a} {c} s t) = (
    zero,
    first_row links link_type_id l,
    select-Member _ (first_row links link_type_id) links i (ground arith),
    refl,
    s,
  )
  Above-Open key (further l i y {a} {b} {c} s t r) =
      let o : Open c l.source_id = climb key c b l i y t (Above-Open key r) in rw s at o

  -- Where ids are unique, the query finds a work item above the given one exactly if links of the type
  -- that are not deleted lead down from it, over any number of levels and also where the links form
  -- cycles.
  pub ancestors_iff :
      (c a : ℕ)
      → IsKeyed links
      → ((w : Row) × Member w (working_table links link_type_id (negsuc 0) (c ∷ []))
          × (w.ancestor ≡ a))
        ↔ Above links link_type_id a c
  ancestors_iff c a key = (
    λ h.
        let (w, m, e) = h in
        let (k, n) = (working_table_iff links link_type_id (negsuc 0) (c ∷ []) w).0 m in
        let r : Above links link_type_id w.ancestor c = round-Above k (negsuc 0) c w n in rw e at r,
    λ h.
        let (k, w, m, f, e) = Above-Open key h in
        (w, (working_table_iff links link_type_id (negsuc 0) (c ∷ []) w).1 (k, m), e),
  )

-- ===== src/Iteration/Started.antt =====
-- Started iterations through Save of iteration/iteration.go.
use almighty_core.Prelude.{
  ℕ, ◌≡◌, ◌≢◌, sym, ap, ◌∙◌, ◌⊎◌, inl, inr, true, not, ◌&&◌, some, List, [], ◌∷◌, Member, here,
  there, Member-cons, arith, ◌==◌, ==_iff, Bool-cases, Option-cases,
}
use almighty_core.Errors.{not_found_class, internal_class}
use almighty_core.Answer.{done, failed}
use almighty_core.Iteration.{
  Iteration, find_iteration, violates_unique, replace_iteration, save, is_started,
}

-- an id is that of one row, at most one iteration of a space is started, and no id is nil
pub record OneStarted (rows : List Iteration) : Type 0 where
  pub one_row : {r s : Iteration} → Member r rows → Member s rows → r.id ≡ s.id → r ≡ s
  pub one_started :
      (space_id : ℕ) {r s : Iteration}
      → Member r rows
      → Member s rows
      → is_started space_id r ≡ true
      → is_started space_id s ≡ true
      → r ≡ s
  pub no_nil : {r : Iteration} → Member r rows → r.id ≢ 0

pub Member-replace_iteration :
    (i : Iteration) (rows : List Iteration) {y : Iteration}
    → Member y (replace_iteration i rows)
    → (y ≡ i) ⊎ (Member y rows × (y.id ≢ i.id))
Member-replace_iteration i [] m = elim m [ ]
Member-replace_iteration i (r ∷ rows) {y} m = elim (Bool-cases (r.id == i.id)) [
  | inl t ↦
      let n : Member y (i ∷ replace_iteration i rows) = rw t at m in
      elim (Member-cons n) [
        | inl e ↦ inl e
        | inr k ↦ elim (Member-replace_iteration i rows k) [
          | inl e ↦ inl e
          | inr (l, u) ↦ inr (there r rows l, u)
        ]
      ]
  | inr f ↦
      let n : Member y (r ∷ replace_iteration i rows) = rw f at m in
      elim (Member-cons n) [
        | inl e ↦ inr (
          rw e (here rows),
          λ h.
              let g : (r.id == i.id) ≡ true = (==_iff r.id i.id).1 (ap (λ x. x.id) (sym e) ∙ h) in
              cc,
        )
        | inr k ↦ elim (Member-replace_iteration i rows k) [
          | inl e ↦ inl e
          | inr (l, u) ↦ inr (there r rows l, u)
        ]
      ]
]

pub find_iteration-Member :
    (rows : List Iteration) (id : ℕ) {r : Iteration}
    → find_iteration rows id ≡ some r
    → Member r rows × (r.id ≡ id)
find_iteration-Member [] id h = cc
find_iteration-Member (x ∷ rows) id {r} h = elim (Bool-cases ((x.id == id) && not x.deleted)) [
  | inl t ↦
      let p : some x ≡ some r = rw t at h in
      let q : r ≡ x = cc in
      let e : x.id ≡ id = ground arith in (rw q (here rows), ap (λ s. s.id) q ∙ e)
  | inr f ↦
      let p : find_iteration rows id ≡ some r = rw f at h in
      let (m, e) = find_iteration-Member rows id p in (there x rows m, e)
]

-- a Save is done only over a row that is found
pub save-found :
    (rows rows' : List Iteration) (i : Iteration)
    → save rows i ≡ done rows'
    → (r : Iteration) × (find_iteration rows i.id ≡ some r) × (rows' ≡ replace_iteration i rows)
unfolding save
save-found rows rows' i h = elim (Option-cases (find_iteration rows i.id)) [
  | inl e ↦ let p : failed not_found_class ≡ done rows' = rw e at h in cc
  | inr (r, e) ↦ elim (Bool-cases (violates_unique rows i)) [
    | inl t ↦ let p : failed internal_class ≡ done rows' = rw (e, t) at h in cc
    | inr f ↦ let p : done (replace_iteration i rows) ≡ done rows' = rw (e, f) at h in (r, e, cc)
  ]
]

pub save-OneStarted :
    (rows rows' : List Iteration) (i : Iteration)
    → OneStarted rows
    → save rows i ≡ done rows'
    → ((space_id : ℕ) (s : Iteration)
        → is_started space_id i ≡ true
        → Member s rows
        → is_started space_id s ≡ true
        → s.id ≡ i.id)
    → OneStarted rows'
save-OneStarted rows rows' i o h k =
    let (r, e, q) = save-found rows rows' i h in
    let (m, n) = find_iteration-Member rows i.id e in
    rw q record {
      one_row = λ {r = x} {s = y} a b c. elim (Member-replace_iteration i rows a) [
        | inl u ↦ elim (Member-replace_iteration i rows b) [
          | inl v ↦ u ∙ sym v
          | inr (l, v) ↦ absurd (v (sym c ∙ ap (λ z. z.id) u))
        ]
        | inr (l, u) ↦ elim (Member-replace_iteration i rows b) [
          | inl v ↦ absurd (u (c ∙ ap (λ z. z.id) v))
          | inr (l2, v) ↦ o.one_row l l2 c
        ]
      ];
      one_started = λ space_id {r = x} {s = y} a b c d. elim (Member-replace_iteration i rows a) [
        | inl u ↦ elim (Member-replace_iteration i rows b) [
          | inl v ↦ u ∙ sym v
          | inr (l, v) ↦ absurd (v (k space_id y (ap (is_started space_id) (sym u) ∙ c) l d))
        ]
        | inr (l, u) ↦ elim (Member-replace_iteration i rows b) [
          | inl v ↦ absurd (u (k space_id x (ap (is_started space_id) (sym v) ∙ d) l c))
          | inr (l2, v) ↦ o.one_started space_id l l2 c d
        ]
      ];
      no_nil = λ {r = x} a. elim (Member-replace_iteration i rows a) [
        | inl u ↦ λ z. o.no_nil m (n ∙ ap (λ w. w.id) (sym u) ∙ z)
        | inr (l, u) ↦ o.no_nil l
      ];
    }

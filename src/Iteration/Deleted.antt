-- ===== src/Iteration/Deleted.antt =====
-- Deleted iterations: Delete of iteration/iteration.go.
use almighty_core.Prelude.{
  ℕ, ◌≡◌, refl, sym, ap, ◌∙◌, inl, inr, true, not, ◌&&◌, List, [], ◌∷◌, any, if◌then◌else◌, Member,
  here, there, Member-cons, arith, ◌==◌, Bool-cases,
}
use almighty_core.Errors.{not_found_class}
use almighty_core.Answer.{done, failed}
use almighty_core.Iteration.{Iteration, is_started, mark_deleted, delete}
use almighty_core.Iteration.Started.{OneStarted}

Member-mark_deleted :
    (id : ℕ) {y : Iteration} (rows : List Iteration)
    → Member y (mark_deleted id rows)
    → (r : Iteration) × Member r rows
      × (y ≡ (if (r.id == id) && not r.deleted then record r { deleted = true } else r))
Member-mark_deleted id [] m = elim m [ ]
Member-mark_deleted id (r ∷ rows) m = elim (Member-cons m) [
  | inl e ↦ (r, here rows, e)
  | inr k ↦ let (s, a, b) = Member-mark_deleted id rows k in (s, there r rows a, b)
]

abbrev marked : ℕ → Iteration → Iteration
marked id r = if (r.id == id) && not r.deleted then record r { deleted = true } else r

marked_id : (id : ℕ) (r : Iteration) → (marked id r).id ≡ r.id
marked_id id r = elim (Bool-cases ((r.id == id) && not r.deleted)) [
  | inl t ↦ rw t refl
  | inr f ↦ rw f refl
]

started-marked :
    (id space_id : ℕ) (r : Iteration)
    → is_started space_id (marked id r) ≡ true
    → is_started space_id r ≡ true
started-marked id space_id r h = elim (Bool-cases ((r.id == id) && not r.deleted)) [
  | inl t ↦
      let w : is_started space_id (record r { deleted = true }) ≡ true = rw t at h in ground arith
  | inr f ↦ rw f at h
]

pub delete-OneStarted :
    (rows rows' : List Iteration) (id : ℕ)
    → OneStarted rows
    → delete rows id ≡ done rows'
    → OneStarted rows'
unfolding delete
delete-OneStarted rows rows' id o h = elim (Bool-cases (id == 0)) [
  | inl t ↦ let w : failed not_found_class ≡ done rows' = rw t at h in cc
  | inr f ↦ elim (Bool-cases (any (λ r. (r.id == id) && not r.deleted) rows)) [
    | inr g ↦ let w : failed not_found_class ≡ done rows' = rw (f, g) at h in cc
    | inl g ↦
        let w : done (mark_deleted id rows) ≡ done rows' = rw (f, g) at h in
        let q : mark_deleted id rows ≡ rows' = cc in
        rw (← q) record {
          one_row = λ {r = x} {s = y} a b c.
              let (r, d, e) = Member-mark_deleted id rows a in
              let (s, i, j) = Member-mark_deleted id rows b in
              let k = o.one_row d i (
                sym (marked_id id r)
                ∙ ap (λ z. z.id) (sym e)
                ∙ c
                ∙ ap (λ z. z.id) j
                ∙ marked_id id s) in
              e ∙ ap (marked id) k ∙ sym j;
          one_started = λ space_id {r = x} {s = y} a b c d2.
              let (r, d, e) = Member-mark_deleted id rows a in
              let (s, i, j) = Member-mark_deleted id rows b in
              let k =
                o.one_started space_id d i
                  (started-marked id space_id r (ap (is_started space_id) (sym e) ∙ c))
                  (started-marked id space_id s (ap (is_started space_id) (sym j) ∙ d2)) in
              e ∙ ap (marked id) k ∙ sym j;
          no_nil = λ {r = x} a.
              let (r, d, e) = Member-mark_deleted id rows a in
              λ z. o.no_nil d (sym (marked_id id r) ∙ ap (λ w. w.id) (sym e) ∙ z);
        }
  ]
]

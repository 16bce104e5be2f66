-- ===== src/Iteration/Turns.antt =====
-- One iteration after the other: CanStart of iteration/iteration.go after Update of
-- controller/iteration.go.
use almighty_core.Prelude.{
  ℕ, ◌≡◌, ◌≢◌, refl, sym, ap, ◌∙◌, inl, inr, Bool, true, false, none, some, List, [], ◌∷◌, any,
  Member, here, there, arith, ◌==◌, Bool-cases,
}
use almighty_core.Answer.{done, bind-done}
use almighty_core.Iteration.{
  Iteration, root, load, replace_iteration, save, is_started, state_close, can_start,
}
use almighty_core.Iteration.Started.{OneStarted, Member-replace_iteration, save-found}
use almighty_core.Iteration.Kept.{load-Member}
use almighty_core.Iteration.Update.{Edit, edited, activated, save_subtree, save_moved, update}

any_witness :
    (p : Iteration → Bool) (rows : List Iteration)
    → any p rows ≡ true
    → (r : Iteration) × Member r rows × (p r ≡ true)
any_witness p [] h = cc
any_witness p (r ∷ rows) h = elim (Bool-cases (p r)) [
  | inl t ↦ (r, here rows, t)
  | inr f ↦
      let g : any p rows ≡ true = ground arith in
      let (s, m, e) = any_witness p rows g in (s, there r rows m, e)
]

-- an Update to the closed state leaves no iteration of the space started
closed_none :
    (rows rows' : List Iteration) (fresh id : ℕ) (e : Edit) (itr : Iteration)
    → OneStarted rows
    → load rows id ≡ done itr
    → is_started itr.space_id itr ≡ true
    → e.state ≡ some state_close
    → e.parent ≡ none
    → update rows fresh id e ≡ done rows'
    → any (is_started itr.space_id) rows' ≡ false
unfolding update
closed_none rows rows' fresh id e itr o l t s p h =
    let new : Iteration = activated e (record (edited e itr) { state = state_close }) in
    let w : save_moved rows fresh (new, []) ≡ done rows' = rw (l, s, p) at h in
    let (mid, a, b) =
      bind-done (save rows new) (λ saved. save_subtree saved fresh new []) rows' w in
    let q : mid ≡ rows' = cc in
    let (r, c, d) = save-found rows mid new a in
    let (m, n) = load-Member rows id itr l in
    elim (Bool-cases (any (is_started itr.space_id) rows')) [
      | inr f ↦ f
      | inl y ↦
          let (x, i, j) = any_witness (is_started itr.space_id) rows' y in
          let i2 : Member x (replace_iteration new rows) = rw (← d, q) i in
          elim (Member-replace_iteration new rows i2) [
            | inl u ↦
                let v : is_started itr.space_id new ≡ true =
                  ap (is_started itr.space_id) (sym u) ∙ j in
                absurd (ground arith)
            | inr (k, u) ↦ absurd (u (ap (λ z. z.id) (o.one_started itr.space_id k m j t)))
          ]
    ]

-- No iteration waits for ever: once the iteration of a space that is started was closed by an Update
-- that leaves its parent, CanStart lets every other iteration of the space but the root start.
pub closed-can_start :
    (rows rows' : List Iteration) (fresh id : ℕ) (e : Edit) (itr j top : Iteration)
    → OneStarted rows
    → load rows id ≡ done itr
    → is_started itr.space_id itr ≡ true
    → e.state ≡ some state_close
    → e.parent ≡ none
    → update rows fresh id e ≡ done rows'
    → root rows' itr.space_id ≡ done top
    → j.space_id ≡ itr.space_id
    → j.id ≢ top.id
    → can_start rows' j ≡ done true
unfolding can_start
closed-can_start rows rows' fresh id e itr j top o l t s p h r k n =
    let f = closed_none rows rows' fresh id e itr o l t s p h in
    let g : (j.id == top.id) ≡ false = ground arith in rw (k, r, g, f) refl

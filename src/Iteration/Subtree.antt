-- ===== src/Iteration/Subtree.antt =====
-- The subtree of an iteration that Update of controller/iteration.go moves.
use almighty_core.Prelude.{
  ℕ, ◌≡◌, ◌≢◌, refl, sym, ap, ◌∙◌, inl, inr, true, List, [], ◌∷◌, ◌++◌, Member, here, there, ◌==◌,
  ==_iff, Bool-cases, if◌then◌else◌,
}
use almighty_core.Answer.{done, bind-done}
use almighty_core.Iteration.{Iteration, make_child_of, replace_iteration, save}
use almighty_core.Iteration.Started.{find_iteration-Member, save-found}
use almighty_core.Iteration.Update.{save_subtree}

Member-replaced :
    (i : Iteration) {r : Iteration} (rows : List Iteration)
    → Member r rows
    → r.id ≡ i.id
    → Member i (replace_iteration i rows)
Member-replaced i {r} _ (here rows) e =
    let t : (r.id == i.id) ≡ true = (==_iff r.id i.id).1 e in rw t (here (replace_iteration i rows))
Member-replaced i _ (there x rows m) e =
    there (if x.id == i.id then i else x) _ (Member-replaced i rows m e)

Member-kept :
    (i : Iteration) {r : Iteration} (rows : List Iteration)
    → Member r rows
    → r.id ≢ i.id
    → Member r (replace_iteration i rows)
Member-kept i {r} _ (here rows) n = elim (Bool-cases (r.id == i.id)) [
  | inl t ↦ absurd (n ((==_iff r.id i.id).0 t))
  | inr f ↦ rw f (here (replace_iteration i rows))
]
Member-kept i _ (there x rows m) n =
    there (if x.id == i.id then i else x) _ (Member-kept i rows m n)

-- the row of the id stands right below the iteration
abbrev pub Placed : List Iteration → Iteration → ℕ → Type 0
Placed rows itr k = (y : Iteration) × Member y rows × (y.id ≡ k) × (y.path ≡ itr.path ++ k ∷ [])

make_child_of-path :
    (fresh : ℕ) (x itr : Iteration)
    → x.id ≢ 0
    → ((make_child_of fresh x itr).id ≡ x.id)
      × ((make_child_of fresh x itr).path ≡ itr.path ++ x.id ∷ [])
unfolding make_child_of
make_child_of-path fresh x itr n = elim (Bool-cases (x.id == 0)) [
  | inl t ↦ absurd (n ((==_iff x.id 0).0 t))
  | inr f ↦ (rw f refl, rw f refl)
]

save-places :
    (rows rows' : List Iteration) (fresh : ℕ) (x itr : Iteration)
    → x.id ≢ 0
    → save rows (make_child_of fresh x itr) ≡ done rows'
    → Placed rows' itr x.id
save-places rows rows' fresh x itr n h =
    let child = make_child_of fresh x itr in
    let (a, b) = make_child_of-path fresh x itr n in
    let (r, e, q) = save-found rows rows' child h in
    let (m, i) = find_iteration-Member rows child.id e in
    let k : Member child rows' = rw q (Member-replaced child rows m i) in (child, k, a, b)

save-Placed :
    (rows rows' : List Iteration) (fresh k : ℕ) (x itr : Iteration)
    → x.id ≢ 0
    → Placed rows itr k
    → save rows (make_child_of fresh x itr) ≡ done rows'
    → Placed rows' itr k
save-Placed rows rows' fresh k x itr n (y, m, i, p) h =
    let child = make_child_of fresh x itr in
    let (a, b) = make_child_of-path fresh x itr n in
    let (r, e, q) = save-found rows rows' child h in
    elim (Bool-cases (y.id == child.id)) [
      | inl t ↦
          let u : y.id ≡ child.id = (==_iff y.id child.id).0 t in
          let c : x.id ≡ k = sym a ∙ sym u ∙ i in
          let w : Member child rows' = rw q (Member-replaced child rows m u) in
          (child, w, a ∙ c, b ∙ ap (λ z. itr.path ++ z ∷ []) c)
      | inr f ↦
          let u : y.id ≢ child.id =
            λ z. let v : (y.id == child.id) ≡ true = (==_iff y.id child.id).1 z in cc in
          let w : Member y rows' = rw q (Member-kept child rows m u) in (y, w, i, p)
    ]

save_subtree-Placed :
    (xs rows rows' : List Iteration) (fresh k : ℕ) (itr : Iteration)
    → ((x : Iteration) → Member x xs → x.id ≢ 0)
    → Placed rows itr k
    → save_subtree rows fresh itr xs ≡ done rows'
    → Placed rows' itr k
save_subtree-Placed [] rows rows' fresh k itr n p h = let q : rows ≡ rows' = cc in rw (← q) p
save_subtree-Placed (x ∷ xs) rows rows' fresh k itr n p h =
    let (mid, a, b) =
      bind-done (save rows (make_child_of fresh x itr)) (λ saved. save_subtree saved fresh itr xs)
        rows' h in
    save_subtree-Placed xs mid rows' fresh k itr (λ y m. n y (there x xs m))
      (save-Placed rows mid fresh k x itr (n x (here xs)) p a) b

-- The part of Update that follows a move puts each iteration of the subtree right below the moved
-- one, whatever its parent was: its row ends with a path of one id more.
pub save_subtree_flat :
    {x : Iteration} (xs rows rows' : List Iteration) (fresh : ℕ) (itr : Iteration)
    → ((y : Iteration) → Member y xs → y.id ≢ 0)
    → Member x xs
    → save_subtree rows fresh itr xs ≡ done rows'
    → Placed rows' itr x.id
save_subtree_flat {x} _ rows rows' fresh itr n (here xs) h =
    let (mid, a, b) =
      bind-done (save rows (make_child_of fresh x itr)) (λ saved. save_subtree saved fresh itr xs)
        rows' h in
    save_subtree-Placed xs mid rows' fresh x.id itr (λ y m. n y (there x xs m))
      (save-places rows mid fresh x itr (n x (here xs)) a) b
save_subtree_flat {x} _ rows rows' fresh itr n (there z xs i) h =
    let (mid, a, b) =
      bind-done (save rows (make_child_of fresh z itr)) (λ saved. save_subtree saved fresh itr xs)
        rows' h in
    save_subtree_flat xs mid rows' fresh itr (λ y m. n y (there z xs m)) i b

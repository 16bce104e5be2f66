-- ===== src/Iteration/Kept.antt =====
-- Started iterations through Update of controller/iteration.go.
use almighty_core.Prelude.{
  ℕ, ◌≡◌, ◌≢◌, refl, sym, ap, ◌∙◌, ◌⊎◌, inl, inr, Bool, true, false, not, ◌&&◌, Option, none, some,
  List, [], ◌∷◌, any, if◌then◌else◌, Member, here, there, Member-cons, arith, ◌==◌, ==_iff,
  Bool-cases, Option-cases,
}
use almighty_core.Prelude.Texts.{Text, eqb_text}
use almighty_core.Errors.{not_found_class, bad_parameter_class, forbidden_class}
use almighty_core.Answer.{done, failed, ◌>>=◌, bind-done}
use almighty_core.Iteration.{
  Iteration, make_child_of, is_root, root, load, find_iteration, replace_iteration, save,
  is_started, state_start, can_start, is_below, select_below, load_children,
}
use almighty_core.Iteration.Started.{
  OneStarted, Member-replace_iteration, find_iteration-Member, save-found, save-OneStarted,
}
use almighty_core.Iteration.Update.{
  Edit, ParentRef, no_id, malformed_id, parent_of_id, edited, activated, with_state, move_outside,
  move_to, moved, save_subtree, update,
}

pub any-Member :
    (p : Iteration → Bool) {r : Iteration} (rows : List Iteration)
    → any p rows ≡ false
    → Member r rows
    → p r ≡ false
any-Member p _ h (here rows) = ground arith
any-Member p _ h (there x rows m) =
    let g : any p rows ≡ false = ground arith in any-Member p rows g m

pub load-Member :
    (rows : List Iteration) (id : ℕ) (r : Iteration)
    → load rows id ≡ done r
    → Member r rows × (r.id ≡ id)
unfolding load
load-Member rows id r h = elim (Option-cases (find_iteration rows id)) [
  | inl e ↦ let p : failed not_found_class ≡ done r = rw e at h in cc
  | inr (s, e) ↦
      let p : done s ≡ done r = rw e at h in
      let q : s ≡ r = cc in find_iteration-Member rows id (e ∙ ap some q)
]

select_below-Member :
    (p : List ℕ) (rows : List Iteration) {r : Iteration}
    → Member r (select_below p rows)
    → Member r rows × (is_below p r.path ≡ true)
select_below-Member p [] m = elim m [ ]
select_below-Member p (x ∷ rows) {r} m = elim (Bool-cases (is_below p x.path && not x.deleted)) [
  | inl t ↦
      let n : Member r (x ∷ select_below p rows) = rw t at m in
      elim (Member-cons n) [
        | inl e ↦ (rw e (here rows), rw e (ground arith))
        | inr k ↦ let (a, b) = select_below-Member p rows k in (there x rows a, b)
      ]
  | inr f ↦
      let n : Member r (select_below p rows) = rw f at m in
      let (a, b) = select_below-Member p rows n in (there x rows a, b)
]

is_below_irrefl : (p : List ℕ) → is_below p p ≡ false
is_below_irrefl [] = refl
is_below_irrefl (a ∷ p) = ground (arith, is_below_irrefl p)

-- a child has the id, and is started where it was
make_child_of-kept :
    (fresh : ℕ) (x itr : Iteration)
    → x.id ≢ 0
    → ((make_child_of fresh x itr).id ≡ x.id)
      × ((space_id : ℕ) → is_started space_id (make_child_of fresh x itr) ≡ is_started space_id x)
unfolding make_child_of
make_child_of-kept fresh x itr n = elim (Bool-cases (x.id == 0)) [
  | inl t ↦ absurd (n ((==_iff x.id 0).0 t))
  | inr f ↦ (rw f refl, λ space_id. refl)
]

-- each row with the id of one of the iterations is started where that is
abbrev Agrees : List Iteration → List Iteration → Type 0
Agrees xs rows =
    (x r : Iteration)
    → Member x xs
    → Member r rows
    → r.id ≡ x.id
    → (space_id : ℕ) → is_started space_id r ≡ is_started space_id x

save_subtree-OneStarted :
    (xs base rows rows' : List Iteration) (fresh : ℕ) (itr : Iteration)
    → OneStarted base
    → ((x : Iteration) → Member x xs → Member x base)
    → OneStarted rows
    → Agrees xs rows
    → save_subtree rows fresh itr xs ≡ done rows'
    → OneStarted rows'
save_subtree-OneStarted [] base rows rows' fresh itr b i o g h =
    let q : rows ≡ rows' = cc in rw (← q) o
save_subtree-OneStarted (x ∷ xs) base rows rows' fresh itr b i o g h =
    let child = make_child_of fresh x itr in
    let (mid, p, q) =
      bind-done (save rows child) (λ saved. save_subtree saved fresh itr xs) rows' h in
    let (c, d) = make_child_of-kept fresh x itr (b.no_nil (i x (here xs))) in
    let (r, e, f) = save-found rows mid child p in
    let (m, n) = find_iteration-Member rows child.id e in
    let u = save-OneStarted rows mid child o p (λ space_id s v w z.
      let t : is_started space_id r ≡ true =
        g x r (here xs) m (n ∙ c) space_id ∙ sym (d space_id) ∙ v in
      ap (λ k. k.id) (o.one_started space_id w m z t) ∙ n) in
    save_subtree-OneStarted xs base mid rows' fresh itr b (λ y k. i y (there x xs k)) u
      (λ y s k l t space_id.
        let l2 : Member s (replace_iteration child rows) = rw f at l in
        elim (Member-replace_iteration child rows l2) [
          | inl v ↦
              let a : x ≡ y =
                b.one_row (i x (here xs)) (i y (there x xs k))
                  (sym c ∙ ap (λ z. z.id) (sym v) ∙ t) in
              ap (is_started space_id) v ∙ d space_id ∙ ap (is_started space_id) a
          | inr (v, w) ↦ g y s (there x xs k) v t space_id
        ])
      q

-- the iteration that Update saves, and what it has of the one that it loaded
with_state-kept :
    (rows : List Iteration) (itr new : Iteration) (state : Option Text)
    → with_state rows itr state ≡ done new
    → (new.id ≡ itr.id)
      × (new.path ≡ itr.path)
      × (((space_id : ℕ) → is_started space_id new ≡ is_started space_id itr)
          ⊎ ((space_id : ℕ) (s : Iteration)
              → is_started space_id new ≡ true
              → Member s rows
              → is_started space_id s ≡ false))
unfolding can_start
with_state-kept rows itr new none h =
    let q : itr ≡ new = cc in rw (← q) (refl, refl, inl (λ space_id. refl))
with_state-kept rows itr new (some t) h =
    let (u, p, q) =
      bind-done (if eqb_text t state_start then can_start rows itr else done true)
        (λ u. done (record itr { state = t })) new h in
    let e : record itr { state = t } ≡ new = cc in
    elim (Bool-cases (eqb_text t state_start)) [
      | inr f ↦ rw (← e) (refl, refl, inr (λ space_id s v m. ground arith))
      | inl k ↦
          let c : can_start rows itr ≡ done u = rw k at p in
          let (r, a, b) = bind-done (root rows itr.space_id) _ u c in
          elim (Bool-cases (itr.id == r.id)) [
            | inl g ↦ let w : failed bad_parameter_class ≡ done u = rw g at b in cc
            | inr g ↦ elim (Bool-cases (any (is_started itr.space_id) rows)) [
              | inl y ↦ let w : failed bad_parameter_class ≡ done u = rw (g, y) at b in cc
              | inr y ↦ rw (← e) (
                refl,
                refl,
                inr (λ space_id s v m.
                    let i : itr.space_id ≡ space_id = ground arith in
                    let j = any-Member (is_started itr.space_id) rows y m in
                    ap (λ x. is_started x s) (sym i) ∙ j),
              )
            ]
          ]
    ]

load_children-below :
    (rows xs : List Iteration) (id : ℕ)
    → OneStarted rows
    → load_children rows id ≡ done xs
    → (x : Iteration) → Member x xs
    → Member x rows × (x.id ≢ id)
unfolding load_children
load_children-below rows xs id o h x m =
    let (l, a, b) = bind-done (load rows id) _ xs h in
    let (c, d) = load-Member rows id l a in
    let q : select_below l.path rows ≡ xs = cc in
    let n : Member x (select_below l.path rows) = rw q m in
    let (e, f) = select_below-Member l.path rows n in
    (
      e,
      λ g.
          let u : x ≡ l = o.one_row e c (g ∙ sym d) in
          let w : is_below l.path l.path ≡ true = ap (λ z. is_below l.path z.path) (sym u) ∙ f in
          let z = is_below_irrefl l.path in cc,
    )

abbrev MovedFrom : List Iteration → Iteration → Iteration × List Iteration → Type 0
MovedFrom rows s m =
    (m.0.id ≡ s.id)
    × ((space_id : ℕ) → is_started space_id m.0 ≡ is_started space_id s)
    × ((x : Iteration) → Member x m.1 → Member x rows × (x.id ≢ s.id))

moved-MovedFrom :
    (rows : List Iteration) (fresh : ℕ) (s : Iteration) (p : Option ParentRef)
    (m : Iteration × List Iteration)
    → OneStarted rows
    → s.id ≢ 0
    → moved rows fresh s p ≡ done m
    → MovedFrom rows s m
moved-MovedFrom rows fresh s none m o n h =
    let q : (s, []) ≡ m = cc in rw (← q) (refl, (λ space_id. refl), (λ x k. elim k [ ]))
moved-MovedFrom rows fresh s (some p) m o n h = elim (Bool-cases (is_root s s.space_id)) [
  | inl t ↦ let w : failed forbidden_class ≡ done m = rw t at h in cc
  | inr f ↦ let w : move_to rows fresh s p ≡ done m = rw f at h in move_to-MovedFrom p w
]
  where
    outside :
        (parent : Iteration) (xs : List Iteration)
        → load_children rows s.id ≡ done xs
        → move_outside fresh s parent xs ≡ done m
        → MovedFrom rows s m
    outside parent xs a b = elim (Bool-cases (any (λ c. parent.id == c.id) xs)) [
      | inl t ↦ let w : failed forbidden_class ≡ done m = rw t at b in cc
      | inr f ↦
          let w : done (make_child_of fresh s parent, xs) ≡ done m = rw f at b in
          let q : (make_child_of fresh s parent, xs) ≡ m = cc in
          let (c, d) = make_child_of-kept fresh s parent n in
          rw (← q) (c, d, load_children-below rows xs s.id o a)
    ]

    move_to-MovedFrom : (p : ParentRef) → move_to rows fresh s p ≡ done m → MovedFrom rows s m
    move_to-MovedFrom no_id w = cc
    move_to-MovedFrom malformed_id w = cc
    move_to-MovedFrom (parent_of_id pid) w = elim (Bool-cases (pid == s.id)) [
      | inl t ↦ let v : failed forbidden_class ≡ done m = rw t at w in cc
      | inr f ↦
          let v : (load rows pid >>= λ parent.
          if not (parent.space_id == s.space_id)
          then failed forbidden_class
          else (load_children rows s.id >>= move_outside fresh s parent))
              ≡ done m =
            rw f at w in
          let (parent, a, b) = bind-done (load rows pid) _ m v in
          elim (Bool-cases (parent.space_id == s.space_id)) [
            | inr g ↦ let u : failed forbidden_class ≡ done m = rw g at b in cc
            | inl g ↦
                let u : (load_children rows s.id >>= move_outside fresh s parent) ≡ done m =
                  rw g at b in
                let (xs, c, d) = bind-done (load_children rows s.id) _ m u in outside parent xs c d
          ]
    ]

-- An Update that succeeds keeps the table so that an id is that of one row, at most one iteration of a
-- space is started, and no id is nil, whatever it changes: the state, the parent, or both.
pub update-OneStarted :
    (rows rows' : List Iteration) (fresh id : ℕ) (e : Edit)
    → OneStarted rows
    → update rows fresh id e ≡ done rows'
    → OneStarted rows'
unfolding update
update-OneStarted rows rows' fresh id e o h =
    let (itr, a, b) = bind-done (load rows id) _ rows' h in
    let (new, c, d) = bind-done (with_state rows (edited e itr) e.state) _ rows' b in
    let (m, f, g) = bind-done (moved rows fresh (activated e new) e.parent) _ rows' d in
    let (mid, p, q) =
      bind-done (save rows m.0) (λ saved. save_subtree saved fresh m.0 m.1) rows' g in
    let (in_rows, is_id) = load-Member rows id itr a in
    let (same, path, s) = with_state-kept rows (edited e itr) new e.state c in
    let nonzero : new.id ≢ 0 = λ z. o.no_nil in_rows (sym same ∙ z) in
    let (k, l, below) = moved-MovedFrom rows fresh (activated e new) e.parent m o nonzero f in
    let (r, u, v) = save-found rows mid m.0 p in
    let alone : (space_id : ℕ) (y : Iteration)
        → is_started space_id m.0 ≡ true
        → Member y rows
        → is_started space_id y ≡ true
        → y.id ≡ m.0.id =
      λ space_id y w i j.
        let started : is_started space_id new ≡ true = sym (l space_id) ∙ w in
        elim s [
          | inl t ↦
              ap (λ z. z.id) (o.one_started space_id i in_rows j (sym (t space_id) ∙ started))
              ∙ sym same
              ∙ sym k
          | inr t ↦ let z = t space_id y started i in absurd (ground arith)
        ] in
    save_subtree-OneStarted m.1 rows mid rows' fresh m.0 o (λ x y. (below x y).0)
      (save-OneStarted rows mid m.0 o p alone)
      (λ x y i j t space_id.
        let (x_in, other) = below x i in
        let j2 : Member y (replace_iteration m.0 rows) = rw v at j in
        elim (Member-replace_iteration m.0 rows j2) [
          | inl z ↦ absurd (other (sym t ∙ ap (λ w. w.id) z ∙ k))
          | inr (z, w) ↦ ap (is_started space_id) (o.one_row z x_in t)
        ])
      q

-- ===== src/Iteration/Created.antt =====
-- New iterations: Create of iteration/iteration.go and of controller/iteration.go.
use almighty_core.Prelude.{
  ℕ, ◌≡◌, ◌≢◌, refl, sym, ap, ◌∙◌, ◌⊎◌, inl, inr, true, false, some, List, [], ◌∷◌, ◌++◌, any,
  Member, Member-append, Member-cons, arith, ◌==◌, ==_iff, Bool-cases, Option-cases,
}
use almighty_core.Prelude.Texts.{eqb_text}
use almighty_core.Errors.{bad_parameter_class, data_conflict_class, foreign_class}
use almighty_core.Answer.{done, failed, bind-done}
use almighty_core.Iteration.{
  Iteration, make_child_of, insert_new, numbered, is_empty_path, create, this, violates_unique,
  is_started, load,
}
use almighty_core.Iteration.Started.{OneStarted}
use almighty_core.Iteration.Kept.{any-Member}
use almighty_core.Iteration.Update.{NewIteration, create_named, create_child}

insert_new-OneStarted :
    (rows rows' : List Iteration) (u : Iteration)
    → OneStarted rows
    → u.id ≢ 0
    → ((space_id : ℕ) → is_started space_id u ≡ false)
    → insert_new rows u ≡ done rows'
    → OneStarted rows'
insert_new-OneStarted rows rows' u o n f h = elim (Bool-cases (any (λ r. r.id == u.id) rows)) [
  | inl t ↦ let w : failed foreign_class ≡ done rows' = rw t at h in cc
  | inr g ↦ elim (Bool-cases (violates_unique rows u)) [
    | inl t ↦ let w : failed data_conflict_class ≡ done rows' = rw (g, t) at h in cc
    | inr k ↦
        let w : done (rows ++ u ∷ []) ≡ done rows' = rw (g, k) at h in
        let q : rows ++ u ∷ [] ≡ rows' = cc in
        let other : (r : Iteration) → Member r rows → r.id ≢ u.id = λ r m e.
          let a = any-Member (λ r. r.id == u.id) rows g m in
          let b : (r.id == u.id) ≡ true = (==_iff r.id u.id).1 e in cc in
        let split : (r : Iteration) → Member r (rows ++ u ∷ []) → Member r rows ⊎ (r ≡ u) = λ r m.
          elim (Member-append rows (u ∷ []) m) [
            | inl a ↦ inl a
            | inr a ↦ elim (Member-cons a) [ inl b ↦ inr b | inr b ↦ elim b [ ] ]
          ] in
        rw (← q) record {
          one_row = λ {r = x} {s = y} a b c. elim (split x a) [
            | inl d ↦ elim (split y b) [
              | inl e ↦ o.one_row d e c
              | inr e ↦ absurd (other x d (c ∙ ap (λ z. z.id) e))
            ]
            | inr d ↦ elim (split y b) [
              | inl e ↦ absurd (other y e (sym c ∙ ap (λ z. z.id) d))
              | inr e ↦ d ∙ sym e
            ]
          ];
          one_started = λ space_id {r = x} {s = y} a b c d. elim (split x a) [
            | inl i ↦ elim (split y b) [
              | inl j ↦ o.one_started space_id i j c d
              | inr j ↦
                  let z : is_started space_id y ≡ false = ap (is_started space_id) j ∙ f space_id in
                  cc
            ]
            | inr i ↦
                let z : is_started space_id x ≡ false = ap (is_started space_id) i ∙ f space_id in
                cc
          ];
          no_nil = λ {r = x} a. elim (split x a) [
            | inl d ↦ o.no_nil d
            | inr d ↦ λ z. n (ap (λ w. w.id) (sym d) ∙ z)
          ];
        }
  ]
]

pub create-OneStarted :
    (rows rows' : List Iteration) (fresh number : ℕ) (u : Iteration)
    → OneStarted rows
    → fresh ≢ 0
    → eqb_text u.state [] ≡ true
    → create rows fresh number u ≡ done rows'
    → OneStarted rows'
unfolding create
create-OneStarted rows rows' fresh number u o n s h =
    let unstarted : (id : ℕ) (p : List ℕ) (space_id : ℕ)
        → is_started space_id (numbered number (record u { id = id; path = p })) ≡ false =
      λ id p space_id. rw s (ground arith) in
    elim (Bool-cases (u.id == 0)) [
      | inl t ↦
          let w : insert_new rows (numbered number (record u { id = fresh; path = fresh ∷ [] }))
              ≡ done rows' =
            rw t at h in
          insert_new-OneStarted rows rows' _ o n (unstarted fresh (fresh ∷ [])) w
      | inr f ↦
          let nonzero : u.id ≢ 0 = λ z. let y : (u.id == 0) ≡ true = (==_iff u.id 0).1 z in cc in
          elim (Bool-cases (is_empty_path u.path)) [
            | inl t ↦
                let w : insert_new rows (numbered number (record u { path = u.id ∷ [] }))
                    ≡ done rows' =
                  rw (f, t) at h in
                insert_new-OneStarted rows rows' _ o nonzero (unstarted u.id (u.id ∷ [])) w
            | inr g ↦ elim (Bool-cases (this u.path == u.id)) [
              | inr k ↦ let w : failed foreign_class ≡ done rows' = rw (f, g, k) at h in cc
              | inl k ↦
                  let w : insert_new rows (numbered number u) ≡ done rows' = rw (f, g, k) at h in
                  insert_new-OneStarted rows rows' _ o nonzero (unstarted u.id u.path) w
            ]
          ]
    ]

pub create_child-OneStarted :
    (rows rows' : List Iteration) (fresh number parent_id : ℕ) (n : NewIteration)
    → OneStarted rows
    → fresh ≢ 0
    → create_child rows fresh number parent_id n ≡ done rows'
    → OneStarted rows'
unfolding create_child make_child_of
create_child-OneStarted rows rows' fresh number parent_id n o f h =
    let (parent, a, b) =
      bind-done (load rows parent_id) (λ parent. create_named rows fresh number parent n n.name)
        rows' h in
    elim (Option-cases n.name) [
      | inl e ↦ let w : failed bad_parameter_class ≡ done rows' = rw e at b in cc
      | inr (name, e) ↦
          let w : create_named rows fresh number parent n (some name) ≡ done rows' = rw e at b in
          create-OneStarted rows rows' fresh number _ o f refl w
    ]

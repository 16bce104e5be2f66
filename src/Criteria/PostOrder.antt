-- ===== src/Criteria/PostOrder.antt =====
-- IteratePostOrder of criteria/iterator.go as a loop over a list.
use mathlib.Core.Path.{fun_ext}
use almighty_core.Prelude.{Bool, true, false, ◌≡◌, refl, sym, ap, ◌∙◌, List, [], ◌∷◌, ◌++◌}
use almighty_core.Criteria.{
  Expression, binary, field, literal, parameter, is_null, iterate_post_order, resume,
}

-- the parts before the whole, from the left
abbrev pub post_order : {Float : Type 0} → Expression Float → List (Expression Float)
post_order (binary op l r) = post_order l ++ (post_order r ++ binary op l r ∷ [])
post_order e = e ∷ []

-- a loop over a list that ends where the visitor says false
abbrev pub visit_each {ℓ} :
    {Float : Type 0} {S : Type ℓ}
    → (Expression Float → S → Bool × S)
    → List (Expression Float)
    → S
    → Bool × S
visit_each visit [] s = (true, s)
visit_each visit (e ∷ es) s = resume (visit e s) (visit_each visit es)

module _ {ℓ} {Float : Type 0} {S : Type ℓ} (visit : Expression Float → S → Bool × S) where
  resume-true : (a : Bool × S) → resume a (λ t. (true, t)) ≡ a
  resume-true (false, t) = refl
  resume-true (true, t) = refl

  resume_assoc :
      (a : Bool × S) (k m : S → Bool × S) → resume (resume a k) m ≡ resume a (λ t. resume (k t) m)
  resume_assoc (false, t) k m = refl
  resume_assoc (true, t) k m = refl

  each_one : (e : Expression Float) (s : S) → visit_each visit (e ∷ []) s ≡ visit e s
  each_one e s = resume-true (visit e s)

  each_append :
      (xs ys : List (Expression Float)) (s : S)
      → visit_each visit (xs ++ ys) s ≡ resume (visit_each visit xs s) (visit_each visit ys)
  each_append [] ys s = refl
  each_append (e ∷ xs) ys s =
      ap (resume (visit e s)) (fun_ext (each_append xs ys))
      ∙ sym (resume_assoc (visit e s) (visit_each visit xs) (visit_each visit ys))

  -- IteratePostOrder visits the parts of an expression before the whole, from the left, each once, and
  -- ends after the first one for which the visitor says false: it is the loop over that list.
  pub iterate_post_order_lem :
      (e : Expression Float) (s : S)
      → iterate_post_order visit e s ≡ visit_each visit (post_order e) s
  iterate_post_order_lem (field f) s = sym (each_one _ s)
  iterate_post_order_lem (literal v) s = sym (each_one _ s)
  iterate_post_order_lem parameter s = sym (each_one _ s)
  iterate_post_order_lem (is_null f) s = sym (each_one _ s)
  iterate_post_order_lem (binary op l r) s =
      ap (λ a. resume a (λ t. resume (iterate_post_order visit r t) (visit (binary op l r))))
        (iterate_post_order_lem l s)
      ∙ ap (resume (visit_each visit (post_order l) s)) (
          fun_ext (λ t.
            ap (λ a. resume a (visit (binary op l r))) (iterate_post_order_lem r t)
            ∙ ap (resume (visit_each visit (post_order r) t))
                (fun_ext (λ u. sym (each_one (binary op l r) u)))
            ∙ sym (each_append (post_order r) (binary op l r ∷ []) t)))
      ∙ sym (each_append (post_order l) (post_order r ++ binary op l r ∷ []) s)

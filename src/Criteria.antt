-- ===== src/Criteria.antt =====
-- The expressions of criteria/. A tree is built once and not shared, so that the parent of a part is
-- the part that it stands in. Walks are over the tree, from the left, the parts before the whole.
pub mod PostOrder
use almighty_core.Prelude.{Bool, true, false, ◌≡◌, refl, List, [], ◌∷◌, ◌++◌, Bool-cases, inl, inr}
use almighty_core.Prelude.Texts.{Text}
use almighty_core.Field.Value.{Value}

pub data BinaryOperator : Type 0 where
  op_and op_or op_equals op_substring op_not op_child : BinaryOperator

pub data Expression (Float : Type 0) : Type 0 where
  field : Text → Expression Float
  literal : Value Float → Expression Float
  parameter : Expression Float
  is_null : Text → Expression Float
  binary : BinaryOperator → Expression Float → Expression Float → Expression Float

-- goes on with what a visit came back with, unless it said false
abbrev pub resume {ℓ} : {S : Type ℓ} → Bool × S → (S → Bool × S) → Bool × S
resume a k = elim a.0 [ false ↦ a | true ↦ k a.1 ]

-- IteratePostOrder, whose visitor says whether to go on: whether it has been everywhere, and its state
abbrev pub iterate_post_order {ℓ} :
    {Float : Type 0} {S : Type ℓ}
    → (Expression Float → S → Bool × S)
    → Expression Float
    → S
    → Bool × S
iterate_post_order visit (binary op l r) s =
    resume (iterate_post_order visit l s)
      (λ t. resume (iterate_post_order visit r t) (visit (binary op l r)))
iterate_post_order visit e s = visit e s

-- ===== src/Compiler/Placeholders/Counted.antt =====
-- The visits of a field, a literal and a test for null of workitem/expression_compiler.go.
use almighty_core.Prelude.{
  ℕ, ◌+◌, ◌≡◌, refl, Bool, true, false, ◌||◌, Option, none, some, List, [], ◌∷◌, ◌++◌, All, length,
  length-append, arith, Bool-cases, inl, inr, Option-cases,
}
use almighty_core.Prelude.Texts.{Text, codes, eqb_text, contains_byte, lookup_text}
use almighty_core.Field.Value.{Value}
use almighty_core.Joins.{
  TableJoin, TableJoinMap, Translated, column_of, refused, column, work_items, activate,
}
use almighty_core.Compiler.{
  CompileError, ExpressionCompiler, Compiled, field_map, find_handler, fields_column, mapped_name,
  get_field_name, fail, give_with, field_translated, field_at, visit_field, visit_is_null, joined,
  negated,
}
use almighty_core.Compiler.Placeholders.{
  placeholders, placeholders-append, IsPlainJoin, IsVisit, HasText,
}
use almighty_core.Compiler.Placeholders.Translated.{
  IsPlainTranslated, translate-plain, activate-plain, find_handler-plain, column-placeholders,
}

pub append_one {ℓ} : {A : Type ℓ} (xs : List A) (x : A) → (xs ++ x ∷ []) ≡ [] → ⊥
append_one [] x h = cc
append_one (y ∷ xs) x h = cc

combined :
    (op l r : Text) (a b c : ℕ)
    → placeholders op ≡ 0
    → placeholders l + a ≡ b
    → placeholders r + b ≡ c
    → placeholders (codes "(" ++ l ++ codes " " ++ op ++ codes " " ++ r ++ codes ")") + a ≡ c
combined op l r a b c n h k = simp placeholders-append (omega arith)

module _ {Float : Type 0} where
  pub fail-IsVisit :
      (e : CompileError) (c d : ExpressionCompiler Float)
      → All IsPlainJoin d.joins
      → IsVisit c (fail e d)
  fail-IsVisit e c d h = record {
    counted = λ t q. cc;
    plain = h;
    reported = λ q. absurd (append_one d.errors e q);
  }

  -- a text, with the compiler after it
  pub text-IsVisit :
      (t : Text) (c d : ExpressionCompiler Float)
      → placeholders t + length c.parameters ≡ length d.parameters
      → (d.errors ≡ [] → c.errors ≡ [])
      → All IsPlainJoin d.joins
      → IsVisit c (record { result = some t; compiler = d })
  text-IsVisit t c d n e h = record {
    counted = λ u q. let r : t ≡ u = cc in rw (← r) n;
    plain = h;
    reported = λ q. (e q, t, refl);
  }

  pub give_with-IsVisit :
      (t : Text) (v : Value Float) (c d : ExpressionCompiler Float)
      → placeholders t ≡ 1
      → d.parameters ≡ c.parameters
      → d.errors ≡ c.errors
      → All IsPlainJoin d.joins
      → IsVisit c (give_with t v d)
  give_with-IsVisit t v c d n p e h =
      text-IsVisit t c (record d { parameters = d.parameters ++ v ∷ [] })
        (rw p (omega (arith, length-append c.parameters (v ∷ [])))) (λ q. rw (← e) q) h

  none-IsVisit :
      (c d : ExpressionCompiler Float) (o : Option Text)
      → o ≡ none
      → All IsPlainJoin d.joins
      → (d.errors ≡ [] → ⊥)
      → IsVisit c (record { result = o; compiler = d })
  none-IsVisit c d o e h f = record { counted = λ t q. cc; plain = h; reported = λ q. absurd (f q) }

  -- the two sides of a binary expression
  pub joined-IsVisit :
      (op : Text) (c : ExpressionCompiler Float) (x y : Compiled Float)
      → placeholders op ≡ 0
      → IsVisit c x
      → IsVisit x.compiler y
      → IsVisit c (joined op x y)
  joined-IsVisit op c x y n h k = elim (Option-cases x.result) [
    | inl e ↦
        none-IsVisit c y.compiler _ (rw e refl) k.plain
          (λ q. let (u, t, z) = h.reported (k.reported q).0 in cc (e, z))
    | inr (l, e) ↦ elim (Option-cases y.result) [
      | inl f ↦
          none-IsVisit c y.compiler _ (rw (e, f) refl) k.plain
            (λ q. let (u, t, z) = k.reported q in cc (f, z))
      | inr (r, f) ↦
          rw (e, f)
            (text-IsVisit _ c y.compiler (combined op l r _ _ _ n (h.counted l e) (k.counted r f))
              (λ q. (h.reported (k.reported q).0).0) k.plain)
    ]
  ]

  pub negated-IsVisit :
      (c : ExpressionCompiler Float) (x : Compiled Float)
      → IsVisit c x
      → IsVisit c (record { result = negated x.result; compiler = x.compiler })
  negated-IsVisit c x h = elim (Option-cases x.result) [
    | inl e ↦
        none-IsVisit c x.compiler _ (rw e refl) h.plain
          (λ q. let (u, t, z) = h.reported q in cc (e, z))
    | inr (l, e) ↦ rw e (
        text-IsVisit _ c x.compiler
          (omega (arith, placeholders-append (codes "NOT ") l, h.counted l e))
          (λ q. (h.reported q).0) h.plain)
  ]

  -- a compiler with the same parameters and errors
  pub shifted-IsVisit :
      (c d : ExpressionCompiler Float) (x : Compiled Float)
      → d.parameters ≡ c.parameters
      → d.errors ≡ c.errors
      → IsVisit d x
      → IsVisit c x
  shifted-IsVisit c d x p e h = record {
    counted = λ t q. rw (← p) (h.counted t q);
    plain = h.plain;
    reported = λ q. let (z, t, y) = h.reported q in (rw (← e) z, t, y);
  }

lookup_text-plain :
    (f : Text) (m : List (Text × Text))
    → All (λ (kv : Text × Text). placeholders kv.1 ≡ 0) m
    → HasText (lookup_text f m)
lookup_text-plain f [] h = tt
lookup_text-plain f (kv ∷ m) h = elim (Bool-cases (eqb_text kv.0 f)) [
  | inl t ↦ rw t h.0
  | inr g ↦ rw g (lookup_text-plain f m h.1)
]

mapped-plain :
    (f : Text) (o : Option Text)
    → placeholders f ≡ 0
    → HasText o
    → placeholders (mapped_name f o).0 ≡ 0
unfolding mapped_name
mapped-plain f (some m) h k = omega (arith, column-placeholders work_items m)
mapped-plain f none h k = elim (Bool-cases (contains_byte 46 f || contains_byte 95 f)) [
  | inl t ↦ rw t h
  | inr g ↦ rw g (omega (arith, column-placeholders work_items f))
]

pub get_field_name-plain :
    (joins : TableJoinMap) (f : Text)
    → placeholders f ≡ 0
    → placeholders (get_field_name joins f).0 ≡ 0
get_field_name-plain joins f h = elim (Option-cases (find_handler f joins)) [
  | inl e ↦ rw e (
      mapped-plain f _ h (lookup_text-plain f field_map (refl, (refl, (refl, (refl, (refl, tt)))))))
  | inr (kj, e) ↦ rw e h
]

pub fields_column-plain : placeholders fields_column ≡ 0
unfolding fields_column column
fields_column-plain = refl

module _ {Float : Type 0} where
  translated-IsVisit :
      (c : ExpressionCompiler Float) (x : Translated × TableJoinMap)
      → IsPlainTranslated x
      → IsVisit c (field_translated x c)
  translated-IsVisit c (column_of t, joins) h =
      text-IsVisit t c (record c { joins = joins }) (omega (arith, h.0)) (λ q. q) h.1
  translated-IsVisit c (refused e, joins) h =
      text-IsVisit [] c _ (omega arith) (λ q. absurd (append_one c.errors _ q)) h.1

  at-IsVisit :
      (name : Text) (json : Bool) (o : Option (Text × TableJoin)) (c : ExpressionCompiler Float)
      → placeholders name ≡ 0
      → find_handler name c.joins ≡ o
      → All IsPlainJoin c.joins
      → IsVisit c (field_at name json o c)
  at-IsVisit name json (some kj) c n e h = translated-IsVisit c _ (
      translate-plain kj.0 kj.1 name (activate kj.0 c.joins) n (find_handler-plain name c.joins h e)
        (activate-plain kj.0 c.joins h))
  at-IsVisit name false none c n e h = text-IsVisit name c c (omega arith) (λ q. q) h
  at-IsVisit name true none c n e h = elim (Bool-cases (contains_byte 39 name)) [
    | inl t ↦ rw t (fail-IsVisit _ c c h)
    | inr g ↦ rw g (
        text-IsVisit _ c c (simp placeholders-append (omega (arith, fields_column-plain))) (λ q. q)
          h)
  ]

  pub field-IsVisit :
      (f : Text) (c : ExpressionCompiler Float)
      → placeholders f ≡ 0
      → All IsPlainJoin c.joins
      → IsVisit c (visit_field f c)
  field-IsVisit f c n h = elim (Bool-cases (contains_byte 34 f)) [
    | inl t ↦ rw t (fail-IsVisit _ c c h)
    | inr g ↦ elim (Bool-cases (contains_byte 39 f)) [
      | inl t ↦ rw (g, t) (fail-IsVisit _ c c h)
      | inr k ↦ rw (g, k) (at-IsVisit _ _ _ c (get_field_name-plain c.joins f n) refl h)
    ]
  ]

  pub is_null-IsVisit :
      (f : Text) (c : ExpressionCompiler Float)
      → placeholders f ≡ 0
      → All IsPlainJoin c.joins
      → IsVisit c (visit_is_null f c)
  is_null-IsVisit f c n h = elim (Bool-cases (get_field_name c.joins f).1) [
    | inl t ↦ rw t (
        text-IsVisit _ c c
          (simp placeholders-append
            (omega (arith, fields_column-plain, get_field_name-plain c.joins f n)))
          (λ q. q) h)
    | inr g ↦ rw g (
        text-IsVisit _ c c
          (simp placeholders-append (omega (arith, get_field_name-plain c.joins f n))) (λ q. q) h)
  ]

-- ===== src/Compiler/Placeholders/Whole.antt =====
-- The visits of the other expressions of workitem/expression_compiler.go, and Compile.
use almighty_core.Prelude.{
  ◌≡◌, refl, Bool, true, false, ◌||◌, Option, none, some, All, if◌then◌else◌, arith, Bool-cases,
  inl, inr,
}
use almighty_core.Prelude.Texts.{Text, codes, eqb_text, contains_byte}
use almighty_core.Field.Kind.{eqb_text→eq}
use almighty_core.Field.Value.{Value, str, Platform}
use almighty_core.Criteria.{
  Expression, field, literal, parameter, is_null, binary, op_and, op_or, op_equals, op_substring,
  op_not, op_child,
}
use almighty_core.Joins.{TableJoin, TableJoinMap, Translated, column_of, refused, activate}
use almighty_core.Compiler.{
  ExpressionCompiler, Compiled, is_json, as_field, as_literal, as_string, refers_to_joined_data,
  activate_found, equals_operator, is_special, give_with, substring_translated, substring_joined,
  substring_text, substring_right, substring_special, child_clause, child_of, child_text,
  child_right, visit_child, joined, combine, negated,
}
use almighty_core.Compiler.Accept.{json_text, json_literal, visit_literal, accept}
use almighty_core.Compiler.Placeholders.{
  placeholders, placeholders-append, IsPlainJoin, IsPlain, IsVisit, HasText,
}
use almighty_core.Compiler.Placeholders.Translated.{
  IsPlainTranslated, translate-plain, activate-plain, find_handler-plain,
}
use almighty_core.Compiler.Placeholders.Counted.{
  fail-IsVisit, text-IsVisit, give_with-IsVisit, joined-IsVisit, negated-IsVisit, shifted-IsVisit,
  field-IsVisit, is_null-IsVisit, fields_column-plain,
}

operator-plain :
    (json : Bool) (o : Option (Text × TableJoin)) → placeholders (equals_operator json o) ≡ 0
operator-plain json (some kj) = refl
operator-plain true none = refl
operator-plain false none = refl

not_special :
    (json : Bool) (o : Option (Text × TableJoin)) → is_special json o ≡ false → json ≡ false
not_special json (some kj) h = cc
not_special json none h = h

refers-plain :
    (l : Option Text) (joins : TableJoinMap) (kj : Text × TableJoin)
    → All IsPlainJoin joins
    → refers_to_joined_data l joins ≡ some kj
    → IsPlainJoin kj
refers-plain none joins kj h e = cc
refers-plain (some f) joins kj h e = find_handler-plain f joins h e

child_clause-one :
    (f g alias table : Text)
    → f ≡ g
    → placeholders g ≡ 0
    → placeholders alias ≡ 0
    → placeholders table ≡ 0
    → placeholders (child_clause f alias table) ≡ 1
child_clause-one f g alias table e n a t = rw e (simp placeholders-append (omega arith))

module _ {Float : Type 0} where
  not-IsVisit :
      (json : Bool) (c : ExpressionCompiler Float) (x y : Compiled Float)
      → IsVisit c x
      → IsVisit x.compiler y
      → IsVisit c (
          if json
          then record {
            result = negated (combine (codes ":") x.result y.result);
            compiler = y.compiler;
          }
          else joined (codes "!=") x y)
  not-IsVisit true c x y h k = negated-IsVisit c _ (joined-IsVisit (codes ":") c x y refl h k)
  not-IsVisit false c x y h k = joined-IsVisit (codes "!=") c x y refl h k

  given-IsVisit :
      (name : Text) (t : Text) (v : Value Float) (c : ExpressionCompiler Float)
      → placeholders t ≡ 1
      → All IsPlainJoin c.joins
      → IsVisit c (give_with t v (record c { joins = activate name c.joins }))
  given-IsVisit name t v c n h =
      give_with-IsVisit t v c _ n refl refl (activate-plain name c.joins h)

  found-plain :
      (o : Option (Text × TableJoin)) (c : ExpressionCompiler Float)
      → All IsPlainJoin c.joins
      → All IsPlainJoin (activate_found o c).joins
  found-plain none c h = h
  found-plain (some kj) c h = activate-plain kj.0 c.joins h

  found-parameters :
      (o : Option (Text × TableJoin)) (c : ExpressionCompiler Float)
      → (activate_found o c).parameters ≡ c.parameters
  found-parameters none c = refl
  found-parameters (some kj) c = refl

  found-errors :
      (o : Option (Text × TableJoin)) (c : ExpressionCompiler Float)
      → (activate_found o c).errors ≡ c.errors
  found-errors none c = refl
  found-errors (some kj) c = refl

  substring_translated-IsVisit :
      (c : ExpressionCompiler Float) (x : Translated × TableJoinMap)
      → IsPlainTranslated x
      → IsVisit c (substring_translated x c)
  substring_translated-IsVisit c (column_of t, joins) h =
      text-IsVisit t c (record c { joins = joins }) (omega (arith, h.0)) (λ q. q) h.1
  substring_translated-IsVisit c (refused e, joins) h = fail-IsVisit _ c _ h.1

  substring_joined-IsVisit :
      (f : Text) (o : Option (Text × TableJoin)) (c : ExpressionCompiler Float)
      → placeholders f ≡ 0
      → ((kj : Text × TableJoin) → o ≡ some kj → IsPlainJoin kj)
      → All IsPlainJoin c.joins
      → IsVisit c (substring_joined f o c)
  substring_joined-IsVisit f none c n p h = fail-IsVisit _ c c h
  substring_joined-IsVisit f (some kj) c n p h =
      substring_translated-IsVisit c _ (translate-plain kj.0 kj.1 f c.joins n (p kj refl) h)

  substring_text-IsVisit :
      (json : Bool) (f : Text) (r : Option Text) (o : Option (Text × TableJoin))
      (c : ExpressionCompiler Float)
      → placeholders f ≡ 0
      → ((kj : Text × TableJoin) → o ≡ some kj → IsPlainJoin kj)
      → All IsPlainJoin c.joins
      → IsVisit c (substring_text json f r o c)
  substring_text-IsVisit json f none o c n p h = fail-IsVisit _ c c h
  substring_text-IsVisit false f (some r) o c n p h = substring_joined-IsVisit f o c n p h
  substring_text-IsVisit true f (some r) o c n p h =
      give_with-IsVisit _ _ c c (simp placeholders-append (omega (arith, fields_column-plain))) refl
        refl h

  substring_special-IsVisit :
      (json : Bool) (l : Option Text) (r : Option (Value Float)) (o : Option (Text × TableJoin))
      (c : ExpressionCompiler Float)
      → ((f : Text) → l ≡ some f → placeholders f ≡ 0)
      → ((kj : Text × TableJoin) → o ≡ some kj → IsPlainJoin kj)
      → All IsPlainJoin c.joins
      → IsVisit c (substring_special json l r o c)
  substring_special-IsVisit json none r o c n p h = fail-IsVisit _ c c h
  substring_special-IsVisit json (some f) r o c n p h = elim (Bool-cases (contains_byte 39 f)) [
    | inl t ↦ rw t (fail-IsVisit _ c c h)
    | inr g ↦ rw g (right r)
  ]
    where
      right : (r : Option (Value Float)) → IsVisit c (substring_right json f r o c)
      right none = fail-IsVisit _ c c h
      right (some v) = substring_text-IsVisit json f (as_string v) o c (n f refl) p h

  child_of-IsVisit :
      (f r : Text) (c : ExpressionCompiler Float)
      → All IsPlainJoin c.joins
      → IsVisit c (child_of f r c)
  child_of-IsVisit f r c h = elim (Bool-cases (contains_byte 39 r)) [
    | inl t ↦ rw t (fail-IsVisit _ c c h)
    | inr g ↦ elim (Bool-cases (eqb_text f (codes "system.iteration"))) [
      | inl t ↦
          rw (g, t)
            (given-IsVisit (codes "iteration") _ (str r) c
              (child_clause-one f _ (codes "iter") (codes "iterations") (eqb_text→eq f _ t) refl
                refl refl)
              h)
      | inr k ↦ elim (Bool-cases (eqb_text f (codes "system.area"))) [
        | inl t ↦
            rw (g, k, t)
              (given-IsVisit (codes "area") _ (str r) c
                (child_clause-one f _ (codes "ar") (codes "areas") (eqb_text→eq f _ t) refl refl
                  refl)
                h)
        | inr m ↦ rw (g, k, m) (fail-IsVisit _ c c h)
      ]
    ]
  ]

  child-IsVisit :
      (l : Option Text) (r : Option (Value Float)) (c : ExpressionCompiler Float)
      → All IsPlainJoin c.joins
      → IsVisit c (visit_child l r c)
  child-IsVisit none r c h = fail-IsVisit _ c c h
  child-IsVisit (some f) r c h = elim (Bool-cases (contains_byte 39 f)) [
    | inl t ↦ rw t (fail-IsVisit _ c c h)
    | inr g ↦ rw g (right r)
  ]
    where
      text : (o : Option Text) → IsVisit c (child_text f o c)
      text none = fail-IsVisit _ c c h
      text (some t) = child_of-IsVisit f t c h

      right : (r : Option (Value Float)) → IsVisit c (child_right f r c)
      right none = fail-IsVisit _ c c h
      right (some v) = text (as_string v)

  module _ (go : Platform Float) (format_shortest : Float → Text) (marks : TableJoinMap) where
    literal-IsVisit :
        (above : Bool) (v : Value Float) (c : ExpressionCompiler Float)
        → IsPlain go format_shortest marks above (literal v)
        → All IsPlainJoin c.joins
        → IsVisit c (visit_literal go format_shortest above v c)
    literal-IsVisit false v c p h = give_with-IsVisit (codes "?") v c c refl refl refl h
    literal-IsVisit true v c p h = json (json_text go format_shortest v) p
      where
        json : (o : Option Text) → HasText o → IsVisit c (json_literal go format_shortest o c)
        json none q = fail-IsVisit _ c c h
        json (some t) q =
            text-IsVisit _ c c (omega (arith, placeholders-append t (codes "}'"), q)) (λ e. e) h

    plain_field :
        (inner : Bool) (l : Expression Float)
        → IsPlain go format_shortest marks inner l
        → (f : Text) → as_field l ≡ some f
        → placeholders f ≡ 0
    plain_field inner (field g) h f e = let q : g ≡ f = cc in rw (← q) h
    plain_field inner (literal v) h f e = cc
    plain_field inner parameter h f e = cc
    plain_field inner (is_null g) h f e = cc
    plain_field inner (binary op l r) h f e = cc

    pub accept-IsVisit :
        (above : Bool) (e : Expression Float) (c : ExpressionCompiler Float)
        → IsPlain go format_shortest marks above e
        → All IsPlainJoin c.joins
        → IsVisit c (accept go format_shortest marks above e c)
    accept-IsVisit above (field f) c p h = field-IsVisit f c p h
    accept-IsVisit above (literal v) c p h = literal-IsVisit above v c p h
    accept-IsVisit above parameter c p h = fail-IsVisit _ c c h
    accept-IsVisit above (is_null f) c p h = is_null-IsVisit f c p h
    accept-IsVisit above (binary op_and l r) c p h =
        let x = accept-IsVisit above l c p.0 h in
        joined-IsVisit _ c _ _ refl x (accept-IsVisit above r _ p.1 x.plain)
    accept-IsVisit above (binary op_or l r) c p h =
        let x = accept-IsVisit above l c p.0 h in
        joined-IsVisit _ c _ _ refl x (accept-IsVisit above r _ p.1 x.plain)
    accept-IsVisit above (binary op_equals l r) c p h =
        let inner = above || (is_json marks l || is_json marks r) in
        let o = refers_to_joined_data (as_field l) c.joins in
        let d = activate_found o c in
        let x = accept-IsVisit inner l d p.0 (found-plain o c h) in
        shifted-IsVisit c d _ (found-parameters o c) (found-errors o c)
          (joined-IsVisit _ d _ _ (operator-plain inner o) x (accept-IsVisit inner r _ p.1 x.plain))
    accept-IsVisit above (binary op_substring l r) c p h =
        let inner = above || (is_json marks l || is_json marks r) in
        let o = refers_to_joined_data (as_field l) c.joins in
        let d = activate_found o c in
        shifted-IsVisit c d _ (found-parameters o c) (found-errors o c)
          (elim (Bool-cases (is_special inner o)) [
            | inl t ↦ rw t (
                substring_special-IsVisit inner (as_field l) (as_literal r) o d
                  (plain_field inner l p.0) (λ kj e. refers-plain (as_field l) c.joins kj h e)
                  (found-plain o c h))
            | inr g ↦
                let x = accept-IsVisit inner l d p.0 (found-plain o c h) in
                rw g (
                  joined-IsVisit _ d _ _ refl x
                    (accept-IsVisit inner r _ (p.1 (not_special inner o g)) x.plain))
          ])
    accept-IsVisit above (binary op_not l r) c p h =
        let inner = above || (is_json marks l || is_json marks r) in
        let x = accept-IsVisit inner l c p.0 h in
        not-IsVisit inner c _ _ x (accept-IsVisit inner r _ p.1 x.plain)
    accept-IsVisit above (binary op_child l r) c p h = child-IsVisit (as_field l) (as_literal r) c h

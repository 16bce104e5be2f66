-- ===== src/Compiler/Placeholders.antt =====
-- The placeholders in the clause of Compile of workitem/expression_compiler.go, and its parameters.
pub mod Translated
pub mod Counted
pub mod Whole
pub mod Bound
use almighty_core.Prelude.{
  ℕ, suc, ◌+◌, ◌≡◌, refl, Bool, true, false, ◌||◌, Option, none, some, List, [], ◌∷◌, ◌++◌, length,
  All, length-append, ◌==◌, if◌then◌else◌, arith, Bool-cases, inl, inr, Option-cases,
}
use almighty_core.Prelude.Texts.{Text, codes, eqb_text, contains_byte}
use almighty_core.Field.Value.{Value, str, Platform}
use almighty_core.Criteria.{
  Expression, field, literal, parameter, is_null, binary, op_and, op_or, op_equals, op_substring,
  op_not, op_child,
}
use almighty_core.Joins.{TableJoin, TableJoinMap, column_of, refused, column, translate_field_name}
use almighty_core.Compiler.{ExpressionCompiler, Compiled, is_json}
use almighty_core.Compiler.Accept.{json_text}

-- how many `?` a text has
abbrev pub placeholders : Text → ℕ
placeholders [] = 0
placeholders (a ∷ t) = (if a == 63 then 1 else 0) + placeholders t

pub placeholders-append : (s t : Text) → placeholders (s ++ t) ≡ placeholders s + placeholders t
placeholders-append [] t = omega arith
placeholders-append (a ∷ s) t = omega (arith, placeholders-append s t)

-- no `?` in the alias of a join and in its condition
abbrev pub IsPlainJoin : Text × TableJoin → Type 0
IsPlainJoin kj = (placeholders kj.1.table_alias ≡ 0) × (placeholders kj.1.where_clause ≡ 0)

abbrev pub HasText : Option Text → Type 0
HasText none = Unit
HasText (some t) = placeholders t ≡ 0

module _ {Float : Type 0} where
  -- Where a visit from `c` gives a text, it has as many placeholders as the visit adds parameters; and
  -- a visit that gives none adds an error.
  pub record IsVisit (c : ExpressionCompiler Float) (x : Compiled Float) : Type 0 where
    pub counted :
        (t : Text)
        → x.result ≡ some t
        → placeholders t + length c.parameters ≡ length x.compiler.parameters
    pub plain : All IsPlainJoin x.compiler.joins
    pub reported : x.compiler.errors ≡ [] → (c.errors ≡ []) × (t : Text) × (x.result ≡ some t)

module _ {Float : Type 0} (go : Platform Float) (format_shortest : Float → Text) where
  -- No `?` in a field name, or in a literal where it is written into the clause: in a JSON context.
  abbrev pub IsPlain : TableJoinMap → Bool → Expression Float → Type 0
  IsPlain marks above (field f) = placeholders f ≡ 0
  IsPlain marks true (literal v) = HasText (json_text go format_shortest v)
  IsPlain marks false (literal v) = Unit
  IsPlain marks above parameter = Unit
  IsPlain marks above (is_null f) = placeholders f ≡ 0
  IsPlain marks above (binary op_and l r) = IsPlain marks above l × IsPlain marks above r
  IsPlain marks above (binary op_or l r) = IsPlain marks above l × IsPlain marks above r
  IsPlain marks above (binary op_equals l r) =
      let inner = above || (is_json marks l || is_json marks r) in
      IsPlain marks inner l × IsPlain marks inner r
  IsPlain marks above (binary op_substring l r) =
      let inner = above || (is_json marks l || is_json marks r) in
      IsPlain marks inner l × (inner ≡ false → IsPlain marks inner r)
  IsPlain marks above (binary op_not l r) =
      let inner = above || (is_json marks l || is_json marks r) in
      IsPlain marks inner l × IsPlain marks inner r
  IsPlain marks above (binary op_child l r) = Unit

-- ===== src/Search/Filled.antt =====
-- Errors, panics and nil of generateExpression of search/search_repository.go.
use almighty_core.Prelude.{
  ◌≡◌, refl, ap, ◌⊎◌, inl, inr, Bool, true, false, not, ◌||◌, Option, none, some, List, [], ◌∷◌,
  ◌++◌, map, if◌then◌else◌, Bool-cases,
}
use almighty_core.Prelude.Texts.{Text, eqb_text, lookup_text}
use almighty_core.Field.Value.{Outcome, ok, err, ◌>>=◌}
use almighty_core.Criteria.{BinaryOperator, Expression, is_null, binary, op_and, op_or}
use almighty_core.Joins.{TableJoin}
use almighty_core.Joins.Defaults.{default_table_joins}
use almighty_core.Compiler.{find_handler}
use almighty_core.Search.{
  Node, Query, Queries, query, no_query, more, op_text_and, op_text_or, opts, is_operator,
  search_key_map, key_of, comparison, leaf_expression, join_all, join_by, own_expression, one_more,
  leaf_of, generate_expression, generate_children,
}
use almighty_core.Search.Meaning.{first_of-some, own-operator}

abbrev HasParts : Queries → Type 0
HasParts no_query = ⊥
HasParts (more q qs) = Unit

unfoldable mutual
  -- every operator of a query has a part
  pub IsFilled : Query → Type 0
  IsFilled (query n cs) = (is_operator n.name ≡ true → HasParts cs) × AreFilled cs

  pub AreFilled : Queries → Type 0
  AreFilled no_query = Unit {0}
  AreFilled (more q qs) = IsFilled q × AreFilled qs

-- an error, or a result
abbrev pub Settled {ℓ} : {A : Type ℓ} → Outcome A → Type ℓ
Settled {A = A} o = (o ≡ err) ⊎ ((a : A) × (o ≡ ok a))

module _ (Float : Type 0) where
  abbrev pub Answers : Outcome (Option (Expression Float)) → Type 0
  Answers o = (o ≡ err) ⊎ ((e : Expression Float) × (o ≡ ok (some e)))

  comparison-Settled :
      (n : Node) (key : Text) (v : Option Text) → Settled (comparison {Float = Float} n key v)
  comparison-Settled n key (some v) = inr (_, refl)
  comparison-Settled n key none = elim (Bool-cases n.negate) [
    | inl t ↦ inl (rw t refl)
    | inr f ↦ inr (is_null key, rw f refl)
  ]

  leaf-Settled : (n : Node) → Settled (leaf_expression {Float = Float} n)
  unfolding leaf_expression
  leaf-Settled n = go (lookup_text n.name search_key_map) (find_handler n.name default_table_joins)
    where
      go :
          (found : Option Text) (o : Option (Text × TableJoin))
          → Settled (key_of n.name found o >>= λ key. comparison {Float = Float} n key n.value)
      go found (some kj) = comparison-Settled n n.name n.value
      go (some key) none = comparison-Settled n key n.value
      go none none = inl refl

  leaf-Answers : (n : Node) → Answers (leaf_expression n >>= λ e. ok (some e))
  leaf-Answers n = elim (leaf-Settled n) [
    | inl e ↦ inl (rw e refl)
    | inr (x, e) ↦ inr (x, rw e refl)
  ]

  join_all-some :
      (o : BinaryOperator) (e : Expression Float) (es : List (Expression Float))
      → (r : Expression Float) × (join_all o (some e) (map some es) ≡ ok (some r))
  join_all-some o e [] = (e, refl)
  join_all-some o e (x ∷ es) = join_all-some o (binary o e x) es

  -- what the parts give: an error, or as many expressions
  record Gives (qs : Queries) (o : Outcome (List (Option (Expression Float)))) : Type 0 where
    expressions : List (Expression Float)
    given : o ≡ ok (map some expressions)
    none_without : expressions ≡ [] → HasParts qs → ⊥

  operator-Answers :
      (o : BinaryOperator) (qs : Queries) (es : List (Expression Float))
      → HasParts qs
      → (es ≡ [] → HasParts qs → ⊥)
      → Answers (join_all o none (map some es))
  operator-Answers o qs [] h f = absurd (f refl h)
  operator-Answers o qs (e ∷ es) h f = inr (join_all-some o e es)

  join_by-Answers :
      (n : Node) (cs : Queries) (es : List (Expression Float))
      → (is_operator n.name ≡ true → HasParts cs)
      → (es ≡ [] → HasParts cs → ⊥)
      → Answers (own_expression n >>= λ own. join_by n.name (own ++ map some es))
  join_by-Answers n cs es h f = elim (Bool-cases (eqb_text n.name op_text_and)) [
    | inl t ↦
        rw (own-operator {Float = Float} (λ _. true) n op_text_and t refl, t)
          (operator-Answers op_and cs es (h (rw t refl)) f)
    | inr k ↦ elim (Bool-cases (eqb_text n.name op_text_or)) [
      | inl t ↦
          rw (own-operator {Float = Float} (λ _. true) n op_text_or t refl, k, t)
            (operator-Answers op_or cs es (h (rw (k, t) refl)) f)
      | inr m ↦ elim (leaf-Settled n) [
        | inl e ↦ inl (rw (k, m, e) refl)
        | inr (x, e) ↦ inr (x, rw (k, m, e) (ap ok (first_of-some (λ _. true) x (map some es))))
      ]
    ]
  ]

  own-Settled : (n : Node) → Settled (own_expression {Float = Float} n)
  own-Settled n = elim (Bool-cases (not (is_operator n.name) || eqb_text n.name opts)) [
    | inr f ↦ inr ([], rw f refl)
    | inl t ↦ elim (leaf-Settled n) [
      | inl e ↦ inl (rw (t, e) refl)
      | inr (x, e) ↦ inr (some x ∷ [], rw (t, e) refl)
    ]
  ]

  -- an error of the parts is one of the whole
  after_error :
      (n : Node)
      (k : List (Option (Expression Float))
        → List (Option (Expression Float))
        → Outcome (Option (Expression Float)))
      (o : Outcome (List (Option (Expression Float))))
      → o ≡ err
      → (own_expression n >>= λ own. o >>= λ es. k es own) ≡ err
  after_error n k o e = elim (own-Settled n) [ inl f ↦ rw f refl | inr (x, f) ↦ rw (f, e) refl ]

  choose :
      (test : Bool) (a b : Outcome (Option (Expression Float)))
      → Answers a
      → Answers b
      → Answers (if test then a else b)
  choose true a b h k = h
  choose false a b h k = k

  one_more-Gives :
      (q : Query) (qs : Queries) (o : Outcome (Option (Expression Float)))
      (rest : Outcome (List (Option (Expression Float))))
      → Answers o
      → (rest ≡ err) ⊎ Gives qs rest
      → ((o >>= λ e. rest >>= one_more e) ≡ err)
        ⊎ Gives (more q qs) (o >>= λ e. rest >>= one_more e)
  one_more-Gives q qs o rest (inl e) h = inl (rw e refl)
  one_more-Gives q qs o rest (inr (x, e)) (inl f) = inl (rw (e, f) refl)
  one_more-Gives q qs o rest (inr (x, e)) (inr g) = inr (record {
    expressions = x ∷ g.expressions;
    given = rw (e, g.given) refl;
    none_without = λ q p. cc;
  })

  mutual
    unfolding generate_expression IsFilled

    query-Answers : (q : Query) → IsFilled q → Answers (generate_expression q)
    query-Answers (query n cs) h = elim (children-Gives n.name cs h.1) [
      | inl e ↦
          inl (after_error n (λ es own. join_by n.name (own ++ es)) (generate_children n.name cs) e)
      | inr g ↦ rw g.given (join_by-Answers n cs g.expressions h.0 g.none_without)
    ]

    children-Gives :
        (name : Text) (qs : Queries)
        → AreFilled qs
        → (generate_children {Float = Float} name qs ≡ err)
          ⊎ Gives qs (generate_children {Float = Float} name qs)
    children-Gives name no_query h =
        inr (record { expressions = []; given = refl; none_without = λ e f. f })
    children-Gives name (more (query n cs) qs) h =
        let test = is_operator n.name || eqb_text name opts in
        one_more-Gives (query n cs) qs
          (if test then generate_expression (query n cs) else leaf_of (query n cs))
          (generate_children name qs)
          (choose test _ _ (query-Answers (query n cs) h.0) (leaf-Answers n))
          (children-Gives name qs h.1)

  -- A query of which every operator has a part gets an expression, or the error of a bad parameter:
  -- generateExpression does not panic on it, and its answer is not nil.
  pub generate_filled : (q : Query) → IsFilled q → Answers (generate_expression q)
  generate_filled q h = query-Answers q h

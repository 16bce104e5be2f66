-- ===== src/Search/Meaning.antt =====
-- What the expression of a filter means: generateExpression of search/search_repository.go.
use almighty_core.Prelude.{
  ◌≡◌, refl, ap, ◌∙◌, Bool, true, false, not, ◌&&◌, ◌||◌, Option, none, some, List, [], ◌∷◌, ◌++◌,
  map, if◌then◌else◌, Bool-cases, inl, inr, arith,
}
use almighty_core.Prelude.Texts.{Text, eqb_text}
use almighty_core.Field.Kind.{eqb_text→eq}
use almighty_core.Field.Value.{Outcome, ok, err, panic, ◌>>=◌, bind-eq-ok}
use almighty_core.Criteria.{BinaryOperator, Expression, is_null, binary, op_and, op_or}
use almighty_core.Search.{
  Node, Query, Queries, query, no_query, more, op_text_and, op_text_or, opts, is_operator, key_of,
  compared, comparison, determine_literal_type, leaf_expression, join_all, first_of, join_by,
  own_expression, leaf_of, generate_expression, generate_children,
}

abbrev pub add_condition : (Bool → Bool → Bool) → Bool → Option Bool → Option Bool
add_condition op b none = some b
add_condition op b (some c) = some (op b c)

-- Conditions that hold together, or one at least; where there is none, no condition.
abbrev pub fold_conditions : (Bool → Bool → Bool) → List (Option Bool) → Option Bool
fold_conditions op [] = none
fold_conditions op (none ∷ bs) = fold_conditions op bs
fold_conditions op (some b ∷ bs) = add_condition op b (fold_conditions op bs)

abbrev pub map_option {ℓ κ} : {A : Type ℓ} {B : Type κ} → (A → B) → Option A → Option B
map_option f none = none
map_option f (some a) = some (f a)

add_assoc :
    (op : Bool → Bool → Bool) (a b : Bool) (o : Option Bool)
    → ((x y z : Bool) → op (op x y) z ≡ op x (op y z))
    → add_condition op (op a b) o ≡ add_condition op a (add_condition op b o)
add_assoc op a b none assoc = refl
add_assoc op a b (some c) assoc = ap some (assoc a b c)

and_assoc : (a b c : Bool) → (a && b) && c ≡ a && (b && c)
and_assoc a b c = ground arith

or_assoc : (a b c : Bool) → (a || b) || c ≡ a || (b || c)
or_assoc a b c = ground arith

cons_eq {ℓ} : {A : Type ℓ} {x y : A} {xs ys : List A} → x ≡ y → xs ≡ ys → x ∷ xs ≡ y ∷ ys
cons_eq {x = x} {ys = ys} p q = ap (λ zs. x ∷ zs) q ∙ ap (λ z. z ∷ ys) p

either_case {ℓ κ} :
    {A : Type ℓ} {B : Type κ} {e : A} {m u v : B} (test : Bool) (a b : Outcome A)
    → (a ≡ ok e → m ≡ u)
    → (b ≡ ok e → m ≡ v)
    → (if test then a else b) ≡ ok e
    → m ≡ (if test then u else v)
either_case true a b f g h = f h
either_case false a b f g h = g h

module _ {Float : Type 0} (holds_of : Expression Float → Bool) where
  -- An item satisfies an expression, where `holds_of` tells the comparisons that it satisfies.
  abbrev pub holds : Expression Float → Bool
  holds (binary op_and l r) = holds l && holds r
  holds (binary op_or l r) = holds l || holds r
  holds e = holds_of e

  abbrev pub meaning_of : Outcome (Expression Float) → Option Bool
  meaning_of (ok e) = some (holds_of e)
  meaning_of err = none
  meaning_of panic = none

  unfoldable mutual
    -- What a query asks of an item: $AND that all its parts hold, $OR that one does, any other name
    -- its comparison. No condition where an operator has no part with one.
    pub meaning : Query → Option Bool
    meaning (query n cs) =
        let parts = meanings n.name cs in
        if eqb_text n.name op_text_and
        then fold_conditions (λ a b. a && b) parts
        else if eqb_text n.name op_text_or
        then fold_conditions (λ a b. a || b) parts
        else meaning_of (leaf_expression n)

    -- a part with an operator is a query of its own, any other its comparison
    pub meanings : Text → Queries → List (Option Bool)
    meanings name no_query = []
    meanings name (more (query n cs) qs) =
        let whole = meaning (query n cs) in
        (if is_operator n.name || eqb_text name opts then whole else meaning_of (leaf_expression n))
        ∷ meanings name qs

  join_all-meaning :
      (o : BinaryOperator) (op : Bool → Bool → Bool)
      → ((x y z : Bool) → op (op x y) z ≡ op x (op y z))
      → ((l r : Expression Float) → holds (binary o l r) ≡ op (holds l) (holds r))
      → (res : Option (Expression Float)) (es : List (Option (Expression Float)))
        {r : Option (Expression Float)}
      → join_all o res es ≡ ok r
      → map_option holds r ≡ fold_conditions op (map_option holds res ∷ map (map_option holds) es)
  join_all-meaning o op assoc def none [] {r} h = let q : none ≡ r = cc in rw (← q) refl
  join_all-meaning o op assoc def (some e) [] {r} h = let q : some e ≡ r = cc in rw (← q) refl
  join_all-meaning o op assoc def none (e ∷ es) h = join_all-meaning o op assoc def e es h
  join_all-meaning o op assoc def (some l) (some e ∷ es) h =
      join_all-meaning o op assoc def (some (binary o l e)) es h
      ∙ rw (def l e)
          (add_assoc op (holds l) (holds e) (fold_conditions op (map (map_option holds) es)) assoc)
  join_all-meaning o op assoc def (some l) (none ∷ es) h = cc

  pub first_of-some :
      (e : Expression Float) (es : List (Option (Expression Float))) → first_of (some e) es ≡ some e
  first_of-some e [] = refl
  first_of-some e (x ∷ es) = first_of-some e es

  -- a comparison is neither an and nor an or
  compared-holds :
      (n : Node) (key : Text) (right : Expression Float)
      → holds (compared n key right) ≡ holds_of (compared n key right)
  compared-holds n key right = elim (Bool-cases n.negate) [
    | inl t ↦ rw t refl
    | inr f ↦ elim (Bool-cases n.substring) [
      | inl t ↦ rw (f, t) refl
      | inr g ↦ elim (Bool-cases n.child) [ inl t ↦ rw (f, g, t) refl | inr k ↦ rw (f, g, k) refl ]
    ]
  ]

  comparison-holds :
      (n : Node) (key : Text) (v : Option Text) {e : Expression Float}
      → comparison n key v ≡ ok e
      → holds e ≡ holds_of e
  comparison-holds n key (some v) {e} h =
      let q : compared n key (determine_literal_type key v) ≡ e = cc in
      rw (← q) (compared-holds n key _)
  comparison-holds n key none {e} h = elim (Bool-cases n.negate) [
    | inl t ↦ let q : err ≡ ok e = rw t at h in cc
    | inr f ↦
        let q : ok (is_null key) ≡ ok e = rw f at h in let r : is_null key ≡ e = cc in rw (← r) refl
  ]

  leaf-holds : (n : Node) {e : Expression Float} → leaf_expression n ≡ ok e → holds e ≡ holds_of e
  unfolding leaf_expression
  leaf-holds n h =
      let (key, a, b) = bind-eq-ok (key_of n.name _ _) (λ key. comparison n key n.value) h in
      comparison-holds n key n.value b

  leaf-meaning :
      (n : Node) {r : Option (Expression Float)}
      → (leaf_expression n >>= λ e. ok (some e)) ≡ ok r
      → map_option holds r ≡ meaning_of (leaf_expression n)
  leaf-meaning n {r} h =
      let (e, a, b) = bind-eq-ok (leaf_expression n) (λ e. ok (some e)) h in
      let q : some e ≡ r = cc in rw (← q, a) (ap some (leaf-holds n a))

  pub own-operator :
      (n : Node) (name : Text)
      → eqb_text n.name name ≡ true
      → not (is_operator name) || eqb_text name opts ≡ false
      → own_expression {Float = Float} n ≡ ok []
  own-operator n name e h = let q = eqb_text→eq n.name name e in rw (q, h) refl

  own-leaf :
      (n : Node) {own : List (Option (Expression Float))}
      → eqb_text n.name op_text_and ≡ false
      → eqb_text n.name op_text_or ≡ false
      → own_expression n ≡ ok own
      → (e : Expression Float) × (leaf_expression n ≡ ok e) × (own ≡ some e ∷ [])
  own-leaf n {own} a o h =
      let k : (leaf_expression n >>= λ e. ok (some e ∷ [])) ≡ ok own = rw (a, o) at h in
      let (e, f, g) = bind-eq-ok (leaf_expression n) (λ e. ok (some e ∷ [])) k in (e, f, cc)

  join_by-meaning :
      (n : Node) (own es : List (Option (Expression Float))) {r : Option (Expression Float)}
      → own_expression n ≡ ok own
      → join_by n.name (own ++ es) ≡ ok r
      → map_option holds r ≡ (
          if eqb_text n.name op_text_and
          then fold_conditions (λ a b. a && b) (map (map_option holds) es)
          else if eqb_text n.name op_text_or
          then fold_conditions (λ a b. a || b) (map (map_option holds) es)
          else meaning_of (leaf_expression n))
  join_by-meaning n own es {r} o h = elim (Bool-cases (eqb_text n.name op_text_and)) [
    | inl t ↦
        let e : own ≡ [] = cc (own-operator n op_text_and t refl, o) in
        let k : join_all op_and none es ≡ ok r = rw (t, e) at h in
        rw t (join_all-meaning op_and (λ a b. a && b) and_assoc (λ l r. refl) none es k)
    | inr f ↦ elim (Bool-cases (eqb_text n.name op_text_or)) [
      | inl t ↦
          let e : own ≡ [] = cc (own-operator n op_text_or t refl, o) in
          let k : join_all op_or none es ≡ ok r = rw (f, t, e) at h in
          rw (f, t) (join_all-meaning op_or (λ a b. a || b) or_assoc (λ l r. refl) none es k)
      | inr g ↦
          let (x, a, b) = own-leaf n f g o in
          let k : ok (first_of (some x) es) ≡ ok r = rw (f, g, b) at h in
          let q : r ≡ some x = cc (first_of-some x es, k) in
          rw (f, g, q, a) (ap some (leaf-holds n a))
    ]
  ]

  mutual
    unfolding generate_expression meaning

    query-meaning :
        (q : Query) {r : Option (Expression Float)}
        → generate_expression q ≡ ok r
        → map_option holds r ≡ meaning q
    query-meaning (query n cs) h =
        let (own, a, k) = bind-eq-ok (own_expression n) _ h in
        let (es, b, j) = bind-eq-ok (generate_children n.name cs) _ k in
        rw (← children-meaning n.name cs b) (join_by-meaning n own es a j)

    children-meaning :
        (name : Text) (qs : Queries) {es : List (Option (Expression Float))}
        → generate_children name qs ≡ ok es
        → map (map_option holds) es ≡ meanings name qs
    children-meaning name no_query {es} h = let q : [] ≡ es = cc in rw (← q) refl
    children-meaning name (more (query n cs) qs) {es} h =
        let test = is_operator n.name || eqb_text name opts in
        let (e, a, k) =
          bind-eq-ok (if test then generate_expression (query n cs) else leaf_of (query n cs)) _
            h in
        let (rest, b, j) = bind-eq-ok (generate_children name qs) _ k in
        let q : e ∷ rest ≡ es = cc in
        rw (← q) (
          cons_eq (either_case test _ _ (query-meaning (query n cs)) (leaf-meaning n) a)
            (children-meaning name qs b))

  -- Where generateExpression answers without an error, its expression holds of an item exactly if
  -- the query does: $AND all its parts, $OR one of them, another name its comparison. The parts of
  -- an operator that set no condition are left out, and the answer is nil where none is left.
  pub generate-meaning :
      (q : Query) {r : Option (Expression Float)}
      → generate_expression q ≡ ok r
      → map_option holds r ≡ meaning q
  generate-meaning q h = query-meaning q h

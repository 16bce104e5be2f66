-- ===== src/Joins/Ordering/Visits.antt =====
-- What one call of visitDepthFirst of workitem/table_join.go adds to the order, on joins that require
-- one another in no circle.
use almighty_core.Prelude.{
  ℕ, zero, suc, ◌<◌, ◌≡◌, refl, ◌⊎◌, inl, inr, true, false, some, List, [], ◌∷◌, ◌++◌, All, Member,
  here, there, Member-left, Member-right, Member-append, Member-cons, Bool-cases, arith,
}
use almighty_core.Prelude.Texts.{Text, eqb_text, mem_text}
use almighty_core.Field.Kind.{eqb_text→eq}
use almighty_core.Joins.{TableJoin, TableJoinMap, find_join, keys}
use almighty_core.Joins.Activation.{Walk, walked, ◌>>=◌}
use almighty_core.Joins.Activation.Growth.{IsActive, IsClosed}
use almighty_core.Joins.Activation.Closed.{All-at, find-Member}
use almighty_core.Joins.Ordering.{
  ActivationOrderer, visit_names, add_joined, visit_found, visit_depth_first,
}
use almighty_core.Joins.Ordering.Visited.{
  IsOrdered, next, Ranks, unvisited, Covers, unvisited_mono, Covers-mark, unvisited-mark, All-both,
  mark_self, unmark, Member-single,
}

module _ (joins : TableJoinMap) (rank : Text → ℕ) (closed : IsClosed joins)
    (ranks : Ranks joins rank) where
  -- `stack` is the names whose calls are not over
  pub record IsVisiting (stack : List Text) (o : ActivationOrderer) : Type 0 where
    pub ordered : IsOrdered joins o.ordered_activated_joins
    pub over :
        (v : Text)
        → mem_text v o.already_visited ≡ true
        → IsActive joins v
        → Member v o.ordered_activated_joins ⊎ Member v stack
    pub visited :
        (v : Text) → Member v o.ordered_activated_joins → mem_text v o.already_visited ≡ true

  pub record Visits (P : ActivationOrderer → Type 0) (w : Walk ActivationOrderer)
      (stack : List Text) (o : ActivationOrderer) : Type 0 where
    pub end : ActivationOrderer
    pub walks : w ≡ walked end
    pub invariant : IsVisiting stack end
    pub covers : Covers o.already_visited end.already_visited
    pub keeps :
        (v : Text) → Member v o.ordered_activated_joins → Member v end.ordered_activated_joins
    pub adds :
        (v : Text)
        → Member v end.ordered_activated_joins
        → Member v o.ordered_activated_joins ⊎ (mem_text v o.already_visited ≡ false)
    pub reaches : P end

  abbrev pub Has : Text → ActivationOrderer → Type 0
  Has name o = IsActive joins name → Member name o.ordered_activated_joins

  abbrev pub Visiting : ℕ → (Text → ActivationOrderer → Walk ActivationOrderer) → Type 0
  Visiting n visit =
      (name : Text) (j : TableJoin) (stack : List Text) (o : ActivationOrderer)
      → find_join name joins ≡ some j
      → All (λ s. rank name < rank s) stack
      → IsVisiting stack o
      → unvisited (keys joins) o.already_visited < n
      → Visits (Has name) (visit name o) stack o

  stays :
      (P : ActivationOrderer → Type 0) (stack : List Text) (o : ActivationOrderer)
      → IsVisiting stack o
      → P o
      → Visits P (walked o) stack o
  stays P stack o i p = record {
    end = o;
    walks = refl;
    invariant = i;
    covers = λ v h. h;
    keeps = λ v m. m;
    adds = λ v m. inl m;
    reaches = p;
  }

  -- a name of the list is found, and ranks below the stack
  abbrev pub Fits : List Text → Text → Type 0
  Fits stack name =
      (j : TableJoin) × (find_join name joins ≡ some j) × All (λ s. rank name < rank s) stack

  pub names-Visits :
      (n : ℕ) (visit : Text → ActivationOrderer → Walk ActivationOrderer)
      → Visiting n visit
      → (names stack : List Text) (o : ActivationOrderer) → All (Fits stack) names
      → IsVisiting stack o
      → unvisited (keys joins) o.already_visited < n
      → Visits (λ e. All (λ k. Has k e) names) (visit_names visit names o) stack o
  names-Visits n visit vis [] stack o f i h = stays (λ e. Unit) stack o i tt
  names-Visits n visit vis (name ∷ names) stack o f i h =
      let w = vis name f.0.0 stack o f.0.1 f.0.2 i h in
      let less = unvisited_mono (keys joins) o.already_visited w.end.already_visited w.covers in
      let z = names-Visits n visit vis names stack w.end f.1 w.invariant (omega arith) in
      record {
        end = z.end;
        walks = rw w.walks z.walks;
        invariant = z.invariant;
        covers = λ v t. z.covers v (w.covers v t);
        keeps = λ v m. z.keeps v (w.keeps v m);
        adds = λ v m. elim (z.adds v m) [
          | inl m2 ↦ w.adds v m2
          | inr f2 ↦ elim (Bool-cases (mem_text v o.already_visited)) [
            | inl t ↦ absurd (cc (w.covers v t))
            | inr f3 ↦ inr f3
          ]
        ];
        reaches = (λ a. z.keeps name (w.reaches a), z.reaches);
      }

  -- the joins that an active one requires fit below it
  fits :
      (name : Text) (h : IsActive joins name) (stack : List Text)
      → All (λ s. rank name < rank s) stack
      → All (Fits (name ∷ stack)) h.join.activate_other_joins
  fits name h stack lower =
      All-both h.join.activate_other_joins (closed name h.join h.found h.active) (ranks name h)
        (λ k a r. (a.join, a.found, (r, All-both stack lower lower (λ s l m. omega arith))))

  marked-IsVisiting :
      (name : Text) (stack onto : List Text) (o : ActivationOrderer)
      → IsVisiting stack o
      → (IsActive joins name → Member name onto)
      → ((v : Text) → Member v stack → Member v onto)
      → IsVisiting onto (record o { already_visited = name ∷ o.already_visited })
  marked-IsVisiting name stack onto o i new sub = record {
    ordered = i.ordered;
    over = λ v t a. elim (Bool-cases (eqb_text name v)) [
      | inl e ↦ let q = eqb_text→eq name v e in inr (rw (← q) (new (rw q a)))
      | inr f ↦
          let t2 : mem_text v o.already_visited ≡ true = rw f at t in
          elim (i.over v t2 a) [ inl m ↦ inl m | inr m ↦ inr (sub v m) ]
    ];
    visited = λ v m. Covers-mark name o.already_visited v (i.visited v m);
  }

  all_reached :
      (names : List Text) (o : ActivationOrderer)
      → All (IsActive joins) names
      → All (λ k. Has k o) names
      → All (λ k. Member k o.ordered_activated_joins) names
  all_reached names o a r = All-both names a r (λ k h g. g h)

  -- the call on a name that is not visited, of a join that is active
  active-Visits :
      (n : ℕ) (visit : Text → ActivationOrderer → Walk ActivationOrderer)
      → Visiting n visit
      → (name : Text) (h : IsActive joins name) (stack : List Text) (o : ActivationOrderer)
      → All (λ s. rank name < rank s) stack
      → IsVisiting stack o
      → mem_text name o.already_visited ≡ false
      → unvisited (keys joins) o.already_visited < suc n
      → Visits
          (Has name)
          (visit_names visit h.join.activate_other_joins
              (record o { already_visited = name ∷ o.already_visited })
            >>= add_joined name)
          stack
          o
  active-Visits n visit vis name h stack o lower i f u =
      let marked = record o { already_visited = name ∷ o.already_visited } in
      let less = unvisited-mark o.already_visited (find-Member name joins h.found) f in
      let w =
        names-Visits n visit vis h.join.activate_other_joins (name ∷ stack) marked
          (fits name h stack lower)
          (marked-IsVisiting name stack (name ∷ stack) o i (λ a. here stack)
            (λ v m. there name stack m))
          (omega arith) in
      let covers : Covers o.already_visited w.end.already_visited =
        λ v t. w.covers v (Covers-mark name o.already_visited v t) in
      let once : Member name w.end.ordered_activated_joins → ⊥ = λ m. elim (w.adds name m) [
        | inl m2 ↦ cc (i.visited name m2)
        | inr f2 ↦ cc (mark_self name o.already_visited)
      ] in
      record {
        end = record w.end { ordered_activated_joins = w.end.ordered_activated_joins ++ name ∷ [] };
        walks = rw w.walks refl;
        invariant = record {
          ordered =
              next w.end.ordered_activated_joins name h w.invariant.ordered
                (all_reached h.join.activate_other_joins w.end (closed name h.join h.found h.active)
                  w.reaches)
                once;
          over = λ v t a. elim (w.invariant.over v t a) [
            | inl m ↦ inl (Member-left (name ∷ []) m)
            | inr m ↦ elim (Member-cons m) [
              | inl e ↦ inl (rw e (Member-right w.end.ordered_activated_joins (here [])))
              | inr m2 ↦ inr m2
            ]
          ];
          visited = λ v m. elim (Member-append w.end.ordered_activated_joins (name ∷ []) m) [
            | inl m2 ↦ w.invariant.visited v m2
            | inr m2 ↦ rw (Member-single m2) (w.covers name (mark_self name o.already_visited))
          ];
        };
        covers = covers;
        keeps = λ v m. Member-left (name ∷ []) (w.keeps v m);
        adds = λ v m. elim (Member-append w.end.ordered_activated_joins (name ∷ []) m) [
          | inl m2 ↦ elim (w.adds v m2) [
            | inl m3 ↦ inl m3
            | inr f2 ↦ inr (unmark name v o.already_visited f2)
          ]
          | inr m2 ↦ inr (rw (Member-single m2) f)
        ];
        reaches = λ a. Member-right w.end.ordered_activated_joins (here []);
      }

  retell :
      (P : ActivationOrderer → Type 0) (stack : List Text) (o : ActivationOrderer)
      {v w : Walk ActivationOrderer}
      → w ≡ v
      → Visits P v stack o
      → Visits P w stack o
  retell P stack o e h = rw e h

  visit-Visits :
      (n : ℕ) (visit : Text → ActivationOrderer → Walk ActivationOrderer)
      → Visiting n visit
      → Visiting (suc n) (λ name o. visit_found visit name (find_join name joins) o)
  visit-Visits n visit vis name j stack o e lower i u =
      elim (Bool-cases (mem_text name o.already_visited)) [
        | inl t ↦
            let w = stays (Has name) stack o i (λ a. elim (i.over name t a) [
              | inl m ↦ m
              | inr m ↦ absurd (omega (arith, All-at (λ s. rank name < rank s) lower m))
            ]) in
            retell (Has name) stack o (rw (e, t) refl) w
        | inr f ↦ elim (Bool-cases j.active) [
          | inl t ↦
              let h : IsActive joins name = record { join = j; found = e; active = t } in
              retell (Has name) stack o (rw (e, f, t) refl)
                (active-Visits n visit vis name h stack o lower i f u)
          | inr g ↦ record {
            end = record o { already_visited = name ∷ o.already_visited };
            walks = rw (e, f, g) refl;
            invariant =
                marked-IsVisiting name stack stack o i (λ a. cc (a.found, a.active)) (λ v m. m);
            covers = Covers-mark name o.already_visited;
            keeps = λ v m. m;
            adds = λ v m. inl m;
            reaches = λ a. cc (a.found, a.active);
          }
        ]
      ]

  pub fuel-Visits : (n : ℕ) → Visiting n (visit_depth_first n joins)
  fuel-Visits zero name j stack o e lower i u = absurd (omega arith)
  fuel-Visits (suc n) name j stack o e lower i u =
      visit-Visits n (visit_depth_first n joins) (fuel-Visits n) name j stack o e lower i u

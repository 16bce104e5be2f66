-- ===== src/Joins/Activation/Closed.antt =====
-- What ActivateRequiredJoins of workitem/table_join.go activates.
use mathlib.Core.Path.{subst}
use almighty_core.Prelude.{
  ℕ, zero, suc, ◌<◌, ◌≡◌, refl, ◌⊎◌, inl, inr, ◌↔◌, ◌∙◌, true, some, List, [], ◌∷◌, length, All,
  Member, here, there, Bool-cases, Option-cases, arith,
}
use almighty_core.Prelude.Texts.{Text}
use almighty_core.Field.Kind.{eqb_text→eq}
use almighty_core.Joins.{TableJoin, TableJoinMap, find_join, keys, activate}
use almighty_core.Joins.Activation.{
  Walk, walked, ◌>>=◌, activate_one, activate_names, activate_others, activate_keys,
  activate_on_fuel, activate_required_joins,
}
use almighty_core.Joins.Activation.Growth.{
  IsActive, IsFound, IsComplete, IsClosed, Required, asked, needed, Grows, Grows-refl, Grows-trans,
  Grows-find, Grows-find_back, IsActive-Grows, head_join, inactive, inactive-le, inactive-Grows,
  activate-Grows, activate-back, activate-inactive,
}

-- Every join that is active is required of the joins at the start, and only activity has changed.
record IsSound (start a : TableJoinMap) : Type 0 where
  grows : Grows start a
  only : (k : Text) → IsActive a k → Required start k

activate-IsSound :
    (start : TableJoinMap) (n : Text) (a : TableJoinMap)
    → IsSound start a
    → Required start n
    → IsSound start (activate n a)
activate-IsSound start n a s r = record {
  grows = Grows-trans start a (activate n a) s.grows (activate-Grows n a);
  only = λ k h. elim (activate-back n k a h) [ inl e ↦ rw e r | inr i ↦ s.only k i ];
}

-- two steps, each of which changes nothing or closes the joins
both :
    (P Q R : TableJoinMap → Type 0) {a : TableJoinMap} (b c : TableJoinMap)
    → (P a → Q a → R a)
    → ((b ≡ a) × P a) ⊎ IsClosed b
    → ((c ≡ b) × Q b) ⊎ IsClosed c
    → ((c ≡ a) × R a) ⊎ IsClosed c
both P Q R b c r x (inr k) = inr k
both P Q R b c r (inl (e, u)) (inl (e2, v)) = inl (e2 ∙ e, r u (subst Q e v))
both P Q R b c r (inr k) (inl (e2, v)) = inr (rw e2 k)

-- what an active join of the key requires is active
abbrev ClosedAt : TableJoinMap → Text → Type 0
ClosedAt a k =
    (j : TableJoin)
    → find_join k a ≡ some j
    → j.active ≡ true
    → All (IsActive a) j.activate_other_joins

pub All-members {ℓ κ} :
    {A : Type ℓ} {P : A → Type κ} {xs : List A} → ((x : A) → Member x xs → P x) → All P xs
All-members {xs = []} f = tt
All-members {xs = x ∷ xs} f = (f x (here xs), All-members (λ y m. f y (there x xs m)))

-- a join that is found has its key among the keys
pub find-Member :
    (k : Text) {j : TableJoin} (a : TableJoinMap) → find_join k a ≡ some j → Member k (keys a)
find-Member k [] e = cc
find-Member k (x ∷ a) e = elim (head_join k x a e) [
  | inl (t, q) ↦ rw (← eqb_text→eq x.0 k t) (here (keys a))
  | inr (f, q) ↦ there x.0 (keys a) (find-Member k a q)
]

pub All-at {ℓ κ} :
    {A : Type ℓ} (P : A → Type κ) {x : A} {xs : List A} → All P xs → Member x xs → P x
All-at P h (here xs) = h.0
All-at P h (there y xs m) = All-at P h.1 m

All-ClosedAt : (a : TableJoinMap) → All (ClosedAt a) (keys a) → IsClosed a
All-ClosedAt a h k j e t = All-at (ClosedAt a) h (find-Member k a e) j e t

module _ (start : TableJoinMap) (complete : IsComplete start) where
  -- What a walk gives from `a`: joins that satisfy `P`, or closed ones.
  record Walks (P : TableJoinMap → Type 0) (w : Walk TableJoinMap) (a : TableJoinMap) : Type 0 where
    end : TableJoinMap
    walks : w ≡ walked end
    sound : IsSound start end
    grows_on : Grows a end
    settled : ((end ≡ a) × P a) ⊎ IsClosed end

  abbrev Nowhere : TableJoinMap → Type 0
  Nowhere a = ⊥

  abbrev Settles : ℕ → (TableJoinMap → Walk TableJoinMap) → Type 0
  Settles n again =
      (a : TableJoinMap) → IsSound start a → inactive a < n → Walks Nowhere (again a) a

  module _ (n : ℕ) (again : TableJoinMap → Walk TableJoinMap) (settles : Settles n again) where
    one-Walks :
        (name : Text) (a : TableJoinMap) (j : TableJoin)
        → IsSound start a
        → Required start name
        → inactive a < suc n
        → find_join name a ≡ some j
        → Walks (λ b. IsActive b name) (activate_one again name (find_join name a) a) a
    one-Walks name a j s r h e = elim (Bool-cases j.active) [
      | inl t ↦ record {
        end = a;
        walks = rw (e, t) refl;
        sound = s;
        grows_on = Grows-refl a;
        settled = inl (refl, record { join = j; found = e; active = t });
      }
      | inr f ↦
          let w =
            settles (activate name a) (activate-IsSound start name a s r)
              (omega (arith, activate-inactive name a e f)) in
          record {
            end = w.end;
            walks = rw (e, f) w.walks;
            sound = w.sound;
            grows_on = Grows-trans a (activate name a) w.end (activate-Grows name a) w.grows_on;
            settled = elim w.settled [ inl p ↦ absurd p.1 | inr c ↦ inr c ];
          }
    ]

    -- two walks in a row
    then-Walks :
        (P Q R : TableJoinMap → Type 0) (w : Walk TableJoinMap)
        (f : TableJoinMap → Walk TableJoinMap) (a : TableJoinMap)
        → Walks P w a
        → ((b : TableJoinMap) → IsSound start b → Grows a b → Walks Q (f b) b)
        → (P a → Q a → R a)
        → Walks R (w >>= f) a
    then-Walks P Q R w f a p q r =
        let z = q p.end p.sound p.grows_on in
        record {
          end = z.end;
          walks = rw p.walks z.walks;
          sound = z.sound;
          grows_on = Grows-trans a p.end z.end p.grows_on z.grows_on;
          settled = both P Q R p.end z.end r p.settled z.settled;
        }

    names-Walks :
        (names : List Text) (a : TableJoinMap)
        → IsSound start a
        → All (Required start) names
        → All (IsFound start) names
        → inactive a < suc n
        → Walks (λ b. All (IsActive b) names) (activate_names again names a) a
    names-Walks [] a s r f h = record {
      end = a;
      walks = refl;
      sound = s;
      grows_on = Grows-refl a;
      settled = inl (refl, tt);
    }
    names-Walks (name ∷ names) a s r f h =
        let (j, e, o, u) = Grows-find name start a s.grows f.0.1 in
        then-Walks (λ b. IsActive b name) (λ b. All (IsActive b) names)
          (λ b. All (IsActive b) (name ∷ names)) _ (activate_names again names) a
          (one-Walks name a j s r.0 h e)
          (λ b s2 g. names-Walks names b s2 r.1 f.1 (omega (arith, inactive-Grows a b g)))
          (λ p q. (p, q))

    others-Walks :
        (k : Text) (a : TableJoinMap)
        → IsSound start a
        → inactive a < suc n
        → Walks (λ b. ClosedAt b k) (activate_others again (find_join k a) a) a
    others-Walks k a s h = elim (Option-cases (find_join k a)) [
      | inl e ↦ record {
        end = a;
        walks = rw e refl;
        sound = s;
        grows_on = Grows-refl a;
        settled = inl (refl, λ j e2 t. cc);
      }
      | inr (j, e) ↦ elim (Bool-cases j.active) [
        | inr f ↦ record {
          end = a;
          walks = rw (e, f) refl;
          sound = s;
          grows_on = Grows-refl a;
          settled = inl (refl, λ j2 e2 t. cc);
        }
        | inl t ↦
            let (i, e2, o) = Grows-find_back k start a s.grows e in
            let r = s.only k (record { join = j; found = e; active = t }) in
            let w =
              names-Walks j.activate_other_joins a s (rw o (All-members (λ x m. needed i r e2 m)))
                (rw o (complete k i e2)) h in
            record {
              end = w.end;
              walks = rw (e, t) w.walks;
              sound = w.sound;
              grows_on = w.grows_on;
              settled = elim w.settled [
                | inl p ↦ inl (p.0, λ j2 e2 t2. let q : j ≡ j2 = cc in rw (← q) p.1)
                | inr c ↦ inr c
              ];
            }
      ]
    ]

    keys-Walks :
        (ks : List Text) (a : TableJoinMap)
        → IsSound start a
        → inactive a < suc n
        → Walks (λ b. All (ClosedAt b) ks) (activate_keys again ks a) a
    keys-Walks [] a s h = record {
      end = a;
      walks = refl;
      sound = s;
      grows_on = Grows-refl a;
      settled = inl (refl, tt);
    }
    keys-Walks (k ∷ ks) a s h =
        then-Walks (λ b. ClosedAt b k) (λ b. All (ClosedAt b) ks) (λ b. All (ClosedAt b) (k ∷ ks)) _
          (activate_keys again ks) a (others-Walks k a s h)
          (λ b s2 g. keys-Walks ks b s2 (omega (arith, inactive-Grows a b g))) (λ p q. (p, q))

  fuel-Walks : (n : ℕ) → Settles n (activate_on_fuel n)
  fuel-Walks zero a s h = absurd (omega arith)
  fuel-Walks (suc n) a s h =
      let w = keys-Walks n (activate_on_fuel n) (fuel-Walks n) (keys a) a s h in
      record {
        end = w.end;
        walks = w.walks;
        sound = w.sound;
        grows_on = w.grows_on;
        settled = elim w.settled [ inl p ↦ inr (rw p.0 (All-ClosedAt a p.1)) | inr c ↦ inr c ];
      }

Required-IsActive :
    (start a : TableJoinMap)
    → Grows start a
    → IsClosed a
    → {k : Text} → Required start k
    → IsActive a k
Required-IsActive start a g c (asked h) = IsActive-Grows start a g h
Required-IsActive start a g c (needed j r e m) =
    let h = Required-IsActive start a g c r in
    let (j2, e2, o, u) = Grows-find _ start a g e in
    let q : h.join ≡ j2 = cc (h.found, e2) in
    All-at (IsActive a) (c _ j2 e2 (rw (← q) h.active)) (rw o m)

pub record Activated (joins : TableJoinMap) : Type 0 where
  pub end : TableJoinMap
  pub walks : activate_required_joins joins ≡ walked end
  pub grows : Grows joins end
  pub active_iff : (k : Text) → IsActive end k ↔ Required joins k
  pub closed : IsClosed end

pub activate_required : (joins : TableJoinMap) → IsComplete joins → Activated joins
unfolding activate_required_joins
activate_required joins complete =
    let s : IsSound joins joins = record { grows = Grows-refl joins; only = λ k h. asked h } in
    let w =
      fuel-Walks joins complete (suc (length joins)) joins s (omega (arith, inactive-le joins)) in
    let c : IsClosed w.end = elim w.settled [ inl p ↦ absurd p.1 | inr c ↦ c ] in
    record {
      end = w.end;
      walks = w.walks;
      grows = w.sound.grows;
      active_iff = λ k. (w.sound.only k, Required-IsActive joins w.end w.sound.grows c);
      closed = c;
    }

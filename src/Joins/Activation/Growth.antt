-- ===== src/Joins/Activation/Growth.antt =====
-- The joins that the active ones of workitem/table_join.go require, over any number of steps, and
-- how a map of joins changes when some are activated.
use almighty_core.Prelude.{
  ℕ, ◌+◌, ◌≤◌, ◌<◌, ◌≡◌, refl, sym, ap, ◌⊎◌, inl, inr, ◌∙◌, true, false, some, [], ◌∷◌, length, All,
  Member, Bool-cases, if◌then◌else◌, arith,
}
use almighty_core.Prelude.Texts.{Text, eqb_text}
use almighty_core.Field.Kind.{eqb_text→eq}
use almighty_core.Joins.{TableJoin, TableJoinMap, find_join, activate}

pub record IsActive (joins : TableJoinMap) (name : Text) : Type 0 where
  pub join : TableJoin
  pub found : find_join name joins ≡ some join
  pub active : join.active ≡ true

abbrev pub IsFound : TableJoinMap → Text → Type 0
IsFound joins name = (j : TableJoin) × (find_join name joins ≡ some j)

-- every join that another requires is in the map
abbrev pub IsComplete : TableJoinMap → Type 0
IsComplete joins =
    (k : Text) (j : TableJoin)
    → find_join k joins ≡ some j
    → All (IsFound joins) j.activate_other_joins

-- what an active join requires is active
abbrev pub IsClosed : TableJoinMap → Type 0
IsClosed joins =
    (k : Text) (j : TableJoin)
    → find_join k joins ≡ some j
    → j.active ≡ true
    → All (IsActive joins) j.activate_other_joins

-- a join that is active, or that a required one requires
pub data Required (joins : TableJoinMap) : Text → Type 0 where
  asked : {k : Text} → IsActive joins k → Required joins k
  needed :
      {k n : Text} (j : TableJoin)
      → Required joins k
      → find_join k joins ≡ some j
      → Member n j.activate_other_joins
      → Required joins n

-- the same joins, of which at least as many are active
abbrev pub Grows : TableJoinMap → TableJoinMap → Type 0
Grows [] [] = Unit
Grows (x ∷ a) (y ∷ b) =
    (y.0 ≡ x.0)
    × (y.1.activate_other_joins ≡ x.1.activate_other_joins)
    × (x.1.active ≡ true → y.1.active ≡ true)
    × Grows a b
Grows _ _ = ⊥

pub Grows-refl : (a : TableJoinMap) → Grows a a
Grows-refl [] = tt
Grows-refl (x ∷ a) = (refl, refl, λ h. h, Grows-refl a)

pub Grows-trans : (a b c : TableJoinMap) → Grows a b → Grows b c → Grows a c
Grows-trans [] [] [] g h = tt
Grows-trans [] [] (z ∷ c) g h = h
Grows-trans [] (y ∷ b) c g h = absurd g
Grows-trans (x ∷ a) [] c g h = absurd g
Grows-trans (x ∷ a) (y ∷ b) [] g h = absurd h
Grows-trans (x ∷ a) (y ∷ b) (z ∷ c) (k, o, m, g) (k2, o2, m2, h) =
    (k2 ∙ k, o2 ∙ o, λ t. m2 (m t), Grows-trans a b c g h)

-- the first join of the map, or not
pub head_join :
    (k : Text) (x : Text × TableJoin) (a : TableJoinMap) {j : TableJoin}
    → find_join k (x ∷ a) ≡ some j
    → ((eqb_text x.0 k ≡ true) × (x.1 ≡ j)) ⊎ ((eqb_text x.0 k ≡ false) × (find_join k a ≡ some j))
head_join k x a e = elim (Bool-cases (eqb_text x.0 k)) [
  | inl t ↦ let q : some x.1 ≡ some _ = rw t at e in inl (t, cc)
  | inr f ↦ let q : find_join k a ≡ some _ = rw f at e in inr (f, q)
]

-- the join of a key, before and after
abbrev pub Grown : TableJoinMap → Text → TableJoin → Type 0
Grown b k j =
    (j2 : TableJoin) × (find_join k b ≡ some j2)
    × (j2.activate_other_joins ≡ j.activate_other_joins)
    × (j.active ≡ true → j2.active ≡ true)

pub Grows-find :
    (k : Text) {j : TableJoin} (a b : TableJoinMap)
    → Grows a b
    → find_join k a ≡ some j
    → Grown b k j
Grows-find k [] b g e = cc
Grows-find k (x ∷ a) [] g e = absurd g
Grows-find k {j} (x ∷ a) (y ∷ b) (p, o, m, g) e = elim (head_join k x a e) [
  | inl (t, q) ↦
      (y.1, rw (p, t) refl, o ∙ ap (λ (i : TableJoin). i.activate_other_joins) q, λ h. m (rw q h))
  | inr (f, q) ↦ let (j2, r, s, u) = Grows-find k a b g q in (j2, rw (p, f) r, s, u)
]

pub Grows-find_back :
    (k : Text) {j2 : TableJoin} (a b : TableJoinMap)
    → Grows a b
    → find_join k b ≡ some j2
    → (j : TableJoin) × (find_join k a ≡ some j)
      × (j2.activate_other_joins ≡ j.activate_other_joins)
Grows-find_back k [] [] g e = cc
Grows-find_back k [] (y ∷ b) g e = absurd g
Grows-find_back k (x ∷ a) [] g e = absurd g
Grows-find_back k (x ∷ a) (y ∷ b) (p, o, m, g) e = elim (head_join k y b e) [
  | inl (t, q) ↦ (x.1, rw (← p, t) refl, rw (← q) o)
  | inr (f, q) ↦ let (j, r, s) = Grows-find_back k a b g q in (j, rw (← p, f) r, s)
]

pub IsActive-Grows : {k : Text} (a b : TableJoinMap) → Grows a b → IsActive a k → IsActive b k
IsActive-Grows {k} a b g h =
    let (j2, e, o, m) = Grows-find k a b g h.found in
    record { join = j2; found = e; active = m h.active }

-- how many joins are not active
abbrev pub inactive : TableJoinMap → ℕ
inactive [] = 0
inactive (x ∷ a) = (if x.1.active then 0 else 1) + inactive a

pub inactive-le : (a : TableJoinMap) → inactive a ≤ length a
inactive-le [] = omega arith
inactive-le (x ∷ a) = ground (arith, inactive-le a)

pub inactive-Grows : (a b : TableJoinMap) → Grows a b → inactive b ≤ inactive a
inactive-Grows [] [] g = omega arith
inactive-Grows [] (y ∷ b) g = absurd g
inactive-Grows (x ∷ a) [] g = absurd g
inactive-Grows (x ∷ a) (y ∷ b) (p, o, m, g) = elim (Bool-cases x.1.active) [
  | inl t ↦ rw (t, m t) (omega (arith, inactive-Grows a b g))
  | inr f ↦ ground (arith, inactive-Grows a b g)
]

pub activate-Grows : (n : Text) (a : TableJoinMap) → Grows a (activate n a)
activate-Grows n [] = tt
activate-Grows n (x ∷ a) = elim (Bool-cases (eqb_text x.0 n)) [
  | inl t ↦ rw t (refl, refl, λ h. refl, activate-Grows n a)
  | inr f ↦ rw f (refl, refl, λ h. h, activate-Grows n a)
]

-- what is active then was active before, or is the join of the name
pub activate-back :
    (n k : Text) (a : TableJoinMap) → IsActive (activate n a) k → (k ≡ n) ⊎ IsActive a k
activate-back n k [] h = cc h.found
activate-back n k (x ∷ a) h = elim (head_join k _ (activate n a) h.found) [
  | inl (t, q) ↦ elim (Bool-cases (eqb_text x.0 n)) [
    | inl u ↦ inl (sym (eqb_text→eq x.0 k t) ∙ eqb_text→eq x.0 n u)
    | inr f ↦ inr (record {
      join = x.1;
      found = rw t refl;
      active = let q2 : x.1 ≡ h.join = rw f at q in rw q2 h.active;
    })
  ]
  | inr (f, q) ↦
      elim (activate-back n k a (record { join = h.join; found = q; active = h.active })) [
        | inl e ↦ inl e
        | inr i ↦ inr (record { join = i.join; found = rw f i.found; active = i.active })
      ]
]

pub activate-inactive :
    (n : Text) {j : TableJoin} (a : TableJoinMap)
    → find_join n a ≡ some j
    → j.active ≡ false
    → inactive (activate n a) < inactive a
activate-inactive n [] e h = cc
activate-inactive n (x ∷ a) e h = elim (head_join n x a e) [
  | inl (t, q) ↦
      let i : x.1.active ≡ false = rw q h in
      rw (t, i) (ground (arith, inactive-Grows a (activate n a) (activate-Grows n a)))
  | inr (f, q) ↦ rw f (ground (arith, activate-inactive n a q h))
]

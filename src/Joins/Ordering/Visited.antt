-- ===== src/Joins/Ordering/Visited.antt =====
-- When the names of joins are in the order that GetOrderdActivatedJoins of workitem/table_join.go
-- means, and the measure of what is not visited yet.
use almighty_core.Prelude.{
  ℕ, ◌+◌, ◌≤◌, ◌<◌, ◌≡◌, refl, inl, inr, true, false, List, [], ◌∷◌, ◌++◌, length, All, Member,
  here, there, Member-cons, Bool-cases, if◌then◌else◌, arith,
}
use almighty_core.Prelude.Texts.{Text, eqb_text, mem_text}
use almighty_core.Field.Kind.{eqb_text_refl}
use almighty_core.Joins.{TableJoinMap}
use almighty_core.Joins.Activation.Growth.{IsActive}

-- Each name is that of an active join, stands once, and after the names of those that it requires.
pub data IsOrdered (joins : TableJoinMap) : List Text → Type 0 where
  start : IsOrdered joins []
  next :
      (names : List Text) (name : Text) (h : IsActive joins name)
      → IsOrdered joins names
      → All (λ n. Member n names) h.join.activate_other_joins
      → (Member name names → ⊥)
      → IsOrdered joins (names ++ name ∷ [])

-- what an active join requires has a lower rank
abbrev pub Ranks : TableJoinMap → (Text → ℕ) → Type 0
Ranks joins rank =
    (k : Text) (h : IsActive joins k) → All (λ n. rank n < rank k) h.join.activate_other_joins

-- how many of the keys are not visited
abbrev pub unvisited : List Text → List Text → ℕ
unvisited [] vs = 0
unvisited (k ∷ ks) vs = (if mem_text k vs then 0 else 1) + unvisited ks vs

abbrev pub Covers : List Text → List Text → Type 0
Covers vs ws = (v : Text) → mem_text v vs ≡ true → mem_text v ws ≡ true

pub unvisited-le : (ks vs : List Text) → unvisited ks vs ≤ length ks
unvisited-le [] vs = omega arith
unvisited-le (k ∷ ks) vs = ground (arith, unvisited-le ks vs)

pub unvisited_mono : (ks vs ws : List Text) → Covers vs ws → unvisited ks ws ≤ unvisited ks vs
unvisited_mono [] vs ws c = omega arith
unvisited_mono (k ∷ ks) vs ws c = elim (Bool-cases (mem_text k vs)) [
  | inl t ↦ rw (t, c k t) (omega (arith, unvisited_mono ks vs ws c))
  | inr f ↦ ground (arith, unvisited_mono ks vs ws c)
]

pub Covers-mark : (k : Text) (vs : List Text) → Covers vs (k ∷ vs)
Covers-mark k vs v h = elim (Bool-cases (eqb_text k v)) [
  | inl t ↦ rw t refl
  | inr f ↦ rw (f, h) refl
]

pub unvisited-mark :
    {k : Text} {ks : List Text} (vs : List Text)
    → Member k ks
    → mem_text k vs ≡ false
    → unvisited ks (k ∷ vs) < unvisited ks vs
unvisited-mark {k} vs (here ks) h =
    rw (eqb_text_refl k, h) (omega (arith, unvisited_mono ks vs (k ∷ vs) (Covers-mark k vs)))
unvisited-mark {k} vs (there y ks m) h = elim (Bool-cases (mem_text y vs)) [
  | inl t ↦ rw (Covers-mark k vs y t, t) (omega (arith, unvisited-mark vs m h))
  | inr f ↦ ground (arith, unvisited-mark vs m h)
]

pub All-both {ℓ κ μ ν} :
    {A : Type ℓ} {P : A → Type κ} {Q : A → Type μ} {R : A → Type ν} (xs : List A)
    → All P xs
    → All Q xs
    → ((x : A) → P x → Q x → R x)
    → All R xs
All-both [] p q f = tt
All-both (x ∷ xs) p q f = (f x p.0 q.0, All-both xs p.1 q.1 f)

pub mark_self : (k : Text) (vs : List Text) → mem_text k (k ∷ vs) ≡ true
mark_self k vs = rw (eqb_text_refl k) refl

pub unmark : (k v : Text) (vs : List Text) → mem_text v (k ∷ vs) ≡ false → mem_text v vs ≡ false
unmark k v vs f = elim (Bool-cases (mem_text v vs)) [
  | inl t ↦ cc (Covers-mark k vs v t)
  | inr f2 ↦ f2
]

pub Member-single {ℓ} : {A : Type ℓ} {x y : A} → Member x (y ∷ []) → x ≡ y
Member-single m = elim (Member-cons m) [ inl e ↦ e | inr n ↦ elim n [ ] ]

-- ===== src/Joins/Activation/Kept.antt =====
-- What ActivateRequiredJoins of workitem/table_join.go keeps: all that a single activation keeps.
use almighty_core.Prelude.{
  ℕ, zero, suc, ◌≡◌, refl, Option, none, some, List, [], ◌∷◌, length, Bool-cases, inl, inr,
}
use almighty_core.Prelude.Texts.{Text}
use almighty_core.Joins.{TableJoin, TableJoinMap, find_join, keys, activate}
use almighty_core.Joins.Activation.{
  Walk, walked, not_found, out_of_fuel, ◌>>=◌, activate_one, activate_names, activate_others,
  activate_keys, activate_on_fuel, activate_required_joins,
}

pub bind-walked {ℓ κ} :
    {A : Type ℓ} {B : Type κ} (m : Walk A) (f : A → Walk B) {b : B}
    → (m >>= f) ≡ walked b
    → (a : A) × (m ≡ walked a) × (f a ≡ walked b)
bind-walked (walked a) f h = (a, refl, h)
bind-walked not_found f h = cc
bind-walked out_of_fuel f h = cc

module _ {ℓ} (P : TableJoinMap → Type ℓ)
    (keep : (n : Text) (a : TableJoinMap) → P a → P (activate n a)) where
  abbrev Keeps : (TableJoinMap → Walk TableJoinMap) → Type ℓ
  Keeps f = (a b : TableJoinMap) → P a → f a ≡ walked b → P b

  one-Keeps :
      (again : TableJoinMap → Walk TableJoinMap)
      → Keeps again
      → (name : Text) (o : Option TableJoin) → Keeps (activate_one again name o)
  one-Keeps again k name none a b p h = cc
  one-Keeps again k name (some j) a b p h = elim (Bool-cases j.active) [
    | inl t ↦ let q : walked a ≡ walked b = rw t at h in let r : a ≡ b = cc in rw (← r) p
    | inr f ↦
        let q : again (activate name a) ≡ walked b = rw f at h in
        k (activate name a) b (keep name a p) q
  ]

  names-Keeps :
      (again : TableJoinMap → Walk TableJoinMap)
      → Keeps again
      → (names : List Text) → Keeps (activate_names again names)
  names-Keeps again k [] a b p h = let r : a ≡ b = cc in rw (← r) p
  names-Keeps again k (name ∷ names) a b p h =
      let (c, e, q) =
        bind-walked (activate_one again name (find_join name a) a) (activate_names again names) h in
      names-Keeps again k names c b (one-Keeps again k name (find_join name a) a c p e) q

  others-Keeps :
      (again : TableJoinMap → Walk TableJoinMap)
      → Keeps again
      → (o : Option TableJoin) → Keeps (activate_others again o)
  others-Keeps again k none a b p h = let r : a ≡ b = cc in rw (← r) p
  others-Keeps again k (some j) a b p h = elim (Bool-cases j.active) [
    | inl t ↦
        let q : activate_names again j.activate_other_joins a ≡ walked b = rw t at h in
        names-Keeps again k j.activate_other_joins a b p q
    | inr f ↦ let q : walked a ≡ walked b = rw f at h in let r : a ≡ b = cc in rw (← r) p
  ]

  keys-Keeps :
      (again : TableJoinMap → Walk TableJoinMap)
      → Keeps again
      → (ks : List Text) → Keeps (activate_keys again ks)
  keys-Keeps again k [] a b p h = let r : a ≡ b = cc in rw (← r) p
  keys-Keeps again k (x ∷ ks) a b p h =
      let (c, e, q) =
        bind-walked (activate_others again (find_join x a) a) (activate_keys again ks) h in
      keys-Keeps again k ks c b (others-Keeps again k (find_join x a) a c p e) q

  fuel-Keeps : (n : ℕ) → Keeps (activate_on_fuel n)
  fuel-Keeps zero a b p h = cc
  fuel-Keeps (suc n) a b p h = keys-Keeps (activate_on_fuel n) (fuel-Keeps n) (keys a) a b p h

  pub activate_required-Keeps : Keeps activate_required_joins
  unfolding activate_required_joins
  activate_required-Keeps a b p h = fuel-Keeps (suc (length a)) a b p h

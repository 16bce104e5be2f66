-- ===== src/Joins/Activation.antt =====
-- ActivateRequiredJoins of workitem/table_join.go. Every call of itself has activated a join before,
-- so the number of joins bounds the depth: the fuel.
pub mod Growth
pub mod Kept
pub mod Closed
use almighty_core.Prelude.{
  ℕ, zero, suc, Bool, true, false, Option, none, some, List, [], ◌∷◌, length, if◌then◌else◌,
}
use almighty_core.Prelude.Texts.{Text}
use almighty_core.Joins.{TableJoin, TableJoinMap, find_join, keys, activate}

-- the answer of a walk: a result, the error that a join is not found, or that the fuel is too little
pub data Walk {ℓ} (A : Type ℓ) : Type ℓ where
  walked : A → Walk A
  not_found : Walk A
  out_of_fuel : Walk A

infixl 5 ◌>>=◌
abbrev pub ◌>>=◌ {ℓ κ} : {A : Type ℓ} {B : Type κ} → Walk A → (A → Walk B) → Walk B
walked a >>= f = f a
not_found >>= f = not_found
out_of_fuel >>= f = out_of_fuel

-- the body of the inner loop, for the join that is found under the name
abbrev pub activate_one :
    (TableJoinMap → Walk TableJoinMap) → Text → Option TableJoin → TableJoinMap → Walk TableJoinMap
activate_one again name none joins = not_found
activate_one again name (some other) joins =
    if other.active then walked joins else again (activate name joins)

-- for _, name := range join.ActivateOtherJoins
abbrev pub activate_names :
    (TableJoinMap → Walk TableJoinMap) → List Text → TableJoinMap → Walk TableJoinMap
activate_names again [] joins = walked joins
activate_names again (name ∷ names) joins =
    activate_one again name (find_join name joins) joins >>= activate_names again names

-- the body of the outer loop, for the join of the key
abbrev pub activate_others :
    (TableJoinMap → Walk TableJoinMap) → Option TableJoin → TableJoinMap → Walk TableJoinMap
activate_others again none joins = walked joins
activate_others again (some join) joins =
    if join.active then activate_names again join.activate_other_joins joins else walked joins

-- for k, join := range *joins
abbrev pub activate_keys :
    (TableJoinMap → Walk TableJoinMap) → List Text → TableJoinMap → Walk TableJoinMap
activate_keys again [] joins = walked joins
activate_keys again (k ∷ ks) joins =
    activate_others again (find_join k joins) joins >>= activate_keys again ks

abbrev pub activate_on_fuel : ℕ → TableJoinMap → Walk TableJoinMap
activate_on_fuel zero joins = out_of_fuel
activate_on_fuel (suc n) joins = activate_keys (activate_on_fuel n) (keys joins) joins

unfoldable pub activate_required_joins : TableJoinMap → Walk TableJoinMap
activate_required_joins joins = activate_on_fuel (suc (length joins)) joins

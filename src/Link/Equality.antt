-- ===== src/Link/Equality.antt =====
-- Equal and EqualValue of workitem/link/link.go.
use almighty_core.Prelude.{◌≡◌, refl, ◌↔◌, true, Option, none, some, arith}
use almighty_core.Prelude.Int.{ℤ, eqb_ℤ, pos, negsuc}
use almighty_core.Link.{WorkItemLink, Lifecycle, eqb_time?, equal_lifecycle, equal, equal_value}

eqb_ℤ_refl : (i : ℤ) → eqb_ℤ i i ≡ true
eqb_ℤ_refl (pos n) = ground arith
eqb_ℤ_refl (negsuc n) = ground arith

eqb_time_refl : (t : Option ℤ) → eqb_time? t t ≡ true
eqb_time_refl none = refl
eqb_time_refl (some t) = eqb_ℤ_refl t

equal_lifecycle_refl : (lc : Lifecycle) → equal_lifecycle lc lc ≡ true
equal_lifecycle_refl lc =
    ground (arith, eqb_ℤ_refl lc.created_at, eqb_ℤ_refl lc.updated_at, eqb_time_refl lc.deleted_at)

-- EqualValue holds exactly if the ids, the ends and the types agree, whatever the versions and times.
pub equal_value_iff :
    (l other : WorkItemLink)
    → (equal_value l other ≡ true) ↔ (
        (l.id ≡ other.id)
        × (l.source_id ≡ other.source_id)
        × (l.target_id ≡ other.target_id)
        × (l.link_type_id ≡ other.link_type_id))
unfolding equal_value equal
equal_value_iff l other = (
  λ h. (ground arith, ground arith, ground arith, ground arith),
  λ h. ground (arith, equal_lifecycle_refl other.lifecycle),
)

-- ===== src/Link.antt =====
-- workitem/link: the links between work items, their types, and the repository that keeps the
-- topology of a link type. An id is a number, and uuid.Nil is 0; a row is a record, and a table the
-- list of its rows. gorm keeps a deleted row with its time of deletion, and its queries skip it.
pub mod Types
pub mod Ancestors
pub mod Repository
pub mod Equality
use almighty_core.Prelude.{
  ℕ, Bool, true, false, not, ◌&&◌, Option, none, some, List, [], ◌∷◌, ◌==◌, if◌then◌else◌,
}
use almighty_core.Prelude.Int.{ℤ, eqb_ℤ}

-- gormsupport.Lifecycle
pub record Lifecycle : Type 0 where
  pub created_at : ℤ
  pub updated_at : ℤ
  pub deleted_at : Option ℤ

pub record WorkItemLink : Type 0 where
  pub lifecycle : Lifecycle
  pub id : ℕ
  pub version : ℕ
  pub source_id : ℕ
  pub target_id : ℕ
  pub link_type_id : ℕ

abbrev pub eqb_time? : Option ℤ → Option ℤ → Bool
eqb_time? none none = true
eqb_time? (some t) (some u) = eqb_ℤ t u
eqb_time? _ _ = false

abbrev pub equal_lifecycle : Lifecycle → Lifecycle → Bool
equal_lifecycle lc other =
    if not (eqb_ℤ lc.created_at other.created_at)
    then false
    else if not (eqb_ℤ lc.updated_at other.updated_at)
    then false
    else if not (eqb_time? lc.deleted_at other.deleted_at)
    then false
    else true

unfoldable pub equal : WorkItemLink → WorkItemLink → Bool
equal l other =
    if not (l.id == other.id)
    then false
    else if not (l.version == other.version)
    then false
    else if not (equal_lifecycle l.lifecycle other.lifecycle)
    then false
    else if not (l.source_id == other.source_id)
    then false
    else if not (l.target_id == other.target_id)
    then false
    else if not (l.link_type_id == other.link_type_id)
    then false
    else true

unfoldable pub equal_value : WorkItemLink → WorkItemLink → Bool
equal_value l other =
    equal (record l { version = other.version; lifecycle = other.lifecycle }) other

-- whether CheckValidForCreation finds no error; the one it may find is a BadParameterError
unfoldable pub check_valid_for_creation : WorkItemLink → Bool
check_valid_for_creation l = not (l.link_type_id == 0)

unfoldable pub get_parent_id_of : List WorkItemLink → ℕ → ℕ → ℕ
get_parent_id_of [] child_id link_type_id = 0
get_parent_id_of (l ∷ list) child_id link_type_id =
    if (l.target_id == child_id) && (l.link_type_id == link_type_id)
    then l.source_id
    else get_parent_id_of list child_id link_type_id

-- deleted_at IS NULL
abbrev pub is_live : WorkItemLink → Bool
is_live l = elim l.lifecycle.deleted_at [ none ↦ true | some t ↦ false ]

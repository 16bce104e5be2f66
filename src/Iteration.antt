-- ===== src/Iteration.antt =====
-- iteration/iteration.go and iteration/state.go: the iterations of a space, their repository on the
-- table of the iterations in the order of their ids, and the changes that Create and Update of
-- controller/iteration.go make once the user is authorized. gorm skips a deleted row. An id is a
-- number, and uuid.Nil is 0. A time is the number of nanoseconds; the lists that are loaded are in
-- the order of the table, where the code sorts by the time of the update.
pub mod Update
pub mod Started
pub mod Kept
pub mod Created
pub mod Deleted
pub mod Reached
pub mod Turns
pub mod Subtree
use almighty_core.Prelude.{
  ℕ, Bool, true, false, not, ◌&&◌, ◌||◌, ◌==◌, Option, none, some, List, [], ◌∷◌, ◌++◌, any,
  if◌then◌else◌,
}
use almighty_core.Prelude.Int.{ℤ}
use almighty_core.Prelude.Texts.{Text, codes, eqb_text}
use almighty_core.Errors.{
  bad_parameter_class, not_found_class, internal_class, forbidden_class, data_conflict_class,
  foreign_class,
}
use almighty_core.Answer.{Answer, done, failed, panicked, ◌>>=◌}
use almighty_core.Path.{this, parent_path}

abbrev pub state_new : Text
state_new = codes "new"

abbrev pub state_start : Text
state_start = codes "start"

abbrev pub state_close : Text
state_close = codes "close"

pub record Iteration : Type 0 where
  pub id : ℕ
  pub number : ℕ
  pub space_id : ℕ
  pub path : List ℕ
  pub start_at : Option ℤ
  pub end_at : Option ℤ
  pub name : Text
  pub description : Option Text
  pub state : Text
  pub user_active : Bool
  pub deleted : Bool

abbrev pub is_set : Text → Bool
is_set s = not (eqb_text s [])

-- uuid.NewV4 makes up the id where there is none
abbrev pub id_or : ℕ → ℕ → ℕ
id_or fresh id = if id == 0 then fresh else id

unfoldable pub make_child_of : ℕ → Iteration → Iteration → Iteration
make_child_of fresh m parent = record m {
  id = id_or fresh m.id;
  path = parent.path ++ id_or fresh m.id ∷ [];
}

-- equality of paths
abbrev pub eqb_path : List ℕ → List ℕ → Bool
eqb_path [] [] = true
eqb_path (a ∷ p) (b ∷ q) = a == b && eqb_path p q
eqb_path _ _ = false

unfoldable pub is_root : Iteration → ℕ → Bool
is_root m space_id = (m.space_id == space_id) && eqb_path m.path (m.id ∷ [])

abbrev pub nlevel_one : List ℕ → Bool
nlevel_one (x ∷ []) = true
nlevel_one _ = false

-- the first row of a space whose path has one id
abbrev pub find_root : List Iteration → ℕ → Option Iteration
find_root [] space_id = none
find_root (r ∷ rs) space_id =
    if (r.space_id == space_id) && (nlevel_one r.path && not r.deleted)
    then some r
    else find_root rs space_id

abbrev pub find_iteration : List Iteration → ℕ → Option Iteration
find_iteration [] id = none
find_iteration (r ∷ rs) id = if (r.id == id) && not r.deleted then some r else find_iteration rs id

abbrev pub of_found : Option Iteration → Answer Iteration
of_found none = failed not_found_class
of_found (some r) = done r

unfoldable pub root : List Iteration → ℕ → Answer Iteration
root rows space_id = of_found (find_root rows space_id)

unfoldable pub load : List Iteration → ℕ → Answer Iteration
load rows id = of_found (find_iteration rows id)

-- the index iterations_name_space_id_path_unique: names differ under one parent of a space
abbrev pub violates_unique : List Iteration → Iteration → Bool
violates_unique rows u =
    any
      (λ r.
        not (r.id == u.id)
        && (not r.deleted
            && ((r.space_id == u.space_id)
                && (eqb_text r.name u.name && eqb_path (parent_path r.path) (parent_path u.path)))))
      rows

abbrev pub insert_iteration : Iteration → List Iteration → List Iteration
insert_iteration u rows = rows ++ u ∷ []

-- Create's INSERT, where the primary key is unique
abbrev pub insert_new : List Iteration → Iteration → Answer (List Iteration)
insert_new rows u =
    if any (λ r. r.id == u.id) rows
    then failed foreign_class
    else if violates_unique rows u
    then failed data_conflict_class
    else done (insert_iteration u rows)

-- the number that BeforeCreate has taken, and StateNew where none is set
abbrev pub numbered : ℕ → Iteration → Iteration
numbered number u = record u {
  number = number;
  state = if is_set u.state then u.state else state_new;
}

abbrev pub is_empty_path : List ℕ → Bool
is_empty_path [] = true
is_empty_path (x ∷ p) = false

-- Create, of the id that uuid.NewV4 makes up and the next number
unfoldable pub create : List Iteration → ℕ → ℕ → Iteration → Answer (List Iteration)
create rows fresh number u =
    if u.id == 0
    then insert_new rows (numbered number (record u { id = fresh; path = fresh ∷ [] }))
    else if is_empty_path u.path
    then insert_new rows (numbered number (record u { path = u.id ∷ [] }))
    else if not (this u.path == u.id)
    then failed foreign_class
    else insert_new rows (numbered number u)

abbrev pub replace_iteration : Iteration → List Iteration → List Iteration
replace_iteration i [] = []
replace_iteration i (r ∷ rs) = (if r.id == i.id then i else r) ∷ replace_iteration i rs

abbrev pub save_over : List Iteration → Iteration → Option Iteration → Answer (List Iteration)
save_over rows i none = failed not_found_class
save_over rows i (some r) =
    if violates_unique rows i then failed internal_class else done (replace_iteration i rows)

-- Save
unfoldable pub save : List Iteration → Iteration → Answer (List Iteration)
save rows i = save_over rows i (find_iteration rows i.id)

abbrev pub is_started : ℕ → Iteration → Bool
is_started space_id r = (r.space_id == space_id) && (eqb_text r.state state_start && not r.deleted)

-- CanStart
unfoldable pub can_start : List Iteration → Iteration → Answer Bool
can_start rows i = root rows i.space_id >>= λ r.
    if i.id == r.id
    then failed bad_parameter_class
    else if any (is_started i.space_id) rows
    then failed bad_parameter_class
    else done true

-- path ~ 'p.*{1,}'
abbrev pub is_below : List ℕ → List ℕ → Bool
is_below [] [] = false
is_below [] (b ∷ q) = true
is_below (a ∷ p) [] = false
is_below (a ∷ p) (b ∷ q) = a == b && is_below p q

abbrev pub select_below : List ℕ → List Iteration → List Iteration
select_below p [] = []
select_below p (r ∷ rs) =
    let rest = select_below p rs in if is_below p r.path && not r.deleted then r ∷ rest else rest

unfoldable pub load_children : List Iteration → ℕ → Answer (List Iteration)
load_children rows id = load rows id >>= λ parent. done (select_below parent.path rows)

abbrev pub mark_deleted : ℕ → List Iteration → List Iteration
mark_deleted id [] = []
mark_deleted id (r ∷ rs) =
    (if (r.id == id) && not r.deleted then record r { deleted = true } else r) ∷ mark_deleted id rs

-- Delete
unfoldable pub delete : List Iteration → ℕ → Answer (List Iteration)
delete rows id =
    if id == 0
    then failed not_found_class
    else if any (λ r. (r.id == id) && not r.deleted) rows
    then done (mark_deleted id rows)
    else failed not_found_class

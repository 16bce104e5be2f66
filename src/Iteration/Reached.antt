-- ===== src/Iteration/Reached.antt =====
-- The tables of iterations that the program can reach: the root of a space is created with it in
-- controller/space.go, children and changes come from controller/iteration.go.
use almighty_core.Prelude.{ℕ, ◌≡◌, ◌≢◌, refl, false, none, List, []}
use almighty_core.Prelude.Texts.{Text}
use almighty_core.Answer.{done}
use almighty_core.Iteration.{Iteration, create, delete}
use almighty_core.Iteration.Started.{OneStarted}
use almighty_core.Iteration.Kept.{update-OneStarted}
use almighty_core.Iteration.Update.{NewIteration, Edit, create_child, update}
use almighty_core.Iteration.Created.{create-OneStarted, create_child-OneStarted}
use almighty_core.Iteration.Deleted.{delete-OneStarted}

-- what controller/space.go creates the root of a space from
abbrev pub root_of : ℕ → Text → Iteration
root_of space_id name = record {
  id = 0;
  number = 0;
  space_id = space_id;
  path = [];
  start_at = none;
  end_at = none;
  name = name;
  description = none;
  state = [];
  user_active = false;
  deleted = false;
}

-- one request that changes the table, with the ids that uuid.NewV4 makes up
pub data Step : List Iteration → List Iteration → Type 0 where
  root_created :
      (rows rows' : List Iteration) (fresh number space_id : ℕ) (name : Text)
      → fresh ≢ 0
      → create rows fresh number (root_of space_id name) ≡ done rows'
      → Step rows rows'
  child_created :
      (rows rows' : List Iteration) (fresh number parent_id : ℕ) (n : NewIteration)
      → fresh ≢ 0
      → create_child rows fresh number parent_id n ≡ done rows'
      → Step rows rows'
  updated :
      (rows rows' : List Iteration) (fresh id : ℕ) (e : Edit)
      → update rows fresh id e ≡ done rows'
      → Step rows rows'
  deleted : (rows rows' : List Iteration) (id : ℕ) → delete rows id ≡ done rows' → Step rows rows'

pub data Reached : List Iteration → Type 0 where
  no_rows : Reached []
  step : (rows rows' : List Iteration) → Reached rows → Step rows rows' → Reached rows'

Step-OneStarted :
    {rows rows' : List Iteration} → Step rows rows' → OneStarted rows → OneStarted rows'
Step-OneStarted (root_created rows rows' fresh number space_id name f h) o =
    create-OneStarted rows rows' fresh number _ o f refl h
Step-OneStarted (child_created rows rows' fresh number parent_id n f h) o =
    create_child-OneStarted rows rows' fresh number parent_id n o f h
Step-OneStarted (updated rows rows' fresh id e h) o = update-OneStarted rows rows' fresh id e o h
Step-OneStarted (deleted rows rows' id h) o = delete-OneStarted rows rows' id o h

-- In every table that is reached from an empty one by the creation of roots and of children, by
-- updates and by deletions, at most one iteration of a space is started, an id is that of one row,
-- and no id is nil.
pub Reached-OneStarted : {rows : List Iteration} → Reached rows → OneStarted rows
Reached-OneStarted no_rows = record {
  one_row = λ a. elim a [ ];
  one_started = λ space_id a. elim a [ ];
  no_nil = λ a. elim a [ ];
}
Reached-OneStarted (step rows rows' r s) = Step-OneStarted s (Reached-OneStarted r)

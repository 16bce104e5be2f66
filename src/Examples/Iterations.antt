-- ===== src/Examples/Iterations.antt =====
-- The iterations of a space at concrete inputs: a root and a child, which is started and closed.
use almighty_core.Prelude.{
  ℕ, ◌≢◌, inl, inr, ap, List, Member, here, Member-cons, ◌≡◌, refl, true, none, some, [], ◌∷◌,
}
use almighty_core.Prelude.Texts.{Text, codes}
use almighty_core.Answer.{done}
use almighty_core.Iteration.{
  Iteration, state_new, state_start, state_close, make_child_of, root, load, create, save,
  can_start,
}
use almighty_core.Path.{this}
use almighty_core.Iteration.Update.{NewIteration, Edit, create_child, update}
use almighty_core.Iteration.Started.{OneStarted}
use almighty_core.Iteration.Kept.{update-OneStarted}
use almighty_core.Iteration.Reached.{
  root_of, root_created, child_created, Reached, no_rows, step, Reached-OneStarted,
}
use almighty_core.Iteration.Subtree.{Placed, save_subtree_flat}
use almighty_core.Iteration.Turns.{closed-can_start}

abbrev top : Iteration
top = record (root_of 5 (codes "space")) { id = 1; number = 1; path = 1 ∷ []; state = state_new }

abbrev sprint : Text → Iteration
sprint state = record (root_of 5 (codes "sprint")) {
  id = 2;
  number = 2;
  path = 1 ∷ 2 ∷ [];
  state = state;
}

abbrev request : NewIteration
request = record {
  id = some 2;
  name = some (codes "sprint");
  description = none;
  start_at = none;
  end_at = none;
  user_active = none;
}

abbrev to_state : Text → Edit
to_state s = record {
  name = none;
  description = none;
  start_at = none;
  end_at = none;
  state = some s;
  user_active = none;
  parent = none;
}

reached : Reached (top ∷ sprint state_new ∷ [])
unfolding create create_child load make_child_of this
reached =
    step (top ∷ []) (top ∷ sprint state_new ∷ [])
      (step [] (top ∷ []) no_rows (root_created [] (top ∷ []) 1 1 5 (codes "space") (λ e. cc) refl))
      (child_created (top ∷ []) (top ∷ sprint state_new ∷ []) 9 2 1 request (λ e. cc) refl)

Reached-OneStarted_example : OneStarted (top ∷ sprint state_new ∷ [])
Reached-OneStarted_example = Reached-OneStarted reached

closed-can_start_example :
    can_start (top ∷ sprint state_close ∷ []) (record (sprint state_new) { id = 3 }) ≡ done true
unfolding update load can_start root save
closed-can_start_example =
    closed-can_start (top ∷ sprint state_start ∷ []) (top ∷ sprint state_close ∷ []) 9 2
      (to_state state_close) (sprint state_start) (record (sprint state_new) { id = 3 }) top
      (update-OneStarted (top ∷ sprint state_new ∷ []) (top ∷ sprint state_start ∷ []) 9 2
        (to_state state_start) (Reached-OneStarted reached) refl)
      refl refl refl refl refl refl refl (λ e. cc)

abbrev below_sprint : List ℕ → Iteration
below_sprint path = record (sprint state_new) { id = 3; name = codes "week"; path = path }

abbrev moved_sprint : Iteration
moved_sprint = record (sprint state_new) { path = 1 ∷ 7 ∷ 2 ∷ [] }

-- a grandchild of the moved iteration
save_subtree_flat_example : Placed (below_sprint (1 ∷ 7 ∷ 2 ∷ 3 ∷ []) ∷ []) moved_sprint 3
unfolding save make_child_of
save_subtree_flat_example =
    save_subtree_flat (below_sprint (1 ∷ 2 ∷ 4 ∷ 3 ∷ []) ∷ [])
      (below_sprint (1 ∷ 2 ∷ 4 ∷ 3 ∷ []) ∷ []) (below_sprint (1 ∷ 7 ∷ 2 ∷ 3 ∷ []) ∷ []) 9
      moved_sprint nonzero (here []) refl
  where
    nonzero : (y : Iteration) → Member y (below_sprint (1 ∷ 2 ∷ 4 ∷ 3 ∷ []) ∷ []) → y.id ≢ 0
    nonzero y m = elim (Member-cons m) [
      | inl e ↦ λ z. let i : y.id ≡ 3 = ap (λ w. w.id) e in cc
      | inr k ↦ elim k [ ]
    ]

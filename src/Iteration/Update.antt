-- ===== src/Iteration/Update.antt =====
-- What Create and Update of controller/iteration.go do with the table of the iterations once the user
-- is authorized. The request is decoded by generated code.
use almighty_core.Prelude.{
  ℕ, Bool, true, false, not, ◌==◌, Option, none, some, List, [], ◌∷◌, any, if◌then◌else◌,
}
use almighty_core.Prelude.Int.{ℤ}
use almighty_core.Prelude.Texts.{Text, eqb_text}
use almighty_core.Errors.{bad_parameter_class, forbidden_class}
use almighty_core.Answer.{Answer, done, failed, ◌>>=◌}
use almighty_core.Iteration.{
  Iteration, state_start, make_child_of, is_root, load, create, save, can_start, load_children,
}

-- the attributes of the request, where those that are not given are none
pub record NewIteration : Type 0 where
  pub id : Option ℕ
  pub name : Option Text
  pub description : Option Text
  pub start_at : Option ℤ
  pub end_at : Option ℤ
  pub user_active : Option Bool

-- the id of a parent that is given: nil, no id, or an id
pub data ParentRef : Type 0 where
  no_id malformed_id : ParentRef
  parent_of_id : ℕ → ParentRef

-- a time that is the zero time is given as none
pub record Edit : Type 0 where
  pub name : Option Text
  pub description : Option Text
  pub start_at : Option (Option ℤ)
  pub end_at : Option (Option ℤ)
  pub state : Option Text
  pub user_active : Option Bool
  pub parent : Option ParentRef

abbrev pub given_or {ℓ} : {A : Type ℓ} → A → Option A → A
given_or a none = a
given_or a (some b) = b

abbrev pub create_named :
    List Iteration → ℕ → ℕ → Iteration → NewIteration → Option Text → Answer (List Iteration)
create_named rows fresh number parent n none = failed bad_parameter_class
create_named rows fresh number parent n (some name) = create rows fresh number (
    make_child_of fresh
      (record {
        id = given_or fresh n.id;
        number = 0;
        space_id = parent.space_id;
        path = [];
        start_at = n.start_at;
        end_at = n.end_at;
        name = name;
        description = n.description;
        state = [];
        user_active = given_or false n.user_active;
        deleted = false;
      })
      parent)

-- CreateChild
unfoldable pub create_child : List Iteration → ℕ → ℕ → ℕ → NewIteration → Answer (List Iteration)
create_child rows fresh number parent_id n =
    load rows parent_id >>= λ parent. create_named rows fresh number parent n n.name

abbrev pub edited : Edit → Iteration → Iteration
edited e itr = record itr {
  name = given_or itr.name e.name;
  start_at = given_or itr.start_at e.start_at;
  end_at = given_or itr.end_at e.end_at;
  description = elim e.description [ none ↦ itr.description | some d ↦ some d ];
}

abbrev pub with_state : List Iteration → Iteration → Option Text → Answer Iteration
with_state rows itr none = done itr
with_state rows itr (some s) =
    (if eqb_text s state_start then can_start rows itr else done true) >>= λ u.
    done (record itr { state = s })

-- the new parent is none of the old subtree
abbrev pub move_outside :
    ℕ → Iteration → Iteration → List Iteration → Answer (Iteration × List Iteration)
move_outside fresh itr parent subtree =
    if any (λ c. parent.id == c.id) subtree
    then failed forbidden_class
    else done (make_child_of fresh itr parent, subtree)

abbrev pub move_to :
    List Iteration → ℕ → Iteration → ParentRef → Answer (Iteration × List Iteration)
move_to rows fresh itr no_id = failed bad_parameter_class
move_to rows fresh itr malformed_id = failed bad_parameter_class
move_to rows fresh itr (parent_of_id pid) =
    if pid == itr.id
    then failed forbidden_class
    else (load rows pid >>= λ parent.
        if not (parent.space_id == itr.space_id)
        then failed forbidden_class
        else (load_children rows itr.id >>= move_outside fresh itr parent))

-- the iteration below its new parent, and the subtree that it had
abbrev pub moved :
    List Iteration → ℕ → Iteration → Option ParentRef → Answer (Iteration × List Iteration)
moved rows fresh itr none = done (itr, [])
moved rows fresh itr (some p) =
    if is_root itr itr.space_id then failed forbidden_class else move_to rows fresh itr p

-- every iteration of the subtree becomes a child of the iteration itself
abbrev pub save_subtree : List Iteration → ℕ → Iteration → List Iteration → Answer (List Iteration)
save_subtree rows fresh itr [] = done rows
save_subtree rows fresh itr (x ∷ xs) =
    save rows (make_child_of fresh x itr) >>= λ saved. save_subtree saved fresh itr xs

abbrev pub save_moved : List Iteration → ℕ → Iteration × List Iteration → Answer (List Iteration)
save_moved rows fresh m = save rows m.0 >>= λ saved. save_subtree saved fresh m.0 m.1

abbrev pub activated : Edit → Iteration → Iteration
activated e itr = record itr { user_active = given_or itr.user_active e.user_active }

-- Update
unfoldable pub update : List Iteration → ℕ → ℕ → Edit → Answer (List Iteration)
update rows fresh id e = load rows id >>= λ itr. with_state rows (edited e itr) e.state >>= λ s.
    moved rows fresh (activated e s) e.parent >>= save_moved rows fresh

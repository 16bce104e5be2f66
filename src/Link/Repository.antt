-- ===== src/Link/Repository.antt =====
-- GormWorkItemLinkRepository of workitem/link/link_repository.go on the tables that it reads and
-- writes. A query fails only as it is written out below; a failure of the database itself, which
-- rolls the transaction back, and the lock, which admits one writer of a space at a time, are left
-- out. An error is the class of its cause.
pub mod Cycles
pub mod Topology
pub mod Kept
pub mod Gone
use almighty_core.Prelude.{
  ℕ, Bool, true, false, not, ◌&&◌, ◌||◌, Option, none, some, List, [], ◌∷◌, ◌==◌, select,
  if◌then◌else◌,
}
use almighty_core.Prelude.Int.{ℤ, pos, negsuc}
use almighty_core.Errors.{
  Class, bad_parameter_class, data_conflict_class, not_found_class, foreign_class,
}
pub use almighty_core.Answer.{Answer, done, failed, panicked}
use almighty_core.Link.{WorkItemLink, Lifecycle, is_live, check_valid_for_creation}
use almighty_core.Link.Types as Types
use almighty_core.Link.Types.{WorkItemLinkType, dependency, tree}
use almighty_core.Link.Ancestors.{Ancestor, get_ancestors}

-- a row of work_items: its id, its space, and whether it is deleted
pub record Item : Type 0 where
  pub item_id : ℕ
  pub space_id : ℕ
  pub deleted : Bool

pub data RevisionType : Type 0 where
  revision_type_create revision_type_delete : RevisionType

pub record Revision : Type 0 where
  pub modifier : ℕ
  pub time : ℤ
  pub type : RevisionType
  pub link : WorkItemLink

-- the tables, each with its newest row first
pub record Store : Type 0 where
  pub items : List Item
  pub link_types : List WorkItemLinkType
  pub links : List WorkItemLink
  pub revisions : List Revision

abbrev pub items_in : List Item → ℕ → ℕ → List Item
items_in items a b =
    select (λ (i : Item). ((i.item_id == a) || (i.item_id == b)) && not i.deleted) (λ i. i) items

-- LoadByID and Load, the first row with the id
abbrev pub find_item : List Item → ℕ → Option Item
find_item [] id = none
find_item (i ∷ is) id = if (i.item_id == id) && not i.deleted then some i else find_item is id

abbrev no_time : Option ℤ → Bool
no_time none = true
no_time (some t) = false

abbrev pub find_type : List WorkItemLinkType → ℕ → Option WorkItemLinkType
find_type [] id = none
find_type (t ∷ ts) id =
    if (t.id == id) && no_time t.lifecycle.deleted_at then some t else find_type ts id

-- SELECT EXISTS
abbrev pub exists_link : (WorkItemLink → Bool) → List WorkItemLink → Bool
exists_link p [] = false
exists_link p (l ∷ ls) = p l || exists_link p ls

unfoldable pub has_parent : List WorkItemLink → ℕ → ℕ → Bool
has_parent links child_id link_type_id =
    exists_link (λ l. (l.link_type_id == link_type_id) && ((l.target_id == child_id) && is_live l))
      links

abbrev pub some_ancestor : List Ancestor → ℕ → Bool
some_ancestor [] target_id = false
some_ancestor (a ∷ l) target_id = (a.id == target_id) || some_ancestor l target_id

unfoldable pub detect_cycle : List WorkItemLink → ℕ → ℕ → ℕ → Bool
detect_cycle links source_id target_id link_type_id =
    some_ancestor (get_ancestors links link_type_id (negsuc 0) (source_id ∷ [])) target_id

abbrev pub is_tree : Types.Topology → Bool
is_tree tree = true
is_tree _ = false

abbrev pub is_tree_or_dependency : Types.Topology → Bool
is_tree_or_dependency tree = true
is_tree_or_dependency dependency = true
is_tree_or_dependency _ = false

-- the class of the error, if there is one
unfoldable pub validate_topology : List WorkItemLink → ℕ → ℕ → WorkItemLinkType → Option Class
validate_topology links source_id target_id link_type =
    if is_tree link_type.topology && has_parent links target_id link_type.id
    then some bad_parameter_class
    else if is_tree_or_dependency link_type.topology
        && detect_cycle links source_id target_id link_type.id
    then some data_conflict_class
    else none

abbrev same_space : ℕ → List Item → Bool
same_space s [] = true
same_space s (i ∷ is) = (i.space_id == s) && same_space s is

-- the items that LoadBatchByID found: items[0] panics if there is none
abbrev check_spaces : List Item → Answer (Unit {0})
check_spaces [] = panicked
check_spaces (i ∷ is) = if same_space i.space_id (i ∷ is) then done tt else failed foreign_class

abbrev pub new_link : ℤ → ℕ → ℕ → ℕ → ℕ → WorkItemLink
new_link now id source_id target_id link_type_id = record {
  lifecycle = record { created_at = now; updated_at = now; deleted_at = none };
  id = id;
  version = 0;
  source_id = source_id;
  target_id = target_id;
  link_type_id = link_type_id;
}

-- what a foreign key asks for: a row, deleted or not
abbrev is_item : List Item → ℕ → Bool
is_item [] id = false
is_item (i ∷ is) id = (i.item_id == id) || is_item is id

-- work_item_links_unique_idx
abbrev same_link : WorkItemLink → WorkItemLink → Bool
same_link k l =
    (l.source_id == k.source_id)
    && ((l.target_id == k.target_id) && ((l.link_type_id == k.link_type_id) && is_live l))

-- r.db.Create(link), and the revision
unfoldable pub insert_link : ℤ → Store → WorkItemLink → ℕ → Answer (Store × WorkItemLink)
insert_link now s link creator_id =
    if exists_link (same_link link) s.links
    then failed data_conflict_class
    else if not (is_item s.items link.source_id)
    then failed not_found_class
    else if not (is_item s.items link.target_id)
    then failed not_found_class
    else done (
      record s {
        links = link ∷ s.links;
        revisions =
            record { modifier = creator_id; time = now; type = revision_type_create; link = link }
            ∷ s.revisions;
      },
      link,
    )

abbrev pub validated :
    ℤ → Store → WorkItemLink → ℕ → Option WorkItemLinkType → Answer (Store × WorkItemLink)
validated now s link creator_id none = failed not_found_class
validated now s link creator_id (some t) =
    elim (validate_topology s.links link.source_id link.target_id t) [
      | some c ↦ failed c
      | none ↦ insert_link now s link creator_id
    ]

abbrev pub after_spaces :
    ℤ → Store → WorkItemLink → ℕ → Answer (Unit {0}) → Answer (Store × WorkItemLink)
after_spaces now s link creator_id (done u) =
    validated now s link creator_id (find_type s.link_types link.link_type_id)
after_spaces now s link creator_id (failed c) = failed c
after_spaces now s link creator_id panicked = panicked

-- Create, at the time `now`; `id` is the id that the database makes up for the new row
unfoldable pub create : ℤ → ℕ → Store → ℕ → ℕ → ℕ → ℕ → Answer (Store × WorkItemLink)
create now id s source_id target_id link_type_id creator_id =
    let link = new_link now id source_id target_id link_type_id in
    if not (check_valid_for_creation link)
    then failed bad_parameter_class
    else after_spaces now s link creator_id (check_spaces (items_in s.items source_id target_id))

-- gorm's Delete by the primary key: the time of deletion is set on a row that is not deleted yet
abbrev pub mark_deleted : ℤ → ℕ → WorkItemLink → WorkItemLink
mark_deleted now id l =
    if (l.id == id) && is_live l
    then record l { lifecycle = record l.lifecycle { deleted_at = some now } }
    else l

abbrev pub mark_all : ℤ → ℕ → List WorkItemLink → List WorkItemLink
mark_all now id [] = []
mark_all now id (l ∷ ls) = mark_deleted now id l ∷ mark_all now id ls

-- deleteLink, whose own result the callers drop
unfoldable pub delete_link : ℤ → Store → WorkItemLink → ℕ → Store
delete_link now s lnk suppressor_id =
    if exists_link (λ l. (l.id == lnk.id) && is_live l) s.links
    then record s {
      links = mark_all now lnk.id s.links;
      revisions =
          record { modifier = suppressor_id; time = now; type = revision_type_delete; link = lnk }
          ∷ s.revisions;
    }
    else s

abbrev pub find_link : List WorkItemLink → ℕ → Option WorkItemLink
find_link [] id = none
find_link (l ∷ ls) id = if (l.id == id) && is_live l then some l else find_link ls id

-- once the source is looked for, whose space is locked
abbrev pub delete_sourced : ℤ → Store → WorkItemLink → ℕ → Option Item → Answer Store
delete_sourced now s lnk suppressor_id none = failed not_found_class
delete_sourced now s lnk suppressor_id (some src) = done (delete_link now s lnk suppressor_id)

abbrev pub delete_found : ℤ → Store → ℕ → Option WorkItemLink → Answer Store
delete_found now s suppressor_id none = failed not_found_class
delete_found now s suppressor_id (some lnk) =
    delete_sourced now s lnk suppressor_id (find_item s.items lnk.source_id)

unfoldable pub delete : ℤ → Store → ℕ → ℕ → Answer Store
delete now s link_id suppressor_id = delete_found now s suppressor_id (find_link s.links link_id)

abbrev pub is_related : ℕ → WorkItemLink → Bool
is_related wi_id l = ((l.source_id == wi_id) || (l.target_id == wi_id)) && is_live l

abbrev pub delete_links : ℤ → Store → List WorkItemLink → ℕ → Store
delete_links now s [] suppressor_id = s
delete_links now s (l ∷ ls) suppressor_id =
    delete_links now (delete_link now s l suppressor_id) ls suppressor_id

abbrev pub delete_all_sourced : ℤ → Store → List WorkItemLink → ℕ → Option Item → Answer Store
delete_all_sourced now s ls suppressor_id none = failed not_found_class
delete_all_sourced now s ls suppressor_id (some src) = done (delete_links now s ls suppressor_id)

-- only the first link's source is loaded, for the lock
abbrev pub delete_locked : ℤ → Store → List WorkItemLink → ℕ → Answer Store
delete_locked now s [] suppressor_id = done s
delete_locked now s (l ∷ ls) suppressor_id =
    delete_all_sourced now s (l ∷ ls) suppressor_id (find_item s.items l.source_id)

unfoldable pub delete_related_links : ℤ → Store → ℕ → ℕ → Answer Store
delete_related_links now s wi_id suppressor_id =
    delete_locked now s (select (is_related wi_id) (λ l. l) s.links) suppressor_id

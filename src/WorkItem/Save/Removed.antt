-- ===== src/WorkItem/Save/Removed.antt =====
-- A work item after Delete of workitem/workitem_repository.go.
use almighty_core.Prelude.{ℕ, Bool, not, ◌&&◌, ◌==◌}
use almighty_core.WorkItem.{WorkItemStorage}

module _ {Float : Type 0} where
  abbrev is_it : ℕ → WorkItemStorage Float → Bool
  is_it id r = (r.id == id) && not r.deleted

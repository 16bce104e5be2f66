-- ===== src/Path/Parents.antt =====
-- This, ParentID and ParentPath of path/path.go.
use almighty_core.Prelude.{ℕ, ◌≡◌, ◌≢◌, refl, ap, List, [], ◌∷◌, ◌++◌}
use almighty_core.Path.{this, parent_id, parent_path}

-- A path that is not empty is its parent path with its last id, and the parent's id is the last one
-- of the parent path.
pub parent_path-this :
    (p : List ℕ)
    → p ≢ []
    → (parent_path p ++ this p ∷ [] ≡ p) × (parent_id p ≡ this (parent_path p))
unfolding this parent_id parent_path
parent_path-this [] h = absurd (h refl)
parent_path-this (x ∷ []) h = (refl, refl)
parent_path-this (x ∷ y ∷ []) h = (refl, refl)
parent_path-this (x ∷ y ∷ z ∷ p) h =
    let (a, b) = parent_path-this (y ∷ z ∷ p) (λ e. cc) in (ap (λ r. x ∷ r) a, b)

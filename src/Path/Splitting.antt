-- ===== src/Path/Splitting.antt =====
-- Splitting, joining and replacing, on the bytes that the texts of path/path.go are made of.
use almighty_core.Prelude.{
  ℕ, ◌≡◌, refl, ap, ◌∙◌, Bool, true, false, not, ◌||◌, List, [], ◌∷◌, ◌++◌, arith, ◌==◌, all,
  if◌then◌else◌,
}
use almighty_core.Prelude.Texts.{Text, replace_byte, join, split}
use almighty_core.Path.{is_uuid_byte, runes, underscore, sep_in_database}

abbrev pub lacks : ℕ → Text → Bool
lacks c s = all (λ a. not (a == c)) s

-- the bytes of a joined path
abbrev pub is_ltree_byte : ℕ → Bool
is_ltree_byte c = is_uuid_byte c || ((c == underscore) || (c == sep_in_database))

pub lacks_uuid :
    (s : Text)
    → all is_uuid_byte s ≡ true
    → (lacks underscore s ≡ true) × (lacks sep_in_database s ≡ true)
lacks_uuid [] h = (refl, refl)
lacks_uuid (c ∷ s) h = let (a, b) = lacks_uuid s (ground arith) in (ground arith, ground arith)

pub replace_back :
    (a b : ℕ) (s : Text) → lacks b s ≡ true → replace_byte b a (replace_byte a b s) ≡ s
unfolding replace_byte
replace_back a b [] h = refl
replace_back a b (c ∷ s) h = ground (arith, replace_back a b s)

-- replacing leaves a separator that it does not look for
pub replace_separated :
    (a b sep : ℕ) (s t : Text)
    → (sep == a) ≡ false
    → replace_byte a b (s ++ sep ∷ t) ≡ replace_byte a b s ++ sep ∷ replace_byte a b t
unfolding replace_byte
replace_separated a b sep [] t h = rw h refl
replace_separated a b sep (c ∷ s) t h =
    ap (λ r. (if c == a then b else c) ∷ r) (replace_separated a b sep s t h)

split-lacks : (sep : ℕ) (s : Text) → lacks sep s ≡ true → split sep s ≡ s ∷ []
unfolding split
split-lacks sep [] h = refl
split-lacks sep (c ∷ s) h = ground (arith, split-lacks sep s)

split-append :
    (sep : ℕ) (s t : Text) → lacks sep s ≡ true → split sep (s ++ sep ∷ t) ≡ s ∷ split sep t
unfolding split
split-append sep [] t h = ground arith
split-append sep (c ∷ s) t h = ground (arith, split-append sep s t)

pub split-join :
    (sep : ℕ) (s : Text) (ss : List Text)
    → all (lacks sep) (s ∷ ss) ≡ true
    → split sep (join sep (s ∷ ss)) ≡ s ∷ ss
unfolding join
split-join sep s [] h = split-lacks sep s (ground arith)
split-join sep s (t ∷ ts) h =
    split-append sep s (join sep (t ∷ ts)) (ground arith)
    ∙ ap (λ r. s ∷ r) (split-join sep t ts (ground arith))

pub runes-ascii : (s : Text) → all is_ltree_byte s ≡ true → runes s ≡ s
unfolding runes
runes-ascii [] h = refl
runes-ascii (c ∷ s) h = ground (arith, runes-ascii s)

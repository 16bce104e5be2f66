-- ===== src/Field/Rendering.antt =====
-- rendering/markup_content.go, and the contents of codebase/codebase.go: the two structs that the
-- store keeps as maps.
use almighty_core.Prelude.{
  ◌≡◌, refl, Bool, true, false, ◌||◌, Option, none, some, [], ◌∷◌, if◌then◌else◌,
}
use almighty_core.Prelude.Int.{ℤ, pos}
use almighty_core.Prelude.Texts.{Text, codes, eqb_text}
use almighty_core.Field.Value.{
  Value, str, int, float64, dict, markup, Entries, no_entry, entry, MarkupContent, Content,
  Platform, Outcome, ok, err, panic, ◌>>=◌, lookup,
}

abbrev pub plain_text : Text
plain_text = codes "PlainText"

unfoldable pub is_markup_supported : Text → Bool
is_markup_supported m = eqb_text m plain_text || eqb_text m (codes "Markdown")

abbrev is_empty : Text → Bool
is_empty [] = true
is_empty _ = false

abbrev supported_or_default : Text → Text
supported_or_default m = if is_markup_supported m then m else plain_text

module _ {Float : Type 0} where
  -- v.(string)
  abbrev pub as_string : Value Float → Outcome Text
  as_string (str s) = ok s
  as_string _ = panic

  abbrev as_string? : Option (Value Float) → Outcome Text
  as_string? none = panic
  as_string? (some v) = as_string v

  -- (markupContent *MarkupContent) ToMap()
  unfoldable pub markup_to_map : MarkupContent → Entries Float
  markup_to_map m =
      entry (codes "content") (str m.content)
        (entry (codes "markup") (str (if is_empty m.markup then plain_text else m.markup)) no_entry)

  abbrev markup_of : Option (Value Float) → Outcome Text
  markup_of none = ok plain_text
  markup_of (some v) = do m ← as_string v; ok (supported_or_default m)

  unfoldable pub new_markup_content_from_map : Entries Float → Outcome MarkupContent
  unfolding is_markup_supported
  new_markup_content_from_map value = do
    content ← as_string? (lookup (codes "content") value)
    m ← markup_of (lookup (codes "markup") value)
    ok (record { content = content; markup = m })

  unfoldable pub new_markup_content_from_value : Value Float → Outcome (Option MarkupContent)
  unfolding new_markup_content_from_map
  new_markup_content_from_value (str s) = ok (some (record { content = s; markup = plain_text }))
  new_markup_content_from_value (markup m) = ok (some m)
  new_markup_content_from_value (dict e) = do m ← new_markup_content_from_map e; ok (some m)
  new_markup_content_from_value _ = ok none

  -- (c *Content) ToMap()
  unfoldable pub content_to_map : Content → Entries Float
  content_to_map c = entry (codes "repository") (str c.repository) (
      entry (codes "branch") (str c.branch) (
        entry (codes "filename") (str c.file_name) (
          entry (codes "linenumber") (int c.line_number)
            (entry (codes "codebaseid") (str c.codebase_id) no_entry))))

  abbrev string_at : Option (Value Float) → Outcome Text
  string_at none = ok []
  string_at (some v) = as_string v

  abbrev line_at : Platform Float → Option (Value Float) → ℤ
  line_at go (some (int n)) = n
  line_at go (some (float64 f)) = go.to_int f
  line_at go _ = pos 0

  -- IsValid; the expression of IsRepoValidURL compiles
  unfoldable pub is_valid : Platform Float → Content → Bool
  is_valid go c = if is_empty c.repository then false else go.matches_git_url c.repository

  abbrev checked : Platform Float → Content → Outcome Content
  checked go c = if is_valid go c then ok c else err

  -- the loop goes over the keys in this order
  unfoldable pub new_codebase_content : Platform Float → Entries Float → Outcome Content
  unfolding is_valid
  new_codebase_content go value = do
    repository ← string_at (lookup (codes "repository") value)
    branch ← string_at (lookup (codes "branch") value)
    file_name ← string_at (lookup (codes "filename") value)
    let line_number = line_at go (lookup (codes "linenumber") value)
    codebase_id ← string_at (lookup (codes "codebaseid") value)
    checked go (record {
      repository = repository;
      branch = branch;
      file_name = file_name;
      line_number = line_number;
      codebase_id = codebase_id;
    })

  -- What the store keeps of a codebase reads back as it was.
  pub content-round_trip :
      (go : Platform Float) (c : Content)
      → is_valid go c ≡ true
      → new_codebase_content go (content_to_map c) ≡ ok c
  unfolding new_codebase_content content_to_map
  content-round_trip go c h = rw h

default_kept :
    (s : Text) → is_markup_supported s ≡ true → (if is_empty s then plain_text else s) ≡ s
unfolding is_markup_supported
default_kept [] h = cc
default_kept (c ∷ s) h = refl

-- What the store keeps of a markup of a supported kind reads back as it was.
pub markup-round_trip :
    {Float : Type 0} (go : Platform Float) (m : MarkupContent)
    → is_markup_supported m.markup ≡ true
    → new_markup_content_from_map {Float = Float} (markup_to_map m) ≡ ok m
unfolding new_markup_content_from_map markup_to_map
markup-round_trip go m h = rw (default_kept m.markup h) (rw h)

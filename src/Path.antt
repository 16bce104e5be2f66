-- ===== src/Path.antt =====
-- path/path.go: the path of an area or an iteration, kept as an ltree. An id is a number, and
-- uuid.Nil is 0; the package uuid is a parameter.
pub mod Splitting
pub mod Stored
pub mod Parents
use almighty_core.Prelude.{
  ℕ, ◌+◌, ◌/◌, ◌%◌, ◌≡◌, Bool, true, false, ◌&&◌, ◌||◌, Option, none, some, List, [], ◌∷◌, ◌++◌,
  ◌==◌, leb, ltb, all, if◌then◌else◌,
}
use almighty_core.Prelude.Texts.{Text, codes, eqb_text, replace_byte, join, split}
use almighty_core.Field.Value.{Outcome, ok, err, panic}

-- a hexadecimal digit in lower case, or a dash
abbrev pub is_uuid_byte : ℕ → Bool
is_uuid_byte c = (leb 48 c && leb c 57) || ((leb 97 c && leb c 102) || (c == 45))

pub record UuidPackage : Type 0 where
  -- id.String() and uuid.FromString(s)
  pub to_string : ℕ → Text
  pub from_string : Text → Option ℕ
  pub from_string-to_string : (id : ℕ) → from_string (to_string id) ≡ some id
  pub from_string-empty : from_string [] ≡ none
  pub to_string-bytes : (id : ℕ) → all is_uuid_byte (to_string id) ≡ true

-- "/" and ".", and the bytes of "-" and "_"
abbrev pub sep_in_service : ℕ
sep_in_service = 47

abbrev pub sep_in_database : ℕ
sep_in_database = 46

abbrev pub dash : ℕ
dash = 45

abbrev pub underscore : ℕ
underscore = 95

abbrev pub is_empty : List ℕ → Bool
is_empty [] = true
is_empty (x ∷ p) = false

-- p[len(p)-1], of a path that is not empty
unfoldable pub this : List ℕ → ℕ
this [] = 0
this (x ∷ []) = x
this (x ∷ y ∷ p) = this (y ∷ p)

unfoldable pub parent_id : List ℕ → ℕ
parent_id [] = 0
parent_id (x ∷ []) = 0
parent_id (x ∷ y ∷ []) = x
parent_id (x ∷ y ∷ z ∷ p) = parent_id (y ∷ z ∷ p)

-- p[:len(p)-1], of a path of more than one id
unfoldable pub parent_path : List ℕ → List ℕ
parent_path [] = []
parent_path (x ∷ []) = []
parent_path (x ∷ y ∷ p) = x ∷ parent_path (y ∷ p)

unfoldable pub root : List ℕ → List ℕ
root [] = 0 ∷ []
root (x ∷ p) = x ∷ []

abbrev pub and_then : Option ℕ → Option (List ℕ) → Option (List ℕ)
and_then (some id) (some op) = some (id ∷ op)
and_then _ _ = none

module _ (uuids : UuidPackage) where
  abbrev pub strings : List ℕ → List Text
  strings [] = []
  strings (x ∷ p) = uuids.to_string x ∷ strings p

  unfoldable pub convert : List ℕ → Text
  convert p =
      if is_empty p then [] else replace_byte dash underscore (join sep_in_database (strings p))

  -- String()
  unfoldable pub to_text : List ℕ → Text
  to_text p =
      if is_empty p then sep_in_service ∷ [] else sep_in_service ∷ join sep_in_service (strings p)

  unfoldable pub convert_to_ltree : ℕ → Text
  convert_to_ltree id = replace_byte dash underscore (uuids.to_string id)

  abbrev pub ltrees : List ℕ → List Text
  ltrees [] = []
  ltrees (x ∷ p) = convert_to_ltree x ∷ ltrees p

  unfoldable pub value : List ℕ → Text
  value p = join sep_in_database (ltrees p)

  -- the loop of convertFromLtree
  unfoldable pub from_strings : List Text → Option (List ℕ)
  from_strings [] = some []
  from_strings (x ∷ parts) = let rest = from_strings parts in and_then (uuids.from_string x) rest

  unfoldable pub convert_from_ltree : Text → Option (List ℕ)
  convert_from_ltree s = from_strings (split sep_in_database (replace_byte underscore dash s))

  unfoldable pub to_expression : List ℕ → ℕ → Text
  to_expression p id =
      let existing = convert p in
      if eqb_text existing []
      then convert_to_ltree id
      else existing ++ sep_in_database ∷ convert_to_ltree id

-- string(m) of a byte: the UTF-8 text of the code point
abbrev pub rune : ℕ → Text
rune m = if ltb m 128 then m ∷ [] else (192 + m / 64) ∷ (128 + m % 64) ∷ []

unfoldable pub runes : Text → Text
runes [] = []
runes (m ∷ s) = rune m ++ runes s

-- What a database driver gives. driver.String returns []byte and string as they are and makes a
-- string of all else, and the assertion to []uint8 panics on a string.
pub data Scanned : Type 0 where
  null : Scanned
  bytes : Text → Scanned
  anything_else : Scanned

abbrev or_empty : Option (List ℕ) → List ℕ
or_empty none = []
or_empty (some p) = p

-- what *p is set to
unfoldable pub scan : UuidPackage → Scanned → Outcome (List ℕ)
unfolding runes convert_from_ltree
scan uuids null = ok []
scan uuids (bytes s) = ok (or_empty (convert_from_ltree uuids (runes s)))
scan uuids anything_else = panic

-- ===== src/Prelude/Texts.antt =====
-- Text as the list of its bytes, with what the program uses of Go's package strings.
use Prim.Native.Char.{code}
use Prim.Native.String.{String}
use almighty_core.Prelude.{
  ℕ, Bool, true, false, ◌&&◌, ◌||◌, leb, List, [], ◌∷◌, ◌++◌, Option, none, some, ◌==◌,
  if◌then◌else◌,
}

abbrev pub Text : Type 0
Text = List ℕ

-- The code points of a literal: its bytes, if it is ASCII. `String` has its own `[]` and `∷`.
abbrev pub codes : String → Text
codes String.[] = []
codes (String.◌∷◌ c s) = code c ∷ codes s

abbrev pub eqb_text : Text → Text → Bool
eqb_text [] [] = true
eqb_text (a ∷ s) (b ∷ t) = a == b && eqb_text s t
eqb_text _ _ = false

-- strings.Contains(s, c) and strings.Replace(s, a, b, -1), for one byte
abbrev pub contains_byte : ℕ → Text → Bool
contains_byte c [] = false
contains_byte c (a ∷ s) = a == c || contains_byte c s

unfoldable pub replace_byte : ℕ → ℕ → Text → Text
replace_byte a b [] = []
replace_byte a b (c ∷ s) = (if c == a then b else c) ∷ replace_byte a b s

-- strings.HasPrefix, and strings.TrimPrefix
abbrev pub has_prefix : Text → Text → Bool
has_prefix s [] = true
has_prefix [] (p ∷ ps) = false
has_prefix (c ∷ s) (p ∷ ps) = c == p && has_prefix s ps

-- strings.Join(parts, sep), for a separator of one byte
unfoldable pub join : ℕ → List Text → Text
join sep [] = []
join sep (p ∷ []) = p
join sep (p ∷ q ∷ ps) = p ++ sep ∷ join sep (q ∷ ps)

abbrev pub push_head : ℕ → List Text → List Text
push_head c [] = (c ∷ []) ∷ []
push_head c (p ∷ ps) = (c ∷ p) ∷ ps

-- strings.Split(s, sep), for a separator of one byte: never an empty list
unfoldable pub split : ℕ → Text → List Text
split sep [] = [] ∷ []
split sep (c ∷ s) = let rest = split sep s in if c == sep then [] ∷ rest else push_head c rest

-- unicode.IsSpace, by the bytes of UTF-8
pub is_space : ℕ → Bool
is_space a = leb 9 a && leb a 13 || a == 32

pub is_space2 : ℕ → ℕ → Bool
is_space2 a b = a == 0xC2 && (b == 0x85 || b == 0xA0)

pub is_space3 : ℕ → ℕ → ℕ → Bool
is_space3 a b c =
    (a == 0xE1 && (b == 0x9A && c == 0x80))
    || ((a == 0xE2
          && (b == 0x80 && (leb 0x80 c && leb c 0x8A || (c == 0xA8 || (c == 0xA9 || c == 0xAF)))))
        || ((a == 0xE2 && (b == 0x81 && c == 0x9F)) || (a == 0xE3 && (b == 0x80 && c == 0x80))))

-- strings.TrimSpace(s) == ""
unfoldable pub is_blank : Text → Bool
unfolding is_space is_space2 is_space3
is_blank [] = true
is_blank (a ∷ []) = is_space a
is_blank (a ∷ b ∷ []) = is_space a && is_space b || is_space2 a b
is_blank (a ∷ b ∷ c ∷ s) =
    let after1 = is_blank (b ∷ c ∷ s) in
    let after2 = is_blank (c ∷ s) in
    let after3 = is_blank s in
    if is_space a
    then after1
    else if is_space2 a b
    then after2
    else if is_space3 a b c
    then after3
    else false

-- strings.TrimSpace, whose right end is the suffix that is blank
unfoldable pub trim_left : Text → Text
unfolding is_space is_space2 is_space3
trim_left [] = []
trim_left (a ∷ []) = if is_space a then [] else a ∷ []
trim_left (a ∷ b ∷ []) =
    let after1 = if is_space b then [] else b ∷ [] in
    if is_space a then after1 else if is_space2 a b then [] else a ∷ b ∷ []
trim_left (a ∷ b ∷ c ∷ s) =
    let after1 = trim_left (b ∷ c ∷ s) in
    let after2 = trim_left (c ∷ s) in
    let after3 = trim_left s in
    if is_space a
    then after1
    else if is_space2 a b
    then after2
    else if is_space3 a b c
    then after3
    else a ∷ b ∷ c ∷ s

unfoldable pub trim_right : Text → Text
trim_right [] = []
trim_right (a ∷ s) = let rest = trim_right s in if is_blank (a ∷ s) then [] else a ∷ rest

-- strings.TrimPrefix(s, p)
abbrev pub drop_prefix : Text → Text → Text
drop_prefix s [] = s
drop_prefix [] (p ∷ ps) = []
drop_prefix (c ∷ s) (p ∷ ps) = drop_prefix s ps

abbrev pub trim_prefix : Text → Text → Text
trim_prefix s p = if has_prefix s p then drop_prefix s p else s

-- whether a text is among those of a list
abbrev pub mem_text : Text → List Text → Bool
mem_text s [] = false
mem_text s (t ∷ ts) = eqb_text t s || mem_text s ts

-- a map from texts to texts
abbrev pub lookup_text : Text → List (Text × Text) → Option Text
lookup_text key [] = none
lookup_text key (kv ∷ m) = if eqb_text kv.0 key then some kv.1 else lookup_text key m

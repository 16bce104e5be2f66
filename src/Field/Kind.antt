-- ===== src/Field/Kind.antt =====
-- Kind of workitem/field_definition.go. A Kind is a string: `kind_other` is one that no constant names.
use almighty_core.Prelude.{
  ◌≡◌, ◌↔◌, refl, Bool, true, false, Option, none, some, [], ◌∷◌, arith, if◌then◌else◌,
}
use almighty_core.Prelude.Texts.{Text, codes, eqb_text}

pub data Kind : Type 0 where
  kind_string : Kind
  kind_integer : Kind
  kind_float : Kind
  kind_boolean : Kind
  kind_instant : Kind
  kind_url : Kind
  kind_markup : Kind
  kind_iteration : Kind
  kind_user : Kind
  kind_label : Kind
  kind_board_column : Kind
  kind_area : Kind
  kind_codebase : Kind
  kind_remote_tracker : Kind
  kind_enum : Kind
  kind_list : Kind
  kind_other : Text → Kind

-- string(k)
unfoldable pub to_string : Kind → Text
to_string kind_string = codes "string"
to_string kind_integer = codes "integer"
to_string kind_float = codes "float"
to_string kind_boolean = codes "bool"
to_string kind_instant = codes "instant"
to_string kind_url = codes "url"
to_string kind_markup = codes "markup"
to_string kind_iteration = codes "iteration"
to_string kind_user = codes "user"
to_string kind_label = codes "label"
to_string kind_board_column = codes "boardcolumn"
to_string kind_area = codes "area"
to_string kind_codebase = codes "codebase"
to_string kind_remote_tracker = codes "remotetracker"
to_string kind_enum = codes "enum"
to_string kind_list = codes "list"
to_string (kind_other s) = s

-- k != KindEnum && k != KindList
abbrev pub is_simple_type : Kind → Bool
is_simple_type kind_enum = false
is_simple_type kind_list = false
is_simple_type _ = true

pub is_relational : Kind → Bool
is_relational kind_iteration = true
is_relational kind_user = true
is_relational kind_label = true
is_relational kind_board_column = true
is_relational kind_area = true
is_relational kind_remote_tracker = true
is_relational kind_codebase = true
is_relational _ = false

-- Kind(k), with the constant that it equals, if any, made visible
unfoldable pub kind_of : Text → Kind
kind_of k =
    if eqb_text k (codes "string")
    then kind_string
    else if eqb_text k (codes "integer")
    then kind_integer
    else if eqb_text k (codes "float")
    then kind_float
    else if eqb_text k (codes "bool")
    then kind_boolean
    else if eqb_text k (codes "instant")
    then kind_instant
    else if eqb_text k (codes "url")
    then kind_url
    else if eqb_text k (codes "markup")
    then kind_markup
    else if eqb_text k (codes "iteration")
    then kind_iteration
    else if eqb_text k (codes "user")
    then kind_user
    else if eqb_text k (codes "label")
    then kind_label
    else if eqb_text k (codes "boardcolumn")
    then kind_board_column
    else if eqb_text k (codes "area")
    then kind_area
    else if eqb_text k (codes "codebase")
    then kind_codebase
    else if eqb_text k (codes "remotetracker")
    then kind_remote_tracker
    else if eqb_text k (codes "enum")
    then kind_enum
    else if eqb_text k (codes "list")
    then kind_list
    else kind_other k

-- the switch of ConvertStringToKind, which lists every constant
named : Kind → Option Kind
named (kind_other s) = none
named k = some k

unfoldable pub convert_string_to_kind : Text → Option Kind
unfolding kind_of named
convert_string_to_kind k = named (kind_of k)

pub eqb_text_refl : (s : Text) → eqb_text s s ≡ true
eqb_text_refl [] = refl
eqb_text_refl (c ∷ s) = ground (arith, eqb_text_refl s)

pub eqb_text→eq : (s t : Text) → eqb_text s t ≡ true → s ≡ t
eqb_text→eq [] [] h = refl
eqb_text→eq [] (d ∷ t) h = ground arith
eqb_text→eq (c ∷ s) [] h = ground arith
eqb_text→eq (c ∷ s) (d ∷ t) h = ground (arith, eqb_text→eq s t)

abbrev pub is_named : Kind → Bool
is_named (kind_other s) = false
is_named _ = true

to_string-kind_of : (s : Text) → to_string (kind_of s) ≡ s
unfolding kind_of to_string
to_string-kind_of s = ground (
  arith,
  eqb_text→eq s (codes "string"),
  eqb_text→eq s (codes "integer"),
  eqb_text→eq s (codes "float"),
  eqb_text→eq s (codes "bool"),
  eqb_text→eq s (codes "instant"),
  eqb_text→eq s (codes "url"),
  eqb_text→eq s (codes "markup"),
  eqb_text→eq s (codes "iteration"),
  eqb_text→eq s (codes "user"),
  eqb_text→eq s (codes "label"),
  eqb_text→eq s (codes "boardcolumn"),
  eqb_text→eq s (codes "area"),
  eqb_text→eq s (codes "codebase"),
  eqb_text→eq s (codes "remotetracker"),
  eqb_text→eq s (codes "enum"),
  eqb_text→eq s (codes "list"),
)

convert-to_string : (k : Kind) → is_named k ≡ true → convert_string_to_kind (to_string k) ≡ some k
unfolding convert_string_to_kind to_string
convert-to_string (kind_other s) h = cc
convert-to_string _ h = refl

named-eq-some : (j k : Kind) → named j ≡ some k → (j ≡ k) × (is_named k ≡ true)
unfolding named
named-eq-some (kind_other s) k h = cc
named-eq-some _ k h = ground arith

-- A string converts to a kind exactly if the kind is one of the constants and the string is its own.
pub convert_string_to_kind_iff :
    (s : Text) (k : Kind)
    → (convert_string_to_kind s ≡ some k) ↔ ((to_string k ≡ s) × (is_named k ≡ true))
unfolding convert_string_to_kind
convert_string_to_kind_iff s k = (
  λ h. let (e, n) = named-eq-some (kind_of s) k h in (rw (← e) (to_string-kind_of s), n),
  λ h. rw (← h.0) (convert-to_string k h.1),
)

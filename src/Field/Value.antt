-- ===== src/Field/Value.antt =====
-- The values of Go's `interface{}` that field values take, their dynamic kinds and their equality.
-- A uuid.UUID is its 128 bits as a number, and a time.Time its nanoseconds since the epoch (no
-- location, and within the years that UnixNano can tell). float64 is a parameter.
use almighty_core.Prelude.{
  ℕ, ◌≡◌, refl, Bool, true, false, ◌&&◌, Option, none, some, List, [], ◌∷◌, ◌==◌, if◌then◌else◌,
}
use almighty_core.Prelude.Int.{ℤ, eqb_ℤ}
use almighty_core.Prelude.Texts.{Text, eqb_text}

-- rendering.MarkupContent
pub record MarkupContent : Type 0 where
  pub content : Text
  pub markup : Text

-- codebase.Content
pub record Content : Type 0 where
  pub repository : Text
  pub branch : Text
  pub file_name : Text
  pub line_number : ℤ
  pub codebase_id : Text

mutual
  pub data Value (Float : Type 0) : Type 0 where
    nil : Value Float
    bool : Bool → Value Float
    int int64 : ℤ → Value Float
    uint8 : ℕ → Value Float
    float64 : Float → Value Float
    str : Text → Value Float
    uuid : ℕ → Value Float
    time : ℤ → Value Float
    markup : MarkupContent → Value Float
    codebase : Content → Value Float
    strings : List Text → Value Float
    slice : Values Float → Value Float
    dict : Entries Float → Value Float

  -- []interface{}
  pub data Values (Float : Type 0) : Type 0 where
    end : Values Float
    item : Value Float → Values Float → Values Float

  -- map[string]interface{}
  pub data Entries (Float : Type 0) : Type 0 where
    no_entry : Entries Float
    entry : Text → Value Float → Entries Float → Entries Float

-- What a call comes back with: a value, an error (its text is not modelled), or a run-time panic.
pub data Outcome {ℓ} (A : Type ℓ) : Type ℓ where
  ok : A → Outcome A
  err : Outcome A
  panic : Outcome A

infixl 5 ◌>>=◌ ◌>>◌
abbrev pub ◌>>=◌ {ℓ κ} : {A : Type ℓ} {B : Type κ} → Outcome A → (A → Outcome B) → Outcome B
ok a >>= f = f a
err >>= f = err
panic >>= f = panic

abbrev pub ◌>>◌ {ℓ} : {B : Type ℓ} → Outcome (Unit {0}) → Outcome B → Outcome B
m >> k = m >>= λ _. k

abbrev pub guard : Bool → Outcome (Unit {0})
guard true = ok tt
guard false = err

-- What a successful call did.
pub bind-eq-ok {ℓ κ} :
    {A : Type ℓ} {B : Type κ} (m : Outcome A) (f : A → Outcome B) {b : B}
    → (m >>= f) ≡ ok b
    → (a : A) × (m ≡ ok a) × (f a ≡ ok b)
bind-eq-ok (ok a) f h = (a, refl, h)
bind-eq-ok err f h = cc
bind-eq-ok panic f h = cc

pub guard-eq-ok {ℓ} :
    {A : Type ℓ} (b : Bool) (m : Outcome A) {a : A}
    → (guard b >> m) ≡ ok a
    → (b ≡ true) × (m ≡ ok a)
guard-eq-ok true m h = (refl, h)
guard-eq-ok false m h = cc

abbrev pub of_option {ℓ} : {A : Type ℓ} → Option A → Outcome A
of_option none = err
of_option (some a) = ok a

-- What the code calls of float64, of the packages uuid, time and strconv on them, of govalidator
-- and of regexp.
pub record Platform (Float : Type 0) : Type 0 where
  -- f == math.Trunc(f), int(f), f == g, and FormatFloat with 6 and with 0 digits
  pub is_whole : Float → Bool
  pub to_int : Float → ℤ
  pub float_eq : Float → Float → Bool
  pub format6 : Float → Text
  pub format0 : Float → Text
  pub itoa : ℤ → Text
  pub uuid_from_string : Text → Option ℕ
  pub uuid_string : ℕ → Text
  pub uuid_bytes : ℕ → List ℕ
  pub rfc3339 : ℤ → Text
  pub is_url : Text → Bool
  -- the regular expression of IsRepoValidURL
  pub matches_git_url : Text → Bool

module _ {Float : Type 0} where
  abbrev pub is_nil : Value Float → Bool
  is_nil nil = true
  is_nil _ = false

  -- reflect.TypeOf(v).Kind() == reflect.Array, or reflect.Slice
  abbrev pub is_array_or_slice : Value Float → Bool
  is_array_or_slice (uuid _) = true
  is_array_or_slice (strings _) = true
  is_array_or_slice (slice _) = true
  is_array_or_slice _ = false

  -- reflect.TypeOf(v).Kind() == reflect.Struct
  abbrev pub is_struct : Value Float → Bool
  is_struct (time _) = true
  is_struct (markup _) = true
  is_struct (codebase _) = true
  is_struct _ = false

  abbrev of_texts : List Text → Values Float
  of_texts [] = end
  of_texts (s ∷ ss) = item (str s) (of_texts ss)

  abbrev pub of_bytes : List ℕ → Values Float
  of_bytes [] = end
  of_bytes (b ∷ bs) = item (uint8 b) (of_bytes bs)

  -- reflect.ValueOf(v).Index(i).Interface(), for each i
  abbrev pub elements : Platform Float → Value Float → Values Float
  elements go (uuid u) = of_bytes (go.uuid_bytes u)
  elements go (strings ss) = of_texts ss
  elements go (slice vs) = vs
  elements go _ = end

  abbrev pub length_values : Values Float → ℕ
  length_values end = 0
  length_values (item v vs) = ℕ.suc (length_values vs)

  abbrev pub length_entries : Entries Float → ℕ
  length_entries no_entry = 0
  length_entries (entry k v m) = ℕ.suc (length_entries m)

  -- m[key]
  abbrev pub lookup : Text → Entries Float → Option (Value Float)
  lookup key no_entry = none
  lookup key (entry k v m) = if eqb_text k key then some v else lookup key m

abbrev eqb_bool : Bool → Bool → Bool
eqb_bool true b = b
eqb_bool false true = false
eqb_bool false false = true

abbrev pub eqb_markup : MarkupContent → MarkupContent → Bool
eqb_markup a b = eqb_text a.content b.content && eqb_text a.markup b.markup

abbrev pub eqb_content : Content → Content → Bool
eqb_content a b =
    eqb_text a.repository b.repository
    && (eqb_text a.branch b.branch
        && (eqb_text a.file_name b.file_name
            && (eqb_ℤ a.line_number b.line_number && eqb_text a.codebase_id b.codebase_id)))

abbrev eqb_texts : List Text → List Text → Bool
eqb_texts [] [] = true
eqb_texts (a ∷ s) (b ∷ t) = eqb_text a b && eqb_texts s t
eqb_texts _ _ = false

-- a == b of two interface values: two maps, or two slices of one type, are not comparable, and the
-- comparison panics.
unfoldable pub interface_eq :
    {Float : Type 0} → Platform Float → Value Float → Value Float → Outcome Bool
interface_eq go nil nil = ok true
interface_eq go (bool a) (bool b) = ok (eqb_bool a b)
interface_eq go (int a) (int b) = ok (eqb_ℤ a b)
interface_eq go (int64 a) (int64 b) = ok (eqb_ℤ a b)
interface_eq go (uint8 a) (uint8 b) = ok (a == b)
interface_eq go (float64 a) (float64 b) = ok (go.float_eq a b)
interface_eq go (str a) (str b) = ok (eqb_text a b)
interface_eq go (uuid a) (uuid b) = ok (a == b)
interface_eq go (time a) (time b) = ok (eqb_ℤ a b)
interface_eq go (markup a) (markup b) = ok (eqb_markup a b)
interface_eq go (codebase a) (codebase b) = ok (eqb_content a b)
interface_eq go (strings a) (strings b) = panic
interface_eq go (slice a) (slice b) = panic
interface_eq go (dict a) (dict b) = panic
interface_eq go _ _ = ok false

-- reflect.DeepEqual
unfoldable mutual
  pub deep_equal : {Float : Type 0} → Platform Float → Value Float → Value Float → Bool
  deep_equal go nil nil = true
  deep_equal go (bool a) (bool b) = eqb_bool a b
  deep_equal go (int a) (int b) = eqb_ℤ a b
  deep_equal go (int64 a) (int64 b) = eqb_ℤ a b
  deep_equal go (uint8 a) (uint8 b) = a == b
  deep_equal go (float64 a) (float64 b) = go.float_eq a b
  deep_equal go (str a) (str b) = eqb_text a b
  deep_equal go (uuid a) (uuid b) = a == b
  deep_equal go (time a) (time b) = eqb_ℤ a b
  deep_equal go (markup a) (markup b) = eqb_markup a b
  deep_equal go (codebase a) (codebase b) = eqb_content a b
  deep_equal go (strings a) (strings b) = eqb_texts a b
  deep_equal go (slice a) (slice b) = deep_equal_values go a b
  deep_equal go (dict a) (dict b) =
      (length_entries a == length_entries b) && deep_equal_entries go a b
  deep_equal go _ _ = false

  pub deep_equal_values : {Float : Type 0} → Platform Float → Values Float → Values Float → Bool
  deep_equal_values go end end = true
  deep_equal_values go (item a s) (item b t) = deep_equal go a b && deep_equal_values go s t
  deep_equal_values go _ _ = false

  -- each key of the first map has an equal value in the second
  pub deep_equal_entries : {Float : Type 0} → Platform Float → Entries Float → Entries Float → Bool
  deep_equal_entries go no_entry m = true
  deep_equal_entries go (entry k a s) m =
      elim (lookup k m) [ none ↦ false | some b ↦ deep_equal go a b ] && deep_equal_entries go s m

-- ===== src/Jsonapi/MemberName.antt =====
-- FormatMemberName of jsonapi/jsonapi_utility.go, over bytes: a byte beyond ASCII belongs to a rune
-- that the pattern does not keep.
use almighty_core.Prelude.{
  ℕ, ◌≡◌, ◌≢◌, refl, ap, Bool, true, false, ◌&&◌, ◌||◌, [], ◌∷◌, arith, All, leb, ◌==◌,
  if◌then◌else◌,
}
use almighty_core.Prelude.Texts.{Text}

-- [a-zA-Z0-9_]
abbrev pub is_member : ℕ → Bool
is_member c =
    leb b'a' c && leb c b'z'
    || (leb b'A' c && leb c b'Z' || (leb b'0' c && leb c b'9' || c == b'_'))

-- re.ReplaceAllString(name, "_"): the bytes of a run that the pattern takes become one "_"
collapse : Bool → Text → Text
collapse in_run [] = []
collapse in_run (c ∷ s) =
    let kept = collapse false s in
    let dropped = collapse true s in
    if is_member c then c ∷ kept else if in_run then dropped else b'_' ∷ dropped

-- strings.TrimFunc
trim_left : Text → Text
trim_left [] = []
trim_left (c ∷ s) = let rest = trim_left s in if c == b'_' then rest else c ∷ s

abbrev trim_cons : ℕ → Text → Text
trim_cons c [] = if c == b'_' then [] else c ∷ []
trim_cons c (d ∷ s) = c ∷ d ∷ s

trim_right : Text → Text
trim_right [] = []
trim_right (c ∷ s) = trim_cons c (trim_right s)

pub format_member_name : Text → Text
format_member_name name = trim_right (trim_left (collapse false name))

abbrev pub IsMember : ℕ → Type 0
IsMember c = is_member c ≡ true

abbrev pub FirstNot : ℕ → Text → Type 0
FirstNot c [] = Unit
FirstNot c (d ∷ s) = d ≢ c

abbrev pub LastNot : ℕ → Text → Type 0
LastNot c [] = Unit
LastNot c (d ∷ []) = d ≢ c
LastNot c (d ∷ e ∷ s) = LastNot c (e ∷ s)

collapse-All : (b : Bool) (s : Text) → All IsMember (collapse b s)
unfolding collapse
collapse-All b [] = tt
collapse-All b (c ∷ s) = ground (arith, collapse-All false s, collapse-All true s)

trim_left-All : (s : Text) → All IsMember s → All IsMember (trim_left s)
unfolding trim_left
trim_left-All [] h = tt
trim_left-All (c ∷ s) h = ground (arith, trim_left-All s)

trim_cons-All : (c : ℕ) (s : Text) → IsMember c → All IsMember s → All IsMember (trim_cons c s)
trim_cons-All c [] h k = ground arith
trim_cons-All c (d ∷ s) h k = (h, k)

trim_right-All : (s : Text) → All IsMember s → All IsMember (trim_right s)
unfolding trim_right
trim_right-All [] h = tt
trim_right-All (c ∷ s) h = trim_cons-All c (trim_right s) h.0 (trim_right-All s h.1)

trim_left-FirstNot : (s : Text) → FirstNot b'_' (trim_left s)
unfolding trim_left
trim_left-FirstNot [] = tt
trim_left-FirstNot (c ∷ s) = ground (arith, trim_left-FirstNot s)

trim_cons-FirstNot : (c : ℕ) (s : Text) → c ≢ b'_' → FirstNot b'_' (trim_cons c s)
trim_cons-FirstNot c [] h = ground arith
trim_cons-FirstNot c (d ∷ s) h = h

trim_right-FirstNot : (s : Text) → FirstNot b'_' s → FirstNot b'_' (trim_right s)
unfolding trim_right
trim_right-FirstNot [] h = tt
trim_right-FirstNot (c ∷ s) h = trim_cons-FirstNot c (trim_right s) h

trim_cons-LastNot : (c : ℕ) (s : Text) → LastNot b'_' s → LastNot b'_' (trim_cons c s)
trim_cons-LastNot c [] h = ground arith
trim_cons-LastNot c (d ∷ s) h = h

trim_right-LastNot : (s : Text) → LastNot b'_' (trim_right s)
unfolding trim_right
trim_right-LastNot [] = tt
trim_right-LastNot (c ∷ s) = trim_cons-LastNot c (trim_right s) (trim_right-LastNot s)

-- What JSON API asks of a member name, as the doc comment puts it.
pub record IsName (s : Text) : Type 0 where
  pub members : All IsMember s
  pub first : FirstNot b'_' s
  pub last : LastNot b'_' s

-- Whatever the name, the result has only letters, digits and underscores, and it begins and ends
-- with no underscore.
pub format_member_name-IsName : (name : Text) → IsName (format_member_name name)
unfolding format_member_name
format_member_name-IsName name =
    let s = collapse false name in
    record {
      members = trim_right-All (trim_left s) (trim_left-All s (collapse-All false name));
      first = trim_right-FirstNot (trim_left s) (trim_left-FirstNot s);
      last = trim_right-LastNot (trim_left s);
    }

collapse-eq : (s : Text) → All IsMember s → collapse false s ≡ s
unfolding collapse
collapse-eq [] h = refl
collapse-eq (c ∷ s) h = rw h.0 (ap (λ t. c ∷ t) (collapse-eq s h.1))

trim_left-eq : (s : Text) → FirstNot b'_' s → trim_left s ≡ s
unfolding trim_left
trim_left-eq [] h = refl
trim_left-eq (c ∷ s) h = ground arith

trim_right-eq : (s : Text) → LastNot b'_' s → trim_right s ≡ s
unfolding trim_right
trim_right-eq [] h = refl
trim_right-eq (c ∷ []) h = ground arith
trim_right-eq (c ∷ d ∷ s) h = rw (trim_right-eq (d ∷ s) h)

-- A name that needs no change gets none, so a second pass changes nothing.
pub format_member_name-fixes : (name : Text) → IsName name → format_member_name name ≡ name
unfolding format_member_name
format_member_name-fixes name h =
    rw (collapse-eq name h.members) (rw (trim_left-eq name h.first) (trim_right-eq name h.last))

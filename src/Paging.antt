-- ===== src/Paging.antt =====
-- controller/paging.go: the paging parameters of a list request, and the links of its answer.
-- `int` is an unbounded ℤ: the sums and products here wrap modulo 2^64 and every value that a link
-- shows is in range, so the wrap-around does not show. A link is the arguments of its `Sprintf`.
pub mod Bounds
pub mod Starts
pub mod Links
use almighty_core.Prelude.{
  ℕ, zero, suc, ◌+◌, ◌-◌, ◌*◌, ◌^◌, Bool, true, false, ◌&&◌, Option, none, some, List, [], ◌∷◌,
  ◌++◌, length, ltb, leb, ◌==◌, if◌then◌else◌,
}
use almighty_core.Prelude.Int.{ℤ, pos, negsuc, sub_ℕ, ◌+ℤ◌, ◌-ℤ◌, ◌*ℤ◌, ◌/ℤ◌, ◌%ℤ◌, ltb_ℤ, leb_ℤ}
use almighty_core.Prelude.Texts.{Text, codes}

abbrev pub page_size_default : ℤ
page_size_default = pos 20

abbrev pub page_size_max : ℤ
page_size_max = pos 500

abbrev is_digit : ℕ → Bool
is_digit c = leb b'0' c && leb c b'9'

-- The digits of strconv.Atoi; one byte that is no digit is a syntax error.
pub digits : ℕ → Text → Option ℕ
digits n [] = some n
digits n (c ∷ s) = let rest = digits (n * 10 + (c - b'0')) s in if is_digit c then rest else none

abbrev digits1 : Text → Option ℕ
digits1 [] = none
digits1 s = digits 0 s

abbrev positive : Option ℕ → Option ℤ
positive none = none
positive (some n) = if ltb n (2 ^ 63) then some (pos n) else none

abbrev negative : Option ℕ → Option ℤ
negative none = none
negative (some n) = if leb n (2 ^ 63) then some (sub_ℕ 0 n) else none

-- strconv.Atoi, with its range error
unfoldable pub atoi : Text → Option ℤ
unfolding digits
atoi [] = none
atoi (c ∷ s) =
    if c == b'-'
    then negative (digits1 s)
    else if c == b'+'
    then positive (digits1 s)
    else positive (digits1 (c ∷ s))

abbrev or_zero : Option ℤ → ℤ
or_zero none = pos 0
or_zero (some n) = n

abbrev offset_value : Option Text → ℤ
offset_value none = pos 0
offset_value (some s) = or_zero (atoi s)

abbrev limit_value : Option ℤ → ℤ
limit_value none = page_size_default
limit_value (some n) = n

unfoldable pub compute_paging_limits : Option Text → Option ℤ → ℤ × ℤ
compute_paging_limits offset_param limit_param =
    let offset = offset_value offset_param in
    let limit = limit_value limit_param in
    (
      if ltb_ℤ offset (pos 0) then pos 0 else offset,
      if leb_ℤ limit (pos 0)
          then page_size_default
          else if ltb_ℤ page_size_max limit
          then page_size_max
          else limit,
    )

-- The `%d` arguments of a link.
pub record Range : Type 0 where
  pub start : ℤ
  pub size : ℤ

pub record Link : Type 0 where
  pub path : Text
  pub range : Range
  pub additional : Text

pub record PagingLinks : Type 0 where
  pub prev : Option Link
  pub next : Option Link
  pub first : Option Link
  pub last : Option Link

-- strings.Join(additional, "&") behind an "&"
pub format : List Text → Text
format [] = []
format (q ∷ qs) = b'&' ∷ (q ++ format qs)

-- "need to cut the range to start at 0"
unfoldable pub cut : ℤ → ℤ → Range
cut start limit =
    if ltb_ℤ start (pos 0)
    then record { start = pos 0; size = limit +ℤ start }
    else record { start = start; size = limit }

unfoldable pub prev_start : ℤ → ℤ → ℤ → ℤ
prev_start offset limit total_count =
    if leb_ℤ offset total_count
    then offset -ℤ limit
    else offset -ℤ ((offset -ℤ total_count) /ℤ limit +ℤ pos 1) *ℤ limit

unfoldable pub first_end : ℤ → ℤ → ℤ
first_end offset limit = if ltb_ℤ (pos 0) offset then offset %ℤ limit else limit

unfoldable pub last_start : ℤ → ℤ → ℤ → ℤ
last_start offset limit total_count =
    if ltb_ℤ offset total_count
    then offset +ℤ (total_count -ℤ offset -ℤ pos 1) /ℤ limit *ℤ limit
    else offset -ℤ ((offset -ℤ total_count) /ℤ limit +ℤ pos 1) *ℤ limit

unfoldable pub set_paging_links : PagingLinks → Text → ℤ → ℤ → ℤ → ℤ → List Text → PagingLinks
set_paging_links links path current_count offset limit total_count additional_query =
    let link = λ (r : Range).
      let l : Link = record { path = path; range = r; additional = format additional_query } in l in
    let next_start = offset +ℤ current_count in
    record {
      prev =
          if ltb_ℤ (pos 0) offset && ltb_ℤ (pos 0) total_count
          then some (link (cut (prev_start offset limit total_count) limit))
          else links.prev;
      next =
          if ltb_ℤ next_start total_count
          then some (link (record { start = next_start; size = limit }))
          else links.next;
      first = some (link (record { start = pos 0; size = first_end offset limit }));
      last = some (link (cut (last_start offset limit total_count) limit));
    }

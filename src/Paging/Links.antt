-- ===== src/Paging/Links.antt =====
-- The links of setPagingLinks of controller/paging.go, for a list of `t` entries shown from offset `o`
-- by pages of `l`.
use almighty_core.Prelude.{ℕ, suc, ◌+◌, ◌*◌, ◌<◌, ◌≡◌, refl, some, List, arith}
use almighty_core.Prelude.Int.{pos, ◌+ℤ◌, ◌-ℤ◌, ◌%ℤ◌, ◌≤ℤ◌}
use almighty_core.Prelude.Texts.{Text}
use native.Mathlib.Nat.{mul-mod_left}
use almighty_core.Paging.{
  Link, format, PagingLinks, prev_start, last_start, first_end, cut, set_paging_links,
}
use almighty_core.Paging.Starts.{IsPage, stop, IsPrev, prev_start-IsPrev, last_start-IsPage}

first_end_multiple : (n o l : ℕ) → 0 < l → o ≡ suc n * l → first_end (pos o) (pos l) ≡ pos 0
unfolding first_end ◌%ℤ◌
first_end_multiple n o l h e = rw e (ground (arith, mul-mod_left (suc n) l))

module _ (links : PagingLinks) (path : Text) (c o l t : ℕ) (qs : List Text) (l_pos : 0 < l) where
  abbrev answer : PagingLinks
  answer = set_paging_links links path (pos c) (pos o) (pos l) (pos t) qs

  -- With l > 0, from an offset o > 0 into a list of t > 0 entries, there is a previous link. It names
  -- a page of at least 1 and at most l entries that starts inside the list and before o. It ends at o
  -- if o is at most t, and reaches the end of the list if o lies beyond it.
  pub prev_page : 0 < o → 0 < t → (k : Link) × (answer.prev ≡ some k) × IsPrev k.range o l t
  unfolding set_paging_links
  prev_page h k = (
    record {
      path = path;
      range = cut (prev_start (pos o) (pos l) (pos t)) (pos l);
      additional = format qs;
    },
    ground arith,
    prev_start-IsPrev o l t l_pos h k,
  )

  -- With l > 0, the last link of a list of t > 0 entries names a page of at least 1 and at most l
  -- entries that starts inside the list and reaches its end, from every offset.
  pub last-IsPage :
      0 < t → (k : Link) × (answer.last ≡ some k) × IsPage k.range l t × (pos t ≤ℤ stop k.range)
  unfolding set_paging_links
  last-IsPage h = (
    record {
      path = path;
      range = cut (last_start (pos o) (pos l) (pos t)) (pos l);
      additional = format qs;
    },
    refl,
    (last_start-IsPage o l t l_pos h).0,
    (last_start-IsPage o l t l_pos h).1,
  )

  -- From an offset that is a positive multiple of the page size, the first link asks for 0 entries
  -- from 0 on.
  pub first_page_empty :
      (n : ℕ)
      → o ≡ suc n * l
      → (k : Link) × (answer.first ≡ some k) × (k.range ≡ record { start = pos 0; size = pos 0 })
  unfolding set_paging_links
  first_page_empty n e = (
    record {
      path = path;
      range = record { start = pos 0; size = first_end (pos o) (pos l) };
      additional = format qs;
    },
    refl,
    rw (first_end_multiple n o l l_pos e),
  )

-- With l > 0, where the current page is full and more entries follow, the next link names the page
-- behind it, and the previous link of that page names the current one again.
pub next-prev :
    (links : PagingLinks) (path : Text) (c o l t : ℕ) (qs : List Text)
    → 0 < l
    → o + l < t
    → (k m : Link) × ((set_paging_links links path (pos l) (pos o) (pos l) (pos t) qs).next
        ≡ some k)
      × ((set_paging_links links path (pos c) k.range.start k.range.size (pos t) qs).prev ≡ some m)
      × (m.range ≡ record { start = pos o; size = pos l })
unfolding set_paging_links prev_start cut ◌+ℤ◌ ◌-ℤ◌
next-prev links path c o l t qs h k = (
  record {
    path = path;
    range = record { start = pos (o + l); size = pos l };
    additional = format qs;
  },
  record { path = path; range = record { start = pos o; size = pos l }; additional = format qs },
  ground arith,
  ground arith,
  refl,
)

-- ===== src/Link/Ancestors/Bounded.antt =====
-- The rounds of the query, and how many of them have a row.
use almighty_core.Prelude.{
  ℕ, zero, suc, ◌+◌, ◌≤◌, ◌≡◌, refl, sym, ap, ◌∙◌, inl, inr, Bool, true, false, not, ◌&&◌, List, [],
  ◌∷◌, arith, length, ◌==◌, if◌then◌else◌, Member, here, there, Member-select, Member-flat_map,
  Member-left, Member-right, Member-append, ◌↔◌,
}
use almighty_core.Prelude.Int.{ℤ}
use almighty_core.Link.{WorkItemLink}
use almighty_core.Link.Ancestors.{
  Row, elem, counts, first_row, next_row, joins, first_rows, next_rows, rounds, working_table,
}

abbrev unique : List ℕ → Bool
unique [] = true
unique (x ∷ xs) = not (elem x xs) && unique xs

remove_one : ℕ → List ℕ → List ℕ
remove_one x [] = []
remove_one x (y ∷ ys) = if x == y then ys else y ∷ remove_one x ys

length-remove_one :
    (x : ℕ) (ys : List ℕ) → elem x ys ≡ true → length ys ≡ suc (length (remove_one x ys))
unfolding remove_one
length-remove_one x [] h = cc
length-remove_one x (y ∷ ys) h = ground (arith, length-remove_one x ys)

elem-remove_one :
    (x z : ℕ) (ys : List ℕ) → z == x ≡ false → elem z ys ≡ true → elem z (remove_one x ys) ≡ true
unfolding remove_one
elem-remove_one x z [] h k = k
elem-remove_one x z (y ∷ ys) h k = ground (arith, elem-remove_one x z ys)

abbrev all_in : List ℕ → List ℕ → Bool
all_in [] ys = true
all_in (x ∷ xs) ys = elem x ys && all_in xs ys

all_in-remove_one :
    (x : ℕ) (xs ys : List ℕ)
    → elem x xs ≡ false
    → all_in xs ys ≡ true
    → all_in xs (remove_one x ys) ≡ true
all_in-remove_one x [] ys h k = refl
all_in-remove_one x (z ∷ xs) ys h k =
    ground (arith, elem-remove_one x z ys, all_in-remove_one x xs ys)

-- different numbers that all stand in a list are at most as many as its items
unique-bounded : (xs ys : List ℕ) → unique xs ≡ true → all_in xs ys ≡ true → length xs ≤ length ys
unique-bounded [] ys h k = omega arith
unique-bounded (x ∷ xs) ys h k =
    let e : elem x xs ≡ false = ground arith in
    let n : elem x ys ≡ true = ground arith in
    let u : unique xs ≡ true = ground arith in
    let i : all_in xs ys ≡ true = ground arith in
    let r = unique-bounded xs (remove_one x ys) u (all_in-remove_one x xs ys e i) in
    omega (arith, length-remove_one x ys n)

abbrev ids_of : List WorkItemLink → List ℕ
ids_of [] = []
ids_of (l ∷ ls) = l.id ∷ ids_of ls

length-ids_of : (links : List WorkItemLink) → length (ids_of links) ≡ length links
length-ids_of [] = refl
length-ids_of (l ∷ ls) = ap suc (length-ids_of ls)

Member-ids_of :
    {l : WorkItemLink} {links : List WorkItemLink}
    → Member l links
    → elem l.id (ids_of links) ≡ true
Member-ids_of (here ls) = ground arith
Member-ids_of (there m ls i) = ground (arith, Member-ids_of i)

module _ (links : List WorkItemLink) (link_type_id : ℕ) where
  -- what the rows of round k share: k + 1 visited links, different ones unless the row closes a cycle
  record InRound (k : ℕ) (w : Row) : Type 0 where
    depth : length w.already_visited ≡ suc k
    known : all_in w.already_visited (ids_of links) ≡ true
    fresh : not w.cycle ≡ unique w.already_visited

  unfoldable pub round : ℕ → ℤ → List ℕ → List Row
  round zero up ids = first_rows links link_type_id ids
  round (suc k) up ids = next_rows links link_type_id up (round k up ids)

  round-InRound :
      (k : ℕ) (up : ℤ) (ids : List ℕ) (w : Row) → Member w (round k up ids) → InRound k w
  unfolding round first_rows next_rows
  round-InRound zero up ids w m =
      let (l, i, p, e) = Member-select _ (first_row links link_type_id) links m in
      rw e (record { depth = refl; known = ground (arith, Member-ids_of i); fresh = refl })
  round-InRound (suc k) up ids w m =
      let (v, n, o) = Member-flat_map _ (round k up ids) m in
      let (l, i, p, e) =
        Member-select (joins links link_type_id up v) (next_row links link_type_id v) links o in
      let r = round-InRound k up ids v n in
      let d = r.depth in
      let a = r.known in
      let f = r.fresh in
      rw e (record {
        depth = omega arith;
        known = ground (arith, Member-ids_of i);
        fresh = ground arith;
      })

  pub joins-fresh :
      (up : ℤ) (w : Row) (l : WorkItemLink)
      → joins links link_type_id up w l ≡ true
      → (w.cycle ≡ false) × (l.target_id ≡ w.ancestor) × (counts links link_type_id l ≡ true)
  joins-fresh up w l h = (ground arith, ground arith, ground arith)

  -- a round whose number passes the number of links is empty
  round_bounded :
      (k : ℕ) (up : ℤ) (ids : List ℕ) (w : Row) → Member w (round k up ids) → k ≤ length links
  unfolding round next_rows
  round_bounded zero up ids w m = omega arith
  round_bounded (suc k) up ids w m =
      let (v, n, o) = Member-flat_map _ (round k up ids) m in
      let (l, i, p, e) =
        Member-select (joins links link_type_id up v) (next_row links link_type_id v) links o in
      let (c, t, y) = joins-fresh up v l p in
      let r = round-InRound k up ids v n in
      let u : unique v.already_visited ≡ true = sym r.fresh ∙ ap not c in
      let b = unique-bounded v.already_visited (ids_of links) u r.known in
      let d = r.depth in omega (arith, length-ids_of links)

  round-rounds :
      (k j m fuel : ℕ) (up : ℤ) (ids : List ℕ) (w : Row)
      → m ≡ k + j
      → suc k ≤ fuel
      → Member w (round m up ids)
      → Member w (rounds links link_type_id fuel up (round j up ids))
  unfolding rounds round
  round-rounds k j m zero up ids w e h n = absurd (omega arith)
  round-rounds zero j m (suc fuel) up ids w e h n =
      let q : m ≡ j = omega arith in
      let o : Member w (round j up ids) = rw q at n in Member-left _ o
  round-rounds (suc k) j m (suc fuel) up ids w e h n =
      Member-right (round j up ids)
        (round-rounds k (suc j) m fuel up ids w (omega arith) (omega arith) n)

  rounds-round :
      (fuel j : ℕ) (up : ℤ) (ids : List ℕ) (w : Row)
      → Member w (rounds links link_type_id fuel up (round j up ids))
      → (k : ℕ) × Member w (round k up ids)
  unfolding rounds round
  rounds-round zero j up ids w m = elim m [ ]
  rounds-round (suc fuel) j up ids w m = elim (Member-append (round j up ids) _ m) [
    | inl n ↦ (j, n)
    | inr n ↦ rounds-round fuel (suc j) up ids w n
  ]

  -- The working table holds exactly the rows of all rounds, at any level limit: the rounds that are
  -- run, one more than there are links, are enough.
  pub working_table_iff :
      (up : ℤ) (ids : List ℕ) (w : Row)
      → Member w (working_table links link_type_id up ids) ↔ ((k : ℕ) × Member w (round k up ids))
  unfolding working_table round
  working_table_iff up ids w = (
    rounds-round (suc (length links)) zero up ids w,
    λ h.
        let (k, m) = h in
        let b = round_bounded k up ids w m in
        round-rounds k zero k (suc (length links)) up ids w (omega arith) (omega arith) m,
  )

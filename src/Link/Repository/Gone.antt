-- ===== src/Link/Repository/Gone.antt =====
-- Delete and DeleteRelatedLinks of workitem/link/link_repository.go: which links they leave.
use almighty_core.Prelude.{
  ℕ, ◌↔◌, Option-cases, Member-cons, ◌≡◌, ◌≢◌, refl, sym, ap, ◌∙◌, inl, inr, true, false, ◌&&◌,
  Option, none, some, List, [], ◌∷◌, arith, ◌==◌, Bool-cases, Member, here, there, select,
  select-Member,
}
use almighty_core.Prelude.Int.{ℤ}
use almighty_core.Errors.{not_found_class}
use almighty_core.Link.{WorkItemLink, is_live}
use almighty_core.Link.Repository.{
  Store, failed, delete, find_link, revision_type_delete, done, find_item, exists_link,
  mark_deleted, mark_all, delete_link, delete_links, delete_locked, delete_related_links,
  is_related, delete_all_sourced, Item,
}
use almighty_core.Link.Repository.Topology.{exists_link-Member}

Member-mark_all :
    (now : ℤ) (id : ℕ) {m : WorkItemLink} (links : List WorkItemLink)
    → Member m (mark_all now id links)
    → (l : WorkItemLink) × Member l links × (m ≡ mark_deleted now id l)
Member-mark_all now id [] i = elim i [ ]
Member-mark_all now id (l ∷ ls) i = elim (Member-cons i) [
  | inl e ↦ (l, here ls, e)
  | inr j ↦ let (k, m, e) = Member-mark_all now id ls j in (k, there l ls m, e)
]

live_unmarked :
    (now : ℤ) (id : ℕ) (l : WorkItemLink)
    → is_live (mark_deleted now id l) ≡ true
    → (mark_deleted now id l ≡ l) × (l.id ≢ id)
live_unmarked now id l h = elim (Bool-cases ((l.id == id) && is_live l)) [
  | inl e ↦
      let p : is_live (record l { lifecycle = record l.lifecycle { deleted_at = some now } })
          ≡ true =
        rw e at h in
      cc
  | inr e ↦
      let p : is_live l ≡ true = rw e at h in
      (rw e refl, λ q. let z : (l.id == id) ≡ true = ground arith in cc)
]

module _ (now : ℤ) (s : Store) (lnk : WorkItemLink) (suppressor : ℕ) where
  -- a link that is live after a deletion was there before, and is another than the deleted one
  left_by_delete_link :
      (m : WorkItemLink)
      → Member m (delete_link now s lnk suppressor).links
      → is_live m ≡ true
      → Member m s.links × (m.id ≢ lnk.id)
  unfolding delete_link
  left_by_delete_link m i v =
      elim (Bool-cases (exists_link (λ l. (l.id == lnk.id) && is_live l) s.links)) [
        | inl e ↦
            let j : Member m (mark_all now lnk.id s.links) = rw e at i in
            let (l, o, q) = Member-mark_all now lnk.id s.links j in
            let w : is_live (mark_deleted now lnk.id l) ≡ true = rw q at v in
            let (a, b) = live_unmarked now lnk.id l w in
            (rw (q ∙ a) o, λ z. b (ap (λ (r : WorkItemLink). r.id) (sym (q ∙ a)) ∙ z))
        | inr e ↦
            let j : Member m s.links = rw e at i in
            (
              j,
              λ z.
                  let p : (m.id == lnk.id) && is_live m ≡ true = ground arith in
                  let q = exists_link-Member (λ l. (l.id == lnk.id) && is_live l) j p in cc,
            )
      ]

others :
    (k : WorkItemLink) (ls : List WorkItemLink) (m : WorkItemLink)
    → m.id ≢ k.id
    → ((l : WorkItemLink) → Member l ls → m.id ≢ l.id)
    → (l : WorkItemLink) → Member l (k ∷ ls)
    → m.id ≢ l.id
others k ls m d b l (here _) = d
others k ls m d b l (there _ _ j) = b l j

left_by_delete_links :
    (now : ℤ) (s : Store) (ls : List WorkItemLink) (suppressor : ℕ) (m : WorkItemLink)
    → Member m (delete_links now s ls suppressor).links
    → is_live m ≡ true
    → Member m s.links × ((l : WorkItemLink) → Member l ls → m.id ≢ l.id)
left_by_delete_links now s [] suppressor m i v = (i, λ l j. elim j [ ])
left_by_delete_links now s (k ∷ ls) suppressor m i v =
    let (a, b) = left_by_delete_links now (delete_link now s k suppressor) ls suppressor m i v in
    let (c, d) = left_by_delete_link now s k suppressor m a v in (c, others k ls m d b)

left_by_delete_all_sourced :
    (now : ℤ) (s s' : Store) (ls : List WorkItemLink) (suppressor : ℕ) (m : WorkItemLink)
    (src : Option Item)
    → delete_all_sourced now s ls suppressor src ≡ done s'
    → Member m s'.links
    → is_live m ≡ true
    → Member m s.links × ((l : WorkItemLink) → Member l ls → m.id ≢ l.id)
left_by_delete_all_sourced now s s' ls suppressor m none h i v = cc
left_by_delete_all_sourced now s s' ls suppressor m (some src) h i v =
    let e : s' ≡ delete_links now s ls suppressor = cc in
    let j : Member m (delete_links now s ls suppressor).links =
      rw (ap (λ (r : Store). r.links) e) at i in
    left_by_delete_links now s ls suppressor m j v

left_by_delete_locked :
    (now : ℤ) (s s' : Store) (ls : List WorkItemLink) (suppressor : ℕ) (m : WorkItemLink)
    → delete_locked now s ls suppressor ≡ done s'
    → Member m s'.links
    → is_live m ≡ true
    → Member m s.links × ((l : WorkItemLink) → Member l ls → m.id ≢ l.id)
left_by_delete_locked now s s' [] suppressor m h i v =
    let e : s' ≡ s = cc in (rw (ap (λ (r : Store). r.links) e) at i, λ l j. elim j [ ])
left_by_delete_locked now s s' (k ∷ ls) suppressor m h i v =
    left_by_delete_all_sourced now s s' (k ∷ ls) suppressor m (find_item s.items k.source_id) h i v

-- After the links of a work item were deleted, no link that is not deleted has it as its source or
-- its target, and each of those that are left was there before.
pub delete_related_links_all :
    (now : ℤ) (s s' : Store) (wi_id suppressor : ℕ) (m : WorkItemLink)
    → delete_related_links now s wi_id suppressor ≡ done s'
    → Member m s'.links
    → is_live m ≡ true
    → Member m s.links × (m.source_id ≢ wi_id) × (m.target_id ≢ wi_id)
unfolding delete_related_links
delete_related_links_all now s s' wi_id suppressor m h i v =
    let (a, b) =
      left_by_delete_locked now s s' (select (is_related wi_id) (λ l. l) s.links) suppressor m h i
        v in
    let unrelated : is_related wi_id m ≡ false = elim (Bool-cases (is_related wi_id m)) [
      | inl e ↦ absurd (b m (select-Member (is_related wi_id) (λ l. l) s.links a e) refl)
      | inr e ↦ e
    ] in
    (
      a,
      λ q. let z : (m.source_id == wi_id) ≡ true = ground arith in ground arith,
      λ q. let z : (m.target_id == wi_id) ≡ true = ground arith in ground arith,
    )

find_link-Member :
    (ls : List WorkItemLink) (id : ℕ) {l : WorkItemLink}
    → find_link ls id ≡ some l
    → Member l ls × (l.id ≡ id) × (is_live l ≡ true)
find_link-Member [] id h = cc
find_link-Member (k ∷ ls) id {l} h = elim (Bool-cases ((k.id == id) && is_live k)) [
  | inl t ↦
      let p : some k ≡ some l = rw t at h in
      let q : l ≡ k = cc in
      let e : k.id ≡ id = ground arith in
      let v : is_live k ≡ true = ground arith in
      (rw q (here ls), ap (λ (r : WorkItemLink). r.id) q ∙ e, ap is_live q ∙ v)
  | inr f ↦
      let p : find_link ls id ≡ some l = rw f at h in
      let (m, e, v) = find_link-Member ls id p in (there k ls m, e, v)
]

mark_all-Member :
    (now : ℤ) (id : ℕ) {m : WorkItemLink} {ls : List WorkItemLink}
    → Member m ls
    → m.id ≢ id
    → Member m (mark_all now id ls)
mark_all-Member now id {m} (here ls) n = elim (Bool-cases ((m.id == id) && is_live m)) [
  | inl t ↦ absurd (ground arith)
  | inr f ↦ rw f (here (mark_all now id ls))
]
mark_all-Member now id (there k ls i) n =
    there (mark_deleted now id k) (mark_all now id ls) (mark_all-Member now id i n)

delete_link_made :
    (now : ℤ) (s : Store) (l : WorkItemLink) (suppressor : ℕ)
    → Member l s.links
    → is_live l ≡ true
    → ((delete_link now s l suppressor).links ≡ mark_all now l.id s.links)
      × ((delete_link now s l suppressor).revisions
          ≡ record { modifier = suppressor; time = now; type = revision_type_delete; link = l }
            ∷ s.revisions)
unfolding delete_link
delete_link_made now s l suppressor i v =
    let p : (l.id == l.id) && is_live l ≡ true = ground arith in
    let q = exists_link-Member (λ k. (k.id == l.id) && is_live k) i p in rw q (refl, refl)

-- A Delete that succeeds had found a link with the id that is not deleted; of the links that are not
-- deleted it leaves exactly those with another id; and it stores one revision, of that link, with the
-- time and the identity that it was given.
pub delete_iff :
    (now : ℤ) (s s' : Store) (link_id suppressor : ℕ)
    → delete now s link_id suppressor ≡ done s'
    → ((l : WorkItemLink) × Member l s.links
        × (l.id ≡ link_id)
        × (is_live l ≡ true)
        × (s'.revisions
            ≡ record { modifier = suppressor; time = now; type = revision_type_delete; link = l }
              ∷ s.revisions))
      × ((m : WorkItemLink)
          → is_live m ≡ true
          → Member m s'.links ↔ (Member m s.links × (m.id ≢ link_id)))
unfolding delete
delete_iff now s s' link_id suppressor h = elim (Option-cases (find_link s.links link_id)) [
  | inl e ↦ let p : failed not_found_class ≡ done s' = rw e at h in cc
  | inr (l, e) ↦ elim (Option-cases (find_item s.items l.source_id)) [
    | inl f ↦ let p : failed not_found_class ≡ done s' = rw (e, f) at h in cc
    | inr (src, f) ↦
        let p : done (delete_link now s l suppressor) ≡ done s' = rw (e, f) at h in
        let q : delete_link now s l suppressor ≡ s' = cc in
        let (i, k, v) = find_link-Member s.links link_id e in
        let (a, b) = delete_link_made now s l suppressor i v in
        (
          (l, i, k, v, ap (λ (r : Store). r.revisions) (sym q) ∙ b),
          λ m w. (
            λ j.
                let j2 : Member m (delete_link now s l suppressor).links =
                  rw (ap (λ (r : Store). r.links) q) j in
                let (c, d) = left_by_delete_link now s l suppressor m j2 w in
                (c, λ z. d (z ∙ sym k)),
            λ (c, d).
                let j : Member m (mark_all now l.id s.links) =
                  mark_all-Member now l.id c (λ z. d (z ∙ k)) in
                rw (ap (λ (r : Store). r.links) (sym q) ∙ a) j,
          ),
        )
  ]
]

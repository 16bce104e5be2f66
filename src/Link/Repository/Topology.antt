-- ===== src/Link/Repository/Topology.antt =====
-- The topology of the link types as an invariant of the tables, and what a successful Create found
-- and did.
use almighty_core.Prelude.{
  ℕ, ◌≡◌, ◌≢◌, refl, sym, ap, ◌∙◌, ◌⊎◌, inl, inr, Bool, true, false, not, ◌&&◌, Option, none, some,
  List, [], ◌∷◌, arith, ◌==◌, Bool-cases, Member, here, there, Member-cons,
}
use almighty_core.Prelude.Int.{ℤ}
use almighty_core.Link.{WorkItemLink, is_live, check_valid_for_creation}
use almighty_core.Link.Types.{WorkItemLinkType}
use almighty_core.Link.Ancestors.{counts}
use almighty_core.Link.Ancestors.Complete.{Above, parent, further, IsKeyed}
use almighty_core.Link.Repository.{
  Store, Answer, done, failed, panicked, find_type, exists_link, has_parent, detect_cycle, is_tree,
  is_tree_or_dependency, validate_topology, check_spaces, items_in, new_link, insert_link,
  validated, after_spaces, create,
}
use almighty_core.Link.Repository.Cycles.{detect_cycle_iff, closes_no_cycle}

-- The links of a type that count at all: no two of them lead to the same item.
abbrev pub HasSingleParents : List WorkItemLink → ℕ → Type 0
HasSingleParents links ty =
    (k l : WorkItemLink)
    → Member k links
    → Member l links
    → counts links ty k ≡ true
    → counts links ty l ≡ true
    → k.target_id ≡ l.target_id
    → k ≡ l

abbrev pub IsAcyclic : List WorkItemLink → ℕ → Type 0
IsAcyclic links ty = (x : ℕ) → ¬ Above links ty x x

-- What holds of the tables: a link is known by its id, the links of a tree or a dependency type form
-- no cycle, and in a tree no item has two parents.
pub record IsSound (types : List WorkItemLinkType) (links : List WorkItemLink) : Type 0 where
  pub keyed : IsKeyed links
  pub acyclic :
      (ty : ℕ) (t : WorkItemLinkType)
      → find_type types ty ≡ some t
      → is_tree_or_dependency t.topology ≡ true
      → IsAcyclic links ty
  pub single :
      (ty : ℕ) (t : WorkItemLinkType)
      → find_type types ty ≡ some t
      → is_tree t.topology ≡ true
      → HasSingleParents links ty

Option-cases : {A : Type 0} (o : Option A) → (o ≡ none) ⊎ ((a : A) × (o ≡ some a))
Option-cases none = inl refl
Option-cases (some a) = inr (a, refl)

-- `s'` is `s` with one link more
abbrev pub Linked : Store → WorkItemLink → Store → Type 0
Linked s link s' = (s'.links ≡ link ∷ s.links) × (s'.link_types ≡ s.link_types)

insert_link-Linked :
    (now : ℤ) (s s' : Store) (link l : WorkItemLink) (c : ℕ)
    → insert_link now s link c ≡ done (s', l)
    → Linked s link s'
unfolding insert_link
insert_link-Linked now s s' link l c h = (ground arith, ground arith)

abbrev pub Created : Store → WorkItemLink → Option WorkItemLinkType → Store → Type 0
Created s link found s' =
    (t : WorkItemLinkType) × (found ≡ some t)
    × (validate_topology s.links link.source_id link.target_id t ≡ none)
    × Linked s link s'

validated-Created :
    (now : ℤ) (s s' : Store) (link l : WorkItemLink) (c : ℕ) (found : Option WorkItemLinkType)
    → validated now s link c found ≡ done (s', l)
    → Created s link found s'
validated-Created now s s' link l c none h = cc
validated-Created now s s' link l c (some t) h =
    elim (Option-cases (validate_topology s.links link.source_id link.target_id t)) [
      | inl e ↦
          let p : insert_link now s link c ≡ done (s', l) = rw (e, validated) at h in
          (t, refl, e, insert_link-Linked now s s' link l c p)
      | inr (d, e) ↦ let p : failed d ≡ done (s', l) = rw (e, validated) at h in cc
    ]

after_spaces-Created :
    (now : ℤ) (s s' : Store) (link l : WorkItemLink) (c : ℕ) (a : Answer (Unit {0}))
    → after_spaces now s link c a ≡ done (s', l)
    → Created s link (find_type s.link_types link.link_type_id) s'
after_spaces-Created now s s' link l c (done u) h =
    validated-Created now s s' link l c (find_type s.link_types link.link_type_id) h
after_spaces-Created now s s' link l c (failed d) h = cc
after_spaces-Created now s s' link l c panicked h = cc

pub create-Created :
    (now : ℤ) (id : ℕ) (s s' : Store) (source target ty creator : ℕ) (l : WorkItemLink)
    → create now id s source target ty creator ≡ done (s', l)
    → Created s (new_link now id source target ty) (find_type s.link_types ty) s'
unfolding create
create-Created now id s s' source target ty creator l h =
    let n = new_link now id source target ty in
    elim (Bool-cases (not (check_valid_for_creation n))) [
      | inl e ↦ let p : failed _ ≡ done (s', l) = rw e at h in cc
      | inr e ↦
          let p : after_spaces now s n creator (check_spaces (items_in s.items source target))
              ≡ done (s', l) =
            rw e at h in
          after_spaces-Created now s s' n l creator (check_spaces (items_in s.items source target))
            p
    ]

pub find_type-id :
    (ts : List WorkItemLinkType) (id : ℕ) (t : WorkItemLinkType)
    → find_type ts id ≡ some t
    → t.id ≡ id
find_type-id [] id t h = cc
find_type-id (u ∷ ts) id t h = ground (arith, find_type-id ts id t)

pub validated_tree :
    (links : List WorkItemLink) (source target : ℕ) (t : WorkItemLinkType)
    → validate_topology links source target t ≡ none
    → is_tree t.topology ≡ true
    → has_parent links target t.id ≡ false
unfolding validate_topology
validated_tree links source target t h k = ground arith

validated_cycle :
    (links : List WorkItemLink) (source target : ℕ) (t : WorkItemLinkType)
    → validate_topology links source target t ≡ none
    → is_tree_or_dependency t.topology ≡ true
    → detect_cycle links source target t.id ≡ false
unfolding validate_topology
validated_cycle links source target t h k = ground arith

pub exists_link-Member :
    (p : WorkItemLink → Bool) {l : WorkItemLink} {ls : List WorkItemLink}
    → Member l ls
    → p l ≡ true
    → exists_link p ls ≡ true
exists_link-Member p (here ls) h = ground arith
exists_link-Member p (there k ls m) h = ground (arith, exists_link-Member p m h)

no_parent-Member :
    (links : List WorkItemLink) (target ty : ℕ) (l : WorkItemLink)
    → has_parent links target ty ≡ false
    → Member l links
    → counts links ty l ≡ true
    → l.target_id ≢ target
unfolding has_parent
no_parent-Member links target ty l h m c e =
    let p : (l.link_type_id == ty) && ((l.target_id == target) && is_live l) ≡ true =
      ground arith in
    let q =
      exists_link-Member (λ k. (k.link_type_id == ty) && ((k.target_id == target) && is_live k)) m
        p in
    cc

-- a link of another type opens no way
pub Above-other :
    (n : WorkItemLink) (links : List WorkItemLink) (ty : ℕ) {a c : ℕ}
    → counts links ty n ≡ false
    → Above (n ∷ links) ty a c
    → Above links ty a c
Above-other n links ty h (parent l m y s t) = elim (Member-cons m) [
  | inl e ↦ let p : counts links ty n ≡ true = rw e at y in cc
  | inr i ↦ parent l i y s t
]
Above-other n links ty h (further l m y s t r) = elim (Member-cons m) [
  | inl e ↦ let p : counts links ty n ≡ true = rw e at y in cc
  | inr i ↦ further l i y s t (Above-other n links ty h r)
]

module _ (links : List WorkItemLink) (n : WorkItemLink) where
  pub insert-IsKeyed :
      IsKeyed links → ((l : WorkItemLink) → Member l links → l.id ≢ n.id) → IsKeyed (n ∷ links)
  insert-IsKeyed key fresh k l i j e = elim (Member-cons i) [
    | inl a ↦ elim (Member-cons j) [
      | inl b ↦ a ∙ sym b
      | inr b ↦ absurd (fresh l b (sym e ∙ ap (λ (r : WorkItemLink). r.id) a))
    ]
    | inr a ↦ elim (Member-cons j) [
      | inl b ↦ absurd (fresh k a (e ∙ ap (λ (r : WorkItemLink). r.id) b))
      | inr b ↦ key k l a b e
    ]
  ]

  pub insert-IsAcyclic :
      (ty : ℕ) (t : WorkItemLinkType)
      → IsKeyed links
      → n.source_id ≢ n.target_id
      → validate_topology links n.source_id n.target_id t ≡ none
      → is_tree_or_dependency t.topology ≡ true
      → t.id ≡ ty
      → IsAcyclic links ty
      → IsAcyclic (n ∷ links) ty
  insert-IsAcyclic ty t key d v c e h x =
      let f : detect_cycle links n.source_id n.target_id ty ≡ false =
        rw (← e) (validated_cycle links n.source_id n.target_id t v c) in
      closes_no_cycle links ty n x d
        (λ r. let q = (detect_cycle_iff links ty n.source_id n.target_id key).1 r in cc) (h x)

  pub insert-HasSingleParents :
      (ty : ℕ)
      → (counts links ty n ≡ true → has_parent links n.target_id ty ≡ false)
      → HasSingleParents links ty
      → HasSingleParents (n ∷ links) ty
  insert-HasSingleParents ty f h k l i j c d e = elim (Member-cons i) [
    | inl a ↦ elim (Member-cons j) [
      | inl b ↦ a ∙ sym b
      | inr b ↦
          let p : counts links ty n ≡ true = rw a at c in
          absurd (
            no_parent-Member links n.target_id ty l (f p) b d
              (sym e ∙ ap (λ (r : WorkItemLink). r.target_id) a))
    ]
    | inr a ↦ elim (Member-cons j) [
      | inl b ↦
          let p : counts links ty n ≡ true = rw b at d in
          absurd (
            no_parent-Member links n.target_id ty k (f p) a c
              (e ∙ ap (λ (r : WorkItemLink). r.target_id) b))
      | inr b ↦ h k l a b c d e
    ]
  ]

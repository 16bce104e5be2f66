-- ===== src/Link/Repository/Kept.antt =====
-- Create of workitem/link/link_repository.go, and the topologies.
use almighty_core.Prelude.{
  ℕ, ◌≡◌, ◌≢◌, inl, inr, false, Option, none, some, List, ◌∷◌, arith, ◌==◌, Bool-cases, Member,
}
use almighty_core.Prelude.Int.{ℤ}
use almighty_core.Link.{WorkItemLink}
use almighty_core.Link.Types.{WorkItemLinkType}
use almighty_core.Link.Repository.{
  Store, done, find_type, has_parent, validate_topology, new_link, create,
}
use almighty_core.Link.Repository.Topology.{
  IsSound, find_type-id, create-Created, Above-other, insert-IsKeyed, insert-IsAcyclic,
  insert-HasSingleParents, validated_tree,
}

pub IsSound-at :
    {types types' : List WorkItemLinkType} {links links' : List WorkItemLink}
    → types' ≡ types
    → links' ≡ links
    → IsSound types links
    → IsSound types' links'
IsSound-at e f s = rw e (rw f s)

found-eq :
    (found : Option WorkItemLinkType) (t u : WorkItemLinkType)
    → found ≡ some t
    → found ≡ some u
    → t ≡ u
found-eq found t u h k = cc

insert-IsSound :
    (types : List WorkItemLinkType) (links : List WorkItemLink) (n : WorkItemLink)
    (t : WorkItemLinkType)
    → IsSound types links
    → ((l : WorkItemLink) → Member l links → l.id ≢ n.id)
    → n.source_id ≢ n.target_id
    → find_type types n.link_type_id ≡ some t
    → validate_topology links n.source_id n.target_id t ≡ none
    → IsSound types (n ∷ links)
insert-IsSound types links n t s fresh d f v =
    let e : t.id ≡ n.link_type_id = find_type-id types n.link_type_id t f in
    record {
      keyed = insert-IsKeyed links n s.keyed fresh;
      acyclic = λ ty u g c. elim (Bool-cases (n.link_type_id == ty)) [
        | inl a ↦
            let b : n.link_type_id ≡ ty = ground arith in
            let p : find_type types ty ≡ some t = rw b at f in
            let q : t ≡ u = found-eq (find_type types ty) t u p g in
            let w : validate_topology links n.source_id n.target_id u ≡ none = rw q at v in
            insert-IsAcyclic links n ty u s.keyed d w c (find_type-id types ty u g)
              (s.acyclic ty u g c)
        | inr a ↦ λ x r. s.acyclic ty u g c x (Above-other n links ty (ground arith) r)
      ];
      single = λ ty u g c.
          insert-HasSingleParents links n ty
            (λ y.
              let b : n.link_type_id ≡ ty = ground arith in
              let p : find_type types ty ≡ some t = rw b at f in
              let q : t ≡ u = found-eq (find_type types ty) t u p g in
              let w : validate_topology links n.source_id n.target_id u ≡ none = rw q at v in
              let z : has_parent links n.target_id u.id ≡ false =
                validated_tree links n.source_id n.target_id u w c in
              rw (find_type-id types ty u g) at z)
            (s.single ty u g c);
    }

-- Creating a link keeps every topology, if the database makes up a new id and the two work items
-- differ: the links of tree and dependency types form no cycle, and in a tree no item gets a second
-- parent.
pub create-IsSound :
    (now : ℤ) (id : ℕ) (s s' : Store) (source target ty creator : ℕ) (l : WorkItemLink)
    → IsSound s.link_types s.links
    → ((k : WorkItemLink) → Member k s.links → k.id ≢ id)
    → source ≢ target
    → create now id s source target ty creator ≡ done (s', l)
    → IsSound s'.link_types s'.links
create-IsSound now id s s' source target ty creator l sound fresh d h =
    let (t, f, v, z) = create-Created now id s s' source target ty creator l h in
    let (el, et) = z in
    let r =
      insert-IsSound s.link_types s.links (new_link now id source target ty) t sound fresh d f v in
    IsSound-at et el r

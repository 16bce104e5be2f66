-- ===== src/Examples/Links.antt =====
-- Links and paths at concrete inputs.
use almighty_core.Prelude.{
  ℕ, ◌≡◌, ◌≢◌, ◌↔◌, refl, true, false, none, some, List, [], ◌∷◌, Member, here, there,
}
use almighty_core.Prelude.Int.{pos, negsuc}
use almighty_core.Prelude.Texts.{codes}
use almighty_core.Link.{WorkItemLink, is_live, check_valid_for_creation}
use almighty_core.Link.Types.{WorkItemLinkType, tree}
use almighty_core.Link.Ancestors.{Row, working_table, first_rows, get_ancestors, rounds, next_rows}
use almighty_core.Link.Ancestors.Bounded.{round, working_table_iff}
use almighty_core.Link.Ancestors.Complete.{Above, parent, further, IsKeyed, ancestors_iff}
use almighty_core.Link.Repository.{
  Store, done, create, delete, delete_related_links, new_link, insert_link, revision_type_create,
  revision_type_delete, delete_link, validate_topology, has_parent, detect_cycle,
}
use almighty_core.Link.Repository.Cycles.{detect_cycle_iff}
use almighty_core.Link.Repository.Topology.{IsSound}
use almighty_core.Link.Repository.Kept.{create-IsSound}
use almighty_core.Link.Repository.Gone.{delete_iff, delete_related_links_all}

-- an item 1 above an item 2, and 2 above 3
abbrev upper : WorkItemLink
upper = new_link (pos 9) 10 1 2 7

abbrev lower : WorkItemLink
lower = new_link (pos 9) 11 2 3 7

abbrev both : List WorkItemLink
both = lower ∷ upper ∷ []

both-IsKeyed : IsKeyed both
both-IsKeyed k l (here _) (here _) e = refl
both-IsKeyed k l (here _) (there _ _ (here _)) e = cc
both-IsKeyed k l (there _ _ (here _)) (here _) e = cc
both-IsKeyed k l (there _ _ (here _)) (there _ _ (here _)) e = refl
both-IsKeyed k l (there _ _ (there _ _ i)) j e = elim i [ ]
both-IsKeyed k l i (there _ _ (there _ _ j)) e = elim j [ ]

abbrev later : WorkItemLink
later = record upper { version = 3 }

abbrev first : Row
first = record {
  id = 11;
  ancestor = 2;
  direct_child = 3;
  original_child = 3;
  already_visited = 11 ∷ [];
  cycle = false;
}

working_table_iff_example :
    Member first (working_table both 7 (negsuc 0) (3 ∷ []))
    ↔ ((k : ℕ) × Member first (round both 7 k (negsuc 0) (3 ∷ [])))
working_table_iff_example = working_table_iff both 7 (negsuc 0) (3 ∷ []) first

ancestors_iff_example :
    ((w : Row) × Member w (working_table both 7 (negsuc 0) (3 ∷ [])) × (w.ancestor ≡ 1))
    ↔ Above both 7 1 3
ancestors_iff_example = ancestors_iff both 7 3 1 both-IsKeyed

detect_cycle_iff_example : (detect_cycle both 3 1 7 ≡ true) ↔ Above both 7 1 3
detect_cycle_iff_example = detect_cycle_iff both 7 3 1 both-IsKeyed

none-IsKeyed : IsKeyed []
none-IsKeyed k l i j e = elim i [ ]

none-Above : (ty a c : ℕ) → ¬ Above [] ty a c
none-Above ty a c (parent l i y s t) = elim i [ ]
none-Above ty a c (further l i y s t r) = elim i [ ]

abbrev tree_type : WorkItemLinkType
tree_type = record {
  lifecycle = record { created_at = pos 1; updated_at = pos 1; deleted_at = none };
  id = 7;
  name = codes "Parent child";
  description = none;
  version = 0;
  topology = tree;
  forward_name = codes "parent of";
  forward_description = none;
  reverse_name = codes "child of";
  reverse_description = none;
  space_template_id = 1;
}

abbrev tables : Store
tables = record {
  items =
      record { item_id = 1; space_id = 5; deleted = false }
      ∷ record { item_id = 2; space_id = 5; deleted = false }
      ∷ [];
  link_types = tree_type ∷ [];
  links = [];
  revisions = [];
}

tables-IsSound : IsSound tables.link_types tables.links
tables-IsSound = record {
  keyed = none-IsKeyed;
  acyclic = λ ty t f c x. none-Above ty x x;
  single = λ ty t f c k l i. elim i [ ];
}

abbrev linked : Store
linked = record tables {
  links = upper ∷ [];
  revisions = record { modifier = 8; time = pos 9; type = revision_type_create; link = upper } ∷ [];
}

link_made : create (pos 9) 10 tables 1 2 7 8 ≡ done (linked, upper)
unfolding create validate_topology has_parent detect_cycle insert_link check_valid_for_creation
    get_ancestors working_table rounds first_rows next_rows
link_made = refl

create-IsSound_example : IsSound linked.link_types linked.links
create-IsSound_example =
    create-IsSound (pos 9) 10 tables linked 1 2 7 8 upper tables-IsSound (λ k i. elim i [ ])
      (λ e. cc) link_made

abbrev unlinked : Store
unlinked = record linked {
  links = record upper { lifecycle = record upper.lifecycle { deleted_at = some (pos 12) } } ∷ [];
  revisions =
      record { modifier = 8; time = pos 12; type = revision_type_delete; link = upper }
      ∷ linked.revisions;
}

delete_iff_example :
    ((l : WorkItemLink) × Member l linked.links
      × (l.id ≡ 10)
      × (is_live l ≡ true)
      × (unlinked.revisions
          ≡ record { modifier = 8; time = pos 12; type = revision_type_delete; link = l }
            ∷ linked.revisions))
    × ((m : WorkItemLink)
        → is_live m ≡ true
        → Member m unlinked.links ↔ (Member m linked.links × (m.id ≢ 10)))
unfolding delete delete_link
delete_iff_example = delete_iff (pos 12) linked unlinked 10 8 refl

abbrev aside : WorkItemLink
aside = new_link (pos 9) 12 3 4 7

abbrev with_aside : Store
with_aside = record linked { links = aside ∷ upper ∷ [] }

abbrev aside_left : Store
aside_left = record unlinked { links = aside ∷ unlinked.links }

delete_related_links_all_example :
    Member aside with_aside.links × (aside.source_id ≢ 2) × (aside.target_id ≢ 2)
unfolding delete_related_links delete_link
delete_related_links_all_example =
    delete_related_links_all (pos 12) with_aside aside_left 2 8 aside refl (here unlinked.links)
      refl

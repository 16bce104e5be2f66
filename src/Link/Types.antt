-- ===== src/Link/Types.antt =====
-- workitem/link/topology.go and type.go: the types of links.
use almighty_core.Prelude.{
  ℕ, ◌≡◌, refl, Bool, true, false, not, Option, none, some, ◌==◌, if◌then◌else◌,
}
use almighty_core.Prelude.Texts.{Text, codes, eqb_text}
use almighty_core.Link.{Lifecycle, equal_lifecycle}

-- A Topology is a string: `unnamed` is one that no constant names.
pub data Topology : Type 0 where
  network directed_network dependency tree : Topology
  unnamed : Text → Topology

unfoldable pub topology_text : Topology → Text
topology_text network = codes "network"
topology_text directed_network = codes "directed_network"
topology_text dependency = codes "dependency"
topology_text tree = codes "tree"
topology_text (unnamed s) = s

-- Topology(s), with the constant that it equals, if any, made visible
unfoldable pub topology_of : Text → Topology
topology_of s =
    if eqb_text s (codes "network")
    then network
    else if eqb_text s (codes "directed_network")
    then directed_network
    else if eqb_text s (codes "dependency")
    then dependency
    else if eqb_text s (codes "tree")
    then tree
    else unnamed s

-- whether CheckValid finds no error
abbrev pub check_valid : Topology → Bool
check_valid (unnamed s) = false
check_valid _ = true

-- a value as a database driver gives it: []byte, string, a Topology, or something else
pub data Scanned : Type 0 where
  bytes string : Text → Scanned
  topology : Topology → Scanned
  something_else : Scanned

-- what *t is set to, and whether no error is returned
unfoldable pub scan : Topology → Scanned → Topology × Bool
unfolding topology_of
scan t (bytes v) = let u = topology_of v in (u, check_valid u)
scan t (string v) = let u = topology_of v in (u, check_valid u)
scan t (topology u) = (u, check_valid u)
scan t something_else = (t, false)

pub record WorkItemLinkType : Type 0 where
  pub lifecycle : Lifecycle
  pub id : ℕ
  pub name : Text
  pub description : Option Text
  pub version : ℕ
  pub topology : Topology
  pub forward_name : Text
  pub forward_description : Option Text
  pub reverse_name : Text
  pub reverse_description : Option Text
  pub space_template_id : ℕ

abbrev eqb_text? : Option Text → Option Text → Bool
eqb_text? none none = true
eqb_text? (some s) (some t) = eqb_text s t
eqb_text? _ _ = false

unfoldable pub equal_type : WorkItemLinkType → WorkItemLinkType → Bool
unfolding topology_text
equal_type t other =
    if not (t.id == other.id)
    then false
    else if not (eqb_text t.name other.name)
    then false
    else if not (t.version == other.version)
    then false
    else if not (equal_lifecycle t.lifecycle other.lifecycle)
    then false
    else if not (eqb_text? t.description other.description)
    then false
    else if not (eqb_text? t.forward_description other.forward_description)
    then false
    else if not (eqb_text? t.reverse_description other.reverse_description)
    then false
    else if not (eqb_text (topology_text t.topology) (topology_text other.topology))
    then false
    else if not (eqb_text t.forward_name other.forward_name)
    then false
    else if not (eqb_text t.reverse_name other.reverse_name)
    then false
    else if not (t.space_template_id == other.space_template_id)
    then false
    else true

unfoldable pub equal_type_value : WorkItemLinkType → WorkItemLinkType → Bool
equal_type_value t other =
    equal_type (record t { version = other.version; lifecycle = other.lifecycle }) other

-- whether CheckValidForCreation finds no error; each that it may find is a BadParameterError
unfoldable pub check_type_valid : WorkItemLinkType → Bool
check_type_valid t =
    if eqb_text t.name (codes "")
    then false
    else if eqb_text t.forward_name (codes "")
    then false
    else if eqb_text t.reverse_name (codes "")
    then false
    else if not (check_valid t.topology)
    then false
    else not (t.space_template_id == 0)

-- A topology that CheckValid accepts is read back from what Value writes for it, as bytes and as a
-- string.
pub topology-round_trip :
    (t u : Topology)
    → check_valid t ≡ true
    → (scan u (bytes (topology_text t)) ≡ (t, true))
      × (scan u (string (topology_text t)) ≡ (t, true))
unfolding scan topology_of topology_text
topology-round_trip network u h = (refl, refl)
topology-round_trip directed_network u h = (refl, refl)
topology-round_trip dependency u h = (refl, refl)
topology-round_trip tree u h = (refl, refl)
topology-round_trip (unnamed s) u h = cc

-- ===== src/Presentation.antt =====
-- networkmapper/reporting/canonical_presentation.py: the view of the canonical identities and relationships
-- that the exporters render. The `ValueError` of a group with two cardinalities is `none`.
mod Edges
mod Resolved
mod Tests
use network_mapper.Prelude.{
  ℕ, ◌≡◌, ◌↔◌, Bool, true, false, ◌&&◌, ◌||◌, Option, none, some, List, [], ◌∷◌, map, arith,
  if◌then◌else◌, leb, nat_beq,
}
use network_mapper.Devices.{Device}
use network_mapper.Graph.{NetworkGraph, get_device}
use network_mapper.Identity.{CanonicalIdentity, State}
use network_mapper.Observations.{IdentityObservation, RelationshipObservation}
use network_mapper.Prelude.Decimal.{int_eq}
use network_mapper.Prelude.Eq.{Eq, list_eq, nat_eq, option_eq, pair_eq}
use network_mapper.Prelude.Group.{group, group_from}
use network_mapper.Prelude.Sets.{lookup, set_from, to_set}
use network_mapper.Prelude.Split.{traverse}
use network_mapper.Prelude.Text.{Text, codes, lower_char, upper_char}
use network_mapper.Relationships.{CanonicalRelationship, Cardinality}
use network_mapper.Snmp.Rows.{rem_key_eq}

-- `_CATEGORY_LABELS`
abbrev pub category_labels : List (Text × Text)
category_labels =
    (codes "arp_neighbor", codes "ARP Neighbor")
    ∷ (codes "connected_to", codes "Connected To")
    ∷ (codes "bridge_fdb", codes "Bridge Forwarding Entry")
    ∷ []

abbrev pub is_letter : ℕ → Bool
is_letter c = (leb b'A' c && leb c b'Z') || (leb b'a' c && leb c b'z')

-- `s.title()`, on ASCII letters; the flag says that a letter stands before.
unfoldable pub title_from : Bool → Text → Text
unfolding upper_char lower_char
title_from after [] = []
title_from after (c ∷ s) =
    (if after then lower_char c else upper_char c) ∷ title_from (is_letter c) s

-- `s.replace(a, b)` of two characters
abbrev pub replace_char : ℕ → ℕ → Text → Text
replace_char a b s = map (λ c. if nat_beq c a then b else c) s

abbrev pub or_text : Option Text → Text → Text
or_text none s = s
or_text (some t) s = t

-- `_category_label`
unfoldable pub category_label : Text → Text
unfolding title_from
category_label category =
    or_text (lookup category category_labels) (title_from false (replace_char b'_' b' ' category))

pub record PropertyValuePresentation : Type 0 where
  pub value : Text
  pub observations : List IdentityObservation

pub record IdentityPropertyPresentation : Type 0 where
  pub property_name : Text
  pub state : State
  pub values : List PropertyValuePresentation

pub record IdentityPresentation : Type 0 where
  pub subject : Text
  pub state : State
  pub device : Option Device
  pub properties : List IdentityPropertyPresentation

-- `_group_property_values`
unfoldable pub group_property_values : List IdentityObservation → List PropertyValuePresentation
unfolding group_from
group_property_values observations =
    map (λ g. record { value = g.0; observations = g.1 })
      (group (λ (o : IdentityObservation). o.value) observations)

-- `_present_identity`
unfoldable pub present_identity : NetworkGraph → CanonicalIdentity → IdentityPresentation
unfolding group_property_values get_device
present_identity graph identity = record {
  subject = identity.subject;
  state = identity.state;
  device = get_device identity.subject graph;
  properties =
      map
        (λ p. record {
          property_name = p.property_name;
          state = p.state;
          values = group_property_values p.observations;
        })
        identity.properties;
}

pub record RelatedSubjectPresentation : Type 0 where
  pub related_subject : Text
  pub device : Option Device
  pub state : network_mapper.Relationships.State
  pub observations : List RelationshipObservation

pub record RelationshipPresentation : Type 0 where
  pub subject : Text
  pub device : Option Device
  pub category : Text
  pub category_label : Text
  pub cardinality : Cardinality
  pub related : List RelatedSubjectPresentation

abbrev pub cardinality_beq : Cardinality → Cardinality → Bool
cardinality_beq Cardinality.single Cardinality.single = true
cardinality_beq Cardinality.multiple Cardinality.multiple = true
cardinality_beq _ _ = false

pub cardinality_beq_iff : (c d : Cardinality) → (cardinality_beq c d ≡ true) ↔ (c ≡ d)
cardinality_beq_iff Cardinality.single Cardinality.single = ground arith
cardinality_beq_iff Cardinality.single Cardinality.multiple = ground arith
cardinality_beq_iff Cardinality.multiple Cardinality.single = ground arith
cardinality_beq_iff Cardinality.multiple Cardinality.multiple = ground arith

instance abbrev pub cardinality_eq : Eq Cardinality
cardinality_eq = record { decide = cardinality_beq; exact = cardinality_beq_iff }

abbrev pub related_entry : NetworkGraph → CanonicalRelationship → RelatedSubjectPresentation
related_entry graph edge = record {
  related_subject = edge.related_subject;
  device = get_device edge.related_subject graph;
  state = edge.state;
  observations = edge.observations;
}

-- `_present_relationship_group` on the set of the cardinalities
abbrev pub with_cardinalities :
    NetworkGraph
    → Text
    → Text
    → List CanonicalRelationship
    → List Cardinality
    → Option RelationshipPresentation
with_cardinalities graph subject category edges (cardinality ∷ []) = some (record {
  subject = subject;
  device = get_device subject graph;
  category = category;
  category_label = category_label category;
  cardinality = cardinality;
  related = map (related_entry graph) edges;
})
with_cardinalities graph subject category edges _ = none

-- `_present_relationship_group`
unfoldable pub present_relationship_group :
    NetworkGraph → Text → Text → List CanonicalRelationship → Option RelationshipPresentation
unfolding get_device category_label set_from
present_relationship_group graph subject category edges =
    with_cardinalities graph subject category edges (to_set (map (λ e. e.cardinality) edges))

abbrev pub edge_group : CanonicalRelationship → Text × Text
edge_group r = (r.subject, r.category)

unfoldable pub present_group :
    NetworkGraph → (Text × Text) × List CanonicalRelationship → Option RelationshipPresentation
unfolding present_relationship_group
present_group graph ((subject, category), edges) =
    present_relationship_group graph subject category edges

-- `_present_relationships`
unfoldable pub present_relationships :
    NetworkGraph → List CanonicalRelationship → Option (List RelationshipPresentation)
unfolding present_group group_from
present_relationships graph relationships =
    traverse (present_group graph) (group edge_group relationships)

-- `CanonicalPresentation`
pub record CanonicalPresentation : Type 0 where
  pub identities : List IdentityPresentation
  pub relationships : List RelationshipPresentation

abbrev pub with_relationships :
    List IdentityPresentation
    → Option (List RelationshipPresentation)
    → Option CanonicalPresentation
with_relationships identities none = none
with_relationships identities (some relationships) =
    some (record { identities = identities; relationships = relationships })

-- `CanonicalPresentation.from_project`, on the three fields of the project that it reads.
unfoldable pub from_project :
    NetworkGraph
    → List CanonicalIdentity
    → List CanonicalRelationship
    → Option CanonicalPresentation
unfolding present_identity present_relationships
from_project graph identities relationships =
    with_relationships (map (present_identity graph) identities)
      (present_relationships graph relationships)

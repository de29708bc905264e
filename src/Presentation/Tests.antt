-- ===== src/Presentation/Tests.antt =====
-- Presentations of resolved samples.
use mathlib.Core.List.{Perm}
use network_mapper.Prelude.{◌≡◌, refl, some, List, [], ◌∷◌, map, concat}
use network_mapper.Graph.{empty_graph}
use network_mapper.Observations.{Observation}
use network_mapper.Prelude.Text.{codes}
use network_mapper.Presentation.{CanonicalPresentation, category_label, from_project}
use network_mapper.Presentation.Edges.{edges_of}
use network_mapper.Presentation.Resolved.{from_project-resolve}
use network_mapper.Identity
use network_mapper.Relationships.{
  State, resolve, ok, CanonicalRelationship, Cardinality, category_cardinality,
}
use network_mapper.Samples.{by_nmap, by_snmp}

labels :
    (category_label (codes "bridge_fdb") ≡ codes "Bridge Forwarding Entry")
    × (category_label (codes "runs_on_vM2x") ≡ codes "Runs On Vm2X")
unfolding category_label network_mapper.Prelude.Eq.list_beq
labels = (refl, refl)

abbrev observed : List Observation
observed =
    Observation.identity (record {
      subject = codes "a";
      property_name = codes "hostname";
      value = codes "x";
      provenance = by_nmap;
    })
    ∷ Observation.identity (record {
      subject = codes "b";
      property_name = codes "hostname";
      value = codes "y";
      provenance = by_nmap;
    })
    ∷ Observation.relationship (record {
      subject = codes "a";
      related_subject = codes "b";
      category = codes "connected_to";
      provenance = by_snmp;
    })
    ∷ []

abbrev expected : List CanonicalRelationship
expected =
    record {
      subject = codes "a";
      category = codes "connected_to";
      related_subject = codes "b";
      cardinality = Cardinality.multiple;
      state = State.weak;
      observations =
          record {
            subject = codes "a";
            related_subject = codes "b";
            category = codes "connected_to";
            provenance = by_snmp;
          }
          ∷ [];
    }
    ∷ []

resolved :
    resolve category_cardinality observed (network_mapper.Identity.resolve observed) ≡ ok expected
unfolding resolve network_mapper.Prelude.Group.group_from Identity.resolve
    network_mapper.Prelude.Sort.sort network_mapper.Prelude.Eq.list_beq
    network_mapper.Prelude.Ord.list_le Identity.resolve_subject
    network_mapper.Relationships.cardinality_for network_mapper.Prelude.Sets.set_from
resolved = refl

from_project-resolve_example :
    (view : CanonicalPresentation) × (from_project empty_graph
        (network_mapper.Identity.resolve observed)
        expected
      ≡ some view)
    × (map (λ i. i.subject) view.identities
        ≡ map (λ i. i.subject) (network_mapper.Identity.resolve observed))
    × Perm (concat (map edges_of view.relationships)) expected
from_project-resolve_example =
    from_project-resolve empty_graph category_cardinality observed
      (network_mapper.Identity.resolve observed) expected resolved

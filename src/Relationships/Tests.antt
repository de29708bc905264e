-- ===== src/Relationships/Tests.antt =====
-- Relationship resolution on the sample network.
use mathlib.Core.List.{Perm}
use mathlib.Core.List.Perm
use network_mapper.Prelude.{◌≡◌, refl, List, [], ◌∷◌, map, concat, All}
use network_mapper.Prelude.Text.{codes}
use network_mapper.Prelude.Ord.{nat_ord, list_ord, triple_ord, triple_eq, triple_le}
use network_mapper.Prelude.Eq.{list_beq, nat_eq, list_eq, pair_eq, elem}
use network_mapper.Prelude.Sort.{IsSorted, sort, sort_by}
use network_mapper.Prelude.Group.{IsDistinct, group, group_from}
use network_mapper.Prelude.Sets.{set_from}
use network_mapper.Identity.{CanonicalIdentity}
use network_mapper.Relationships.{
  category_cardinality, cardinality_for, Cardinality, State, CanonicalRelationship, ok, preprocess,
  group_key, relationship_key, resolve,
}
use network_mapper.Relationships.Edges.{all_records, resolve-ok}
use network_mapper.Relationships.Canonical.{Edge, edge_of, edges, resolve-edges}
use network_mapper.Relationships.Keys.{edge_key}
use network_mapper.Relationships.Order.{resolve_relationships-perm}
use network_mapper.Relationships.Evidence.{
  retained, resolve_relationships-retains, resolve_relationships-keys,
}
use network_mapper.Relationships.States.{IsExact, resolve_relationships-IsExact}
use network_mapper.Relationships.Endpoints.{Connects, resolve_relationships-Connects}
use network_mapper.Samples.{network, network_reordered, edge_claim}

-- What identity resolution says of the two subjects.
abbrev identities : List CanonicalIdentity
identities =
    record { subject = codes "a"; state = network_mapper.Identity.State.confirmed; properties = [] }
    ∷ record { subject = codes "b"; state = network_mapper.Identity.State.weak; properties = [] }
    ∷ []

abbrev relationships : List CanonicalRelationship
relationships =
    record {
      subject = codes "a";
      category = codes "arp_neighbor";
      related_subject = codes "b";
      cardinality = Cardinality.multiple;
      state = State.weak;
      observations = edge_claim ∷ [];
    }
    ∷ []

resolved : resolve category_cardinality network identities ≡ ok relationships
unfolding resolve group_from list_beq cardinality_for set_from sort
resolved = refl

resolve-ok_example :
    resolve category_cardinality network identities
    ≡ ok (
        sort_by relationship_key
          (all_records category_cardinality (group group_key (preprocess network identities))))
resolve-ok_example = resolve-ok category_cardinality network identities

resolve-edges_example :
    resolve category_cardinality network identities
    ≡ ok (
        map
          (edge_of category_cardinality (preprocess network identities))
          (sort triple_le (edges (preprocess network identities))))
resolve-edges_example = resolve-edges category_cardinality network identities

resolve_relationships-perm_example :
    resolve category_cardinality network identities
    ≡ resolve category_cardinality network_reordered identities
resolve_relationships-perm_example =
    resolve_relationships-perm category_cardinality network network_reordered identities identities
      (Perm.swap _ _ _) Perm.rfl

resolve_relationships-retains_example :
    Perm (concat (map retained relationships)) (preprocess network identities)
resolve_relationships-retains_example =
    resolve_relationships-retains category_cardinality network identities relationships resolved

resolve_relationships-keys_example :
    IsSorted triple_le (map relationship_key relationships)
    × IsDistinct (map relationship_key relationships)
    × ((e : Edge)
        → elem e (map relationship_key relationships)
          ≡ elem e (map edge_key (preprocess network identities)))
resolve_relationships-keys_example =
    resolve_relationships-keys category_cardinality network identities relationships resolved

resolve_relationships-IsExact_example :
    All (IsExact category_cardinality (preprocess network identities)) relationships
resolve_relationships-IsExact_example =
    resolve_relationships-IsExact category_cardinality network identities relationships resolved

resolve_relationships-Connects_example :
    All (λ r. Connects identities (relationship_key r)) relationships
resolve_relationships-Connects_example =
    resolve_relationships-Connects category_cardinality network identities relationships resolved

-- ===== src/Presentation/Resolved.antt =====
-- networkmapper/reporting/canonical_presentation.py on what networkmapper/relationships/resolver.py returns.
use mathlib.Core.List.{Perm}
use network_mapper.Prelude.{
  ◌<◌, ◌≡◌, refl, sym, ap, subst, ◌∙◌, some, List, [], ◌∷◌, map, arith, All, All-map, All-weaken,
  concat, length, map-map,
}
use network_mapper.Graph.{NetworkGraph}
use network_mapper.Identity.{CanonicalIdentity}
use network_mapper.Observations.{Observation}
use network_mapper.Prelude.Decimal.{int_eq}
use network_mapper.Prelude.Eq.{beq_refl, list_eq, nat_eq, option_eq, pair_eq}
use network_mapper.Prelude.Group.{group, group-keyed, group-nonempty}
use network_mapper.Prelude.Ord.{list_ord, nat_ord, triple_le}
use network_mapper.Prelude.Sets.{set_from, to_set}
use network_mapper.Prelude.Sort.{sort}
use network_mapper.Prelude.Split.{traverse}
use network_mapper.Prelude.Text.{Text}
use network_mapper.Presentation.{
  CanonicalPresentation, IdentityPresentation, RelationshipPresentation, cardinality_eq, edge_group,
  from_project, present_group, present_identity, present_relationship_group, present_relationships,
  with_cardinalities, with_relationships,
}
use network_mapper.Presentation.Edges.{edges_of, present_relationships-edges}
use network_mapper.Relationships.{
  resolve, ok, CanonicalRelationship, Cardinality, Policy, cardinality_for, preprocess,
}
use network_mapper.Relationships.Canonical.{edges, edge_of, resolve-edges}
use network_mapper.Relationships.Evidence.{ok-injective}
use network_mapper.Snmp.Rows.{rem_key_eq}

set_from-same :
    (c : Cardinality) (cs : List Cardinality) → All (λ d. d ≡ c) cs → set_from (c ∷ []) cs ≡ c ∷ []
unfolding set_from
set_from-same c [] h = refl
set_from-same c (d ∷ cs) h =
    ap (λ s. set_from s cs) (rw h.0 (rw (beq_refl c) refl)) ∙ set_from-same c cs h.1

All-map_of :
    (c : Cardinality) (edges : List CanonicalRelationship)
    → All (λ e. e.cardinality ≡ c) edges
    → All (λ d. d ≡ c) (map (λ e. e.cardinality) edges)
All-map_of c [] h = tt
All-map_of c (e ∷ edges) h = (h.0, All-map_of c edges h.1)

to_set-same :
    (c : Cardinality) (edges : List CanonicalRelationship)
    → 0 < length edges
    → All (λ e. e.cardinality ≡ c) edges
    → to_set (map (λ e. e.cardinality) edges) ≡ c ∷ []
unfolding set_from
to_set-same c [] full h = absurd (omega arith)
to_set-same c (e ∷ edges) full h =
    ap (λ d. set_from (d ∷ []) (map (λ r. r.cardinality) edges)) h.0
    ∙ set_from-same c (map (λ r. r.cardinality) edges) (All-map_of c edges h.1)

module _ (graph : NetworkGraph) (card : Text → Cardinality) where
  present_group-uniform :
      (g : (Text × Text) × List CanonicalRelationship)
      → 0 < length g.1
      → All (λ e. (e.cardinality ≡ card e.category) × (edge_group e ≡ g.0)) g.1
      → (p : RelationshipPresentation) × (present_group graph g ≡ some p)
  unfolding present_group present_relationship_group
  present_group-uniform ((subject, category), edges) full h = (
    _,
    ap (with_cardinalities graph subject category edges) (
        to_set-same (card category) edges full
          (All-weaken _ _ edges (λ e k. k.0 ∙ ap (λ q. card q.1) k.1) h)),
  )

  present_groups-uniform :
      (groups : List ((Text × Text) × List CanonicalRelationship))
      → All (λ g. 0 < length g.1) groups
      → All (λ g. All (λ e. (e.cardinality ≡ card e.category) × (edge_group e ≡ g.0)) g.1) groups
      → (ps : List RelationshipPresentation) × (traverse (present_group graph) groups ≡ some ps)
  present_groups-uniform [] full h = ([], refl)
  present_groups-uniform (g ∷ groups) full h =
      let (p, e) = present_group-uniform g full.0 h.0 in
      let (ps, es) = present_groups-uniform groups full.1 h.1 in (p ∷ ps, ground (arith, e, es))

-- The resolver takes the cardinality of a record from the policy.
uniform :
    (policy : Policy) (os : List Observation) (ids : List CanonicalIdentity)
    (rs : List CanonicalRelationship)
    → resolve policy os ids ≡ ok rs
    → All (λ r. r.cardinality ≡ cardinality_for r.category policy) rs
uniform policy os ids rs h =
    let xs = preprocess os ids in
    subst (All (λ r. r.cardinality ≡ cardinality_for r.category policy))
      (ok-injective _ rs (sym (resolve-edges policy os ids) ∙ h))
      (All-map (λ r. r.cardinality ≡ cardinality_for r.category policy) (edge_of policy xs)
        (sort triple_le (edges xs)) (λ e. refl))

-- Presenting what the resolvers return never raises the error of inconsistent cardinalities, for every
-- policy and every graph: there is one presentation of each identity, in their order, and the
-- edges presented are exactly the relationships, each as often as returned.
pub from_project-resolve :
    (graph : NetworkGraph) (policy : Policy) (os : List Observation) (ids : List CanonicalIdentity)
    (rs : List CanonicalRelationship)
    → resolve policy os ids ≡ ok rs
    → (view : CanonicalPresentation) × (from_project graph ids rs ≡ some view)
      × (map (λ i. i.subject) view.identities ≡ map (λ i. i.subject) ids)
      × Perm (concat (map edges_of view.relationships)) rs
unfolding present_relationships from_project present_identity
from_project-resolve graph policy os ids rs h =
    let card = λ (category : Text). cardinality_for category policy in
    let (ps, e) =
      present_groups-uniform graph card (group edge_group rs) (group-nonempty edge_group rs) (
        group-keyed edge_group (λ r. r.cardinality ≡ card r.category) rs
          (uniform policy os ids rs h)) in
    (
      _,
      ap (with_relationships (map (present_identity graph) ids)) e,
      map-map (λ (i : IdentityPresentation). i.subject) (present_identity graph) ids,
      present_relationships-edges graph rs ps e,
    )

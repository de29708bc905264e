-- ===== src/Relationships.antt =====
-- networkmapper/relationships/categories.py, models.py and resolver.py: canonical relationships
-- from observations and identities. The theorems stand in the modules below.
pub mod Edges
mod Tests
pub mod Canonical
pub mod Keys
pub mod Order
pub mod States
pub mod Endpoints
pub mod Evidence
use network_mapper.Prelude.{
  ℕ, Bool, true, false, not, ◌&&◌, ◌||◌, Option, none, some, List, [], ◌∷◌, ◌++◌, map, select, any,
  ltb, leb, length, if◌then◌else◌,
}
use network_mapper.Prelude.Text.{Text, codes}
use network_mapper.Prelude.Ord.{nat_ord, list_ord, triple_ord}
use network_mapper.Prelude.Eq.{nat_eq, list_eq, pair_eq, ◌==◌, elem}
use network_mapper.Prelude.Sort.{sort_by}
use network_mapper.Prelude.Group.{group}
use network_mapper.Prelude.Sets.{to_set}
use network_mapper.Observations.{
  RelationshipObservation, Observation, relationship_observations, source,
}
use network_mapper.Identity.{CanonicalIdentity}

-- `RelationshipCardinality`
pub data Cardinality : Type 0 where
  single multiple : Cardinality

abbrev pub is_single : Cardinality → Bool
is_single Cardinality.single = true
is_single Cardinality.multiple = false

abbrev pub Policy : Type 0
Policy = List (Text × Cardinality)

-- `CATEGORY_CARDINALITY`
abbrev pub category_cardinality : Policy
category_cardinality =
    (codes "arp_neighbor", Cardinality.multiple)
    ∷ (codes "bridge_fdb", Cardinality.multiple)
    ∷ (codes "connected_to", Cardinality.multiple)
    ∷ []

abbrev pub default_cardinality : Cardinality
default_cardinality = Cardinality.multiple

-- `cardinality_for`: `policy.get(category, DEFAULT_CARDINALITY)`
unfoldable pub cardinality_for : Text → Policy → Cardinality
cardinality_for category [] = default_cardinality
cardinality_for category ((c, k) ∷ policy) =
    if c == category then k else cardinality_for category policy

-- `RelationshipCorroborationState`
pub data State : Type 0 where
  weak confirmed conflicting : State

abbrev pub is_conflicting : State → Bool
is_conflicting State.conflicting = true
is_conflicting _ = false

pub record CanonicalRelationship : Type 0 where
  pub subject : Text
  pub category : Text
  pub related_subject : Text
  pub cardinality : Cardinality
  pub state : State
  pub observations : List RelationshipObservation

-- The three `ValueError`s of `CanonicalRelationship.__post_init__`.
pub data ValueError : Type 0 where
  conflict_not_single no_observation foreign_observation : ValueError

pub data Result {ℓ} (A : Type ℓ) : Type ℓ where
  ok : A → Result A
  err : ValueError → Result A

infixl 5 ◌>>=◌
abbrev pub ◌>>=◌ {ℓ κ} : {A : Type ℓ} {B : Type κ} → Result A → (A → Result B) → Result B
ok a >>= f = f a
err e >>= f = err e

abbrev pub is_empty {ℓ} : {A : Type ℓ} → List A → Bool
is_empty [] = true
is_empty (x ∷ xs) = false

-- The test of the last check: the observation is not of this edge.
abbrev pub is_foreign : CanonicalRelationship → RelationshipObservation → Bool
is_foreign r o =
    not (o.subject == r.subject)
    || not (o.category == r.category)
    || not (o.related_subject == r.related_subject)

-- `CanonicalRelationship(...)`: the record, or the error that `__post_init__` raises.
unfoldable pub construct : CanonicalRelationship → Result CanonicalRelationship
construct r =
    if is_conflicting r.state && not (is_single r.cardinality)
    then err conflict_not_single
    else if is_empty r.observations
    then err no_observation
    else if any (is_foreign r) r.observations
    then err foreign_observation
    else ok r

-- `_edge_observation_sort_key`
abbrev pub edge_observation_sort_key : RelationshipObservation → List Text
edge_observation_sort_key o =
    o.provenance.provider ∷ o.provenance.collection_method ∷ o.related_subject
    ∷ o.provenance.source_run ∷ o.provenance.observed_at ∷ []

abbrev pub observation_source : RelationshipObservation → Text × Text
observation_source o = source o.provenance

-- The `if`-chain of `_resolve_group`.
abbrev pub edge_state : Bool → ℕ → State
edge_state group_conflicts independent_sources =
    if group_conflicts
    then State.conflicting
    else if leb 2 independent_sources
    then State.confirmed
    else State.weak

-- The fields that one round of the loop of `_resolve_group` computes.
abbrev pub edge_record :
    Text → Text → Cardinality → Bool → Text → List RelationshipObservation → CanonicalRelationship
edge_record subject category cardinality group_conflicts related_subject edge_observations =
    record {
      subject = subject;
      category = category;
      related_subject = related_subject;
      cardinality = cardinality;
      state =
          edge_state group_conflicts (length (to_set (map observation_source edge_observations)));
      observations = sort_by edge_observation_sort_key edge_observations;
    }

-- The loop of `_resolve_group` over `observations_by_edge.items()`.
unfoldable pub resolve_edges :
    Text
    → Text
    → Cardinality
    → Bool
    → List (Text × List RelationshipObservation)
    → Result (List CanonicalRelationship)
unfolding construct
resolve_edges subject category cardinality group_conflicts [] = ok []
resolve_edges subject category cardinality group_conflicts ((related_subject, os) ∷ edges) = do
  relationship ←
      construct (edge_record subject category cardinality group_conflicts related_subject os)
  relationships ← resolve_edges subject category cardinality group_conflicts edges
  ok (relationship ∷ relationships)

abbrev pub group_conflict : Cardinality → ℕ → Bool
group_conflict cardinality edges = is_single cardinality && ltb 1 edges

-- `_resolve_group`
unfoldable pub resolve_group :
    Policy → Text → Text → List RelationshipObservation → Result (List CanonicalRelationship)
unfolding resolve_edges
resolve_group policy subject category observations =
    let cardinality = cardinality_for category policy in
    let observations_by_edge =
      group (λ (o : RelationshipObservation). o.related_subject) observations in
    resolve_edges subject category cardinality
      (group_conflict cardinality (length observations_by_edge)) observations_by_edge

-- The comprehension of `resolve` over the groups.
unfoldable pub resolve_groups :
    Policy
    → List ((Text × Text) × List RelationshipObservation)
    → Result (List CanonicalRelationship)
unfolding resolve_group
resolve_groups policy [] = ok []
resolve_groups policy (((subject, category), os) ∷ groups) = do
  relationships ← resolve_group policy subject category os
  rest ← resolve_groups policy groups
  ok (relationships ++ rest)

-- The test of the preprocessing: both endpoints resolve, and they differ.
abbrev pub is_resolvable : List CanonicalIdentity → RelationshipObservation → Bool
is_resolvable identities o =
    elem o.subject (map (λ i. i.subject) identities)
    && elem o.related_subject (map (λ i. i.subject) identities)
    && not (o.subject == o.related_subject)

unfoldable pub preprocess : List Observation → List CanonicalIdentity → List RelationshipObservation
preprocess observations identities =
    select (is_resolvable identities) (relationship_observations observations)

abbrev pub group_key : RelationshipObservation → Text × Text
group_key o = (o.subject, o.category)

abbrev pub relationship_key : CanonicalRelationship → Text × Text × Text
relationship_key r = (r.subject, r.category, r.related_subject)

-- `RelationshipResolver(policy).resolve`; production passes `category_cardinality`.
unfoldable pub resolve :
    Policy → List Observation → List CanonicalIdentity → Result (List CanonicalRelationship)
unfolding resolve_groups preprocess
resolve policy observations identities = do
  relationships ← resolve_groups policy (group group_key (preprocess observations identities))
  ok (sort_by relationship_key relationships)

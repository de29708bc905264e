-- ===== src/Observations.antt =====
-- networkmapper/observations/models.py and provenance.py: the retained claims of the providers.
-- A subject is a text (an IP address). A `datetime` is kept as its ISO text, which is the only
-- thing that the resolvers read of it.
use network_mapper.Prelude.{Option, none, some, List, filter_map}
use network_mapper.Prelude.Text.{Text}

-- `ObservationProvenance`; `observed_at` is `observed_at.isoformat()`
pub record Provenance : Type 0 where
  pub provider : Text
  pub collection_method : Text
  pub observed_at : Text
  pub source_run : Text

pub record IdentityObservation : Type 0 where
  pub subject : Text
  pub property_name : Text
  pub value : Text
  pub provenance : Provenance

pub record RelationshipObservation : Type 0 where
  pub subject : Text
  pub related_subject : Text
  pub category : Text
  pub provenance : Provenance

-- `IdentityObservation | RelationshipObservation`
pub data Observation : Type 0 where
  identity : IdentityObservation → Observation
  relationship : RelationshipObservation → Observation

-- `isinstance(o, IdentityObservation)`, with the observation
abbrev pub as_identity : Observation → Option IdentityObservation
as_identity (Observation.identity o) = some o
as_identity (Observation.relationship o) = none

-- `isinstance(o, RelationshipObservation)`, with the observation
abbrev pub as_relationship : Observation → Option RelationshipObservation
as_relationship (Observation.identity o) = none
as_relationship (Observation.relationship o) = some o

-- `[o for o in observations if isinstance(o, IdentityObservation)]`
abbrev pub identity_observations : List Observation → List IdentityObservation
identity_observations os = filter_map as_identity os

-- `[o for o in observations if isinstance(o, RelationshipObservation)]`
abbrev pub relationship_observations : List Observation → List RelationshipObservation
relationship_observations os = filter_map as_relationship os

-- The independent source of an observation, `(provider, collection_method)`.
abbrev pub source : Provenance → Text × Text
source p = (p.provider, p.collection_method)

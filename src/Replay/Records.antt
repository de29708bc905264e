-- ===== src/Replay/Records.antt =====
-- networkmapper/observations/replay_format.py: a record written and read.
use network_mapper.Prelude.{◌≡◌, refl, true, none, List, [], ◌∷◌}
use network_mapper.Observations.{Observation, Provenance}
use network_mapper.Prelude.Eq.{list_beq}
use network_mapper.Prelude.Text.{Text, codes}
use network_mapper.Replay.Json.{duplicate_key, get, sort_keys}
use network_mapper.Replay.Reader.{Parsed, from_record}
use network_mapper.Replay.Timestamps.{is_canonical_timestamp}
use network_mapper.Replay.Writer.{record_sort_key, to_record}

-- The observation's timestamp is the text of a `datetime`.
abbrev pub provenance_of : Observation → Provenance
provenance_of (Observation.identity o) = o.provenance
provenance_of (Observation.relationship o) = o.provenance

abbrev pub IsDated : Observation → Type 0
IsDated o = is_canonical_timestamp (provenance_of o).observed_at ≡ true

-- The serialized fields of an observation in the order of the sort key.
abbrev pub observation_key : Observation → List Text
observation_key (Observation.identity o) =
    codes "identity"
    ∷ o.subject
    ∷ o.property_name
    ∷ o.value
    ∷ o.provenance.provider
    ∷ o.provenance.collection_method
    ∷ o.provenance.source_run
    ∷ o.provenance.observed_at
    ∷ []
observation_key (Observation.relationship o) =
    codes "relationship"
    ∷ o.subject
    ∷ o.related_subject
    ∷ o.category
    ∷ o.provenance.provider
    ∷ o.provenance.collection_method
    ∷ o.provenance.source_run
    ∷ o.provenance.observed_at
    ∷ []

pub record_sort_key-to_record :
    (o : Observation) → record_sort_key (to_record o) ≡ observation_key o
unfolding record_sort_key get list_beq
record_sort_key-to_record (Observation.identity o) = refl
record_sort_key-to_record (Observation.relationship o) = refl

pub duplicate_key-to_record : (o : Observation) → duplicate_key (sort_keys (to_record o)) ≡ none
unfolding duplicate_key sort_keys list_beq network_mapper.Replay.Json.insert_field
    network_mapper.Prelude.Ord.list_le network_mapper.Replay.Json.repeated_key
duplicate_key-to_record (Observation.identity o) = refl
duplicate_key-to_record (Observation.relationship o) = refl

pub from_record-to_record :
    (o : Observation) → IsDated o → from_record (sort_keys (to_record o)) ≡ Parsed.parsed o
unfolding from_record sort_keys list_beq network_mapper.Replay.Json.insert_field
    network_mapper.Prelude.Ord.list_le
from_record-to_record (Observation.identity o) h = rw h refl
from_record-to_record (Observation.relationship o) h = rw h refl

-- ===== src/Replay/RoundTrip.antt =====
-- networkmapper/observations/replay_format.py: `parse_observations` on what `serialize_observations` writes.
use network_mapper.Prelude.{ℕ, suc, ◌≡◌, refl, ap, ap₂, ◌∙◌, none, List, [], ◌∷◌, map, All}
use network_mapper.Observations.{Observation}
use network_mapper.Prelude.Eq.{list_beq}
use network_mapper.Prelude.Ord.{Ord, list_le, list_ord, nat_ord}
use network_mapper.Prelude.Sort.{All-sort, le_by, sort, sort_by, sort_by-image}
use network_mapper.Prelude.Text.{codes}
use network_mapper.Replay.Json.{
  Items, Json, duplicate_in_items, duplicate_key, fields, insert_field, items, repeated_key,
  sort_items, sort_keys,
}
use network_mapper.Replay.Reader.{Parsed, from_records, parse_observations, prepend}
use network_mapper.Replay.Records.{
  IsDated, duplicate_key-to_record, from_record-to_record, observation_key,
  record_sort_key-to_record,
}
use network_mapper.Replay.Writer.{
  format_identifier, format_version, record_sort_key, serialize_observations, to_record,
}

abbrev pub written : List Observation → Items
written os = items (map (λ o. sort_keys (to_record o)) os)

sort_items-written : (os : List Observation) → sort_items (items (map to_record os)) ≡ written os
unfolding sort_keys
sort_items-written [] = refl
sort_items-written (o ∷ os) = ap (Items.item (sort_keys (to_record o))) (sort_items-written os)

duplicate-written : (os : List Observation) → duplicate_in_items (written os) ≡ none
unfolding duplicate_key
duplicate-written [] = refl
duplicate-written (o ∷ os) = rw (duplicate_key-to_record o) (duplicate-written os)

from_records-written :
    (index : ℕ) (os : List Observation)
    → All IsDated os
    → from_records index (written os) ≡ Parsed.parsed os
unfolding from_records
from_records-written index [] h = refl
from_records-written index (o ∷ os) h =
    ap₂ (prepend index) (from_record-to_record o h.0) (from_records-written (suc index) os h.1)

-- The document around the records.
abbrev pub replay_document : Items → Json
replay_document records = Json.object (
    fields (
      (codes "format", Json.string format_identifier)
      ∷ (codes "format_version", Json.integer format_version)
      ∷ (codes "observations", Json.array records)
      ∷ []))

parse_observations-replay_document :
    (records : Items)
    → duplicate_in_items records ≡ none
    → parse_observations (replay_document records) ≡ from_records 0 records
unfolding parse_observations list_beq network_mapper.Replay.Json.repeated_key
    network_mapper.Prelude.Ord.list_le
parse_observations-replay_document records h = rw h refl

pub serialize_observations-replay_document :
    (os : List Observation)
    → serialize_observations os ≡ replay_document (written (sort_by observation_key os))
unfolding serialize_observations list_beq network_mapper.Replay.Json.insert_field list_le
serialize_observations-replay_document os =
    ap (λ records. replay_document (sort_items (items records)))
      (sort_by-image record_sort_key observation_key to_record record_sort_key-to_record os)
    ∙ ap replay_document (sort_items-written (sort_by observation_key os))

-- When the timestamps of the observations are texts of a `datetime`, reading what was written gives back all
-- observations with every field as it was, in the order of the key of the format.
pub parse_observations-serialize_observations :
    (os : List Observation)
    → All IsDated os
    → parse_observations (serialize_observations os) ≡ Parsed.parsed (sort_by observation_key os)
unfolding sort
parse_observations-serialize_observations os h =
    let sorted = sort_by observation_key os in
    ap parse_observations (serialize_observations-replay_document os)
    ∙ parse_observations-replay_document (written sorted) (duplicate-written sorted)
    ∙ from_records-written 0 sorted (All-sort (le_by observation_key) IsDated os h)

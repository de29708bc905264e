-- ===== src/Replay/Tests.antt =====
-- Artifacts of two observations.
use mathlib.Core.List.Perm
use network_mapper.Prelude.{◌≡◌, refl, true, false, none, [], ◌∷◌, All, ◌&◌}
use network_mapper.Observations.{Observation}
use network_mapper.Prelude.Decimal.{int_eq, ℤ}
use network_mapper.Prelude.Eq.{Eq, list_beq, list_eq, nat_eq, option_eq, pair_eq}
use network_mapper.Prelude.Ord.{Ord, list_le, list_ord, nat_ord}
use network_mapper.Prelude.Sort.{sort_by}
use network_mapper.Prelude.Text.{codes}
use network_mapper.Presentation.{cardinality_eq}
use network_mapper.Replay.Json.{Fields, Items, Json, duplicate_key, fields, items, repeated_key}
use network_mapper.Replay.Order.{serialize_observations-perm}
use network_mapper.Replay.Reader.{Parsed, RecordError, ReplayError, parse_observations}
use network_mapper.Replay.Records.{IsDated, observation_key}
use network_mapper.Replay.RoundTrip.{parse_observations-serialize_observations}
use network_mapper.Replay.Strict.{AreRecordsOf, IsDocument, parse_observations-exact}
use network_mapper.Replay.Timestamps.{is_canonical_timestamp}
use network_mapper.Replay.Writer.{format_identifier, serialize_observations}
use network_mapper.Snmp.Rows.{rem_key_eq}

abbrev claim : Observation
claim = Observation.identity (record {
  subject = codes "10.0.0.6";
  property_name = codes "hostname";
  value = codes "core";
  provenance = record {
    provider = codes "snmp";
    collection_method = codes "sysName";
    observed_at = codes "2026-02-28T23:59:59.000100+05:30";
    source_run = codes "r1";
  };
})

abbrev edge : Observation
edge = Observation.relationship (record {
  subject = codes "10.0.0.6";
  related_subject = codes "10.0.0.7";
  category = codes "connected_to";
  provenance = record {
    provider = codes "snmp";
    collection_method = codes "walk";
    observed_at = codes "2026-02-28T23:59:59";
    source_run = codes "r1";
  };
})

timestamps :
    (is_canonical_timestamp (codes "2024-02-29T00:00:00") ≡ true)
    × (is_canonical_timestamp (codes "2026-02-29T00:00:00") ≡ false)
    × (is_canonical_timestamp (codes "2026-01-01T00:00:00Z") ≡ false)
    × (is_canonical_timestamp (codes "2026-01-01 00:00:00") ≡ false)
    × (is_canonical_timestamp (codes "2026-01-01T00:00:00.000000") ≡ false)
    × (is_canonical_timestamp (codes "2026-01-01T00:00:00-00:00") ≡ false)
    × (is_canonical_timestamp (codes "2026-01-01T00:00:00.120000-05:00:30") ≡ true)
unfolding is_canonical_timestamp
timestamps = (refl, refl, refl, refl, refl, refl, refl)

dated : All IsDated (edge ∷ claim ∷ [])
unfolding is_canonical_timestamp
dated = refl & refl & tt

-- `true` is no version, although `True == 1`.
strict :
    (parse_observations (
        Json.object (
          fields (
            (codes "format", Json.string format_identifier)
            ∷ (codes "format_version", Json.boolean true)
            ∷ (codes "observations", Json.array Items.no_items)
            ∷ [])))
      ≡ Parsed.refused ReplayError.unsupported_version)
    × (parse_observations (
          Json.object (
            fields (
              (codes "format", Json.string format_identifier)
              ∷ (codes "format_version", Json.integer (ℤ.pos 1))
              ∷ (codes "observations", Json.array (items (Json.object Fields.no_fields ∷ [])))
              ∷ [])))
        ≡ Parsed.refused (ReplayError.in_record 0 (RecordError.missing_key (codes "type"))))
unfolding parse_observations network_mapper.Replay.Json.repeated_key
    network_mapper.Prelude.Eq.list_beq network_mapper.Prelude.Ord.list_le
strict = (refl, refl)

parse_observations-serialize_observations_example :
    parse_observations (serialize_observations (edge ∷ claim ∷ []))
    ≡ Parsed.parsed (sort_by observation_key (edge ∷ claim ∷ []))
parse_observations-serialize_observations_example =
    parse_observations-serialize_observations (edge ∷ claim ∷ []) dated

serialize_observations-perm_example :
    serialize_observations (edge ∷ claim ∷ []) ≡ serialize_observations (claim ∷ edge ∷ [])
serialize_observations-perm_example =
    serialize_observations-perm (edge ∷ claim ∷ []) (claim ∷ edge ∷ []) (Perm.swap claim edge [])

parse_observations-exact_example :
    (duplicate_key (serialize_observations (edge ∷ claim ∷ [])) ≡ none)
    × ((records : Items) × IsDocument (serialize_observations (edge ∷ claim ∷ [])) records
        × AreRecordsOf records (sort_by observation_key (edge ∷ claim ∷ [])))
parse_observations-exact_example =
    parse_observations-exact (serialize_observations (edge ∷ claim ∷ []))
      (sort_by observation_key (edge ∷ claim ∷ []))
      (parse_observations-serialize_observations (edge ∷ claim ∷ []) dated)

-- ===== src/Replay/Writer.antt =====
-- networkmapper/observations/replay_format.py: `serialize_observations`. The types of the fields are given,
-- so no `TypeError` occurs.
use network_mapper.Prelude.{Option, some, List, [], ◌∷◌, map, if◌then◌else◌}
use network_mapper.Observations.{Observation, Provenance}
use network_mapper.Prelude.Decimal.{int_eq, ℤ}
use network_mapper.Prelude.Eq.{list_eq, nat_eq, option_eq, pair_eq, ◌==◌}
use network_mapper.Prelude.Ord.{list_ord, nat_ord}
use network_mapper.Prelude.Sort.{sort, sort_by}
use network_mapper.Prelude.Text.{Text, codes}
use network_mapper.Replay.Json.{Fields, Json, fields, get, items, sort_keys}
use network_mapper.Snmp.Rows.{rem_key_eq}

abbrev pub format_identifier : Text
format_identifier = codes "networkmapper.retained-observations"

abbrev pub format_version : ℤ
format_version = ℤ.pos 1

abbrev pub provenance_record : Provenance → Json
provenance_record p = Json.object (
    fields (
      (codes "provider", Json.string p.provider)
      ∷ (codes "collection_method", Json.string p.collection_method)
      ∷ (codes "observed_at", Json.string p.observed_at)
      ∷ (codes "source_run", Json.string p.source_run)
      ∷ []))

-- `_to_record`
abbrev pub to_record : Observation → Json
to_record (Observation.identity o) = Json.object (
    fields (
      (codes "type", Json.string (codes "identity"))
      ∷ (codes "subject", Json.string o.subject)
      ∷ (codes "property_name", Json.string o.property_name)
      ∷ (codes "value", Json.string o.value)
      ∷ (codes "provenance", provenance_record o.provenance)
      ∷ []))
to_record (Observation.relationship o) = Json.object (
    fields (
      (codes "type", Json.string (codes "relationship"))
      ∷ (codes "subject", Json.string o.subject)
      ∷ (codes "related_subject", Json.string o.related_subject)
      ∷ (codes "category", Json.string o.category)
      ∷ (codes "provenance", provenance_record o.provenance)
      ∷ []))

-- `record[key]` of a record whose fields are strings.
abbrev pub string_or_empty : Option Json → Text
string_or_empty (some (Json.string s)) = s
string_or_empty _ = []

abbrev pub fields_or_none : Option Json → Fields
fields_or_none (some (Json.object fs)) = fs
fields_or_none _ = Fields.no_fields

-- `_record_sort_key`
unfoldable pub record_sort_key : Json → List Text
unfolding get
record_sort_key entry =
    let fs = fields_or_none (some entry) in
    let provenance = fields_or_none (get (codes "provenance") fs) in
    let read = λ (key : Text). string_or_empty (get key fs) in
    let from = λ (key : Text). string_or_empty (get key provenance) in
    let is_identity = read (codes "type") == codes "identity" in
    read (codes "type")
    ∷ read (codes "subject")
    ∷ (if is_identity then read (codes "property_name") else read (codes "related_subject"))
    ∷ (if is_identity then read (codes "value") else read (codes "category"))
    ∷ from (codes "provider")
    ∷ from (codes "collection_method")
    ∷ from (codes "source_run")
    ∷ from (codes "observed_at")
    ∷ []

-- `serialize_observations`, up to the printing of the tree.
unfoldable pub serialize_observations : List Observation → Json
unfolding sort sort_keys record_sort_key
serialize_observations observations =
    let records = sort_by record_sort_key (map to_record observations) in
    sort_keys (
      Json.object (
        fields (
          (codes "format", Json.string format_identifier)
          ∷ (codes "format_version", Json.integer format_version)
          ∷ (codes "observations", Json.array (items records))
          ∷ [])))

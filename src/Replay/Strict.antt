-- ===== src/Replay/Strict.antt =====
-- networkmapper/observations/replay_format.py: what a document is that `parse_observations` reads.
use network_mapper.Prelude.{
  ℕ, suc, ◌≡◌, refl, sym, ap, subst, ◌∙◌, Bool, true, false, none, some, List, [], ◌∷◌, ◌++◌, map,
  arith, All,
}
use network_mapper.Observations.{Observation, Provenance}
use network_mapper.Prelude.Ord.{list_le, list_ord, nat_ord}
use network_mapper.Prelude.Sort.{sort}
use network_mapper.Prelude.Text.{Text, codes}
use network_mapper.Replay.Inversions.{
  HasOnly, as_document-object, as_record-object, bind-parsed, check_format-found,
  check_keys-HasOnly, check_version-found, first_unknown-HasOnly, object_at-object,
  observation_type-found, parse_observed_at-canonical, parsed_injective, read_string-get,
  records_of-array, refuse_if-none, type_of,
}
use network_mapper.Replay.Json.{Fields, Items, Json, duplicate_key, get, keys_in}
use network_mapper.Replay.Reader.{
  Parsed, RecordError, ReplayError, as_document, as_record, check_format, check_keys, check_strings,
  check_version, first_unknown, fourth_key, from_record, from_records, object_at, observation_of,
  observation_type, parse_observations, parse_observed_at, prepend, provenance_keys,
  read_provenance, read_string, records_of, refuse_if, string_keys, third_key, top_level_keys,
}
use network_mapper.Replay.Records.{IsDated, provenance_of}
use network_mapper.Replay.Timestamps.{is_canonical_timestamp}
use network_mapper.Replay.Writer.{format_identifier, format_version}

-- The strings that the object must have, by their keys.
abbrev pub HasStrings : Fields → List (Text × Text) → Type 0
HasStrings entry strings = All (λ p. get p.0 entry ≡ some (Json.string p.1)) strings

abbrev pub provenance_strings : Provenance → List (Text × Text)
provenance_strings p =
    (codes "provider", p.provider)
    ∷ (codes "collection_method", p.collection_method)
    ∷ (codes "observed_at", p.observed_at)
    ∷ (codes "source_run", p.source_run)
    ∷ []

abbrev pub record_strings : Observation → List (Text × Text)
record_strings (Observation.identity o) =
    (codes "type", codes "identity")
    ∷ (codes "subject", o.subject)
    ∷ (codes "property_name", o.property_name)
    ∷ (codes "value", o.value)
    ∷ []
record_strings (Observation.relationship o) =
    (codes "type", codes "relationship")
    ∷ (codes "subject", o.subject)
    ∷ (codes "related_subject", o.related_subject)
    ∷ (codes "category", o.category)
    ∷ []

-- The value is an object with the observation's type and fields as strings and an object for its
-- provenance with its fields as strings; neither has another key, and the timestamp is canonical.
pub record IsRecordOf (j : Json) (o : Observation) : Type 0 where
  pub entry : Fields
  pub inner : Fields
  pub is_object : j ≡ Json.object entry
  pub provenance : get (codes "provenance") entry ≡ some (Json.object inner)
  pub strings : HasStrings entry (record_strings o)
  pub inner_strings : HasStrings inner (provenance_strings (provenance_of o))
  pub only : HasOnly entry (map (λ p. p.0) (record_strings o) ++ codes "provenance" ∷ [])
  pub inner_only : HasOnly inner (map (λ p. p.0) (provenance_strings (provenance_of o)))
  pub dated : IsDated o

read_provenance-exact :
    (entry : Fields) (p : Provenance)
    → read_provenance entry ≡ Parsed.parsed p
    → HasStrings entry (provenance_strings p) × (is_canonical_timestamp p.observed_at ≡ true)
unfolding read_provenance
read_provenance-exact entry p h =
    let (provider, h1, k1) = bind-parsed (read_string entry (codes "provider")) _ p h in
    let (method, h2, k2) = bind-parsed (read_string entry (codes "collection_method")) _ p k1 in
    let (s, h3, k3) = bind-parsed (read_string entry (codes "observed_at")) _ p k2 in
    let (at, h4, k4) = bind-parsed (parse_observed_at s) _ p k3 in
    let (run, h5, k5) = bind-parsed (read_string entry (codes "source_run")) _ p k4 in
    let dated = parse_observed_at-canonical s at h4 in
    subst
      (λ q. HasStrings entry (provenance_strings q) × (is_canonical_timestamp q.observed_at ≡ true))
      (parsed_injective k5)
      (
        (
          read_string-get entry (codes "provider") provider h1,
          (
            read_string-get entry (codes "collection_method") method h2,
            (
              read_string-get entry (codes "observed_at") s h3
                  ∙ ap (λ t. some (Json.string t)) dated.0,
              (read_string-get entry (codes "source_run") run h5, tt),
            ),
          ),
        ),
        ap is_canonical_timestamp (sym dated.0) ∙ dated.1,
      )

record-exact :
    (entry inner : Fields) (kind : Bool) (p : Provenance) (subject third fourth : Text)
    → get (codes "type") entry ≡ some (Json.string (type_of kind))
    → get (codes "provenance") entry ≡ some (Json.object inner)
    → get (codes "subject") entry ≡ some (Json.string subject)
    → get (third_key kind) entry ≡ some (Json.string third)
    → get (fourth_key kind) entry ≡ some (Json.string fourth)
    → HasStrings inner (provenance_strings p) × (is_canonical_timestamp p.observed_at ≡ true)
    → HasOnly entry (string_keys kind ++ codes "provenance" ∷ [])
    → HasOnly inner provenance_keys
    → IsRecordOf (Json.object entry) (observation_of kind subject third fourth p)
record-exact entry inner true p subject third fourth ty pr su th fo read only inner_only = record {
  entry = entry;
  inner = inner;
  is_object = refl;
  provenance = pr;
  strings = (ty, (su, (th, (fo, tt))));
  inner_strings = read.0;
  only = only;
  inner_only = inner_only;
  dated = read.1;
}
record-exact entry inner false p subject third fourth ty pr su th fo read only inner_only = record {
  entry = entry;
  inner = inner;
  is_object = refl;
  provenance = pr;
  strings = (ty, (su, (th, (fo, tt))));
  inner_strings = read.0;
  only = only;
  inner_only = inner_only;
  dated = read.1;
}

from_record-IsRecordOf :
    (j : Json) (o : Observation) → from_record j ≡ Parsed.parsed o → IsRecordOf j o
unfolding from_record
from_record-IsRecordOf j o h =
    let (entry, h1, k1) = bind-parsed (as_record j) _ o h in
    let (kind, h2, k2) = bind-parsed (observation_type (get (codes "type") entry)) _ o k1 in
    let (u3, h3, k3) =
      bind-parsed (check_keys entry (string_keys kind ++ codes "provenance" ∷ [])) _ o k2 in
    let (inner, h4, k4) = bind-parsed (object_at (get (codes "provenance") entry)) _ o k3 in
    let (u5, h5, k5) = bind-parsed (check_keys inner provenance_keys) _ o k4 in
    let (_, h6, k6) = bind-parsed (check_strings entry (string_keys kind)) _ o k5 in
    let (_, h7, k7) = bind-parsed (check_strings inner provenance_keys) _ o k6 in
    let (p, h8, k8) = bind-parsed (read_provenance inner) _ o k7 in
    let (subject, h9, k9) = bind-parsed (read_string entry (codes "subject")) _ o k8 in
    let (third, h10, k10) = bind-parsed (read_string entry (third_key kind)) _ o k9 in
    let (fourth, h11, k11) = bind-parsed (read_string entry (fourth_key kind)) _ o k10 in
    subst (λ i. IsRecordOf i o) (sym (as_record-object j entry h1))
      (subst (IsRecordOf (Json.object entry)) (parsed_injective k11) (
        record-exact entry inner kind p subject third fourth
          (observation_type-found (get (codes "type") entry) kind h2)
          (object_at-object (get (codes "provenance") entry) inner h4)
          (read_string-get entry (codes "subject") subject h9)
          (read_string-get entry (third_key kind) third h10)
          (read_string-get entry (fourth_key kind) fourth h11) (read_provenance-exact inner p h8)
          (check_keys-HasOnly entry (string_keys kind ++ codes "provenance" ∷ []) u3 h3)
          (check_keys-HasOnly inner provenance_keys u5 h5)))

-- Each record of the array has its observation, in the same order.
abbrev pub AreRecordsOf : Items → List Observation → Type 0
AreRecordsOf Items.no_items [] = Unit
AreRecordsOf (Items.item j js) (o ∷ os) = IsRecordOf j o × AreRecordsOf js os
AreRecordsOf _ _ = ⊥

prepend-parsed :
    (index : ℕ) (m : Parsed RecordError Observation) (rest : Parsed ReplayError (List Observation))
    (os : List Observation)
    → prepend index m rest ≡ Parsed.parsed os
    → (o : Observation) × (ps : List Observation) × (m ≡ Parsed.parsed o)
      × (rest ≡ Parsed.parsed ps)
      × (o ∷ ps ≡ os)
prepend-parsed index (Parsed.refused e) rest os h = absurd (ground arith)
prepend-parsed index (Parsed.parsed o) (Parsed.parsed ps) os h =
    (o, ps, refl, refl, parsed_injective h)
prepend-parsed index (Parsed.parsed o) (Parsed.refused e) os h = absurd (ground arith)

from_records-AreRecordsOf :
    (index : ℕ) (js : Items) (os : List Observation)
    → from_records index js ≡ Parsed.parsed os
    → AreRecordsOf js os
unfolding from_records
from_records-AreRecordsOf index Items.no_items os h =
    subst (AreRecordsOf Items.no_items) (parsed_injective h) tt
from_records-AreRecordsOf index (Items.item j js) os h =
    let (o, ps, here, more, e) =
      prepend-parsed index (from_record j) (from_records (suc index) js) os h in
    subst (AreRecordsOf (Items.item j js)) e
      (from_record-IsRecordOf j o here, from_records-AreRecordsOf (suc index) js ps more)

-- The document is an object of this format and version with the array, and has no other key.
pub record IsDocument (tree : Json) (records : Items) : Type 0 where
  pub entry : Fields
  pub is_object : tree ≡ Json.object entry
  pub format : get (codes "format") entry ≡ some (Json.string format_identifier)
  pub version : get (codes "format_version") entry ≡ some (Json.integer format_version)
  pub array : get (codes "observations") entry ≡ some (Json.array records)
  pub only : HasOnly entry top_level_keys

-- When a document is read, no object in it repeats a key, it is an object of the format and its version
-- with an array of observations and no other key, and the observations returned are those of the
-- array's records, one for each and in their order. Each record is an object with the type
-- and every field of its observation as a string, with an object of the provenance's fields as
-- strings, and with no other key in either; and its timestamp is one that `isoformat()` writes.
pub parse_observations-exact :
    (tree : Json) (os : List Observation)
    → parse_observations tree ≡ Parsed.parsed os
    → (duplicate_key tree ≡ none)
      × ((records : Items) × IsDocument tree records × AreRecordsOf records os)
unfolding parse_observations
parse_observations-exact tree os h =
    let (u1, h1, k1) = bind-parsed (refuse_if ReplayError.duplicate (duplicate_key tree)) _ os h in
    let (entry, h2, k2) = bind-parsed (as_document tree) _ os k1 in
    let (u3, h3, k3) = bind-parsed (check_format (get (codes "format") entry)) _ os k2 in
    let (u4, h4, k4) = bind-parsed (check_version (get (codes "format_version") entry)) _ os k3 in
    let (u5, h5, k5) =
      bind-parsed
        (refuse_if ReplayError.unknown_top_level_key
          (first_unknown top_level_keys (sort list_le (keys_in entry))))
        _ os k4 in
    let (records, h6, k6) = bind-parsed (records_of (get (codes "observations") entry)) _ os k5 in
    (
      refuse_if-none ReplayError.duplicate (duplicate_key tree) u1 h1,
      (
        records,
        record {
          entry = entry;
          is_object = as_document-object tree entry h2;
          format = check_format-found (get (codes "format") entry) u3 h3;
          version = check_version-found (get (codes "format_version") entry) u4 h4;
          array = records_of-array (get (codes "observations") entry) records h6;
          only =
              first_unknown-HasOnly top_level_keys entry
                (refuse_if-none ReplayError.unknown_top_level_key _ u5 h5);
        },
        from_records-AreRecordsOf 0 records os k6,
      ),
    )

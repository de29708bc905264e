-- ===== src/Replay/Reader.antt =====
-- networkmapper/observations/replay_format.py: `parse_observations`, from the tree that `json.loads` reads.
use network_mapper.Prelude.{
  ℕ, suc, Bool, true, false, Option, none, some, List, [], ◌∷◌, ◌++◌, if◌then◌else◌,
}
use network_mapper.Observations.{Observation, Provenance}
use network_mapper.Prelude.Decimal.{int_eq}
use network_mapper.Prelude.Eq.{elem, list_eq, nat_eq, option_eq, pair_eq, ◌==◌}
use network_mapper.Prelude.Ord.{list_le, list_ord, nat_ord}
use network_mapper.Prelude.Sort.{sort}
use network_mapper.Prelude.Text.{Text, codes}
use network_mapper.Replay.Json.{Fields, Items, Json, duplicate_key, get, keys_in}
use network_mapper.Replay.Timestamps.{is_canonical_timestamp}
use network_mapper.Replay.Writer.{format_identifier, format_version}
use network_mapper.Snmp.Rows.{rem_key_eq}

-- The `ObservationReplayFormatError`s of one record.
pub data RecordError : Type 0 where
  not_an_object : RecordError
  missing_key : Text → RecordError
  unknown_type : RecordError
  unknown_key : Text → RecordError
  not_a_string : Text → RecordError
  not_canonical : Text → RecordError

pub data ReplayError : Type 0 where
  duplicate : Text → ReplayError
  not_a_document : ReplayError
  missing_required : Text → ReplayError
  unknown_format : ReplayError
  unsupported_version : ReplayError
  unknown_top_level_key : Text → ReplayError
  observations_not_an_array : ReplayError
  in_record : ℕ → RecordError → ReplayError

pub data Parsed {ℓ} (E : Type 0) (A : Type ℓ) : Type ℓ where
  parsed : A → Parsed E A
  refused : E → Parsed E A

infixl 5 ◌>>=◌ ◌>>◌
abbrev pub ◌>>=◌ {ℓ κ} :
    {E : Type 0} {A : Type ℓ} {B : Type κ} → Parsed E A → (A → Parsed E B) → Parsed E B
Parsed.parsed a >>= f = f a
Parsed.refused e >>= f = Parsed.refused e

abbrev pub ◌>>◌ {ℓ} : {E : Type 0} {B : Type ℓ} → Parsed E (Unit {0}) → Parsed E B → Parsed E B
m >> k = m >>= λ _. k

-- The first of the keys that the record lacks.
abbrev pub first_missing : List Text → List Text → Option Text
first_missing [] present = none
first_missing (key ∷ keys) present =
    if elem key present then first_missing keys present else some key

-- The first of the keys that is none of the expected.
abbrev pub first_unknown : List Text → List Text → Option Text
first_unknown expected [] = none
first_unknown expected (key ∷ keys) =
    if elem key expected then first_unknown expected keys else some key

abbrev pub refuse_if : {E : Type 0} → (Text → E) → Option Text → Parsed E (Unit {0})
refuse_if error none = Parsed.parsed tt
refuse_if error (some key) = Parsed.refused (error key)

-- `_check_keys`
unfoldable pub check_keys : Fields → List Text → Parsed RecordError (Unit {0})
unfolding sort
check_keys entry expected = do
  refuse_if RecordError.missing_key (first_missing expected (keys_in entry))
  refuse_if RecordError.unknown_key (first_unknown expected (sort list_le (keys_in entry)))

abbrev pub as_string : Text → Option Json → Parsed RecordError Text
as_string key (some (Json.string s)) = Parsed.parsed s
as_string key _ = Parsed.refused (RecordError.not_a_string key)

-- `_check_string` with the string. A key that is absent raises a `KeyError`, but is checked before.
unfoldable pub read_string : Fields → Text → Parsed RecordError Text
unfolding get
read_string entry key = as_string key (get key entry)

unfoldable pub check_strings : Fields → List Text → Parsed RecordError (Unit {0})
unfolding read_string
check_strings entry [] = Parsed.parsed tt
check_strings entry (key ∷ keys) = do _ ← read_string entry key; check_strings entry keys

-- `_parse_observed_at`: the timestamp as the text of its `isoformat()`.
unfoldable pub parse_observed_at : Text → Parsed RecordError Text
parse_observed_at s =
    if is_canonical_timestamp s
    then Parsed.parsed s
    else Parsed.refused (RecordError.not_canonical s)

abbrev pub as_record : Json → Parsed RecordError Fields
as_record (Json.object fs) = Parsed.parsed fs
as_record _ = Parsed.refused RecordError.not_an_object

abbrev pub provenance_keys : List Text
provenance_keys =
    codes "provider" ∷ codes "collection_method" ∷ codes "observed_at" ∷ codes "source_run" ∷ []

-- `_IDENTITY_KEYS` and `_RELATIONSHIP_KEYS` without "provenance", which is the last of both.
abbrev pub string_keys : Bool → List Text
string_keys true = codes "type" ∷ codes "subject" ∷ codes "property_name" ∷ codes "value" ∷ []
string_keys false = codes "type" ∷ codes "subject" ∷ codes "related_subject" ∷ codes "category" ∷ []

-- Whether the type is that of an identity.
abbrev pub observation_type : Option Json → Parsed RecordError Bool
observation_type none = Parsed.refused (RecordError.missing_key (codes "type"))
observation_type (some (Json.string s)) =
    if s == codes "identity"
    then Parsed.parsed true
    else if s == codes "relationship"
    then Parsed.parsed false
    else Parsed.refused RecordError.unknown_type
observation_type (some _) = Parsed.refused RecordError.unknown_type

abbrev pub object_at : Option Json → Parsed RecordError Fields
object_at none = Parsed.refused (RecordError.missing_key (codes "provenance"))
object_at (some j) = as_record j

unfoldable pub read_provenance : Fields → Parsed RecordError Provenance
unfolding read_string parse_observed_at
read_provenance entry = do
  provider ← read_string entry (codes "provider")
  collection_method ← read_string entry (codes "collection_method")
  s ← read_string entry (codes "observed_at")
  observed_at ← parse_observed_at s
  source_run ← read_string entry (codes "source_run")
  Parsed.parsed (record {
    provider = provider;
    collection_method = collection_method;
    observed_at = observed_at;
    source_run = source_run;
  })

abbrev pub observation_of : Bool → Text → Text → Text → Provenance → Observation
observation_of true subject third fourth provenance =
    Observation.identity
      (record { subject = subject; property_name = third; value = fourth; provenance = provenance })
observation_of false subject third fourth provenance = Observation.relationship (record {
  subject = subject;
  related_subject = third;
  category = fourth;
  provenance = provenance;
})

abbrev pub third_key : Bool → Text
third_key true = codes "property_name"
third_key false = codes "related_subject"

abbrev pub fourth_key : Bool → Text
fourth_key true = codes "value"
fourth_key false = codes "category"

-- `_from_record`
unfoldable pub from_record : Json → Parsed RecordError Observation
unfolding get check_keys check_strings read_provenance
from_record j = do
  entry ← as_record j
  is_identity ← observation_type (get (codes "type") entry)
  check_keys entry (string_keys is_identity ++ codes "provenance" ∷ [])
  provenance_entry ← object_at (get (codes "provenance") entry)
  check_keys provenance_entry provenance_keys
  check_strings entry (string_keys is_identity)
  check_strings provenance_entry provenance_keys
  provenance ← read_provenance provenance_entry
  subject ← read_string entry (codes "subject")
  third ← read_string entry (third_key is_identity)
  fourth ← read_string entry (fourth_key is_identity)
  Parsed.parsed (observation_of is_identity subject third fourth provenance)

abbrev pub prepend :
    ℕ
    → Parsed RecordError Observation
    → Parsed ReplayError (List Observation)
    → Parsed ReplayError (List Observation)
prepend index (Parsed.refused e) rest = Parsed.refused (ReplayError.in_record index e)
prepend index (Parsed.parsed o) rest = do os ← rest; Parsed.parsed (o ∷ os)

-- The comprehension over `enumerate(records)`.
unfoldable pub from_records : ℕ → Items → Parsed ReplayError (List Observation)
unfolding from_record
from_records index Items.no_items = Parsed.parsed []
from_records index (Items.item j js) = prepend index (from_record j) (from_records (suc index) js)

abbrev pub as_document : Json → Parsed ReplayError Fields
as_document (Json.object fs) = Parsed.parsed fs
as_document _ = Parsed.refused ReplayError.not_a_document

abbrev pub check_format : Option Json → Parsed ReplayError (Unit {0})
check_format none = Parsed.refused (ReplayError.missing_required (codes "format"))
check_format (some (Json.string s)) =
    if s == format_identifier then Parsed.parsed tt else Parsed.refused ReplayError.unknown_format
check_format (some _) = Parsed.refused ReplayError.unknown_format

-- `type(format_version) is not int or format_version != FORMAT_VERSION`
abbrev pub check_version : Option Json → Parsed ReplayError (Unit {0})
check_version none = Parsed.refused (ReplayError.missing_required (codes "format_version"))
check_version (some (Json.integer n)) =
    if n == format_version then Parsed.parsed tt else Parsed.refused ReplayError.unsupported_version
check_version (some _) = Parsed.refused ReplayError.unsupported_version

abbrev pub top_level_keys : List Text
top_level_keys = codes "format" ∷ codes "format_version" ∷ codes "observations" ∷ []

abbrev pub records_of : Option Json → Parsed ReplayError Items
records_of (some (Json.array js)) = Parsed.parsed js
records_of _ = Parsed.refused ReplayError.observations_not_an_array

-- `parse_observations` of the tree.
unfoldable pub parse_observations : Json → Parsed ReplayError (List Observation)
unfolding get duplicate_key from_records sort
parse_observations tree = do
  refuse_if ReplayError.duplicate (duplicate_key tree)
  document ← as_document tree
  check_format (get (codes "format") document)
  check_version (get (codes "format_version") document)
  refuse_if ReplayError.unknown_top_level_key
      (first_unknown top_level_keys (sort list_le (keys_in document)))
  records ← records_of (get (codes "observations") document)
  from_records 0 records

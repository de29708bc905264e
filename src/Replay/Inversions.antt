-- ===== src/Replay/Inversions.antt =====
-- networkmapper/observations/replay_format.py: what a check that succeeds says about the value that it read.
use network_mapper.Prelude.{
  ◌≡◌, refl, ap, ◌∙◌, inl, inr, Bool, true, false, Option, none, some, List, [], ◌∷◌, arith, All,
  Bool-cases,
}
use network_mapper.Prelude.Decimal.{int_eq}
use network_mapper.Prelude.Eq.{elem, eq_of_beq, list_eq, nat_eq, option_eq, pair_eq, ◌==◌}
use network_mapper.Prelude.Ord.{list_le, list_ord, nat_ord}
use network_mapper.Prelude.Sort.{All-of_sort, sort}
use network_mapper.Prelude.Text.{Text, codes}
use network_mapper.Presentation.{cardinality_eq}
use network_mapper.Replay.Json.{Fields, Items, Json, get, keys_in}
use network_mapper.Replay.Reader.{
  Parsed, RecordError, as_document, as_record, as_string, check_format, check_keys, check_version,
  first_missing, first_unknown, object_at, observation_type, parse_observed_at, read_string,
  records_of, refuse_if, ◌>>=◌,
}
use network_mapper.Replay.Timestamps.{is_canonical_timestamp}
use network_mapper.Replay.Writer.{format_identifier, format_version}
use network_mapper.Snmp.Rows.{rem_key_eq}

pub bind-parsed {ℓ κ} :
    {E : Type 0} {A : Type ℓ} {B : Type κ} (m : Parsed E A) (f : A → Parsed E B) (b : B)
    → (m >>= f) ≡ Parsed.parsed b
    → (a : A) × (m ≡ Parsed.parsed a) × (f a ≡ Parsed.parsed b)
bind-parsed (Parsed.parsed a) f b h = (a, refl, h)
bind-parsed (Parsed.refused e) f b h = absurd (ground arith)

pub parsed_injective {ℓ} :
    {E : Type 0} {A : Type ℓ} {x y : A}
    → Path (Parsed E A) (Parsed.parsed x) (Parsed.parsed y)
    → x ≡ y
parsed_injective {x = x} h = ap (λ m. elim m [ Parsed.parsed z ↦ z | Parsed.refused e ↦ x ]) h

as_string-found :
    (key : Text) (found : Option Json) (s : Text)
    → as_string key found ≡ Parsed.parsed s
    → found ≡ some (Json.string s)
as_string-found key (some (Json.string t)) s h = ap (λ u. some (Json.string u)) (parsed_injective h)
as_string-found key none s h = absurd (ground arith)
as_string-found key (some Json.null) s h = absurd (ground arith)
as_string-found key (some (Json.boolean b)) s h = absurd (ground arith)
as_string-found key (some (Json.integer n)) s h = absurd (ground arith)
as_string-found key (some (Json.float t)) s h = absurd (ground arith)
as_string-found key (some (Json.array xs)) s h = absurd (ground arith)
as_string-found key (some (Json.object fs)) s h = absurd (ground arith)

pub read_string-get :
    (entry : Fields) (key s : Text)
    → read_string entry key ≡ Parsed.parsed s
    → get key entry ≡ some (Json.string s)
unfolding read_string
read_string-get entry key s h = as_string-found key (get key entry) s h

pub parse_observed_at-canonical :
    (s t : Text)
    → parse_observed_at s ≡ Parsed.parsed t
    → (s ≡ t) × (is_canonical_timestamp s ≡ true)
unfolding parse_observed_at
parse_observed_at-canonical s t h = elim (Bool-cases (is_canonical_timestamp s)) [
  | inl e ↦ (parsed_injective {E = RecordError} {x = s} {y = t} (ground arith), e)
  | inr e ↦ absurd (ground arith)
]

pub as_record-object :
    (j : Json) (fs : Fields) → as_record j ≡ Parsed.parsed fs → j ≡ Json.object fs
as_record-object (Json.object gs) fs h = ap Json.object (parsed_injective h)
as_record-object Json.null fs h = absurd (ground arith)
as_record-object (Json.boolean b) fs h = absurd (ground arith)
as_record-object (Json.integer n) fs h = absurd (ground arith)
as_record-object (Json.float t) fs h = absurd (ground arith)
as_record-object (Json.string t) fs h = absurd (ground arith)
as_record-object (Json.array xs) fs h = absurd (ground arith)

pub as_document-object :
    (j : Json) (fs : Fields) → as_document j ≡ Parsed.parsed fs → j ≡ Json.object fs
as_document-object (Json.object gs) fs h = ap Json.object (parsed_injective h)
as_document-object Json.null fs h = absurd (ground arith)
as_document-object (Json.boolean b) fs h = absurd (ground arith)
as_document-object (Json.integer n) fs h = absurd (ground arith)
as_document-object (Json.float t) fs h = absurd (ground arith)
as_document-object (Json.string t) fs h = absurd (ground arith)
as_document-object (Json.array xs) fs h = absurd (ground arith)

pub object_at-object :
    (found : Option Json) (fs : Fields)
    → object_at found ≡ Parsed.parsed fs
    → found ≡ some (Json.object fs)
object_at-object none fs h = absurd (ground arith)
object_at-object (some j) fs h = ap some (as_record-object j fs h)

abbrev pub type_of : Bool → Text
type_of true = codes "identity"
type_of false = codes "relationship"

pub observation_type-found :
    (found : Option Json) (b : Bool)
    → observation_type found ≡ Parsed.parsed b
    → found ≡ some (Json.string (type_of b))
observation_type-found (some (Json.string s)) b h = elim (Bool-cases (s == codes "identity")) [
  | inl e ↦
      ap (λ u. some (Json.string u))
        (eq_of_beq s (codes "identity") e
          ∙ ap type_of (parsed_injective {E = RecordError} {x = true} {y = b} (ground arith)))
  | inr e ↦ elim (Bool-cases (s == codes "relationship")) [
    | inl k ↦
        ap (λ u. some (Json.string u))
          (eq_of_beq s (codes "relationship") k
            ∙ ap type_of (parsed_injective {E = RecordError} {x = false} {y = b} (ground arith)))
    | inr k ↦ absurd (ground arith)
  ]
]
observation_type-found none b h = absurd (ground arith)
observation_type-found (some Json.null) b h = absurd (ground arith)
observation_type-found (some (Json.boolean c)) b h = absurd (ground arith)
observation_type-found (some (Json.integer n)) b h = absurd (ground arith)
observation_type-found (some (Json.float t)) b h = absurd (ground arith)
observation_type-found (some (Json.array xs)) b h = absurd (ground arith)
observation_type-found (some (Json.object fs)) b h = absurd (ground arith)

pub records_of-array :
    (found : Option Json) (js : Items)
    → records_of found ≡ Parsed.parsed js
    → found ≡ some (Json.array js)
records_of-array (some (Json.array xs)) js h = ap (λ ys. some (Json.array ys)) (parsed_injective h)
records_of-array none js h = absurd (ground arith)
records_of-array (some Json.null) js h = absurd (ground arith)
records_of-array (some (Json.boolean b)) js h = absurd (ground arith)
records_of-array (some (Json.integer n)) js h = absurd (ground arith)
records_of-array (some (Json.float t)) js h = absurd (ground arith)
records_of-array (some (Json.string t)) js h = absurd (ground arith)
records_of-array (some (Json.object fs)) js h = absurd (ground arith)

pub refuse_if-none :
    {E : Type 0} (error : Text → E) (found : Option Text) (u : Unit {0})
    → refuse_if error found ≡ Parsed.parsed u
    → found ≡ none
refuse_if-none error none u h = refl
refuse_if-none error (some key) u h = absurd (ground arith)

pub check_format-found :
    (found : Option Json) (u : Unit {0})
    → check_format found ≡ Parsed.parsed u
    → found ≡ some (Json.string format_identifier)
check_format-found (some (Json.string s)) u h = elim (Bool-cases (s == format_identifier)) [
  | inl e ↦ ap (λ t. some (Json.string t)) (eq_of_beq s format_identifier e)
  | inr e ↦ absurd (ground arith)
]
check_format-found none u h = absurd (ground arith)
check_format-found (some Json.null) u h = absurd (ground arith)
check_format-found (some (Json.boolean c)) u h = absurd (ground arith)
check_format-found (some (Json.integer n)) u h = absurd (ground arith)
check_format-found (some (Json.float t)) u h = absurd (ground arith)
check_format-found (some (Json.array xs)) u h = absurd (ground arith)
check_format-found (some (Json.object fs)) u h = absurd (ground arith)

pub check_version-found :
    (found : Option Json) (u : Unit {0})
    → check_version found ≡ Parsed.parsed u
    → found ≡ some (Json.integer format_version)
check_version-found (some (Json.integer n)) u h = elim (Bool-cases (n == format_version)) [
  | inl e ↦ ap (λ k. some (Json.integer k)) (eq_of_beq n format_version e)
  | inr e ↦ absurd (ground arith)
]
check_version-found none u h = absurd (ground arith)
check_version-found (some Json.null) u h = absurd (ground arith)
check_version-found (some (Json.boolean c)) u h = absurd (ground arith)
check_version-found (some (Json.string s)) u h = absurd (ground arith)
check_version-found (some (Json.float t)) u h = absurd (ground arith)
check_version-found (some (Json.array xs)) u h = absurd (ground arith)
check_version-found (some (Json.object fs)) u h = absurd (ground arith)

-- The object has no key but those.
abbrev pub HasOnly : Fields → List Text → Type 0
HasOnly entry keys = All (λ key. elem key keys ≡ true) (keys_in entry)

first_unknown-none :
    (expected keys : List Text)
    → first_unknown expected keys ≡ none
    → All (λ key. elem key expected ≡ true) keys
first_unknown-none expected [] h = tt
first_unknown-none expected (key ∷ keys) h = elim (Bool-cases (elem key expected)) [
  | inl e ↦ (e, first_unknown-none expected keys (ground arith))
  | inr e ↦ absurd (ground arith)
]

pub first_unknown-HasOnly :
    (expected : List Text) (entry : Fields)
    → first_unknown expected (sort list_le (keys_in entry)) ≡ none
    → HasOnly entry expected
first_unknown-HasOnly expected entry h =
    All-of_sort list_le _ (keys_in entry) (first_unknown-none expected _ h)

pub check_keys-HasOnly :
    (entry : Fields) (expected : List Text) (u : Unit {0})
    → check_keys entry expected ≡ Parsed.parsed u
    → HasOnly entry expected
unfolding check_keys
check_keys-HasOnly entry expected u h =
    let (_, _, k) =
      bind-parsed (refuse_if RecordError.missing_key (first_missing expected (keys_in entry))) _ u
        h in
    first_unknown-HasOnly expected entry (refuse_if-none RecordError.unknown_key _ u k)

-- ===== src/Replay/Json.antt =====
-- The values that Python's `json` reads and writes, and their `dict` operations.
use network_mapper.Prelude.{Bool, Option, none, some, List, [], ◌∷◌, ◌++◌, if◌then◌else◌}
use network_mapper.Prelude.Decimal.{int_eq, ℤ}
use network_mapper.Prelude.Dict.{or_else}
use network_mapper.Prelude.Eq.{elem, list_eq, nat_eq, option_eq, pair_eq, ◌==◌}
use network_mapper.Prelude.Ord.{list_le, list_ord, nat_ord}
use network_mapper.Prelude.Text.{Text}
use network_mapper.Snmp.Rows.{rem_key_eq}

mutual
  -- A number with a fraction or an exponent is kept as its text.
  pub data Json : Type 0 where
    null : Json
    boolean : Bool → Json
    integer : ℤ → Json
    float : Text → Json
    string : Text → Json
    array : Items → Json
    object : Fields → Json

  pub data Items : Type 0 where
    no_items : Items
    item : Json → Items → Items

  pub data Fields : Type 0 where
    no_fields : Fields
    member : Text → Json → Fields → Fields

abbrev pub items : List Json → Items
items [] = Items.no_items
items (x ∷ xs) = Items.item x (items xs)

abbrev pub fields : List (Text × Json) → Fields
fields [] = Fields.no_fields
fields ((key, value) ∷ more) = Fields.member key value (fields more)

abbrev pub keys_in : Fields → List Text
keys_in Fields.no_fields = []
keys_in (Fields.member key value more) = key ∷ keys_in more

-- `record[key]`, `none` when it is absent.
unfoldable pub get : Text → Fields → Option Json
get key Fields.no_fields = none
get key (Fields.member k value more) = if k == key then some value else get key more

unfoldable pub insert_field : Text → Json → Fields → Fields
insert_field key value Fields.no_fields = Fields.member key value Fields.no_fields
insert_field key value (Fields.member k v more) =
    let rest = insert_field key value more in
    if list_le key k
    then Fields.member key value (Fields.member k v more)
    else Fields.member k v rest

-- The tree that `json.dumps(…, sort_keys=True)` prints.
unfoldable mutual
  pub sort_keys : Json → Json
  sort_keys (Json.array xs) = Json.array (sort_items xs)
  sort_keys (Json.object fs) = Json.object (sort_fields fs)
  sort_keys j = j

  pub sort_items : Items → Items
  sort_items Items.no_items = Items.no_items
  sort_items (Items.item x xs) = Items.item (sort_keys x) (sort_items xs)

  pub sort_fields : Fields → Fields
  sort_fields Fields.no_fields = Fields.no_fields
  sort_fields (Fields.member key value more) = insert_field key (sort_keys value) (sort_fields more)

-- The key of the first pair whose key stands before it: `_reject_duplicate_keys` of one object.
unfoldable pub repeated_key : List Text → Fields → Option Text
repeated_key seen Fields.no_fields = none
repeated_key seen (Fields.member key value more) =
    let rest = repeated_key (seen ++ key ∷ []) more in if elem key seen then some key else rest

-- The key of the `_DuplicateKeyError` that `loads` raises: each object is completed after its values.
unfoldable mutual
  pub duplicate_key : Json → Option Text
  duplicate_key (Json.array xs) = duplicate_in_items xs
  duplicate_key (Json.object fs) = or_else (duplicate_in_fields fs) (repeated_key [] fs)
  duplicate_key j = none

  pub duplicate_in_items : Items → Option Text
  duplicate_in_items Items.no_items = none
  duplicate_in_items (Items.item x xs) = or_else (duplicate_key x) (duplicate_in_items xs)

  pub duplicate_in_fields : Fields → Option Text
  duplicate_in_fields Fields.no_fields = none
  duplicate_in_fields (Fields.member key value more) =
      or_else (duplicate_key value) (duplicate_in_fields more)

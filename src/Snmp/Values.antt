-- ===== src/Snmp/Values.antt =====
-- networkmapper/discovery/snmp_client.py: `_format_mac`, `_as_int`, `_as_optional_text` and
-- `_format_lldp_chassis_id`. The values that pysnmp delivers are parameters: each may be one of
-- the types of a missing value, and `bytes(value)` and `int(value)` may raise.
use Prim.Native.Nat.{◌/◌, ◌%◌}
use network_mapper.Prelude.{
  ℕ, ◌+◌, ◌-◌, Bool, Option, none, some, List, [], ◌∷◌, map, if◌then◌else◌, length, ltb, nat_beq,
}
use network_mapper.Prelude.Decimal.{str_nat, ℤ}
use network_mapper.Prelude.Split.{join}
use network_mapper.Prelude.Text.{Text, codes, is_filled, strip}

-- What the client reads of a value: `isinstance(value, _UNRESOLVED_VALUE_TYPES)`, `bytes(value)`,
-- `int(value)` and `str(value)`, with `none` where the conversion raises.
pub record Reading {ℓ} (V : Type ℓ) : Type ℓ where
  pub is_unresolved : V → Bool
  pub bytes : V → Option (List ℕ)
  pub int : V → Option ℤ
  pub text : V → Text

abbrev pub upper_hex : ℕ → ℕ
upper_hex d = if ltb d 10 then b'0' + d else b'A' + (d - 10)

abbrev pub lower_hex : ℕ → ℕ
lower_hex d = if ltb d 10 then b'0' + d else b'a' + (d - 10)

-- `f"{byte:02X}"`
abbrev pub hex_byte : ℕ → Text
hex_byte b = upper_hex (b / 16) ∷ upper_hex (b % 16) ∷ []

-- `raw.hex()`
unfoldable pub hex : List ℕ → Text
hex [] = []
hex (b ∷ bs) = lower_hex (b / 16) ∷ lower_hex (b % 16) ∷ hex bs

-- `_format_mac`
unfoldable pub format_mac : List ℕ → Text
format_mac bytes = join (codes ":") (map hex_byte bytes)

-- `".".join(str(octet) for octet in octets)`
unfoldable pub dotted : List ℕ → Text
dotted octets = join (codes ".") (map str_nat octets)

abbrev pub or_minus_one : Option ℤ → ℤ
or_minus_one none = ℤ.negsuc 0
or_minus_one (some n) = n

module _ {ℓ} {V : Type ℓ} (reading : Reading V) where
  -- `_as_int`
  unfoldable pub as_int : Option V → ℤ
  as_int none = ℤ.negsuc 0
  as_int (some value) = or_minus_one (reading.int value)

  -- `_as_optional_text`
  unfoldable pub as_optional_text : Option V → Option Text
  as_optional_text none = none
  as_optional_text (some value) =
      let text = strip (reading.text value) in if is_filled text then some text else none

abbrev pub network_address : List ℕ → Option Text
network_address [] = none
network_address (family ∷ octets) =
    if nat_beq family 1
    then if nat_beq (length octets) 4 then some (dotted octets) else none
    else some (hex (family ∷ octets))

-- `_format_lldp_chassis_id` of the subtype and the bytes of the value.
unfoldable pub format_lldp_chassis_id : ℤ → List ℕ → Option Text
format_lldp_chassis_id (ℤ.negsuc n) raw = some (hex raw)
format_lldp_chassis_id (ℤ.pos subtype) raw =
    if nat_beq subtype 4
    then if nat_beq (length raw) 6 then some (format_mac raw) else none
    else if nat_beq subtype 5
    then network_address raw
    else some (hex raw)

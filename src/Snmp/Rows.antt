-- ===== src/Snmp/Rows.antt =====
-- networkmapper/discovery/snmp_client.py: `_parse_ipv4_arp_row`, `_parse_lldp_rem_row`,
-- `_parse_lldp_man_addr_row` and `_parse_bridge_fdb_row`, which read the index of a table's row from
-- the object identifier that a walk delivers.
use network_mapper.Prelude.{
  ℕ, ◌≡◌, ◌↔◌, Bool, true, ◌&&◌, Option, none, some, List, [], ◌∷◌, ◌++◌, arith, if◌then◌else◌, leb,
  length, nat_beq,
}
use network_mapper.Prelude.Decimal.{int_beq_iff, int_eq, parse_int, ℤ}
use network_mapper.Prelude.Eq.{Eq, list_eq, nat_eq, option_eq, pair_eq, ◌==◌}
use network_mapper.Prelude.Ord.{list_ord, nat_ord}
use network_mapper.Prelude.Split.{drop, split, take, traverse}
use network_mapper.Prelude.Text.{Text, codes, starts_with}
use network_mapper.Snmp.Values.{dotted, format_mac}

-- The TimeMark, the LocalPortNum and the RemIndex of a row of `lldpRemTable`.
abbrev pub RemKey : Type 0
RemKey = ℤ × ℤ × ℤ

abbrev pub rem_key_beq : RemKey → RemKey → Bool
rem_key_beq (a, b, c) (a', b', c') = a == a' && b == b' && c == c'

pub rem_key_beq_iff : (k l : RemKey) → (rem_key_beq k l ≡ true) ↔ (k ≡ l)
rem_key_beq_iff (a, b, c) (a', b', c') =
    ground (arith, int_beq_iff a a', int_beq_iff b b', int_beq_iff c c')

instance abbrev pub rem_key_eq : Eq RemKey
rem_key_eq = record { decide = rem_key_beq; exact = rem_key_beq_iff }

-- The numbers of the identifier behind the column's; `none` where each of the functions returns
-- `None`: another column, or a part that is not a number.
unfoldable pub row_components : Text → Text → Option (List ℤ)
unfolding split
row_components oid column =
    let prefix = column ++ codes "." in
    if starts_with prefix oid
    then traverse parse_int (split b'.' (drop (length prefix) oid))
    else none

-- The number, when `0 <= octet <= 255`.
abbrev pub as_octet : ℤ → Option ℕ
as_octet (ℤ.negsuc n) = none
as_octet (ℤ.pos n) = if leb n 255 then some n else none

-- The octets, when there are as many as asked for and each is one.
unfoldable pub octets_of : ℕ → List ℤ → Option (List ℕ)
octets_of size numbers = if nat_beq (length numbers) size then traverse as_octet numbers else none

abbrev pub with_address {ℓ} : {K : Type ℓ} → K → Option (List ℕ) → Option (K × Text)
with_address key none = none
with_address key (some octets) = some (key, dotted octets)

unfoldable pub arp_index : List ℤ → Option (ℤ × Text)
arp_index (if_index ∷ address_type ∷ address_length ∷ rest) =
    if address_type == ℤ.pos 1 && address_length == ℤ.pos 4
    then with_address if_index (octets_of 4 (take 4 rest))
    else none
arp_index _ = none

unfoldable pub rem_index : List ℤ → Option RemKey
rem_index (time_mark ∷ local_port_num ∷ index ∷ []) = some (time_mark, local_port_num, index)
rem_index _ = none

unfoldable pub man_addr_index : List ℤ → Option (RemKey × Text)
man_addr_index (time_mark ∷ local_port_num ∷ index ∷ addr_subtype ∷ addr_len ∷ rest) =
    if addr_subtype == ℤ.pos 1 && addr_len == ℤ.pos 4
    then with_address (time_mark, local_port_num, index) (octets_of 4 (take 4 rest))
    else none
man_addr_index _ = none

abbrev pub as_mac : Option (List ℕ) → Option Text
as_mac none = none
as_mac (some octets) = some (format_mac octets)

abbrev pub after_components {ℓ} : {A : Type ℓ} → (List ℤ → Option A) → Option (List ℤ) → Option A
after_components f none = none
after_components f (some components) = f components

-- `_parse_ipv4_arp_row`
unfoldable pub parse_ipv4_arp_row : Text → Text → Option (ℤ × Text)
parse_ipv4_arp_row oid column = after_components arp_index (row_components oid column)

-- `_parse_lldp_rem_row`
unfoldable pub parse_lldp_rem_row : Text → Text → Option RemKey
parse_lldp_rem_row oid column = after_components rem_index (row_components oid column)

-- `_parse_lldp_man_addr_row`
unfoldable pub parse_lldp_man_addr_row : Text → Text → Option (RemKey × Text)
parse_lldp_man_addr_row oid column = after_components man_addr_index (row_components oid column)

-- `_parse_bridge_fdb_row`
unfoldable pub parse_bridge_fdb_row : Text → Text → Option Text
parse_bridge_fdb_row oid column =
    after_components (λ numbers. as_mac (octets_of 6 numbers)) (row_components oid column)

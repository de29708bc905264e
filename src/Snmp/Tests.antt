-- ===== src/Snmp/Tests.antt =====
-- Runs of the client on a small agent whose values are texts.
use network_mapper.Prelude.{
  ℕ, ◌≡◌, refl, true, ◌&&◌, none, some, List, [], ◌∷◌, map, arith, if◌then◌else◌, length, ◌&◌,
}
use network_mapper.Prelude.Decimal.{int_eq, parse_int, str_nat, ℤ}
use network_mapper.Prelude.Dict.{assign}
use network_mapper.Prelude.Eq.{Eq, list_beq, list_eq, nat_eq, option_eq, pair_eq, ◌==◌}
use network_mapper.Prelude.Group.{IsDistinct}
use network_mapper.Prelude.Ord.{list_ord, nat_ord}
use network_mapper.Prelude.Split.{join}
use network_mapper.Prelude.Text.{Text, codes, starts_with}
use network_mapper.Presentation.{cardinality_eq}
use network_mapper.Snmp.BestEffort.{
  arp_fields, arp_walk, fdb_fields, is_complete, is_raised, port_walk, query-best_effort,
  result_map, status_walk, type_walk,
}
use network_mapper.Snmp.Client.{
  Agent, Answer, collect_fields, get_arp_table, get_bridge_fdb, get_system_group,
}
use network_mapper.Snmp.Entries.{arp_key, entries-IsDistinct, fdb_key}
use network_mapper.Snmp.Octets.{AreOctets, row_oid}
use network_mapper.Snmp.Results.{
  arp_phys_address_oid, failed_with, fdb_port_oid, fdb_status_oid, malformed, responded_with,
}
use network_mapper.Snmp.RoundTrip.{IsArpIndex, parse_row-bounds, parse_row-row_oid}
use network_mapper.Snmp.Rows.{
  arp_index, octets_of, parse_bridge_fdb_row, parse_ipv4_arp_row, parse_lldp_man_addr_row,
  parse_lldp_rem_row, rem_index, rem_key_eq, row_components,
}
use network_mapper.Snmp.Texts.{read_dotted, read_mac}
use network_mapper.Snmp.Values.{Reading, dotted, format_lldp_chassis_id, format_mac, hex}
use network_mapper.Snmp.Walks.{Response, assign_all, walk_bridge_fdb_column, walk_column}

abbrev plain : Reading Text
plain = record {
  is_unresolved = λ v. v == codes "noSuchObject";
  bytes = λ v. some v;
  int = parse_int;
  text = λ v. v;
}

abbrev arp_row : Text
arp_row = codes "1.3.6.1.2.1.4.35.1.4.7.1.4.10.0.0.6"

abbrev fdb_row : Text
fdb_row = codes "1.3.6.1.2.1.17.4.3.1.2.0.17.34.51.68.255"

-- One ARP entry, sent twice, and one learned hardware address.
abbrev columns : Text → List (Response Text)
columns oid =
    if oid == arp_phys_address_oid
    then Response.var_binds
        ((arp_row, 0 ∷ 17 ∷ 34 ∷ 51 ∷ 68 ∷ 255 ∷ []) ∷ (arp_row, 1 ∷ 2 ∷ []) ∷ [])
      ∷ []
    else if oid == fdb_port_oid
    then Response.var_binds ((fdb_row, codes "3") ∷ []) ∷ []
    else if oid == fdb_status_oid
    then Response.var_binds ((codes "1.3.6.1.2.1.17.4.3.1.3.0.17.34.51.68.255", codes "3") ∷ [])
      ∷ []
    else []

abbrev switch : Agent Text
switch = record {
  has_transport = true;
  system = Answer.values (codes "A switch" ∷ codes "noSuchObject" ∷ codes "  " ∷ []);
  column = columns;
}

-- The same agent, whose walk of the statuses raises.
abbrev raising_switch : Agent Text
raising_switch = record {
  has_transport = true;
  system = Answer.no_answer;
  column = λ oid. if oid == fdb_status_oid then Response.exception ∷ [] else columns oid;
}

-- A column's prefix is not a prefix of another column's rows, white space and signs are read, and an
-- octet of 256 is refused.
rows :
    (parse_ipv4_arp_row arp_row arp_phys_address_oid ≡ some (ℤ.pos 7, codes "10.0.0.6"))
    × (parse_ipv4_arp_row (codes "1.2.7.1.4.10.0.0.256") (codes "1.2") ≡ none)
    × (parse_lldp_rem_row (codes "1.2.0.-3.+4") (codes "1.2") ≡ some (ℤ.pos 0, ℤ.negsuc 2, ℤ.pos 4))
    × (parse_lldp_rem_row (codes "1.20.0.3.4") (codes "1.2") ≡ none)
    × (parse_bridge_fdb_row fdb_row fdb_port_oid ≡ some (codes "00:11:22:33:44:FF"))
unfolding parse_ipv4_arp_row row_components network_mapper.Prelude.Text.starts_with parse_int
    network_mapper.Snmp.Rows.arp_index network_mapper.Snmp.Rows.octets_of dotted
    network_mapper.Prelude.Split.join network_mapper.Prelude.Decimal.str_nat parse_lldp_rem_row
    network_mapper.Snmp.Rows.rem_index parse_bridge_fdb_row format_mac
rows = (refl, refl, refl, refl, refl)

system : get_system_group plain switch ≡ responded_with ((codes "sysDescr", codes "A switch") ∷ [])
unfolding get_system_group network_mapper.Snmp.Client.collect_fields
    network_mapper.Prelude.Eq.list_beq
system = refl

table :
    get_bridge_fdb plain switch
    ≡ responded_with (
        record {
          mac_address = codes "00:11:22:33:44:FF";
          port = ℤ.pos 3;
          status = some (codes "learned");
        }
        ∷ [])
unfolding get_bridge_fdb network_mapper.Prelude.Eq.list_beq network_mapper.Snmp.Walks.assign_all
    parse_bridge_fdb_row row_components network_mapper.Prelude.Text.starts_with parse_int
    network_mapper.Snmp.Rows.octets_of network_mapper.Prelude.Dict.assign format_mac
    network_mapper.Prelude.Split.join
table = refl

chassis :
    (format_lldp_chassis_id (ℤ.pos 5) (1 ∷ 10 ∷ 0 ∷ 0 ∷ 6 ∷ []) ≡ some (codes "10.0.0.6"))
    × (format_lldp_chassis_id (ℤ.pos 5) (2 ∷ 171 ∷ []) ≡ some (codes "02ab"))
    × (format_lldp_chassis_id (ℤ.pos 4) (1 ∷ 2 ∷ []) ≡ none)
unfolding format_lldp_chassis_id dotted network_mapper.Prelude.Split.join
    network_mapper.Prelude.Decimal.str_nat network_mapper.Snmp.Values.hex
chassis = (refl, refl, refl)

parse_row-row_oid_example :
    (parse_ipv4_arp_row
        (row_oid (codes "1.2") (ℤ.pos 7 ∷ ℤ.pos 1 ∷ ℤ.pos 4 ∷ map ℤ.pos (10 ∷ 0 ∷ 0 ∷ 6 ∷ [])))
        (codes "1.2")
      ≡ some (ℤ.pos 7, dotted (10 ∷ 0 ∷ 0 ∷ 6 ∷ [])))
    × (parse_lldp_rem_row (row_oid (codes "1.2") (ℤ.pos 0 ∷ ℤ.pos 3 ∷ ℤ.pos 4 ∷ [])) (codes "1.2")
        ≡ some (ℤ.pos 0, ℤ.pos 3, ℤ.pos 4))
    × (parse_lldp_man_addr_row
          (row_oid
            (codes "1.2")
            (ℤ.pos 0 ∷ ℤ.pos 3 ∷ ℤ.pos 4 ∷ ℤ.pos 1 ∷ ℤ.pos 4 ∷ map ℤ.pos (10 ∷ 0 ∷ 0 ∷ 6 ∷ [])))
          (codes "1.2")
        ≡ some ((ℤ.pos 0, ℤ.pos 3, ℤ.pos 4), dotted (10 ∷ 0 ∷ 0 ∷ 6 ∷ [])))
    × (parse_bridge_fdb_row
          (row_oid (codes "1.2") (map ℤ.pos (10 ∷ 0 ∷ 0 ∷ 6 ∷ 171 ∷ 255 ∷ [])))
          (codes "1.2")
        ≡ some (format_mac (10 ∷ 0 ∷ 0 ∷ 6 ∷ 171 ∷ 255 ∷ [])))
    × (read_dotted (dotted (10 ∷ 0 ∷ 0 ∷ 6 ∷ [])) ≡ some (10 ∷ 0 ∷ 0 ∷ 6 ∷ []))
    × (read_mac (format_mac (10 ∷ 0 ∷ 0 ∷ 6 ∷ 171 ∷ 255 ∷ [])) ≡ 10 ∷ 0 ∷ 0 ∷ 6 ∷ 171 ∷ 255 ∷ [])
parse_row-row_oid_example =
    parse_row-row_oid (codes "1.2") (ℤ.pos 7) (ℤ.pos 0) (ℤ.pos 3) (ℤ.pos 4) 10 0 0 6 171 255
      (omega arith & omega arith & omega arith & omega arith & omega arith & omega arith & tt)

parse_row-bounds_example :
    ((numbers : List ℤ) × (row_components arp_row arp_phys_address_oid ≡ some numbers)
      × IsArpIndex numbers (ℤ.pos 7, codes "10.0.0.6"))
    × ((octets : List ℕ) × (row_components fdb_row fdb_port_oid ≡ some (map ℤ.pos octets))
        × (length octets ≡ 6)
        × AreOctets octets
        × (codes "00:11:22:33:44:FF" ≡ format_mac octets))
parse_row-bounds_example =
    parse_row-bounds arp_row fdb_row arp_phys_address_oid fdb_port_oid (ℤ.pos 7, codes "10.0.0.6")
      (codes "00:11:22:33:44:FF") rows.0 rows.4

query-best_effort_example :
    (result_map arp_fields (get_arp_table plain raising_switch) ≡ (
      if is_raised (type_walk plain raising_switch) && is_complete (arp_walk plain raising_switch)
      then failed_with malformed
      else result_map arp_fields (get_arp_table plain switch)))
    × (result_map fdb_fields (get_bridge_fdb plain raising_switch) ≡ (
        if is_raised (status_walk plain raising_switch)
          && is_complete (port_walk plain raising_switch)
        then failed_with malformed
        else result_map fdb_fields (get_bridge_fdb plain switch)))
unfolding network_mapper.Prelude.Eq.list_beq network_mapper.Snmp.Walks.walk_column
    network_mapper.Snmp.Walks.walk_bridge_fdb_column
query-best_effort_example = query-best_effort plain raising_switch switch refl refl refl refl refl

-- The walk of the statuses alone raises, and the whole table is a malformed response.
raising_status : get_bridge_fdb plain raising_switch ≡ failed_with malformed
unfolding get_bridge_fdb network_mapper.Prelude.Eq.list_beq network_mapper.Snmp.Walks.assign_all
    parse_bridge_fdb_row row_components network_mapper.Prelude.Text.starts_with parse_int
    network_mapper.Snmp.Rows.octets_of network_mapper.Prelude.Dict.assign format_mac
    network_mapper.Prelude.Split.join
raising_status = refl

entries-IsDistinct_example :
    IsDistinct (map arp_key (get_arp_table plain switch).entries)
    × IsDistinct (map fdb_key (get_bridge_fdb plain switch).entries)
entries-IsDistinct_example = entries-IsDistinct plain switch

-- Numbers behind the four octets are passed over.
longer_row :
    parse_ipv4_arp_row (codes "1.2.7.1.4.10.0.0.6.99.5") (codes "1.2")
    ≡ some (ℤ.pos 7, codes "10.0.0.6")
unfolding parse_ipv4_arp_row row_components starts_with parse_int arp_index octets_of dotted join
    str_nat
longer_row = refl

-- ===== src/Snmp/Client.antt =====
-- networkmapper/discovery/snmp_client.py: `PysnmpClient`. What pysnmp and the device do in a query
-- is a parameter: whether the transport can be created, the answer to the GET, and what the walk
-- of each column yields.
use network_mapper.Prelude.{Bool, true, false, some, List, [], ◌∷◌, map, if◌then◌else◌}
use network_mapper.Prelude.Decimal.{int_eq, ℤ}
use network_mapper.Prelude.Dict.{assign}
use network_mapper.Prelude.Eq.{list_eq, nat_eq, option_eq, pair_eq}
use network_mapper.Prelude.Group.{entries}
use network_mapper.Prelude.Sets.{lookup}
use network_mapper.Prelude.Text.{Text, codes, is_filled, strip}
use network_mapper.Snmp.Results.{
  SnmpArpTableEntry, SnmpBridgeFdbEntry, SnmpResult, arp_entry_type_names, arp_phys_address_oid,
  arp_type_oid, bridge_fdb_status_names, failed_with, fdb_port_oid, fdb_status_oid, malformed,
  responded_with, system_group, timeout,
}
use network_mapper.Snmp.Rows.{rem_key_eq}
use network_mapper.Snmp.Values.{Reading, as_int, format_mac}
use network_mapper.Snmp.Walks.{
  Response, Walked, best_effort, for_each, or_raise, walk_bridge_fdb_column, walk_column, ◌>>=◌,
}

-- The answer to the request for the system group.
pub data Answer {ℓ} (V : Type ℓ) : Type ℓ where
  no_answer : Answer V
  error_indication : Answer V
  error_status : Answer V
  values : List V → Answer V

pub record Agent {ℓ} (V : Type ℓ) : Type ℓ where
  pub has_transport : Bool
  pub system : Answer V
  pub column : Text → List (Response V)

-- The result of a query, with the `except Exception` around it: a required walk that failed is a
-- timeout, and an exception a malformed response.
abbrev pub outcome : {Entry : Type 0} → Walked (List Entry) → SnmpResult Entry
outcome (Walked.complete entries) = responded_with entries
outcome Walked.walk_failed = failed_with timeout
outcome Walked.raised = failed_with malformed

-- `await UdpTransportTarget.create(…)`
abbrev pub create_transport : Bool → Walked (Unit {0})
create_transport true = Walked.complete tt
create_transport false = Walked.raised

module _ {V : Type 0} (reading : Reading V) where
  -- The loop of `_get` over the names and the values.
  unfoldable pub collect_fields : List Text → List V → List (Text × Text) → List (Text × Text)
  unfolding assign strip
  collect_fields [] vs fields = fields
  collect_fields (name ∷ names) [] fields = fields
  collect_fields (name ∷ names) (value ∷ vs) fields =
      let text = strip (reading.text value) in
      collect_fields names vs (
        if reading.is_unresolved value
        then fields
        else if is_filled text
        then assign name text fields
        else fields)

  abbrev pub of_fields : List (Text × Text) → SnmpResult (Text × Text)
  of_fields [] = failed_with (codes "empty response")
  of_fields (field ∷ fields) = responded_with (field ∷ fields)

  abbrev pub of_answer : Answer V → SnmpResult (Text × Text)
  of_answer Answer.no_answer = failed_with malformed
  of_answer Answer.error_indication = failed_with timeout
  of_answer Answer.error_status = failed_with (codes "protocol error")
  of_answer (Answer.values vs) = of_fields (collect_fields system_group vs [])

  -- `get_system_group` with `_get`
  unfoldable pub get_system_group : Agent V → SnmpResult (Text × Text)
  get_system_group agent =
      if agent.has_transport then of_answer agent.system else failed_with malformed

  -- One entry of the comprehension in `_get_arp_table`.
  unfoldable pub arp_entry :
      List ((ℤ × Text) × V) → (ℤ × Text) × V → Walked (List SnmpArpTableEntry)
  unfolding as_int format_mac
  arp_entry type_by_key (key, mac_value) = do
    mac ← or_raise (reading.bytes mac_value)
    Walked.complete (
        record {
          interface_index = key.0;
          ip_address = key.1;
          mac_address = format_mac mac;
          entry_type = lookup (as_int reading (lookup key type_by_key)) arp_entry_type_names;
        }
        ∷ [])

  -- `_get_arp_table`
  unfoldable pub query_arp_table : Agent V → Walked (List SnmpArpTableEntry)
  unfolding walk_column for_each arp_entry
  query_arp_table agent = do
    _ ← create_transport agent.has_transport
    mac_by_key ← walk_column reading arp_phys_address_oid (agent.column arp_phys_address_oid)
    type_by_key ← best_effort (walk_column reading arp_type_oid (agent.column arp_type_oid))
    for_each (arp_entry type_by_key) mac_by_key

  -- `get_arp_table`
  unfoldable pub get_arp_table : Agent V → SnmpResult SnmpArpTableEntry
  unfolding query_arp_table
  get_arp_table agent = outcome (query_arp_table agent)

  unfoldable pub fdb_entry : List (Text × V) → Text × V → SnmpBridgeFdbEntry
  unfolding as_int
  fdb_entry status_by_mac (mac_address, port_value) = record {
    mac_address = mac_address;
    port = as_int reading (some port_value);
    status = lookup (as_int reading (lookup mac_address status_by_mac)) bridge_fdb_status_names;
  }

  -- `_get_bridge_fdb`
  unfoldable pub query_bridge_fdb : Agent V → Walked (List SnmpBridgeFdbEntry)
  unfolding walk_bridge_fdb_column fdb_entry
  query_bridge_fdb agent = do
    _ ← create_transport agent.has_transport
    port_by_mac ← walk_bridge_fdb_column reading fdb_port_oid (agent.column fdb_port_oid)
    status_by_mac ←
        best_effort (walk_bridge_fdb_column reading fdb_status_oid (agent.column fdb_status_oid))
    Walked.complete (map (fdb_entry status_by_mac) port_by_mac)

  -- `get_bridge_fdb`
  unfoldable pub get_bridge_fdb : Agent V → SnmpResult SnmpBridgeFdbEntry
  unfolding query_bridge_fdb
  get_bridge_fdb agent = outcome (query_bridge_fdb agent)

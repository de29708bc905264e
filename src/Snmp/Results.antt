-- ===== src/Snmp/Results.antt =====
-- networkmapper/discovery/snmp_client.py: the results of the queries and the constants. The rows of
-- a dictionary are in the order of insertion.
use network_mapper.Prelude.{Bool, true, false, Option, none, some, List, [], ◌∷◌, ◌++◌}
use network_mapper.Prelude.Decimal.{ℤ}
use network_mapper.Prelude.Text.{Text, codes}

-- `SnmpHostResult`, `SnmpArpTableResult`, `SnmpLldpTableResult` and `SnmpBridgeFdbResult`: whether the
-- host responded, what it returned, and the reason of a failure.
pub record SnmpResult (Entry : Type 0) : Type 0 where
  pub responded : Bool
  pub entries : List Entry
  pub failure_reason : Option Text

abbrev pub failed_with : {Entry : Type 0} → Text → SnmpResult Entry
failed_with reason = record { responded = false; entries = []; failure_reason = some reason }

abbrev pub responded_with : {Entry : Type 0} → List Entry → SnmpResult Entry
responded_with entries = record { responded = true; entries = entries; failure_reason = none }

abbrev pub timeout : Text
timeout = codes "timeout"

abbrev pub malformed : Text
malformed = codes "malformed response"

-- `SnmpArpTableEntry`
pub record SnmpArpTableEntry : Type 0 where
  pub interface_index : ℤ
  pub ip_address : Text
  pub mac_address : Text
  pub entry_type : Option Text

-- `SnmpLldpNeighborEntry`
pub record SnmpLldpNeighborEntry : Type 0 where
  pub local_port_num : ℤ
  pub rem_index : ℤ
  pub chassis_id_subtype : ℤ
  pub chassis_id : Text
  pub port_id_subtype : ℤ
  pub port_id : Option Text
  pub port_desc : Option Text
  pub sys_name : Option Text
  pub sys_desc : Option Text
  pub sys_cap_supported : Option Text
  pub sys_cap_enabled : Option Text
  pub management_addresses : List Text

-- `SnmpBridgeFdbEntry`
pub record SnmpBridgeFdbEntry : Type 0 where
  pub mac_address : Text
  pub port : ℤ
  pub status : Option Text

-- `_ARP_ENTRY_TYPE_NAMES`
abbrev pub arp_entry_type_names : List (ℤ × Text)
arp_entry_type_names =
    (ℤ.pos 1, codes "other")
    ∷ (ℤ.pos 2, codes "invalid")
    ∷ (ℤ.pos 3, codes "dynamic")
    ∷ (ℤ.pos 4, codes "static")
    ∷ (ℤ.pos 5, codes "local")
    ∷ []

-- `_BRIDGE_FDB_STATUS_NAMES`
abbrev pub bridge_fdb_status_names : List (ℤ × Text)
bridge_fdb_status_names =
    (ℤ.pos 1, codes "other")
    ∷ (ℤ.pos 2, codes "invalid")
    ∷ (ℤ.pos 3, codes "learned")
    ∷ (ℤ.pos 4, codes "self")
    ∷ (ℤ.pos 5, codes "mgmt")
    ∷ []

-- The columns that are walked.
abbrev pub arp_phys_address_oid : Text
arp_phys_address_oid = codes "1.3.6.1.2.1.4.35.1.4"

abbrev pub arp_type_oid : Text
arp_type_oid = codes "1.3.6.1.2.1.4.35.1.6"

abbrev pub fdb_port_oid : Text
fdb_port_oid = codes "1.3.6.1.2.1.17.4.3.1.2"

abbrev pub fdb_status_oid : Text
fdb_status_oid = codes "1.3.6.1.2.1.17.4.3.1.3"

-- `LLDP_REM_<...>_OID` by the last number of the column.
abbrev pub lldp_rem_oid : Text → Text
lldp_rem_oid last = codes "1.0.8802.1.1.2.1.4.1.1." ++ last

abbrev pub lldp_man_addr_oid : Text
lldp_man_addr_oid = codes "1.0.8802.1.1.2.1.4.2.1.3"

-- `SYSTEM_GROUP_OIDS`: the names, in the order of the request.
abbrev pub system_group : List Text
system_group =
    codes "sysDescr"
    ∷ codes "sysObjectID"
    ∷ codes "sysUpTime"
    ∷ codes "sysContact"
    ∷ codes "sysName"
    ∷ codes "sysLocation"
    ∷ []

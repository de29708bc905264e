-- ===== src/Devices.antt =====
-- networkmapper/core/models.py and classification/rule_result.py: devices, the evidence of their
-- open ports, and the outcome of a rule. A `datetime` does not occur; `discovery_sources` and
-- `services` are lists.
use Prim.Native.String.{String}
use network_mapper.Prelude.{ℕ, Bool, true, false, Option, none, some, List}
use network_mapper.Prelude.Text.{Text}

pub data DeviceType : Type 0 where
  unknown router switch firewall server workstation printer phone access_point hypervisor camera :
      DeviceType

pub record ServiceEvidence : Type 0 where
  pub port : ℕ
  pub protocol : Text
  pub service : Option Text
  pub product : Option Text
  pub version : Option Text
  pub http_title : Option Text
  pub tls_subject : Option Text
  pub tls_issuer : Option Text
  pub http_auth_realm : Option Text

pub record Device : Type 0 where
  pub ip_address : Text
  pub hostname : Option Text
  pub mac_address : Option Text
  pub vendor : Option Text
  pub operating_system : Option Text
  pub computer_name : Option Text
  pub domain : Option Text
  pub smb_signing : Option Text
  pub snmp_sys_descr : Option Text
  pub snmp_sys_object_id : Option Text
  pub snmp_sys_uptime : Option Text
  pub snmp_sys_contact : Option Text
  pub snmp_sys_location : Option Text
  pub services : List ServiceEvidence
  pub device_type : DeviceType
  pub discovery_sources : List Text

-- `device.device_type = t`
abbrev pub set_device_type : DeviceType → Device → Device
set_device_type t d = record {
  ip_address = d.ip_address;
  hostname = d.hostname;
  mac_address = d.mac_address;
  vendor = d.vendor;
  operating_system = d.operating_system;
  computer_name = d.computer_name;
  domain = d.domain;
  smb_signing = d.smb_signing;
  snmp_sys_descr = d.snmp_sys_descr;
  snmp_sys_object_id = d.snmp_sys_object_id;
  snmp_sys_uptime = d.snmp_sys_uptime;
  snmp_sys_contact = d.snmp_sys_contact;
  snmp_sys_location = d.snmp_sys_location;
  services = d.services;
  device_type = t;
  discovery_sources = d.discovery_sources;
}

-- The pieces of an f-string: its literal text, `{x!r}` of an optional string, `{n}` of a number and
-- `{s}` of a string. The text that `repr` gives is not spelled out.
pub data Piece : Type 0 where
  lit : String → Piece
  repr : Option Text → Piece
  digits : ℕ → Piece
  word : Text → Piece

abbrev pub Reason : Type 0
Reason = List Piece

pub record RuleResult : Type 0 where
  pub matched : Bool
  pub confidence_contribution : ℕ
  pub reason : Reason
  pub suggested_device_type : Option DeviceType

-- The outcomes that the rules return: every one has `confidence_contribution=0`.
abbrev pub matching : Reason → DeviceType → RuleResult
matching reason suggested = record {
  matched = true;
  confidence_contribution = 0;
  reason = reason;
  suggested_device_type = some suggested;
}

abbrev pub declining : Reason → RuleResult
declining reason = record {
  matched = false;
  confidence_contribution = 0;
  reason = reason;
  suggested_device_type = none;
}

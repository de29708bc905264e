-- ===== src/Samples.antt =====
-- Observations and devices of a small network, as test data.
use network_mapper.Prelude.{Option, none, some, List, [], ◌∷◌}
use network_mapper.Prelude.Text.{Text, codes}
use network_mapper.Observations.{
  Provenance, IdentityObservation, RelationshipObservation, Observation,
}
use network_mapper.Devices.{Device, DeviceType, ServiceEvidence}

abbrev pub by_nmap : Provenance
by_nmap = record {
  provider = codes "nmap";
  collection_method = codes "arp";
  observed_at = codes "t1";
  source_run = codes "r";
}

abbrev pub by_snmp : Provenance
by_snmp = record {
  provider = codes "snmp";
  collection_method = codes "walk";
  observed_at = codes "t2";
  source_run = codes "r";
}

abbrev pub mac_claim : Text → Provenance → IdentityObservation
mac_claim subject provenance = record {
  subject = subject;
  property_name = codes "mac_address";
  value = codes "aa";
  provenance = provenance;
}

abbrev pub name_claim : IdentityObservation
name_claim = record {
  subject = codes "b";
  property_name = codes "hostname";
  value = codes "pc";
  provenance = by_snmp;
}

abbrev pub edge_claim : RelationshipObservation
edge_claim = record {
  subject = codes "a";
  related_subject = codes "b";
  category = codes "arp_neighbor";
  provenance = by_snmp;
}

-- A subject with a MAC from two sources, one with a host name, and an edge between them.
abbrev pub network : List Observation
network =
    Observation.identity (mac_claim (codes "a") by_nmap)
    ∷ Observation.relationship edge_claim
    ∷ Observation.identity (mac_claim (codes "a") by_snmp)
    ∷ Observation.identity name_claim
    ∷ []

-- The same observations with the first two exchanged.
abbrev pub network_reordered : List Observation
network_reordered =
    Observation.relationship edge_claim
    ∷ Observation.identity (mac_claim (codes "a") by_nmap)
    ∷ Observation.identity (mac_claim (codes "a") by_snmp)
    ∷ Observation.identity name_claim
    ∷ []

abbrev pub lpd_service : ServiceEvidence
lpd_service = record {
  port = 515;
  protocol = codes "tcp";
  service = some (codes "printer");
  product = some (codes "Microsoft lpd");
  version = none;
  http_title = none;
  tls_subject = some (codes "CN=axis camera station");
  tls_issuer = none;
  http_auth_realm = none;
}

abbrev pub device : Text → Option Text → Option Text → Option Text → Device
device ip_address hostname vendor operating_system = record {
  ip_address = ip_address;
  hostname = hostname;
  mac_address = none;
  vendor = vendor;
  operating_system = operating_system;
  computer_name = none;
  domain = none;
  smb_signing = none;
  snmp_sys_descr = none;
  snmp_sys_object_id = none;
  snmp_sys_uptime = none;
  snmp_sys_contact = none;
  snmp_sys_location = none;
  services = lpd_service ∷ [];
  device_type = DeviceType.unknown;
  discovery_sources = [];
}

abbrev pub windows_host : Device
windows_host =
    device (codes "10.0.0.5") (some (codes "PC5")) (some (codes "Dell"))
      (some (codes "Windows Server 2019"))

abbrev pub hyper_v_host : Device
hyper_v_host =
    device (codes "10.0.0.6") (some (codes "VSH-01")) none (some (codes "Windows Server 2022"))

abbrev pub camera_host : Device
camera_host = device (codes "10.0.0.7") none (some (codes "Axis Communications AB")) none

-- ===== src/Enrichment/Tests.antt =====
-- Runs of the enrichment providers on the sample devices.
use network_mapper.Prelude.{
  ◌+◌, ◌≡◌, refl, ◌↔◌, true, false, none, some, List, [], ◌∷◌, ◌++◌, map, All, concat,
  if◌then◌else◌, length, select,
}
use network_mapper.Devices.{Device}
use network_mapper.Engine.{ProviderRun}
use network_mapper.Enrichment.{Client, Event, enrich, identified, related, snmp_provenance}
use network_mapper.Enrichment.Addresses.{is_ipv4_address}
use network_mapper.Enrichment.Arp.{arp_collection, arp_neighbor, arp_table, enrich_arp}
use network_mapper.Enrichment.Fdb.{enrich_fdb}
use network_mapper.Enrichment.Gate.{IsGated, enrich-gate}
use network_mapper.Enrichment.Lldp.{connected_to, enrich_lldp, resolve_related_subjects}
use network_mapper.Enrichment.Loop.{contribution, enrich-account, progress_from, responds}
use network_mapper.Enrichment.Neighbors.{IsResolution, resolve_related_subjects-IsResolution}
use network_mapper.Enrichment.Resolution.{IsBridged, enrich_fdb-sole}
use network_mapper.Enrichment.SystemGroup.{
  Attribute, SystemEnriched, attribute_of, enrich_system, get_attribute, merge,
}
use network_mapper.Enrichment.SystemGroup.Merging.{merge-fallback, value_for}
use network_mapper.Enrichment.SystemGroup.Runs.{enrich_system-total, in_turn}
use network_mapper.MacIndex.{build_mac_index, mac_address_property}
use network_mapper.Prelude.Decimal.{int_eq, parse_int, ℤ}
use network_mapper.Prelude.Dict.{or_else}
use network_mapper.Prelude.Eq.{Eq, elem, list_beq, list_eq, nat_eq, option_eq, pair_eq, ◌==◌}
use network_mapper.Prelude.Ord.{list_ord, nat_ord}
use network_mapper.Prelude.Text.{Text, codes}
use network_mapper.Presentation.{cardinality_eq}
use network_mapper.Samples.{hyper_v_host, network, windows_host}
use network_mapper.Snmp.Client.{Agent, Answer, collect_fields, get_system_group}
use network_mapper.Snmp.Results.{
  SnmpArpTableEntry, SnmpBridgeFdbEntry, SnmpLldpNeighborEntry, responded_with,
}
use network_mapper.Snmp.Rows.{rem_key_eq}
use network_mapper.Snmp.Values.{Reading}

abbrev hosts : List Device
hosts = windows_host ∷ hyper_v_host ∷ []

abbrev run_id : Text
run_id = codes "r1"

abbrev now : Text
now = codes "2026-01-01T00:00:00"

-- Each host has the first as a neighbor, and an unknown one.
abbrev arp_client : Client SnmpArpTableEntry
arp_client ip =
    if ip == windows_host.ip_address
    then none
    else some (
        responded_with (
          record {
            interface_index = ℤ.pos 1;
            ip_address = windows_host.ip_address;
            mac_address = codes "AA";
            entry_type = none;
          }
          ∷ record {
            interface_index = ℤ.pos 1;
            ip_address = codes "10.9.9.9";
            mac_address = codes "BB";
            entry_type = none;
          }
          ∷ []))

abbrev fdb_client : Client SnmpBridgeFdbEntry
fdb_client ip = some (
    responded_with (
      record { mac_address = codes "aa"; port = ℤ.pos 1; status = some (codes "learned") }
      ∷ record { mac_address = codes "aa"; port = ℤ.pos 1; status = some (codes "self") }
      ∷ []))

abbrev sample_neighbor : SnmpLldpNeighborEntry
sample_neighbor = record {
  local_port_num = ℤ.pos 1;
  rem_index = ℤ.pos 1;
  chassis_id_subtype = ℤ.pos 5;
  chassis_id = codes "10.0.0.6";
  port_id_subtype = ℤ.negsuc 0;
  port_id = none;
  port_desc = none;
  sys_name = some (codes "core");
  sys_desc = none;
  sys_cap_supported = none;
  sys_cap_enabled = none;
  management_addresses = [];
}

abbrev lldp_client : Client SnmpLldpNeighborEntry
lldp_client ip = some (responded_with (sample_neighbor ∷ []))

addresses :
    (is_ipv4_address (codes "10.0.0.255") ≡ true)
    × (is_ipv4_address (codes "10.0.0.256") ≡ false)
    × (is_ipv4_address (codes "10.0.0.06") ≡ false)
    × (is_ipv4_address (codes "10.0.0.0") ≡ true)
    × (is_ipv4_address (codes "10.0.0") ≡ false)
unfolding is_ipv4_address
addresses = (refl, refl, refl, refl, refl)

resolved :
    resolve_related_subjects [] sample_neighbor
    ≡ (codes "10.0.0.6", codes "lldp-chassis-network-address") ∷ []
unfolding resolve_related_subjects is_ipv4_address
resolved = refl

-- The ARP table of the host that responds gives two relationships and one identity.
arp_run :
    ((enrich_arp run_id now arp_client hosts).observations
      ≡ related hyper_v_host.ip_address windows_host.ip_address arp_neighbor
          (snmp_provenance arp_table now run_id)
        ∷ related hyper_v_host.ip_address
            (codes "10.9.9.9")
            arp_neighbor
            (snmp_provenance arp_table now run_id)
        ∷ identified windows_host.ip_address mac_address_property
            (codes "AA")
            (snmp_provenance arp_table now run_id)
        ∷ [])
    × ((enrich_arp run_id now arp_client hosts).diagnostics.hosts_timed_out ≡ 1)
unfolding enrich_arp network_mapper.Prelude.Eq.list_beq
arp_run = (refl, refl)

enrich-account_example :
    ((enrich (arp_collection run_id now arp_client []) (codes "a" ∷ codes "b" ∷ [])).observations
      ≡ concat (
          map
            (contribution (arp_collection run_id now arp_client []))
            (codes "a" ∷ codes "b" ∷ [])))
    × ((enrich (arp_collection run_id now arp_client []) (codes "a" ∷ codes "b" ∷ [])).events
        ≡ Event.phase_started 2
            ∷ progress_from
                (arp_collection run_id now arp_client [])
                2
                1
                (codes "a" ∷ codes "b" ∷ [])
          ++ Event.phase_completed
              (length (
                select
                  (responds (arp_collection run_id now arp_client []))
                  (codes "a" ∷ codes "b" ∷ [])))
              2
            ∷ [])
    × ((enrich
          (arp_collection run_id now arp_client [])
          (codes "a" ∷ codes "b" ∷ [])).diagnostics.hosts_responded
        ≡ length (
            select
              (responds (arp_collection run_id now arp_client []))
              (codes "a" ∷ codes "b" ∷ [])))
    × ((enrich
            (arp_collection run_id now arp_client [])
            (codes "a" ∷ codes "b" ∷ [])).diagnostics.hosts_responded
          + (enrich
              (arp_collection run_id now arp_client [])
              (codes "a" ∷ codes "b" ∷ [])).diagnostics.hosts_timed_out
        ≡ (enrich
            (arp_collection run_id now arp_client [])
            (codes "a" ∷ codes "b" ∷ [])).diagnostics.hosts_eligible)
enrich-account_example =
    enrich-account (arp_collection run_id now arp_client []) (codes "a" ∷ codes "b" ∷ [])

enrich-gate_example :
    All
      (IsGated (map (λ d. d.ip_address) hosts) mac_address_property arp_neighbor)
      (enrich_arp run_id now arp_client hosts).observations
    × All
        (IsGated (map (λ d. d.ip_address) hosts) (codes "hostname") connected_to)
        (enrich_lldp run_id now lldp_client network hosts).observations
enrich-gate_example = enrich-gate run_id now arp_client lldp_client network hosts

enrich_fdb-sole_example :
    All
      (IsBridged fdb_client network (map (λ d. d.ip_address) hosts))
      (enrich_fdb run_id now fdb_client network hosts).observations
enrich_fdb-sole_example = enrich_fdb-sole run_id now fdb_client network hosts

resolve_related_subjects-IsResolution_example :
    (elem
        (codes "10.0.0.6", codes "lldp-chassis-network-address")
        (resolve_related_subjects (build_mac_index network) sample_neighbor)
      ≡ true)
    ↔ IsResolution network sample_neighbor (codes "10.0.0.6", codes "lldp-chassis-network-address")
resolve_related_subjects-IsResolution_example =
    resolve_related_subjects-IsResolution network sample_neighbor
      (codes "10.0.0.6", codes "lldp-chassis-network-address")

merge-fallback_example :
    get_attribute Attribute.hostname (merge ((codes "sysName", codes "core") ∷ []) windows_host).0
    ≡ or_else
        (get_attribute Attribute.hostname windows_host)
        (value_for Attribute.hostname ((codes "sysName", codes "core") ∷ []))
merge-fallback_example =
    merge-fallback ((codes "sysName", codes "core") ∷ []) windows_host Attribute.hostname

abbrev plain : Reading Text
plain = record {
  is_unresolved = λ v. v == codes "noSuchObject";
  bytes = λ v. some v;
  int = parse_int;
  text = λ v. v;
}

abbrev agents : Text → Agent Text
agents ip = record {
  has_transport = true;
  system = Answer.values (codes "A switch" ∷ codes "noSuchObject" ∷ []);
  column = λ oid. [];
}

enrich_system-total_example :
    (enriched : SystemEnriched) × (enrich_system run_id now
        (λ ip. some (get_system_group plain (agents ip)))
        hosts
      ≡ (
        map (in_turn run_id now (λ ip. some (get_system_group plain (agents ip)))) hosts,
        some enriched,
      ))
enrich_system-total_example = enrich_system-total plain agents run_id now hosts

merged :
    map
      (λ d. d.snmp_sys_descr)
      (enrich_system run_id now (λ ip. some (get_system_group plain (agents ip))) hosts).0
    ≡ some (codes "A switch") ∷ some (codes "A switch") ∷ []
unfolding enrich_system get_system_group network_mapper.Snmp.Client.collect_fields
    network_mapper.Prelude.Eq.list_beq network_mapper.Enrichment.SystemGroup.attribute_of
merged = refl

abbrev runs : List ProviderRun
runs = record { found = some windows_host ∷ some hyper_v_host ∷ []; observations = network } ∷ []

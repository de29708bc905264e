-- ===== src/Enrichment/Arp.antt =====
-- networkmapper/discovery/arp_neighbor_provider.py
use network_mapper.Prelude.{List, [], ◌∷◌, ◌++◌, map, if◌then◌else◌}
use network_mapper.Devices.{Device}
use network_mapper.Enrichment.{
  Client, Collection, Enriched, enrich, identified, related, snmp_provenance,
}
use network_mapper.MacIndex.{mac_address_property}
use network_mapper.Observations.{Observation}
use network_mapper.Prelude.Decimal.{int_eq}
use network_mapper.Prelude.Eq.{elem, list_eq, nat_eq, option_eq, pair_eq}
use network_mapper.Prelude.Group.{entries}
use network_mapper.Prelude.Text.{Text, codes}
use network_mapper.Snmp.Results.{SnmpArpTableEntry}
use network_mapper.Snmp.Rows.{rem_key_eq}

abbrev pub arp_neighbor : Text
arp_neighbor = codes "arp_neighbor"

abbrev pub arp_table : Text
arp_table = codes "ipNetToPhysicalTable"

module _ (run_id observed_at : Text) where
  -- `_collect_relationship_observations`
  unfoldable pub arp_relationships : Text → List SnmpArpTableEntry → List Observation
  arp_relationships ip entries =
      map
        (λ entry.
          related ip entry.ip_address arp_neighbor (snmp_provenance arp_table observed_at run_id))
        entries

  -- `_collect_mac_identity_observations`
  unfoldable pub arp_identities : List Text → List SnmpArpTableEntry → List Observation
  arp_identities discovered_ips [] = []
  arp_identities discovered_ips (entry ∷ entries) =
      let rest = arp_identities discovered_ips entries in
      if elem entry.ip_address discovered_ips
      then identified entry.ip_address mac_address_property entry.mac_address
          (snmp_provenance arp_table observed_at run_id)
        ∷ rest
      else rest

  unfoldable pub arp_collection :
      Client SnmpArpTableEntry → List Text → Collection SnmpArpTableEntry
  unfolding arp_relationships arp_identities
  arp_collection client discovered_ips = record {
    client = client;
    collect = λ ip entries. arp_relationships ip entries ++ arp_identities discovered_ips entries;
    count_addresses = λ entries. 0;
  }

  -- `SnmpArpNeighborProvider.enrich`
  unfoldable pub enrich_arp : Client SnmpArpTableEntry → List Device → Enriched
  unfolding enrich arp_collection
  enrich_arp client devices =
      let ips = map (λ d. d.ip_address) devices in enrich (arp_collection client ips) ips

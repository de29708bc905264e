-- ===== src/Enrichment/Lldp.antt =====
-- networkmapper/discovery/lldp_neighbor_provider.py
use network_mapper.Prelude.{
  Bool, false, ◌&&◌, Option, none, some, List, [], ◌∷◌, map, concat, if◌then◌else◌, length,
}
use network_mapper.Devices.{Device}
use network_mapper.Enrichment.{
  Client, Collection, Enriched, enrich, identified, related, snmp_provenance,
}
use network_mapper.Enrichment.Addresses.{is_ipv4_address}
use network_mapper.Enrichment.Fdb.{sole_subject}
use network_mapper.MacIndex.{build_mac_index}
use network_mapper.Observations.{Observation}
use network_mapper.Prelude.Decimal.{int_eq, ℤ}
use network_mapper.Prelude.Eq.{elem, list_eq, nat_eq, option_eq, pair_eq, ◌==◌}
use network_mapper.Prelude.Ord.{list_ord, nat_ord}
use network_mapper.Prelude.Sets.{lookup}
use network_mapper.Prelude.Text.{Text, codes, is_filled, or_empty}
use network_mapper.Snmp.Results.{SnmpLldpNeighborEntry}
use network_mapper.Snmp.Rows.{rem_key_eq}

abbrev pub connected_to : Text
connected_to = codes "connected_to"

-- `if entry.sys_name`
abbrev pub named : Option Text → Bool
named none = false
named (some s) = is_filled s

abbrev pub chassis_address : Text → List (Text × Text)
chassis_address chassis_id =
    if is_ipv4_address chassis_id
    then (chassis_id, codes "lldp-chassis-network-address") ∷ []
    else []

abbrev pub by_chassis : List (Text × List Text) → ℤ → Text → List (Text × Text)
by_chassis mac_index subtype chassis_id =
    if subtype == ℤ.pos 5
    then chassis_address chassis_id
    else if subtype == ℤ.pos 4
    then map (λ s. (s, codes "lldp-chassis-mac")) (sole_subject (lookup chassis_id mac_index))
    else []

abbrev pub by_addresses :
    List Text → List (Text × List Text) → SnmpLldpNeighborEntry → List (Text × Text)
by_addresses [] mac_index entry = by_chassis mac_index entry.chassis_id_subtype entry.chassis_id
by_addresses (a ∷ more) mac_index entry =
    map (λ address. (address, codes "lldp-management-address")) (a ∷ more)

-- `_resolve_related_subjects`
unfoldable pub resolve_related_subjects :
    List (Text × List Text) → SnmpLldpNeighborEntry → List (Text × Text)
resolve_related_subjects mac_index entry = by_addresses entry.management_addresses mac_index entry

module _ (run_id observed_at : Text) where
  -- The body of the inner loop.
  unfoldable pub lldp_pair : List Text → Text → Option Text → Text × Text → List Observation
  lldp_pair discovered_ips ip sys_name (related_subject, method) =
      let provenance = snmp_provenance method observed_at run_id in
      related ip related_subject connected_to provenance
      ∷ (if named sys_name && elem related_subject discovered_ips
          then identified related_subject (codes "hostname") (or_empty sys_name) provenance ∷ []
          else [])

  -- `_collect_observations_for_host`
  unfoldable pub lldp_observations :
      List (Text × List Text) → List Text → Text → List SnmpLldpNeighborEntry → List Observation
  unfolding lldp_pair resolve_related_subjects
  lldp_observations mac_index discovered_ips ip entries = concat (
      map
        (λ entry. concat (
          map (lldp_pair discovered_ips ip entry.sys_name)
            (resolve_related_subjects mac_index entry)))
        entries)

  unfoldable pub lldp_collection :
      Client SnmpLldpNeighborEntry → List Observation → List Text → Collection SnmpLldpNeighborEntry
  unfolding lldp_observations build_mac_index
  lldp_collection client received discovered_ips = record {
    client = client;
    collect = lldp_observations (build_mac_index received) discovered_ips;
    count_addresses =
        λ entries. length (concat (map (λ entry. entry.management_addresses) entries));
  }

  -- `SnmpLldpNeighborProvider.enrich` after `receive_observations`
  unfoldable pub enrich_lldp :
      Client SnmpLldpNeighborEntry → List Observation → List Device → Enriched
  unfolding enrich lldp_collection
  enrich_lldp client received devices =
      let ips = map (λ d. d.ip_address) devices in enrich (lldp_collection client received ips) ips

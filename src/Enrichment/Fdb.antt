-- ===== src/Enrichment/Fdb.antt =====
-- networkmapper/discovery/bridge_fdb_provider.py
use network_mapper.Prelude.{Option, some, List, [], ◌∷◌, ◌++◌, map, if◌then◌else◌}
use network_mapper.Devices.{Device}
use network_mapper.Enrichment.{Client, Collection, Enriched, enrich, related, snmp_provenance}
use network_mapper.MacIndex.{build_mac_index}
use network_mapper.Observations.{Observation}
use network_mapper.Prelude.Decimal.{int_eq}
use network_mapper.Prelude.Eq.{list_eq, nat_eq, option_eq, pair_eq, ◌==◌}
use network_mapper.Prelude.Group.{entries}
use network_mapper.Prelude.Ord.{list_ord, nat_ord}
use network_mapper.Prelude.Sets.{lookup}
use network_mapper.Prelude.Text.{Text, codes}
use network_mapper.Snmp.Results.{SnmpBridgeFdbEntry}
use network_mapper.Snmp.Rows.{rem_key_eq}

abbrev pub bridge_fdb : Text
bridge_fdb = codes "bridge_fdb"

abbrev pub fdb_table : Text
fdb_table = codes "dot1dTpFdbTable"

-- `[next(iter(subjects))]` when `len(subjects) == 1`
abbrev pub sole_subject : Option (List Text) → List Text
sole_subject (some (s ∷ [])) = s ∷ []
sole_subject _ = []

module _ (run_id observed_at : Text) where
  abbrev pub fdb_relationships : Text → List Text → List Observation
  fdb_relationships ip subjects =
      map (λ s. related ip s bridge_fdb (snmp_provenance fdb_table observed_at run_id)) subjects

  -- `_collect_observations_for_host`
  unfoldable pub fdb_observations :
      List (Text × List Text) → Text → List SnmpBridgeFdbEntry → List Observation
  fdb_observations mac_index ip [] = []
  fdb_observations mac_index ip (entry ∷ entries) =
      let rest = fdb_observations mac_index ip entries in
      if entry.status == some (codes "learned")
      then fdb_relationships ip (sole_subject (lookup entry.mac_address mac_index)) ++ rest
      else rest

  unfoldable pub fdb_collection :
      Client SnmpBridgeFdbEntry → List Observation → Collection SnmpBridgeFdbEntry
  unfolding fdb_observations build_mac_index
  fdb_collection client received = record {
    client = client;
    collect = fdb_observations (build_mac_index received);
    count_addresses = λ entries. 0;
  }

  -- `SnmpBridgeFdbProvider.enrich` after `receive_observations`
  unfoldable pub enrich_fdb : Client SnmpBridgeFdbEntry → List Observation → List Device → Enriched
  unfolding enrich fdb_collection
  enrich_fdb client received devices =
      enrich (fdb_collection client received) (map (λ d. d.ip_address) devices)

-- ===== src/Enrichment/Discovery.antt =====
-- The enrichment providers in networkmapper/discovery/discovery_engine.py: what a run with them returns.
use network_mapper.Prelude.{◌≡◌, true, some, List, [], ◌∷◌, ◌++◌, map, concat}
use network_mapper.Devices.{Device}
use network_mapper.Engine.{EnrichmentProvider, ProviderOutcome, ProviderRun}
use network_mapper.Engine.Runs.{devices_of}
use network_mapper.Enrichment.{Client, Enriched, Event}
use network_mapper.Enrichment.Arp.{enrich_arp}
use network_mapper.Enrichment.Fdb.{enrich_fdb}
use network_mapper.Enrichment.Lldp.{enrich_lldp}
use network_mapper.Graph.{add_devices, all_devices, empty_graph}
use network_mapper.Observations.{Observation}
use network_mapper.Prelude.Decimal.{int_eq}
use network_mapper.Prelude.Eq.{elem, list_eq, nat_eq, option_eq, pair_eq}
use network_mapper.Prelude.Text.{Text}
use network_mapper.Presentation.{cardinality_eq}
use network_mapper.Snmp.Results.{SnmpArpTableEntry, SnmpBridgeFdbEntry, SnmpLldpNeighborEntry}
use network_mapper.Snmp.Rows.{rem_key_eq}

-- After `enrich` a provider returns its observations. It has read the addresses of the devices alone.
abbrev pub outcome_of : List Device → Enriched → ProviderOutcome
outcome_of devices enriched = record {
  devices = devices;
  events = enriched.events;
  collected = some enriched.observations;
}

-- `receive_observations`, `enrich` and `collect_observations` of the providers. The first one's
-- `receive_observations` is that of the base class, which does nothing.
abbrev pub arp_provider : Text → Text → Client SnmpArpTableEntry → EnrichmentProvider
arp_provider run_id observed_at client received devices =
    outcome_of devices (enrich_arp run_id observed_at client devices)

abbrev pub lldp_provider : Text → Text → Client SnmpLldpNeighborEntry → EnrichmentProvider
lldp_provider run_id observed_at client received devices =
    outcome_of devices (enrich_lldp run_id observed_at client received devices)

abbrev pub fdb_provider : Text → Text → Client SnmpBridgeFdbEntry → EnrichmentProvider
fdb_provider run_id observed_at client received devices =
    outcome_of devices (enrich_fdb run_id observed_at client received devices)

-- The devices that discovery found, the first of each address.
abbrev pub found_devices : List ProviderRun → List Device
found_devices runs = all_devices (add_devices (concat (map devices_of runs)) empty_graph)

-- The observation is about one of the addresses.
abbrev pub IsAbout : List Text → Observation → Type 0
IsAbout ips (Observation.identity o) = elem o.subject ips ≡ true
IsAbout ips (Observation.relationship o) = elem o.subject ips ≡ true

module _ (run_id observed_at : Text) (arp : Client SnmpArpTableEntry)
    (lldp : Client SnmpLldpNeighborEntry) (fdb : Client SnmpBridgeFdbEntry) where
  abbrev pub neighbor_providers : List EnrichmentProvider
  neighbor_providers =
      arp_provider run_id observed_at arp
      ∷ lldp_provider run_id observed_at lldp
      ∷ fdb_provider run_id observed_at fdb
      ∷ []

  -- What the three providers leave, each with the observations that were collected before it.
  abbrev pub arp_run : List Device → Enriched
  arp_run devices = enrich_arp run_id observed_at arp devices

  abbrev pub lldp_run : List Device → List Observation → Enriched
  lldp_run devices observations =
      enrich_lldp run_id observed_at lldp (observations ++ (arp_run devices).observations) devices

  abbrev pub fdb_run : List Device → List Observation → Enriched
  fdb_run devices observations =
      enrich_fdb run_id observed_at fdb
        ((observations ++ (arp_run devices).observations)
          ++ (lldp_run devices observations).observations)
        devices

  -- What they add to the observations, and what they publish, in order.
  abbrev pub added : List Device → List Observation → List Observation
  added devices observations =
      (arp_run devices).observations
      ++ ((lldp_run devices observations).observations
          ++ (fdb_run devices observations).observations)

  abbrev pub published : List Device → List Observation → List Event
  published devices observations =
      ((arp_run devices).events ++ (lldp_run devices observations).events)
      ++ (fdb_run devices observations).events

-- ===== src/Engine.antt =====
-- networkmapper/discovery/discovery_engine.py: discovery, enrichment and classification of one run.
-- The providers are not of this file: a discovery provider is what its calls return or `none` when
-- one raises, and an enrichment provider is a function on the observations and the devices.
mod Tests
pub mod Runs
use network_mapper.Prelude.{ℕ, suc, Option, none, some, List, [], ◌∷◌, ◌++◌, length, if◌then◌else◌}
use network_mapper.Prelude.Text.{Text}
use network_mapper.Prelude.Eq.{nat_eq, list_eq, elem}
use network_mapper.Prelude.Dict.{keys_of, assign}
use network_mapper.Observations.{Observation}
use network_mapper.Devices.{Device}
use network_mapper.Enrichment.{Event}
use network_mapper.Graph.{NetworkGraph, empty_graph, all_devices, add_device}
use network_mapper.Classification.Classifier.{classify}

-- What `discover()` and `collect_observations()` of a provider return. An element of the first list
-- that is no `Device` is `none`.
pub record ProviderRun : Type 0 where
  pub found : List (Option Device)
  pub observations : List Observation

-- `none` when a call of the provider raises.
abbrev pub DiscoveryProvider : Type 0
DiscoveryProvider = Option ProviderRun

-- `receive_observations`, `enrich` and `collect_observations` of one provider: the devices as it
-- leaves them, what it publishes on the bus, and its observations, or `none` when one of the three calls raises.
pub record ProviderOutcome : Type 0 where
  pub devices : List Device
  pub events : List Event
  pub collected : Option (List Observation)

abbrev pub EnrichmentProvider : Type 0
EnrichmentProvider = List Observation → List Device → ProviderOutcome

-- The loop over `discovered_devices`, with `devices_by_ip.setdefault(device.ip_address, device)`.
unfoldable pub collect_found : List (Option Device) → List (Text × Device) → List (Text × Device)
unfolding assign
collect_found [] devices_by_ip = devices_by_ip
collect_found (none ∷ found) devices_by_ip = collect_found found devices_by_ip
collect_found (some device ∷ found) devices_by_ip = collect_found found (
    if elem device.ip_address (keys_of devices_by_ip)
    then devices_by_ip
    else assign device.ip_address device devices_by_ip)

-- The loop over `self._providers`, on `devices_by_ip` and `self.observations`.
unfoldable pub run_providers :
    List DiscoveryProvider
    → List (Text × Device)
    → List Observation
    → Option (List (Text × Device) × List Observation)
unfolding collect_found
run_providers [] devices_by_ip observations = some (devices_by_ip, observations)
run_providers (none ∷ providers) devices_by_ip observations = none
run_providers (some run ∷ providers) devices_by_ip observations =
    run_providers providers (collect_found run.found devices_by_ip)
      (observations ++ run.observations)

-- `self.observations` after one round of the enrichment loop: an exception is passed over.
abbrev pub extend_observations : List Observation → Option (List Observation) → List Observation
extend_observations observations none = observations
extend_observations observations (some collected) = observations ++ collected

-- The devices and `self.observations` after the loop over `self._enrichment_providers`, and what the
-- providers published in it.
pub record EnrichmentRun : Type 0 where
  pub devices : List Device
  pub observations : List Observation
  pub events : List Event

-- The loop over `self._enrichment_providers`, on what was published before.
unfoldable pub run_enrichment :
    List EnrichmentProvider → List Device → List Observation → List Event → EnrichmentRun
run_enrichment [] devices observations events = record {
  devices = devices;
  observations = observations;
  events = events;
}
run_enrichment (provider ∷ providers) devices observations events =
    let outcome = provider observations devices in
    run_enrichment providers outcome.devices (extend_observations observations outcome.collected)
      (events ++ outcome.events)

-- The runtime events of the classification phase, without their time and texts.
pub data ClassificationEvent : Type 0 where
  phase_started progress phase_completed : ℕ → ClassificationEvent

-- The loop of `_classify_devices` from an index: the graph, and the events that it publishes.
unfoldable pub classify_from :
    ℕ → List Device → NetworkGraph → NetworkGraph × List ClassificationEvent
unfolding classify add_device
classify_from index [] graph = (graph, [])
classify_from index (device ∷ devices) graph =
    let rest = classify_from (suc index) devices (add_device (classify device).0 graph) in
    (rest.0, ClassificationEvent.progress index ∷ rest.1)

unfoldable pub classify_devices :
    List Device → NetworkGraph → NetworkGraph × List ClassificationEvent
unfolding classify_from
classify_devices devices graph =
    let outcome = classify_from 1 devices graph in
    (
      outcome.0,
      ClassificationEvent.phase_started (length devices) ∷ outcome.1
          ++ ClassificationEvent.phase_completed (length devices) ∷ [],
    )

-- The returned graph, `self.observations` afterwards, and what was published on the bus: first by the
-- enrichment providers, then in the classification. What the discovery providers publish before is left out.
pub record DiscoveryResult : Type 0 where
  pub graph : NetworkGraph
  pub observations : List Observation
  pub enrichment_events : List Event
  pub events : List ClassificationEvent

-- The part of `discover` after the discovery providers.
unfoldable pub finish_discovery :
    List EnrichmentProvider → List Device → List Observation → DiscoveryResult
unfolding run_enrichment classify_devices
finish_discovery enrichment_providers devices observations =
    let enriched = run_enrichment enrichment_providers devices observations [] in
    let classified = classify_devices enriched.devices empty_graph in
    record {
      graph = classified.0;
      observations = enriched.observations;
      enrichment_events = enriched.events;
      events = classified.1;
    }

unfoldable pub finish_if_found :
    List EnrichmentProvider
    → Option (List (Text × Device) × List Observation)
    → Option DiscoveryResult
unfolding finish_discovery all_devices
finish_if_found enrichment_providers none = none
finish_if_found enrichment_providers (some (devices_by_ip, observations)) =
    some (finish_discovery enrichment_providers (all_devices devices_by_ip) observations)

-- `DiscoveryEngine.discover`: `none` when a discovery provider raises.
unfoldable pub discover : List DiscoveryProvider → List EnrichmentProvider → Option DiscoveryResult
unfolding run_providers finish_if_found
discover providers enrichment_providers =
    finish_if_found enrichment_providers (run_providers providers [] [])

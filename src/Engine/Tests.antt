-- ===== src/Engine/Tests.antt =====
-- Runs of the engine on the sample devices.
use network_mapper.Prelude.{◌≡◌, refl, none, some, List, [], ◌∷◌, ◌++◌, map, concat}
use network_mapper.Engine.{DiscoveryResult, EnrichmentProvider, ProviderRun, discover}
use network_mapper.Engine.Runs.{
  Fails, classified_if_any, devices_of, discover-Fails, discover-observations, get_device-discover,
  without_enrichment_events,
}
use network_mapper.Enrichment.{Event}
use network_mapper.Graph.{first_with, get_device}
use network_mapper.Observations.{Observation}
use network_mapper.Prelude.Text.{codes}
use network_mapper.Samples.{hyper_v_host, network, windows_host}

-- A run that finds two devices, one of them twice, and something that is no device.
abbrev runs : List ProviderRun
runs =
    record {
      found = some windows_host ∷ none ∷ some hyper_v_host ∷ some windows_host ∷ [];
      observations = network;
    }
    ∷ []

-- A provider that raises at once, and one that reports the sample observations.
abbrev failing : EnrichmentProvider
failing observations devices = record {
  devices = devices;
  events = Event.phase_started 2 ∷ [];
  collected = none;
}

abbrev reporting : EnrichmentProvider
reporting observations devices = record { devices = devices; events = []; collected = some network }

failing-Fails : Fails failing
failing-Fails observations devices = (refl, refl)

discover-Fails_example :
    without_enrichment_events (discover (map some runs) ([] ++ failing ∷ reporting ∷ []))
    ≡ without_enrichment_events (discover (map some runs) ([] ++ reporting ∷ []))
discover-Fails_example = discover-Fails (map some runs) [] (reporting ∷ []) failing failing-Fails

get_device-discover_example :
    (result : DiscoveryResult) × (discover (map some runs) [] ≡ some result)
    × (get_device (codes "10.0.0.6") result.graph
        ≡ classified_if_any (first_with (codes "10.0.0.6") (concat (map devices_of runs))))
    × (result.observations ≡ concat (map (λ r. r.observations) runs))
get_device-discover_example = get_device-discover runs (codes "10.0.0.6")

discover-observations_example :
    (result : DiscoveryResult) × (discover (map some runs) (failing ∷ reporting ∷ []) ≡ some result)
    × (rest : List Observation) × (result.observations
        ≡ concat (map (λ r. r.observations) runs) ++ rest)
discover-observations_example = discover-observations runs (failing ∷ reporting ∷ [])

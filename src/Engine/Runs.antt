-- ===== src/Engine/Runs.antt =====
-- What a run of the discovery engine returns.
use network_mapper.Prelude.{
  ℕ, suc, ◌≡◌, refl, sym, ap, ap₂, ◌∙◌, Bool, true, false, Option, none, some, List, [], ◌∷◌, ◌++◌,
  map, append-nil, append_assoc, All, concat, filter_map, if◌then◌else◌,
}
use network_mapper.Classification.Classifier.{classify, classify_with}
use network_mapper.Devices.{Device}
use network_mapper.Engine.{
  DiscoveryResult, EnrichmentProvider, EnrichmentRun, ProviderRun, classify_devices, classify_from,
  collect_found, discover, extend_observations, finish_discovery, finish_if_found, run_enrichment,
  run_providers,
}
use network_mapper.Enrichment.{Event}
use network_mapper.Graph.{
  NetworkGraph, add_device, add_devices, add_devices-IsWellFormed, all_devices, empty_graph,
  first_with, get_device, get_device-add_devices,
}
use network_mapper.Observations.{Observation}
use network_mapper.Prelude.Decimal.{int_eq}
use network_mapper.Prelude.Eq.{list_eq, nat_eq, option_eq, pair_eq, ◌==◌}
use network_mapper.Prelude.Ord.{list_ord, nat_ord}
use network_mapper.Prelude.Sets.{lookup}
use network_mapper.Prelude.Text.{Text}
use network_mapper.Presentation.{cardinality_eq}
use network_mapper.Snmp.Rows.{rem_key_eq}

-- The provider contributes nothing: it raises, and has not changed a device. It may have published events.
abbrev pub Fails : EnrichmentProvider → Type 0
Fails provider =
    (observations : List Observation) (devices : List Device)
    → ((provider observations devices).devices ≡ devices)
      × ((provider observations devices).collected ≡ none)

-- What a run of the enrichment providers does to the devices and the observations.
abbrev pub evidence : EnrichmentRun → List Device × List Observation
evidence run = (run.devices, run.observations)

run_enrichment-events :
    (providers : List EnrichmentProvider) (devices : List Device) (observations : List Observation)
    (events events' : List Event)
    → evidence (run_enrichment providers devices observations events)
      ≡ evidence (run_enrichment providers devices observations events')
unfolding run_enrichment
run_enrichment-events [] devices observations events events' = refl
run_enrichment-events (p ∷ providers) devices observations events events' =
    run_enrichment-events providers _ _ _ _

run_enrichment-Fails :
    (before after : List EnrichmentProvider) (provider : EnrichmentProvider) (devices : List Device)
    (observations : List Observation) (events : List Event)
    → Fails provider
    → evidence (run_enrichment (before ++ provider ∷ after) devices observations events)
      ≡ evidence (run_enrichment (before ++ after) devices observations events)
unfolding run_enrichment
run_enrichment-Fails [] after provider devices observations events fails =
    let outcome = provider observations devices in
    ap₂
      (λ ds os.
        evidence (
          run_enrichment after ds (extend_observations observations os) (events ++ outcome.events)))
      (fails observations devices).0 (fails observations devices).1
    ∙ run_enrichment-events after devices observations _ _
run_enrichment-Fails (p ∷ before) after provider devices observations events fails =
    run_enrichment-Fails before after provider _ _ _ fails

-- A result without what the enrichment providers published.
abbrev pub without_enrichment_events : Option DiscoveryResult → Option DiscoveryResult
without_enrichment_events none = none
without_enrichment_events (some result) = some (record result { enrichment_events = [] })

finish-Fails :
    (before after : List EnrichmentProvider) (provider : EnrichmentProvider)
    → Fails provider
    → (found : Option (List (Text × Device) × List Observation))
    → without_enrichment_events (finish_if_found (before ++ provider ∷ after) found)
      ≡ without_enrichment_events (finish_if_found (before ++ after) found)
unfolding finish_if_found finish_discovery
finish-Fails before after provider fails none = refl
finish-Fails before after provider fails (some (devices_by_ip, observations)) =
    ap
      (λ (enriched : List Device × List Observation).
        let classified = classify_devices enriched.0 empty_graph in
        some (record {
          graph = classified.0;
          observations = enriched.1;
          enrichment_events = [];
          events = classified.1;
        }))
      (run_enrichment-Fails before after provider (all_devices devices_by_ip) observations [] fails)

-- An enrichment provider that raises before it has changed a device has no influence on the run but by the
-- events that it published itself: whether a result is returned, the graph, the observations and the
-- events of the classification are those of the run without it, wherever it stands.
pub discover-Fails :
    (providers : List (Option ProviderRun)) (before after : List EnrichmentProvider)
    (provider : EnrichmentProvider)
    → Fails provider
    → without_enrichment_events (discover providers (before ++ provider ∷ after))
      ≡ without_enrichment_events (discover providers (before ++ after))
unfolding discover finish_if_found
discover-Fails providers before after provider fails =
    finish-Fails before after provider fails (run_providers providers [] [])

-- The devices of a provider's run, in order.
abbrev pub devices_of : ProviderRun → List Device
devices_of run = filter_map (λ f. f) run.found

collect_found-add_devices :
    (found : List (Option Device)) (devices_by_ip : List (Text × Device))
    → collect_found found devices_by_ip ≡ add_devices (filter_map (λ f. f) found) devices_by_ip
unfolding collect_found add_devices add_device
collect_found-add_devices [] d = refl
collect_found-add_devices (none ∷ found) d = collect_found-add_devices found d
collect_found-add_devices (some device ∷ found) d = collect_found-add_devices found _

add_devices-append :
    (xs ys : List Device) (graph : NetworkGraph)
    → add_devices (xs ++ ys) graph ≡ add_devices ys (add_devices xs graph)
unfolding add_devices
add_devices-append [] ys graph = refl
add_devices-append (x ∷ xs) ys graph = add_devices-append xs ys (add_device x graph)

pub run_providers-some :
    (runs : List ProviderRun) (d : List (Text × Device)) (observations : List Observation)
    → run_providers (map some runs) d observations
      ≡ some (
        add_devices (concat (map devices_of runs)) d,
        observations ++ concat (map (λ r. r.observations) runs),
      )
unfolding run_providers add_devices
run_providers-some [] d observations = ap (λ o. some (d, o)) (sym (append-nil observations))
run_providers-some (run ∷ runs) d observations =
    run_providers-some runs (collect_found run.found d) (observations ++ run.observations)
    ∙ ap₂ (λ g o. some (g, o))
        (ap (add_devices (concat (map devices_of runs))) (collect_found-add_devices run.found d)
          ∙ sym (add_devices-append (devices_of run) (concat (map devices_of runs)) d))
        (append_assoc observations run.observations (concat (map (λ r. r.observations) runs)))

abbrev pub classified : Device → Device
classified device = (classify device).0

classify_from-add_devices :
    (index : ℕ) (devices : List Device) (graph : NetworkGraph)
    → (classify_from index devices graph).0 ≡ add_devices (map classified devices) graph
unfolding classify_from add_devices
classify_from-add_devices index [] graph = refl
classify_from-add_devices index (device ∷ devices) graph =
    classify_from-add_devices (suc index) devices (add_device (classified device) graph)

abbrev pub classified_if_any : Option Device → Option Device
classified_if_any none = none
classified_if_any (some device) = some (classified device)

classified_if_any-if :
    (b : Bool) (device : Device) (o p : Option Device)
    → o ≡ classified_if_any p
    → (if b then some (classified device) else o) ≡ classified_if_any (if b then some device else p)
classified_if_any-if true device o p h = refl
classified_if_any-if false device o p h = h

first_with-classified :
    (ip : Text) (devices : List Device)
    → first_with ip (map classified devices) ≡ classified_if_any (first_with ip devices)
unfolding first_with classify classify_with
first_with-classified ip [] = refl
first_with-classified ip (device ∷ devices) =
    classified_if_any-if (device.ip_address == ip) device _ _ (first_with-classified ip devices)

first_with-items :
    (ip : Text) (graph : NetworkGraph)
    → All (λ p. p.1.ip_address ≡ p.0) graph
    → first_with ip (map (λ p. p.1) graph) ≡ lookup ip graph
unfolding first_with
first_with-items ip [] own = refl
first_with-items ip ((k, device) ∷ graph) own =
    ap₂ (λ i o. if i == ip then some device else o) own.0 (first_with-items ip graph own.1)

-- When no discovery provider raises, a run without enrichment returns a result, and its graph has
-- for an address the classified first device with this address, in the order of the providers and
-- of their devices, and none where no provider found one.
pub get_device-discover :
    (runs : List ProviderRun) (ip : Text)
    → (result : DiscoveryResult) × (discover (map some runs) [] ≡ some result)
      × (get_device ip result.graph
          ≡ classified_if_any (first_with ip (concat (map devices_of runs))))
      × (result.observations ≡ concat (map (λ r. r.observations) runs))
unfolding discover finish_if_found finish_discovery run_enrichment classify_devices all_devices
    get_device
get_device-discover runs ip =
    let devices = concat (map devices_of runs) in
    let observations = concat (map (λ (r : ProviderRun). r.observations) runs) in
    let by_ip = add_devices devices empty_graph in
    (
      finish_discovery [] (all_devices by_ip) observations,
      ap (finish_if_found []) (run_providers-some runs [] []),
      ap (lookup ip) (classify_from-add_devices 1 (all_devices by_ip) empty_graph)
          ∙ get_device-add_devices ip (map classified (all_devices by_ip)) empty_graph
          ∙ first_with-classified ip (all_devices by_ip)
          ∙ ap classified_if_any (
              first_with-items ip by_ip
                (add_devices-IsWellFormed devices empty_graph
                  (record { own_address = tt; distinct = tt })).own_address
              ∙ get_device-add_devices ip devices empty_graph),
      refl,
    )

extend-append :
    (observations : List Observation) (collected : Option (List Observation))
    → (rest : List Observation) × (extend_observations observations collected
        ≡ observations ++ rest)
extend-append observations none = ([], sym (append-nil observations))
extend-append observations (some new) = (new, refl)

run_enrichment-append :
    (providers : List EnrichmentProvider) (devices : List Device) (observations : List Observation)
    (events : List Event)
    → (rest : List Observation) × ((run_enrichment providers devices observations
          events).observations
        ≡ observations ++ rest)
unfolding run_enrichment
run_enrichment-append [] devices observations events = ([], sym (append-nil observations))
run_enrichment-append (provider ∷ providers) devices observations events =
    let outcome = provider observations devices in
    let first = extend-append observations outcome.collected in
    let later =
      run_enrichment-append providers outcome.devices
        (extend_observations observations outcome.collected) (events ++ outcome.events) in
    (
      first.0 ++ later.0,
      later.1 ∙ ap (λ os. os ++ later.0) first.1 ∙ append_assoc observations first.0 later.0,
    )

-- When no discovery provider raises, a run returns a result whatever the enrichment providers do, and
-- its observations begin with those of all discovery providers, in order.
pub discover-observations :
    (runs : List ProviderRun) (enrichment_providers : List EnrichmentProvider)
    → (result : DiscoveryResult) × (discover (map some runs) enrichment_providers ≡ some result)
      × (rest : List Observation) × (result.observations
          ≡ concat (map (λ r. r.observations) runs) ++ rest)
unfolding discover finish_if_found finish_discovery
discover-observations runs providers =
    let by_ip = add_devices (concat (map devices_of runs)) empty_graph in
    let observations = concat (map (λ (r : ProviderRun). r.observations) runs) in
    let enriched = run_enrichment-append providers (all_devices by_ip) observations [] in
    (
      finish_discovery providers (all_devices by_ip) observations,
      ap (finish_if_found providers) (run_providers-some runs [] []),
      enriched.0,
      enriched.1,
    )

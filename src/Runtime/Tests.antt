-- ===== src/Runtime/Tests.antt =====
-- A run of two phases, the second started twice.
use network_mapper.Prelude.{ℕ, ◌≡◌, refl, none, List, [], ◌∷◌, map}
use network_mapper.Prelude.Decimal.{ℤ}
use network_mapper.Runtime.{
  RuntimeEvent, RuntimeEventKind, RuntimePhase, elapsed, handle_event, handle_events, new_recorder,
  publish, subscribe, total_runtime,
}
use network_mapper.Runtime.Recording.{
  completions, first_start, handle_events-telemetry, last_completion,
}

abbrev at_time : RuntimePhase → RuntimeEventKind → ℕ → RuntimeEvent
at_time p k t = record { phase = p; kind = k; timestamp = t; activity = none; measurement = none }

abbrev run : List RuntimeEvent
run =
    at_time RuntimePhase.host_discovery RuntimeEventKind.phase_started 10
    ∷ at_time RuntimePhase.host_discovery RuntimeEventKind.progress 11
    ∷ at_time RuntimePhase.host_discovery RuntimeEventKind.phase_completed 15
    ∷ at_time RuntimePhase.snmp_enrichment RuntimeEventKind.phase_started 16
    ∷ at_time RuntimePhase.snmp_enrichment RuntimeEventKind.phase_started 20
    ∷ at_time RuntimePhase.snmp_enrichment RuntimeEventKind.phase_completed 18
    ∷ []

durations :
    map (λ p. p.duration) (handle_events run new_recorder).completed_phases
    ≡ ℤ.pos 5 ∷ ℤ.negsuc 1 ∷ []
unfolding handle_events
durations = refl

bus :
    publish
      (subscribe handle_event [])
      (at_time RuntimePhase.completion RuntimeEventKind.progress 3)
      new_recorder
    ≡ new_recorder
unfolding publish handle_event
bus = refl

handle_events-telemetry_example :
    ((handle_events run new_recorder).completed_phases ≡ completions [] run)
    × (total_runtime (handle_events run new_recorder)
        ≡ elapsed (first_start run) (last_completion none run))
handle_events-telemetry_example = handle_events-telemetry run

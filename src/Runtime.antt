-- ===== src/Runtime.antt =====
-- networkmapper/runtime/events.py and telemetry.py: the events of a run and the recorder of its phases.
-- A timestamp is the number of microseconds since the least `datetime`; a duration is in microseconds.
-- A subscriber of the bus is a function on its own state.
mod Recording
mod Tests
use network_mapper.Prelude.{ℕ, ◌-◌, Option, none, some, List, [], ◌∷◌, ◌++◌, if◌then◌else◌, ltb}
use network_mapper.Prelude.Decimal.{int_eq, ℤ}
use network_mapper.Prelude.Dict.{assign, or_else}
use network_mapper.Prelude.Eq.{list_eq, nat_eq, option_eq, pair_eq}
use network_mapper.Prelude.Sets.{lookup}
use network_mapper.Prelude.Text.{Text}
use network_mapper.Presentation.{cardinality_eq}
use network_mapper.Snmp.Rows.{rem_key_eq}

pub data RuntimePhase : Type 0 where
  application_startup host_discovery service_enrichment snmp_enrichment classification
        report_generation completion :
      RuntimePhase

pub data RuntimeEventKind : Type 0 where
  phase_started progress phase_completed : RuntimeEventKind

pub record ProgressMeasurement : Type 0 where
  pub completed : ℕ
  pub unit_label : Text
  pub total : Option ℕ

pub record RuntimeEvent : Type 0 where
  pub phase : RuntimePhase
  pub kind : RuntimeEventKind
  pub timestamp : ℕ
  pub activity : Option Text
  pub measurement : Option ProgressMeasurement

abbrev pub phase_number : RuntimePhase → ℕ
phase_number RuntimePhase.application_startup = 0
phase_number RuntimePhase.host_discovery = 1
phase_number RuntimePhase.service_enrichment = 2
phase_number RuntimePhase.snmp_enrichment = 3
phase_number RuntimePhase.classification = 4
phase_number RuntimePhase.report_generation = 5
phase_number RuntimePhase.completion = 6

-- A difference of timestamps.
abbrev pub minus : ℕ → ℕ → ℤ
minus a b = if ltb a b then ℤ.negsuc (b - a - 1) else ℤ.pos (a - b)

pub record PhaseTelemetry : Type 0 where
  pub phase : RuntimePhase
  pub started_at : ℕ
  pub completed_at : ℕ
  pub duration : ℤ
  pub final_progress : Option ProgressMeasurement

-- `RuntimeTelemetryRecorder`; the phases that have started are in a dictionary by their numbers.
pub record Recorder : Type 0 where
  pub phase_started_at : List (ℕ × ℕ)
  pub completed_phases : List PhaseTelemetry
  pub run_started_at : Option ℕ
  pub run_completed_at : Option ℕ

abbrev pub new_recorder : Recorder
new_recorder = record {
  phase_started_at = [];
  completed_phases = [];
  run_started_at = none;
  run_completed_at = none;
}

-- `dict.get(key, default)`
abbrev pub or_timestamp : Option ℕ → ℕ → ℕ
or_timestamp none t = t
or_timestamp (some s) t = s

abbrev pub telemetry : RuntimeEvent → ℕ → PhaseTelemetry
telemetry event started_at = record {
  phase = event.phase;
  started_at = started_at;
  completed_at = event.timestamp;
  duration = minus event.timestamp started_at;
  final_progress = event.measurement;
}

abbrev pub handle_kind : RuntimeEventKind → RuntimeEvent → Recorder → Recorder
handle_kind RuntimeEventKind.phase_started event r = record {
  phase_started_at = assign (phase_number event.phase) event.timestamp r.phase_started_at;
  completed_phases = r.completed_phases;
  run_started_at = or_else r.run_started_at (some event.timestamp);
  run_completed_at = r.run_completed_at;
}
handle_kind RuntimeEventKind.progress event r = r
handle_kind RuntimeEventKind.phase_completed event r =
    let started_at =
      or_timestamp (lookup (phase_number event.phase) r.phase_started_at) event.timestamp in
    record {
      phase_started_at = r.phase_started_at;
      completed_phases = r.completed_phases ++ telemetry event started_at ∷ [];
      run_started_at = r.run_started_at;
      run_completed_at = some event.timestamp;
    }

-- `handle_event`
unfoldable pub handle_event : RuntimeEvent → Recorder → Recorder
unfolding assign
handle_event event r = handle_kind event.kind event r

-- The recorder after the events that are published.
unfoldable pub handle_events : List RuntimeEvent → Recorder → Recorder
unfolding handle_event
handle_events [] r = r
handle_events (event ∷ events) r = handle_events events (handle_event event r)

abbrev pub elapsed : Option ℕ → Option ℕ → Option ℤ
elapsed (some started) (some completed) = some (minus completed started)
elapsed _ _ = none

-- `total_runtime_seconds`
unfoldable pub total_runtime : Recorder → Option ℤ
total_runtime r = elapsed r.run_started_at r.run_completed_at

-- A subscriber is a function on the state that the subscribers share.
abbrev pub Subscriber : Type 0 → Type 0
Subscriber S = RuntimeEvent → S → S

-- `RuntimeEventBus.subscribe`
abbrev pub subscribe : {S : Type 0} → Subscriber S → List (Subscriber S) → List (Subscriber S)
subscribe subscriber subscribers = subscribers ++ subscriber ∷ []

-- `RuntimeEventBus.publish`
unfoldable pub publish : {S : Type 0} → List (Subscriber S) → RuntimeEvent → S → S
publish [] event s = s
publish (subscriber ∷ subscribers) event s = publish subscribers event (subscriber event s)

-- ===== src/Runtime/Recording.antt =====
-- networkmapper/runtime/telemetry.py: what the recorder holds after any sequence of events.
use network_mapper.Prelude.{
  ℕ, ◌≡◌, refl, sym, ap, ap₂, ◌∙◌, Option, none, some, List, [], ◌∷◌, ◌++◌, append-nil,
  append_assoc, arith, if◌then◌else◌, nat_beq,
}
use network_mapper.Prelude.Decimal.{int_eq}
use network_mapper.Prelude.Dict.{assign, or_else, or_else-none}
use network_mapper.Prelude.Eq.{list_eq, nat_eq, option_eq, pair_eq}
use network_mapper.Prelude.Sets.{lookup}
use network_mapper.Presentation.{cardinality_eq}
use network_mapper.Runtime.{
  PhaseTelemetry, Recorder, RuntimeEvent, RuntimeEventKind, elapsed, handle_event, handle_events,
  handle_kind, new_recorder, or_timestamp, phase_number, telemetry, total_runtime,
}
use network_mapper.Snmp.Rows.{rem_key_eq}

abbrev pub start_of : RuntimeEventKind → RuntimeEvent → ℕ → Option ℕ → Option ℕ
start_of RuntimeEventKind.phase_started event phase before =
    if nat_beq (phase_number event.phase) phase then some event.timestamp else before
start_of RuntimeEventKind.progress event phase before = before
start_of RuntimeEventKind.phase_completed event phase before = before

-- The timestamp of the last start of a phase among the events seen, the latest first.
abbrev pub last_start : ℕ → List RuntimeEvent → Option ℕ
last_start phase [] = none
last_start phase (event ∷ seen) = start_of event.kind event phase (last_start phase seen)

abbrev pub completion_of :
    RuntimeEventKind → RuntimeEvent → List RuntimeEvent → List PhaseTelemetry → List PhaseTelemetry
completion_of RuntimeEventKind.phase_started event seen rest = rest
completion_of RuntimeEventKind.progress event seen rest = rest
completion_of RuntimeEventKind.phase_completed event seen rest =
    telemetry event (or_timestamp (last_start (phase_number event.phase) seen) event.timestamp)
    ∷ rest

-- The telemetry of the completions, each with the last start of its phase before it, or its own time.
abbrev pub completions : List RuntimeEvent → List RuntimeEvent → List PhaseTelemetry
completions seen [] = []
completions seen (event ∷ events) =
    completion_of event.kind event seen (completions (event ∷ seen) events)

lookup-assign :
    (k j v : ℕ) (d : List (ℕ × ℕ))
    → lookup k (assign j v d) ≡ (if nat_beq j k then some v else lookup k d)
unfolding assign
lookup-assign k j v [] = refl
lookup-assign k j v ((i, w) ∷ d) = ground (arith, lookup-assign k j v d)

-- The dictionary of the recorder has the last start of each phase.
abbrev IsUpToDate : List RuntimeEvent → Recorder → Type 0
IsUpToDate seen r = (k : ℕ) → lookup k r.phase_started_at ≡ last_start k seen

handle_kind-started :
    (kind : RuntimeEventKind) (event : RuntimeEvent) (seen : List RuntimeEvent) (r : Recorder)
    → IsUpToDate seen r
    → (k : ℕ)
    → lookup k (handle_kind kind event r).phase_started_at
      ≡ start_of kind event k (last_start k seen)
handle_kind-started RuntimeEventKind.phase_started event seen r h k =
    lookup-assign k (phase_number event.phase) event.timestamp r.phase_started_at
    ∙ ap (λ o. if nat_beq (phase_number event.phase) k then some event.timestamp else o) (h k)
handle_kind-started RuntimeEventKind.progress event seen r h k = h k
handle_kind-started RuntimeEventKind.phase_completed event seen r h k = h k

handle_kind-completed :
    (kind : RuntimeEventKind) (event : RuntimeEvent) (seen : List RuntimeEvent) (r : Recorder)
    (rest : List PhaseTelemetry)
    → IsUpToDate seen r
    → (handle_kind kind event r).completed_phases ++ rest
      ≡ r.completed_phases ++ completion_of kind event seen rest
handle_kind-completed RuntimeEventKind.phase_started event seen r rest h = refl
handle_kind-completed RuntimeEventKind.progress event seen r rest h = refl
handle_kind-completed RuntimeEventKind.phase_completed event seen r rest h =
    append_assoc r.completed_phases _ rest
    ∙ ap (λ o. r.completed_phases ++ telemetry event (or_timestamp o event.timestamp) ∷ rest)
        (h (phase_number event.phase))

handle_events-completed :
    (seen events : List RuntimeEvent) (r : Recorder)
    → IsUpToDate seen r
    → (handle_events events r).completed_phases ≡ r.completed_phases ++ completions seen events
unfolding handle_events handle_event
handle_events-completed seen [] r h = sym (append-nil r.completed_phases)
handle_events-completed seen (event ∷ events) r h =
    handle_events-completed (event ∷ seen) events (handle_event event r)
      (handle_kind-started event.kind event seen r h)
    ∙ handle_kind-completed event.kind event seen r (completions (event ∷ seen) events) h

abbrev pub first_of : RuntimeEventKind → ℕ → Option ℕ → Option ℕ
first_of RuntimeEventKind.phase_started t later = some t
first_of RuntimeEventKind.progress t later = later
first_of RuntimeEventKind.phase_completed t later = later

-- The time of the first start.
abbrev pub first_start : List RuntimeEvent → Option ℕ
first_start [] = none
first_start (event ∷ events) = first_of event.kind event.timestamp (first_start events)

abbrev pub last_of : RuntimeEventKind → ℕ → Option ℕ → Option ℕ
last_of RuntimeEventKind.phase_started t before = before
last_of RuntimeEventKind.progress t before = before
last_of RuntimeEventKind.phase_completed t before = some t

-- The time of the last completion, or the one given.
abbrev pub last_completion : Option ℕ → List RuntimeEvent → Option ℕ
last_completion before [] = before
last_completion before (event ∷ events) =
    last_completion (last_of event.kind event.timestamp before) events

handle_kind-started_at :
    (kind : RuntimeEventKind) (event : RuntimeEvent) (r : Recorder) (later : Option ℕ)
    → or_else (handle_kind kind event r).run_started_at later
      ≡ or_else r.run_started_at (first_of kind event.timestamp later)
handle_kind-started_at RuntimeEventKind.phase_started event r later =
    first_wins r.run_started_at event.timestamp later
  where
    first_wins :
        (o : Option ℕ) (t : ℕ) (p : Option ℕ) → or_else (or_else o (some t)) p ≡ or_else o (some t)
    first_wins none t p = refl
    first_wins (some s) t p = refl
handle_kind-started_at RuntimeEventKind.progress event r later = refl
handle_kind-started_at RuntimeEventKind.phase_completed event r later = refl

handle_kind-completed_at :
    (kind : RuntimeEventKind) (event : RuntimeEvent) (r : Recorder)
    → (handle_kind kind event r).run_completed_at ≡ last_of kind event.timestamp r.run_completed_at
handle_kind-completed_at RuntimeEventKind.phase_started event r = refl
handle_kind-completed_at RuntimeEventKind.progress event r = refl
handle_kind-completed_at RuntimeEventKind.phase_completed event r = refl

handle_events-times :
    (events : List RuntimeEvent) (r : Recorder)
    → ((handle_events events r).run_started_at ≡ or_else r.run_started_at (first_start events))
      × ((handle_events events r).run_completed_at ≡ last_completion r.run_completed_at events)
unfolding handle_events handle_event
handle_events-times [] r = (sym (or_else-none r.run_started_at), refl)
handle_events-times (event ∷ events) r =
    let rest = handle_events-times events (handle_event event r) in
    (
      rest.0 ∙ handle_kind-started_at event.kind event r (first_start events),
      rest.1 ∙ ap (λ o. last_completion o events) (handle_kind-completed_at event.kind event r),
    )

-- After any sequence of events, the recorder has one record for each completion, in their order, which begins at
-- the last start of its phase before it, or at the completion when there is none; and the total
-- run time is that from the first start to the last completion, when there are both.
pub handle_events-telemetry :
    (events : List RuntimeEvent)
    → ((handle_events events new_recorder).completed_phases ≡ completions [] events)
      × (total_runtime (handle_events events new_recorder)
          ≡ elapsed (first_start events) (last_completion none events))
unfolding total_runtime
handle_events-telemetry events =
    let times = handle_events-times events new_recorder in
    (handle_events-completed [] events new_recorder (λ k. refl), ap₂ elapsed times.0 times.1)

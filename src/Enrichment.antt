-- ===== src/Enrichment.antt =====
-- The enrichment providers of networkmapper/discovery over SNMP: what they share, and a child for each.
-- A client is the result of its query for an address, or `none` when it raises. The run's identifier
-- and its time are parameters. The provider publishes its events in order.
pub mod Addresses
pub mod Arp
pub mod Fdb
pub mod Lldp
pub mod SystemGroup
mod Loop
mod Gate
mod Resolution
mod Neighbors
mod Discovery
mod Tests
use network_mapper.Prelude.{
  ℕ, suc, Bool, Option, none, some, List, [], ◌∷◌, ◌++◌, if◌then◌else◌, length,
}
use network_mapper.Observations.{Observation, Provenance}
use network_mapper.Prelude.Decimal.{int_eq}
use network_mapper.Prelude.Dict.{assign}
use network_mapper.Prelude.Eq.{list_eq, nat_eq, option_eq, pair_eq}
use network_mapper.Prelude.Group.{entries}
use network_mapper.Prelude.Text.{Text, codes}
use network_mapper.Snmp.Results.{SnmpResult, failed_with, malformed}
use network_mapper.Snmp.Rows.{rem_key_eq}

-- What is published: `PHASE_STARTED` with the number of hosts, `PROGRESS` and `PHASE_COMPLETED` with the
-- numbers of the measurement.
pub data Event : Type 0 where
  phase_started : ℕ → Event
  progress : ℕ → ℕ → Event
  phase_completed : ℕ → ℕ → Event

-- `SnmpArpHostDiagnostics`, `SnmpBridgeFdbHostDiagnostics` and `SnmpLldpHostDiagnostics`; the last alone
-- counts the management addresses.
pub record HostDiagnostics : Type 0 where
  pub responded : Bool
  pub entries_returned : ℕ
  pub management_addresses_returned : ℕ
  pub failure_reason : Option Text

-- `SnmpArpRunDiagnostics`, `SnmpBridgeFdbRunDiagnostics` and `SnmpLldpRunDiagnostics`, without the version
-- of the protocol.
pub record RunDiagnostics : Type 0 where
  pub hosts_eligible : ℕ
  pub hosts_queried : ℕ
  pub hosts_responded : ℕ
  pub hosts_timed_out : ℕ
  pub host_diagnostics : List (Text × HostDiagnostics)

-- The provider after `enrich`, with what it published.
pub record Enriched : Type 0 where
  pub observations : List Observation
  pub events : List Event
  pub diagnostics : RunDiagnostics

-- The state of the loop over the devices.
pub record Visits : Type 0 where
  pub collected : List Observation
  pub published : List Event
  pub responding : ℕ
  pub silent : ℕ
  pub hosts : List (Text × HostDiagnostics)

-- `self._client.<query>(…)` of an address.
abbrev pub Client : Type 0 → Type 0
Client Entry = Text → Option (SnmpResult Entry)

-- `_query_host`
unfoldable pub query_host : {Entry : Type 0} → Client Entry → Text → SnmpResult Entry
query_host client ip = elim (client ip) [ none ↦ failed_with malformed | some result ↦ result ]

-- What a provider collects from a result of the host that responded, and what it counts.
pub record Collection (Entry : Type 0) : Type 0 where
  pub client : Client Entry
  pub collect : Text → List Entry → List Observation
  pub count_addresses : List Entry → ℕ

module _ {Entry : Type 0} (provider : Collection Entry) where
  -- The body of the loop of `enrich`, for the host at an index.
  unfoldable pub visit : ℕ → ℕ → Text → Visits → Visits
  unfolding query_host assign
  visit total index ip visits =
      let result = query_host provider.client ip in
      let host : HostDiagnostics = record {
        responded = result.responded;
        entries_returned = length result.entries;
        management_addresses_returned = provider.count_addresses result.entries;
        failure_reason = result.failure_reason;
      } in
      record {
        collected =
            if result.responded
            then visits.collected ++ provider.collect ip result.entries
            else visits.collected;
        published = visits.published ++ Event.progress index total ∷ [];
        responding = if result.responded then suc visits.responding else visits.responding;
        silent = if result.responded then visits.silent else suc visits.silent;
        hosts = assign ip host visits.hosts;
      }

  unfoldable pub visit_all : ℕ → ℕ → List Text → Visits → Visits
  unfolding visit
  visit_all total index [] visits = visits
  visit_all total index (ip ∷ ips) visits =
      visit_all total (suc index) ips (visit total index ip visits)

  -- `enrich`, on the addresses of the devices.
  unfoldable pub enrich : List Text → Enriched
  unfolding visit_all
  enrich ips =
      let total = length ips in
      let visits = visit_all total 1 ips (record {
        collected = [];
        published = Event.phase_started total ∷ [];
        responding = 0;
        silent = 0;
        hosts = [];
      }) in
      record {
        observations = visits.collected;
        events = visits.published ++ Event.phase_completed visits.responding total ∷ [];
        diagnostics = record {
          hosts_eligible = total;
          hosts_queried = total;
          hosts_responded = visits.responding;
          hosts_timed_out = visits.silent;
          host_diagnostics = visits.hosts;
        };
      }

-- `ObservationProvenance(provider="snmp", …)`
abbrev pub snmp_provenance : Text → Text → Text → Provenance
snmp_provenance collection_method observed_at run_id = record {
  provider = codes "snmp";
  collection_method = collection_method;
  observed_at = observed_at;
  source_run = run_id;
}

abbrev pub related : Text → Text → Text → Provenance → Observation
related subject related_subject category provenance = Observation.relationship (record {
  subject = subject;
  related_subject = related_subject;
  category = category;
  provenance = provenance;
})

abbrev pub identified : Text → Text → Text → Provenance → Observation
identified subject property_name value provenance = Observation.identity (record {
  subject = subject;
  property_name = property_name;
  value = value;
  provenance = provenance;
})

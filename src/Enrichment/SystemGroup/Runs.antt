-- ===== src/Enrichment/SystemGroup/Runs.antt =====
-- networkmapper/discovery/snmp_provider.py over the client of networkmapper/discovery/snmp_client.py: the
-- run over all hosts.
use network_mapper.Prelude.{
  ℕ, suc, ◌≡◌, refl, ap, inl, inr, Bool, true, false, some, List, [], ◌∷◌, map, All, Bool-cases,
  if◌then◌else◌, length, ◌&◌,
}
use network_mapper.Classification.Evidence.{filled}
use network_mapper.Devices.{Device}
use network_mapper.Enrichment.{Client, Event, query_host}
use network_mapper.Enrichment.SystemGroup.{
  Attribute, SystemEnriched, SystemVisits, attribute_of, enrich_system, enriched_device, finished,
  visit_devices, visited,
}
use network_mapper.Enrichment.SystemGroup.Merging.{AreKnown, merge-AreKnown}
use network_mapper.Prelude.Decimal.{int_eq}
use network_mapper.Prelude.Dict.{All-assign, assign}
use network_mapper.Prelude.Eq.{list_beq, list_eq, nat_eq, option_eq, pair_eq}
use network_mapper.Prelude.Ord.{list_ord, nat_ord}
use network_mapper.Prelude.Text.{Text, is_filled, strip}
use network_mapper.Snmp.Client.{
  Agent, Answer, collect_fields, get_system_group, of_answer, of_fields,
}
use network_mapper.Snmp.Results.{SnmpResult, system_group}
use network_mapper.Snmp.Rows.{rem_key_eq}
use network_mapper.Snmp.Values.{Reading}

kept_known :
    (unresolved filled : Bool) (name text : Text) (fields : List (Text × Text))
    → (a : Attribute) × (attribute_of name ≡ some a)
    → AreKnown fields
    → AreKnown (if unresolved then fields else if filled then assign name text fields else fields)
kept_known true filled name text fields h k = k
kept_known false true name text fields h k =
    All-assign (λ p. (a : Attribute) × (attribute_of p.0 ≡ some a)) name text fields h k
kept_known false false name text fields h k = k

system_group-known : All (λ name. (a : Attribute) × (attribute_of name ≡ some a)) system_group
unfolding attribute_of list_beq
system_group-known =
    (Attribute.sys_descr, refl)
    & (Attribute.sys_object_id, refl)
    & (Attribute.sys_uptime, refl)
    & (Attribute.sys_contact, refl)
    & (Attribute.hostname, refl)
    & (Attribute.sys_location, refl)
    & tt

module _ {V : Type 0} (reading : Reading V) where
  collect_fields-AreKnown :
      (names : List Text) (vs : List V) (fields : List (Text × Text))
      → All (λ name. (a : Attribute) × (attribute_of name ≡ some a)) names
      → AreKnown fields
      → AreKnown (collect_fields reading names vs fields)
  unfolding collect_fields
  collect_fields-AreKnown [] vs fields h k = k
  collect_fields-AreKnown (name ∷ names) [] fields h k = k
  collect_fields-AreKnown (name ∷ names) (value ∷ vs) fields h k =
      let text = strip (reading.text value) in
      collect_fields-AreKnown names vs _ h.1
        (kept_known (reading.is_unresolved value) (is_filled text) name text fields h.0 k)

  of_fields-AreKnown :
      (fields : List (Text × Text)) → AreKnown fields → AreKnown (of_fields reading fields).entries
  of_fields-AreKnown [] h = tt
  of_fields-AreKnown (field ∷ fields) h = h

  of_answer-AreKnown : (answer : Answer V) → AreKnown (of_answer reading answer).entries
  unfolding attribute_of list_beq
  of_answer-AreKnown Answer.no_answer = tt
  of_answer-AreKnown Answer.error_indication = tt
  of_answer-AreKnown Answer.error_status = tt
  of_answer-AreKnown (Answer.values vs) =
      of_fields-AreKnown (collect_fields reading system_group vs [])
        (collect_fields-AreKnown system_group vs [] system_group-known tt)

  get_system_group-AreKnown : (agent : Agent V) → AreKnown (get_system_group reading agent).entries
  unfolding get_system_group
  get_system_group-AreKnown agent = elim (Bool-cases agent.has_transport) [
    | inl h ↦ rw h (of_answer-AreKnown agent.system)
    | inr h ↦ rw h tt
  ]

module _ (run_id observed_at : Text) (client : Client (Text × Text)) where
  enriched_device-AreKnown :
      (d : Device) (result : SnmpResult (Text × Text))
      → AreKnown result.entries
      → (enriched_device run_id observed_at client d result).1 ≡ true
  unfolding enriched_device
  enriched_device-AreKnown d result h = elim (Bool-cases result.responded) [
    | inl r ↦ rw r (merge-AreKnown result.entries d h)
    | inr r ↦ rw r refl
  ]

  -- Each device as its own turn leaves it.
  abbrev pub in_turn : Device → Device
  in_turn d = (enriched_device run_id observed_at client d (query_host client d.ip_address)).0

  visit_devices-total :
      (total index : ℕ) (devices : List Device) (visits : SystemVisits)
      → ((d : Device) → AreKnown (query_host client d.ip_address).entries)
      → (end : SystemVisits) × (visit_devices run_id observed_at client total index devices visits
          ≡ (map in_turn devices, some end))
  unfolding visit_devices
  visit_devices-total total index [] visits h = (visits, refl)
  visit_devices-total total index (d ∷ devices) visits h =
      let result = query_host client d.ip_address in
      let rest =
        visit_devices-total total (suc index) devices
          (visited run_id observed_at client total index d.ip_address result visits) h in
      (
        rest.0,
        rw (enriched_device-AreKnown d result (h d)) (ap (λ p. (in_turn d ∷ p.0, p.1)) rest.1),
      )

-- With the client of the program, whatever the devices answer and however a query fails, the
-- enrichment comes to its end without an exception, with each device in its place as the merge of
-- its own result leaves it.
pub enrich_system-total :
    {V : Type 0} (reading : Reading V) (agents : Text → Agent V) (run_id observed_at : Text)
    (devices : List Device)
    → (enriched : SystemEnriched) × (enrich_system run_id observed_at
          (λ ip. some (get_system_group reading (agents ip)))
          devices
        ≡ (
          map
              (in_turn run_id observed_at (λ ip. some (get_system_group reading (agents ip))))
              devices,
          some enriched,
        ))
unfolding enrich_system query_host
enrich_system-total reading agents run_id observed_at devices =
    let client : Client (Text × Text) = λ ip. some (get_system_group reading (agents ip)) in
    let total = length devices in
    let loop =
      visit_devices-total run_id observed_at client total 1 devices
        (record {
          collected = [];
          published = Event.phase_started total ∷ [];
          responding = 0;
          silent = 0;
          hosts = [];
        })
        (λ d. get_system_group-AreKnown reading (agents d.ip_address)) in
    (_, ap (λ p. (p.0, finished run_id observed_at client total p.1)) loop.1)

-- ===== src/Enrichment/SystemGroup.antt =====
-- networkmapper/discovery/snmp_provider.py: the system group of a host merged into its device.
-- A field that has no attribute raises a `KeyError` in `_merge`, and with it `enrich`.
pub mod Merging
pub mod Runs
use network_mapper.Prelude.{
  ℕ, suc, Bool, true, false, Option, none, some, List, [], ◌∷◌, ◌++◌, if◌then◌else◌, length,
}
use network_mapper.Devices.{Device}
use network_mapper.Enrichment.{Client, Event, identified, query_host, snmp_provenance}
use network_mapper.Observations.{Observation}
use network_mapper.Prelude.Decimal.{int_eq}
use network_mapper.Prelude.Dict.{assign, keys_of}
use network_mapper.Prelude.Eq.{elem, list_eq, nat_eq, option_eq, pair_eq}
use network_mapper.Prelude.Ord.{list_le, list_ord, nat_ord}
use network_mapper.Prelude.Sets.{lookup}
use network_mapper.Prelude.Sort.{sort}
use network_mapper.Prelude.Text.{Text, codes, is_filled, or_empty}
use network_mapper.Snmp.Results.{SnmpResult}
use network_mapper.Snmp.Rows.{rem_key_eq}

-- The attributes of a device that a field may fill.
pub data Attribute : Type 0 where
  hostname sys_descr sys_object_id sys_uptime sys_contact sys_location : Attribute

-- `_FIELD_TO_DEVICE_ATTRIBUTE`
abbrev pub field_to_attribute : List (Text × Attribute)
field_to_attribute =
    (codes "sysName", Attribute.hostname)
    ∷ (codes "sysDescr", Attribute.sys_descr)
    ∷ (codes "sysObjectID", Attribute.sys_object_id)
    ∷ (codes "sysUpTime", Attribute.sys_uptime)
    ∷ (codes "sysContact", Attribute.sys_contact)
    ∷ (codes "sysLocation", Attribute.sys_location)
    ∷ []

unfoldable pub attribute_of : Text → Option Attribute
attribute_of field_name = lookup field_name field_to_attribute

-- `getattr(device, attribute)`
abbrev pub get_attribute : Attribute → Device → Option Text
get_attribute Attribute.hostname d = d.hostname
get_attribute Attribute.sys_descr d = d.snmp_sys_descr
get_attribute Attribute.sys_object_id d = d.snmp_sys_object_id
get_attribute Attribute.sys_uptime d = d.snmp_sys_uptime
get_attribute Attribute.sys_contact d = d.snmp_sys_contact
get_attribute Attribute.sys_location d = d.snmp_sys_location

-- The device with other values in these attributes, and with other sources.
abbrev pub with_values : (Attribute → Option Text) → List Text → Device → Device
with_values value sources d = record {
  ip_address = d.ip_address;
  hostname = value Attribute.hostname;
  mac_address = d.mac_address;
  vendor = d.vendor;
  operating_system = d.operating_system;
  computer_name = d.computer_name;
  domain = d.domain;
  smb_signing = d.smb_signing;
  snmp_sys_descr = value Attribute.sys_descr;
  snmp_sys_object_id = value Attribute.sys_object_id;
  snmp_sys_uptime = value Attribute.sys_uptime;
  snmp_sys_contact = value Attribute.sys_contact;
  snmp_sys_location = value Attribute.sys_location;
  services = d.services;
  device_type = d.device_type;
  discovery_sources = sources;
}

abbrev pub attribute_beq : Attribute → Attribute → Bool
attribute_beq Attribute.hostname Attribute.hostname = true
attribute_beq Attribute.sys_descr Attribute.sys_descr = true
attribute_beq Attribute.sys_object_id Attribute.sys_object_id = true
attribute_beq Attribute.sys_uptime Attribute.sys_uptime = true
attribute_beq Attribute.sys_contact Attribute.sys_contact = true
attribute_beq Attribute.sys_location Attribute.sys_location = true
attribute_beq _ _ = false

-- `setattr(device, attribute, value)`
abbrev pub set_attribute : Attribute → Text → Device → Device
set_attribute a value d =
    with_values (λ b. if attribute_beq a b then some value else get_attribute b d)
      d.discovery_sources d

-- `if getattr(device, attribute) is None: setattr(device, attribute, value)`
abbrev pub fill : Option Text → Attribute → Text → Device → Device
fill none a value d = set_attribute a value d
fill (some v) a value d = d

-- `_merge`: the device as it is left, and whether the loop came to its end.
unfoldable pub merge : List (Text × Text) → Device → Device × Bool
merge [] d = (d, true)
merge ((field_name, value) ∷ fields) d = elim (attribute_of field_name) [
  | none ↦ (d, false)
  | some a ↦ merge fields (fill (get_attribute a d) a value d)
]

-- `device.discovery_sources.append("snmp")` unless it is there.
abbrev pub add_source : Device → Device
add_source d =
    if elem (codes "snmp") d.discovery_sources
    then d
    else with_values (λ b. get_attribute b d) (d.discovery_sources ++ codes "snmp" ∷ []) d

module _ (run_id observed_at : Text) where
  -- `_collect_identity_observations`
  unfoldable pub system_identities : Text → List (Text × Text) → List Observation
  system_identities ip fields =
      let value = or_empty (lookup (codes "sysName") fields) in
      if is_filled value
      then identified ip (codes "hostname") value
          (snmp_provenance (codes "sysName") observed_at run_id)
        ∷ []
      else []

-- `SnmpHostDiagnostics`
pub record SystemHost : Type 0 where
  pub responded : Bool
  pub fields_returned : List Text
  pub failure_reason : Option Text

-- The state of the loop.
pub record SystemVisits : Type 0 where
  pub collected : List Observation
  pub published : List Event
  pub responding : ℕ
  pub silent : ℕ
  pub hosts : List (Text × SystemHost)

-- The provider after `enrich`: `SnmpRunDiagnostics` without the version, the number of hosts being the
-- number of devices.
pub record SystemEnriched : Type 0 where
  pub observations : List Observation
  pub events : List Event
  pub hosts_responded : ℕ
  pub hosts_timed_out : ℕ
  pub host_diagnostics : List (Text × SystemHost)

module _ (run_id observed_at : Text) (client : Client (Text × Text)) where
  -- The body of the loop, for a host whose query gave the result, when `_merge` does not raise.
  unfoldable pub visited : ℕ → ℕ → Text → SnmpResult (Text × Text) → SystemVisits → SystemVisits
  unfolding system_identities assign
  visited total index ip result visits = record {
    collected =
        if result.responded
        then visits.collected ++ system_identities run_id observed_at ip result.entries
        else visits.collected;
    published = visits.published ++ Event.progress index total ∷ [];
    responding = if result.responded then suc visits.responding else visits.responding;
    silent = if result.responded then visits.silent else suc visits.silent;
    hosts =
        assign ip
          (record {
            responded = result.responded;
            fields_returned = sort list_le (keys_of result.entries);
            failure_reason = result.failure_reason;
          })
          visits.hosts;
  }

  -- The device after its turn, and whether nothing raised.
  unfoldable pub enriched_device : Device → SnmpResult (Text × Text) → Device × Bool
  unfolding merge
  enriched_device d result =
      if result.responded
      then (let (merged, ended) = merge result.entries d in
          (if ended then add_source merged else merged, ended))
      else (d, true)

  -- The loop over the devices: each as it is left, and the state unless something raised.
  unfoldable pub visit_devices :
      ℕ → ℕ → List Device → SystemVisits → List Device × Option SystemVisits
  unfolding visited enriched_device query_host
  visit_devices total index [] visits = ([], some visits)
  visit_devices total index (d ∷ devices) visits =
      let result = query_host client d.ip_address in
      let (left, ended) = enriched_device d result in
      let (rest, end) =
        visit_devices total (suc index) devices (visited total index d.ip_address result visits) in
      if ended then (left ∷ rest, end) else (left ∷ devices, none)

  abbrev pub finished : ℕ → Option SystemVisits → Option SystemEnriched
  finished total none = none
  finished total (some visits) = some (record {
    observations = visits.collected;
    events = visits.published ++ Event.phase_completed visits.responding total ∷ [];
    hosts_responded = visits.responding;
    hosts_timed_out = visits.silent;
    host_diagnostics = visits.hosts;
  })

  -- `SnmpEnrichmentProvider.enrich`
  unfoldable pub enrich_system : List Device → List Device × Option SystemEnriched
  unfolding visit_devices
  enrich_system devices =
      let total = length devices in
      let (left, end) = visit_devices total 1 devices (record {
        collected = [];
        published = Event.phase_started total ∷ [];
        responding = 0;
        silent = 0;
        hosts = [];
      }) in
      (left, finished total end)

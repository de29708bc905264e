-- ===== src/Classification/Tests.antt =====
-- Classification of the sample devices.
use network_mapper.Prelude.{◌≡◌, ◌≢◌, refl, true, false, none, some, [], ◌∷◌, map, All, ◌||◌, any}
use network_mapper.Prelude.Text.{codes, lower, strip, contains}
use network_mapper.Prelude.Eq.{list_beq, nat_eq, list_eq}
use network_mapper.Devices.{DeviceType, set_device_type}
use network_mapper.Classification.Evidence.{
  contains_any, normalize_hostname, normalize_operating_system, is_found, first_matching_identifier,
  first_matching_port, first_matching_service, service_ports, service_names,
}
use network_mapper.Classification.Hosts.{
  server_hostname_keywords, hypervisor_hostname_keywords, server_hostname_rule,
  hypervisor_hostname_rule, windows_server_rule,
}
use network_mapper.Classification.Appliances.{
  ubiquiti_access_point_rule, edge_router_rule, sonicwall_firewall_rule, pfsense_firewall_rule,
  network_appliance_identifier_keywords,
}
use network_mapper.Classification.Vendors.{
  voice_vendor_rule, switch_vendor_rule, camera_vendor_rule,
}
use network_mapper.Classification.Printers.{
  find_printer_port, find_printer_service, printer_protocol_ports, printer_service_keywords,
}
use network_mapper.Classification.Classifier.{decision, production_rules, classify}
use network_mapper.Classification.Outcomes.{IsOutcome, typed_rules, production_rules-IsOutcome}
use network_mapper.Classification.Precedence.{is_windows_server, classify-windows_server}
use network_mapper.Classification.Reruns.{classify_idempotent}
use network_mapper.Classification.Spoolers.{other_entries, find_printer-select}
use network_mapper.Classification.Identifiers.{
  entry_holds, holds, is_found-first_matching_identifier,
}
use network_mapper.Samples.{windows_host, hyper_v_host, camera_host, lpd_service}

windows_decides : decision (windows_server_rule windows_host) ≡ some DeviceType.server
unfolding decision windows_server_rule lower strip
windows_decides = refl

windows_declines : decision (server_hostname_rule windows_host) ≡ none
unfolding decision server_hostname_rule contains lower
windows_declines = refl

classify_idempotent_example :
    (classify (set_device_type DeviceType.router windows_host) ≡ classify windows_host)
    × (classify (classify windows_host).0 ≡ classify windows_host)
classify_idempotent_example = classify_idempotent windows_host DeviceType.router

production_rules-IsOutcome_example :
    (map (λ p. p.1) typed_rules ≡ production_rules)
    × All (λ p. IsOutcome p.0 (p.1 windows_host)) typed_rules
production_rules-IsOutcome_example = production_rules-IsOutcome windows_host

has_caption : is_windows_server windows_host ≡ true
unfolding contains normalize_operating_system lower strip
has_caption = refl

classify-windows_server_example :
    ((classify windows_host).0.device_type ≢ DeviceType.printer)
    × ((classify windows_host).0.device_type ≢ DeviceType.workstation)
classify-windows_server_example = classify-windows_server windows_host has_caption

camera_type : (classify camera_host).0.device_type ≡ DeviceType.camera
unfolding classify contains lower hypervisor_hostname_rule ubiquiti_access_point_rule list_beq
    edge_router_rule sonicwall_firewall_rule strip pfsense_firewall_rule voice_vendor_rule
    switch_vendor_rule camera_vendor_rule
camera_type = refl

no_server_name :
    contains_any
      (codes "dc" ∷ codes "cam" ∷ server_hostname_keywords)
      (normalize_hostname hyper_v_host.hostname false)
    ≡ false
unfolding contains_any contains normalize_hostname lower
no_server_name = refl

no_appliance :
    first_matching_identifier hyper_v_host.services network_appliance_identifier_keywords
      hyper_v_host.snmp_sys_descr
    ≡ none
unfolding first_matching_identifier contains_any contains lower
no_appliance = refl

named :
    contains_any hypervisor_hostname_keywords (normalize_hostname hyper_v_host.hostname false)
    ≡ true
unfolding contains_any contains normalize_hostname lower
named = refl

find_printer-select_example :
    (find_printer_port (lpd_service ∷ [])
      ≡ first_matching_port
          (service_ports (other_entries (lpd_service ∷ [])))
          printer_protocol_ports)
    × (find_printer_service (lpd_service ∷ [])
        ≡ first_matching_service
            (service_names (other_entries (lpd_service ∷ [])))
            printer_service_keywords
            false)
find_printer-select_example = find_printer-select (lpd_service ∷ [])

is_found-first_matching_identifier_example :
    is_found (first_matching_identifier (lpd_service ∷ []) (codes "axis" ∷ []) none)
    ≡ (any (entry_holds (codes "axis" ∷ [])) (lpd_service ∷ []) || holds (codes "axis" ∷ []) none)
is_found-first_matching_identifier_example =
    is_found-first_matching_identifier (lpd_service ∷ []) (codes "axis" ∷ []) none

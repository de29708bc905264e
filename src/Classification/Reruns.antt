-- ===== src/Classification/Reruns.antt =====
-- Classifying a device again.
use network_mapper.Prelude.{◌≡◌, refl, ap, List, All, ◌&◌}
use network_mapper.Prelude.Eq.{nat_eq, list_eq}
use network_mapper.Devices.{Device, DeviceType, RuleResult, set_device_type}
use network_mapper.Classification.Hosts.{
  windows_server_rule, server_hostname_rule, hypervisor_hostname_rule, windows_workstation_rule,
  dell_workstation_rule,
}
use network_mapper.Classification.Appliances.{
  network_appliance_rule, ubiquiti_access_point_rule, edge_router_rule, sonicwall_firewall_rule,
  sonicwall_by_hostname, pfsense_firewall_rule, find_guest_portal_identifier,
}
use network_mapper.Classification.Vendors.{
  camera_vendor_rule, voice_vendor_rule, match_by_hostname_and_signals, switch_vendor_rule,
  switch_by_hostname,
}
use network_mapper.Classification.Printers.{
  printer_vendor_rule, printer_by_networking, find_printer_networking,
  find_printer_vendor_identifier,
}
use network_mapper.Classification.Classifier.{run_rules, production_rules, classify_with, classify}
use network_mapper.Classification.Loop.{run_rules-set_device_type}

-- No rule reads the type that the device has.
production_rules-set_device_type :
    (d : Device) (t : DeviceType)
    → All (λ rule. rule (set_device_type t d) ≡ rule d) production_rules
unfolding production_rules server_hostname_rule network_appliance_rule hypervisor_hostname_rule
    ubiquiti_access_point_rule edge_router_rule sonicwall_firewall_rule sonicwall_by_hostname
    pfsense_firewall_rule voice_vendor_rule match_by_hostname_and_signals switch_vendor_rule
    switch_by_hostname camera_vendor_rule windows_server_rule printer_vendor_rule
    printer_by_networking find_printer_networking find_printer_vendor_identifier
    dell_workstation_rule windows_workstation_rule find_guest_portal_identifier
production_rules-set_device_type d t =
    refl & refl & refl & refl & refl & refl & refl & refl & refl & refl & refl & refl & refl & refl
    & tt

-- Classifying a device again changes neither the device nor the recorded results, and the type that
-- the device had before it was classified has no influence on either.
pub classify_idempotent :
    (d : Device) (t : DeviceType)
    → (classify (set_device_type t d) ≡ classify d) × (classify (classify d).0 ≡ classify d)
unfolding classify classify_with
classify_idempotent d t =
    let again : (s : DeviceType)
        → classify_with production_rules (set_device_type s d) ≡ classify_with production_rules d =
      λ s.
        ap (λ (o : DeviceType × List RuleResult). (set_device_type o.0 d, o.1))
          (run_rules-set_device_type production_rules d s (production_rules-set_device_type d s)) in
    (again t, again (run_rules production_rules d).0)

-- ===== src/Classification/Outcomes.antt =====
-- What the fourteen production rules return.
use network_mapper.Prelude.{◌≡◌, ◌⊎◌, refl, List, [], ◌∷◌, map, All, ◌&◌, arith}
use network_mapper.Devices.{Device, DeviceType, RuleResult, matching, declining}
use network_mapper.Classification.Hosts.{
  server_hostname_rule, hypervisor_hostname_rule, windows_server_rule, windows_workstation_rule,
  dell_workstation_rule,
}
use network_mapper.Classification.Appliances.{
  network_appliance_rule, ubiquiti_access_point_rule, edge_router_rule, sonicwall_firewall_rule,
  sonicwall_by_hostname, pfsense_firewall_rule,
}
use network_mapper.Classification.Vendors.{
  voice_vendor_rule, switch_by_hostname, switch_vendor_rule, camera_vendor_rule,
}
use network_mapper.Classification.Printers.{printer_by_networking, printer_vendor_rule}
use network_mapper.Classification.Classifier.{Rule, production_rules}

-- A result that matches with the type, or declines without a type.
abbrev pub IsOutcome : DeviceType → RuleResult → Type 0
IsOutcome type r = (r ≡ matching r.reason type) ⊎ (r ≡ declining r.reason)

server_hostname_rule-IsOutcome : (d : Device) → IsOutcome DeviceType.server (server_hostname_rule d)
unfolding server_hostname_rule
server_hostname_rule-IsOutcome d = ground arith

network_appliance_rule-IsOutcome :
    (d : Device) → IsOutcome DeviceType.server (network_appliance_rule d)
unfolding network_appliance_rule
network_appliance_rule-IsOutcome d = ground arith

hypervisor_hostname_rule-IsOutcome :
    (d : Device) → IsOutcome DeviceType.hypervisor (hypervisor_hostname_rule d)
unfolding hypervisor_hostname_rule
hypervisor_hostname_rule-IsOutcome d = ground arith

ubiquiti_access_point_rule-IsOutcome :
    (d : Device) → IsOutcome DeviceType.access_point (ubiquiti_access_point_rule d)
unfolding ubiquiti_access_point_rule
ubiquiti_access_point_rule-IsOutcome d = ground arith

edge_router_rule-IsOutcome : (d : Device) → IsOutcome DeviceType.router (edge_router_rule d)
unfolding edge_router_rule
edge_router_rule-IsOutcome d = ground arith

sonicwall_by_hostname-IsOutcome :
    (d : Device) → IsOutcome DeviceType.firewall (sonicwall_by_hostname d)
unfolding sonicwall_by_hostname
sonicwall_by_hostname-IsOutcome d = ground arith

sonicwall_firewall_rule-IsOutcome :
    (d : Device) → IsOutcome DeviceType.firewall (sonicwall_firewall_rule d)
unfolding sonicwall_firewall_rule
sonicwall_firewall_rule-IsOutcome d = ground (arith, sonicwall_by_hostname-IsOutcome d)

pfsense_firewall_rule-IsOutcome :
    (d : Device) → IsOutcome DeviceType.firewall (pfsense_firewall_rule d)
unfolding pfsense_firewall_rule
pfsense_firewall_rule-IsOutcome d = ground arith

voice_vendor_rule-IsOutcome : (d : Device) → IsOutcome DeviceType.phone (voice_vendor_rule d)
unfolding voice_vendor_rule
voice_vendor_rule-IsOutcome d = ground arith

switch_vendor_rule-IsOutcome : (d : Device) → IsOutcome DeviceType.switch (switch_vendor_rule d)
unfolding switch_vendor_rule switch_by_hostname
switch_vendor_rule-IsOutcome d = ground arith

camera_vendor_rule-IsOutcome : (d : Device) → IsOutcome DeviceType.camera (camera_vendor_rule d)
unfolding camera_vendor_rule
camera_vendor_rule-IsOutcome d = ground arith

windows_server_rule-IsOutcome : (d : Device) → IsOutcome DeviceType.server (windows_server_rule d)
unfolding windows_server_rule
windows_server_rule-IsOutcome d = ground arith

printer_vendor_rule-IsOutcome : (d : Device) → IsOutcome DeviceType.printer (printer_vendor_rule d)
unfolding printer_vendor_rule printer_by_networking
printer_vendor_rule-IsOutcome d = ground arith

dell_workstation_rule-IsOutcome :
    (d : Device) → IsOutcome DeviceType.workstation (dell_workstation_rule d)
unfolding dell_workstation_rule
dell_workstation_rule-IsOutcome d = ground arith

windows_workstation_rule-IsOutcome :
    (d : Device) → IsOutcome DeviceType.workstation (windows_workstation_rule d)
unfolding windows_workstation_rule
windows_workstation_rule-IsOutcome d = ground arith

-- The production rules with the one type that each may assign.
abbrev pub typed_rules : List (DeviceType × Rule)
unfolding server_hostname_rule
typed_rules =
    (DeviceType.server, server_hostname_rule)
    ∷ (DeviceType.server, network_appliance_rule)
    ∷ (DeviceType.hypervisor, hypervisor_hostname_rule)
    ∷ (DeviceType.access_point, ubiquiti_access_point_rule)
    ∷ (DeviceType.router, edge_router_rule)
    ∷ (DeviceType.firewall, sonicwall_firewall_rule)
    ∷ (DeviceType.firewall, pfsense_firewall_rule)
    ∷ (DeviceType.phone, voice_vendor_rule)
    ∷ (DeviceType.switch, switch_vendor_rule)
    ∷ (DeviceType.camera, camera_vendor_rule)
    ∷ (DeviceType.server, windows_server_rule)
    ∷ (DeviceType.printer, printer_vendor_rule)
    ∷ (DeviceType.workstation, dell_workstation_rule)
    ∷ (DeviceType.workstation, windows_workstation_rule)
    ∷ []

-- The rules of `typed_rules` are the production rules in order, and on every device each of them
-- returns either a match that suggests the type beside it or a declining result with no type, with
-- a confidence contribution of 0 both times.
pub production_rules-IsOutcome :
    (d : Device)
    → (map (λ p. p.1) typed_rules ≡ production_rules) × All (λ p. IsOutcome p.0 (p.1 d)) typed_rules
unfolding production_rules
production_rules-IsOutcome d = (
  refl,
  server_hostname_rule-IsOutcome d
      & network_appliance_rule-IsOutcome d
      & hypervisor_hostname_rule-IsOutcome d
      & ubiquiti_access_point_rule-IsOutcome d
      & edge_router_rule-IsOutcome d
      & sonicwall_firewall_rule-IsOutcome d
      & pfsense_firewall_rule-IsOutcome d
      & voice_vendor_rule-IsOutcome d
      & switch_vendor_rule-IsOutcome d
      & camera_vendor_rule-IsOutcome d
      & windows_server_rule-IsOutcome d
      & printer_vendor_rule-IsOutcome d
      & dell_workstation_rule-IsOutcome d
      & windows_workstation_rule-IsOutcome d
      & tt,
)

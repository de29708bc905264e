-- ===== src/Classification/Classifier.antt =====
-- networkmapper/classification/device_classifier.py: the ordered rule list and its loop.
use network_mapper.Prelude.{Option, none, some, List, [], ◌∷◌, if◌then◌else◌}
use network_mapper.Devices.{Device, DeviceType, RuleResult, set_device_type}
use network_mapper.Classification.Hosts.{
  server_hostname_rule, hypervisor_hostname_rule, windows_server_rule, windows_workstation_rule,
  dell_workstation_rule,
}
use network_mapper.Classification.Appliances.{
  network_appliance_rule, ubiquiti_access_point_rule, edge_router_rule, sonicwall_firewall_rule,
  pfsense_firewall_rule,
}
use network_mapper.Classification.Vendors.{
  voice_vendor_rule, switch_vendor_rule, camera_vendor_rule,
}
use network_mapper.Classification.Printers.{printer_vendor_rule}

-- `ClassificationRule.classify`, as `DeviceClassifier` uses it.
abbrev pub Rule : Type 0
Rule = Device → RuleResult

-- The `_rules` of `DeviceClassifier.__init__`, in order.
unfoldable pub production_rules : List Rule
unfolding server_hostname_rule network_appliance_rule
production_rules =
    server_hostname_rule ∷ network_appliance_rule ∷ hypervisor_hostname_rule
    ∷ ubiquiti_access_point_rule ∷ edge_router_rule ∷ sonicwall_firewall_rule
    ∷ pfsense_firewall_rule ∷ voice_vendor_rule ∷ switch_vendor_rule ∷ camera_vendor_rule
    ∷ windows_server_rule ∷ printer_vendor_rule ∷ dell_workstation_rule ∷ windows_workstation_rule
    ∷ []

-- The type that a result assigns when the test of the loop holds.
unfoldable pub decision : RuleResult → Option DeviceType
decision result = if result.matched then result.suggested_device_type else none

-- The loop of `classify`: the type that it assigns, and what it appends to `_last_rule_results`.
abbrev pub continue_with :
    Option DeviceType → RuleResult → DeviceType × List RuleResult → DeviceType × List RuleResult
continue_with (some type) result rest = (type, result ∷ [])
continue_with none result rest = (rest.0, result ∷ rest.1)

unfoldable pub run_rules : List Rule → Device → DeviceType × List RuleResult
unfolding decision
run_rules [] device = (DeviceType.unknown, [])
run_rules (rule ∷ rules) device =
    continue_with (decision (rule device)) (rule device) (run_rules rules device)

-- `DeviceClassifier.classify` with the rules of the classifier: the device, and the results that
-- `get_last_rule_results` returns afterwards.
unfoldable pub classify_with : List Rule → Device → Device × List RuleResult
unfolding run_rules
classify_with rules device =
    let outcome = run_rules rules device in (set_device_type outcome.0 device, outcome.1)

unfoldable pub classify : Device → Device × List RuleResult
unfolding classify_with production_rules
classify device = classify_with production_rules device

-- ===== src/Classification/Precedence.antt =====
-- What the order of the production rules guarantees for a device.
use network_mapper.Prelude.{
  ◌≡◌, ◌≢◌, inl, inr, ap, Bool, true, false, ◌&&◌, ◌||◌, none, some, List, [], ◌∷◌, map, length,
  All, All-append, All-before, All-after, ◌++◌, ◌&◌, arith, Bool-cases,
}
use network_mapper.Prelude.Eq.{nat_eq, list_eq, ◌==◌}
use network_mapper.Prelude.Text.{codes, contains}
use network_mapper.Devices.{Device, DeviceType, RuleResult}
use network_mapper.Classification.Evidence.{
  contains_any, normalize_vendor, normalize_hostname, normalize_operating_system,
  first_matching_identifier, is_found,
}
use network_mapper.Classification.Hosts.{
  windows_server_2022_build, windows_server_rule, windows_server_caption_keyword,
  server_hostname_rule, hypervisor_hostname_rule, hypervisor_hostname_keywords,
  server_hostname_keywords, windows_workstation_rule, dell_workstation_rule,
}
use network_mapper.Classification.Appliances.{
  network_appliance_rule, network_appliance_identifier_keywords, ubiquiti_access_point_rule,
  edge_router_rule, sonicwall_firewall_rule, pfsense_firewall_rule,
}
use network_mapper.Classification.Vendors.{
  camera_vendor_rule, supported_camera_vendor_keywords, camera_product_identifier_keywords,
  voice_vendor_rule, switch_vendor_rule,
}
use network_mapper.Classification.Printers.{printer_vendor_rule}
use network_mapper.Classification.Classifier.{
  Rule, decision, production_rules, classify_with, classify,
}
use network_mapper.Classification.Loop.{run_rules_first_match, run_rules-not, run_rules-not_after}
use network_mapper.Classification.Outcomes.{IsOutcome, production_rules-IsOutcome}

decision-ne : (s t : DeviceType) (r : RuleResult) → IsOutcome s r → s ≢ t → decision r ≢ some t
unfolding decision
decision-ne s t r (inl e) distinct =
    let decided : decision r ≡ some s = ap decision e in λ p. distinct (ground (arith, decided, p))
decision-ne s t r (inr e) distinct =
    let declined : decision r ≡ none = ap decision e in λ p. ground (arith, declined, p)

-- A rule of `typed_rules` never decides for a type other than the one beside it.
typed-ne :
    (d : Device) (t : DeviceType) (rules : List (DeviceType × Rule))
    → All (λ p. IsOutcome p.0 (p.1 d)) rules
    → All (λ p. p.0 ≢ t) rules
    → All (λ rule. decision (rule d) ≢ some t) (map (λ p. p.1) rules)
typed-ne d t [] outcomes distinct = tt
typed-ne d t ((s, rule) ∷ rules) outcomes distinct =
    decision-ne s t (rule d) outcomes.0 distinct.0 & typed-ne d t rules outcomes.1 distinct.1

-- The test of `WindowsServerRule`: a Windows Server caption or the build of Windows Server 2022.
abbrev pub is_windows_server : Device → Bool
is_windows_server d =
    contains windows_server_caption_keyword (normalize_operating_system d.operating_system)
    || normalize_operating_system d.operating_system == windows_server_2022_build

windows_server_rule-decides :
    (d : Device)
    → is_windows_server d ≡ true
    → decision (windows_server_rule d) ≡ some DeviceType.server
unfolding windows_server_rule decision
windows_server_rule-decides d h = ground arith

-- The production rules before `CameraVendorRule`.
abbrev before_camera : List (DeviceType × Rule)
before_camera =
    (DeviceType.server, server_hostname_rule)
    ∷ (DeviceType.server, network_appliance_rule)
    ∷ (DeviceType.hypervisor, hypervisor_hostname_rule)
    ∷ (DeviceType.access_point, ubiquiti_access_point_rule)
    ∷ (DeviceType.router, edge_router_rule)
    ∷ (DeviceType.firewall, sonicwall_firewall_rule)
    ∷ (DeviceType.firewall, pfsense_firewall_rule)
    ∷ (DeviceType.phone, voice_vendor_rule)
    ∷ (DeviceType.switch, switch_vendor_rule)
    ∷ []

-- The production rules before and after `WindowsServerRule`.
abbrev before_windows_server : List (DeviceType × Rule)
before_windows_server = before_camera ++ (DeviceType.camera, camera_vendor_rule) ∷ []

abbrev after_windows_server : List (DeviceType × Rule)
after_windows_server =
    (DeviceType.printer, printer_vendor_rule)
    ∷ (DeviceType.workstation, dell_workstation_rule)
    ∷ (DeviceType.workstation, windows_workstation_rule)
    ∷ []

classify-ne_after_windows_server :
    (d : Device) (t : DeviceType)
    → is_windows_server d ≡ true
    → DeviceType.server ≢ t
    → All (λ p. p.0 ≢ t) before_windows_server
    → (classify d).0.device_type ≢ t
unfolding classify classify_with production_rules
classify-ne_after_windows_server d t h server_ne distinct =
    run_rules-not_after (map (λ p. p.1) before_windows_server) windows_server_rule
      (map (λ p. p.1) after_windows_server) d t DeviceType.server
      (typed-ne d t before_windows_server
        (All-before (λ p. IsOutcome p.0 (p.1 d)) before_windows_server
          ((DeviceType.server, windows_server_rule) ∷ after_windows_server)
          (production_rules-IsOutcome d).1)
        distinct)
      (windows_server_rule-decides d h) server_ne

-- A device whose operating system has a Windows Server caption, or is the build of Windows Server
-- 2022, is never classified as a printer or as a workstation, whatever its vendor, host name and
-- services are.
pub classify-windows_server :
    (d : Device)
    → is_windows_server d ≡ true
    → ((classify d).0.device_type ≢ DeviceType.printer)
      × ((classify d).0.device_type ≢ DeviceType.workstation)
classify-windows_server d h = (
  classify-ne_after_windows_server d DeviceType.printer h (λ p. cc)
      ((λ p. cc)
        & (λ p. cc)
        & (λ p. cc)
        & (λ p. cc)
        & (λ p. cc)
        & (λ p. cc)
        & (λ p. cc)
        & (λ p. cc)
        & (λ p. cc)
        & (λ p. cc)
        & tt),
  classify-ne_after_windows_server d DeviceType.workstation h (λ p. cc)
      ((λ p. cc)
        & (λ p. cc)
        & (λ p. cc)
        & (λ p. cc)
        & (λ p. cc)
        & (λ p. cc)
        & (λ p. cc)
        & (λ p. cc)
        & (λ p. cc)
        & (λ p. cc)
        & tt),
)

-- A camera vendor, and a service or an SNMP description that names the camera product.
abbrev pub has_camera_evidence : Device → Bool
has_camera_evidence d =
    contains_any supported_camera_vendor_keywords (normalize_vendor d.vendor true)
    && is_found
        (first_matching_identifier d.services camera_product_identifier_keywords d.snmp_sys_descr)

camera_vendor_rule-declines :
    (d : Device)
    → has_camera_evidence d ≡ false
    → decision (camera_vendor_rule d) ≢ some DeviceType.camera
unfolding camera_vendor_rule decision
camera_vendor_rule-declines d h = ground arith

-- A device is classified as a camera only if its vendor names a camera vendor and also a service or
-- the SNMP description names the camera product: neither is enough alone.
pub classify-camera :
    (d : Device) → (classify d).0.device_type ≡ DeviceType.camera → has_camera_evidence d ≡ true
unfolding classify classify_with production_rules
classify-camera d h =
    let outcomes = (production_rules-IsOutcome d).1 in
    let after = (DeviceType.server, windows_server_rule) ∷ after_windows_server in
    let rest = (DeviceType.camera, camera_vendor_rule) ∷ after in
    let before = All-before (λ p. IsOutcome p.0 (p.1 d)) before_camera rest outcomes in
    let later = (All-after (λ p. IsOutcome p.0 (p.1 d)) before_camera rest outcomes).1 in
    elim (Bool-cases (has_camera_evidence d)) [
      | inl e ↦ e
      | inr e ↦ absurd (
          run_rules-not production_rules d DeviceType.camera (λ p. cc)
            (All-append (λ rule. decision (rule d) ≢ some DeviceType.camera)
              (map (λ p. p.1) before_camera) (map (λ p. p.1) rest)
              (typed-ne d DeviceType.camera before_camera before (
                (λ p. cc)
                & (λ p. cc)
                & (λ p. cc)
                & (λ p. cc)
                & (λ p. cc)
                & (λ p. cc)
                & (λ p. cc)
                & (λ p. cc)
                & (λ p. cc)
                & tt))
              (camera_vendor_rule-declines d e
                & typed-ne d DeviceType.camera after later
                    ((λ p. cc) & (λ p. cc) & (λ p. cc) & (λ p. cc) & tt)))
            h)
    ]

abbrev after_hypervisor : List Rule
after_hypervisor =
    ubiquiti_access_point_rule
    ∷ edge_router_rule
    ∷ sonicwall_firewall_rule
    ∷ pfsense_firewall_rule
    ∷ voice_vendor_rule
    ∷ switch_vendor_rule
    ∷ camera_vendor_rule
    ∷ windows_server_rule
    ∷ map (λ p. p.1) after_windows_server

server_hostname_rule-declines :
    (d : Device)
    → contains_any
        (codes "dc" ∷ codes "cam" ∷ server_hostname_keywords)
        (normalize_hostname d.hostname false)
      ≡ false
    → decision (server_hostname_rule d) ≡ none
unfolding server_hostname_rule decision contains_any
server_hostname_rule-declines d h = ground arith

network_appliance_rule-declines :
    (d : Device)
    → first_matching_identifier d.services network_appliance_identifier_keywords d.snmp_sys_descr
      ≡ none
    → decision (network_appliance_rule d) ≡ none
unfolding network_appliance_rule decision
network_appliance_rule-declines d h = ground arith

hypervisor_hostname_rule-decides :
    (d : Device)
    → contains_any hypervisor_hostname_keywords (normalize_hostname d.hostname false) ≡ true
    → decision (hypervisor_hostname_rule d) ≡ some DeviceType.hypervisor
unfolding hypervisor_hostname_rule decision
hypervisor_hostname_rule-decides d h = ground arith

-- When none of `dc`, `cam`, `srv` and `server` is in the host name, no evidence names a ReadyNAS, and
-- the host name has a hypervisor keyword, the device is classified as a hypervisor and three results
-- are recorded, whatever its operating system, vendor and other evidence are.
pub classify-hypervisor :
    (d : Device)
    → contains_any
        (codes "dc" ∷ codes "cam" ∷ server_hostname_keywords)
        (normalize_hostname d.hostname false)
      ≡ false
    → first_matching_identifier d.services network_appliance_identifier_keywords d.snmp_sys_descr
      ≡ none
    → contains_any hypervisor_hostname_keywords (normalize_hostname d.hostname false) ≡ true
    → ((classify d).0.device_type ≡ DeviceType.hypervisor) × (length (classify d).1 ≡ 3)
unfolding classify classify_with production_rules
classify-hypervisor d no_server no_appliance named =
    let run =
      run_rules_first_match (server_hostname_rule ∷ network_appliance_rule ∷ [])
        hypervisor_hostname_rule after_hypervisor d DeviceType.hypervisor
        (server_hostname_rule-declines d no_server
          & network_appliance_rule-declines d no_appliance
          & tt)
        (hypervisor_hostname_rule-decides d named) in
    (ap (λ o. o.0) run, ap (λ o. length o.1) run)

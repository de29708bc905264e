-- ===== src/Classification/Hosts.antt =====
-- networkmapper/classification/rules: the rules that read the host name and the operating system,
-- and the Dell rule.
use network_mapper.Prelude.{
  ℕ, Bool, true, false, ◌&&◌, ◌||◌, not, Option, none, some, List, [], ◌∷◌, ◌++◌, if◌then◌else◌,
}
use network_mapper.Prelude.Text.{Text, codes, contains, is_filled}
use network_mapper.Prelude.Eq.{nat_eq, list_eq, ◌==◌}
use network_mapper.Devices.{
  Device, DeviceType, Reason, Piece, lit, repr, RuleResult, matching, declining,
}
use network_mapper.Classification.Evidence.{
  service_ports, service_names, contains_any, first_matching_identifier, normalize_vendor,
  normalize_hostname, normalize_operating_system, first_matching_port, first_matching_service,
  format_hostname_evidence_reason, is_found,
}

abbrev pub server_hostname_keywords : List Text
server_hostname_keywords = codes "srv" ∷ codes "server" ∷ []

abbrev pub server_operating_system_keywords : List Text
server_operating_system_keywords = codes "server" ∷ []

-- The sentence that a rule adds when the operating system corroborates.
abbrev server_corroboration : Bool → Option Text → Reason
server_corroboration true raw_operating_system =
    lit " Detected operating system "
    ∷ repr raw_operating_system
    ∷ lit " corroborates known server evidence."
    ∷ []
server_corroboration false raw_operating_system = []

-- `ServerHostnameRule.classify`
unfoldable pub server_hostname_rule : Device → RuleResult
unfolding normalize_hostname normalize_operating_system contains_any
server_hostname_rule device =
    let raw_hostname = device.hostname in
    let hostname = normalize_hostname raw_hostname false in
    let raw_operating_system = device.operating_system in
    let operating_system = normalize_operating_system raw_operating_system in
    let corroborates =
      is_filled operating_system
      && contains_any server_operating_system_keywords operating_system in
    if contains (codes "dc") hostname || contains (codes "cam") hostname
    then matching
        ((lit "Hostname " ∷ repr raw_hostname ∷ lit " matched known server naming convention." ∷ [])
          ++ server_corroboration corroborates raw_operating_system)
        DeviceType.server
    else if contains_any server_hostname_keywords hostname
    then matching
        ((lit "Hostname " ∷ repr raw_hostname ∷ lit " matched known server naming pattern." ∷ [])
          ++ server_corroboration corroborates raw_operating_system)
        DeviceType.server
    else declining (
        lit "Hostname "
        ∷ repr raw_hostname
        ∷ lit " did not match known server naming patterns."
        ∷ [])

abbrev pub hypervisor_hostname_keywords : List Text
hypervisor_hostname_keywords =
    codes "esx"
    ∷ codes "esxi"
    ∷ codes "hyperv"
    ∷ codes "vcenter"
    ∷ codes "vmhost"
    ∷ codes "vsh"
    ∷ []

abbrev pub hypervisor_corroborating_ports : List ℕ
hypervisor_corroborating_ports = 443 ∷ 3389 ∷ []

abbrev pub hypervisor_corroborating_services : List Text
hypervisor_corroborating_services = codes "https" ∷ codes "ms-wbt-server" ∷ []

abbrev pub hypervisor_product_keywords : List Text
hypervisor_product_keywords = codes "vmware" ∷ []

abbrev pub hypervisor_operating_system_keywords : List Text
hypervisor_operating_system_keywords = codes "windows server" ∷ []

abbrev hypervisor_identifier_reason : Option (Piece × Text) → Reason
hypervisor_identifier_reason none = []
hypervisor_identifier_reason (some (label, value)) =
    lit " Detected "
    ∷ label
    ∷ lit " "
    ∷ repr (some value)
    ∷ lit " matched known hypervisor product identifier."
    ∷ []

abbrev hypervisor_system_reason : Bool → Option Text → Reason
hypervisor_system_reason true raw_operating_system =
    lit " Detected operating system "
    ∷ repr raw_operating_system
    ∷ lit " matched known hypervisor operating system indicator."
    ∷ []
hypervisor_system_reason false raw_operating_system = []

-- `HypervisorHostnameRule.classify`
unfoldable pub hypervisor_hostname_rule : Device → RuleResult
unfolding normalize_hostname normalize_operating_system contains_any service_ports service_names
    first_matching_port first_matching_service first_matching_identifier
    format_hostname_evidence_reason
hypervisor_hostname_rule device =
    let raw_hostname = device.hostname in
    let hostname = normalize_hostname raw_hostname false in
    if not (contains_any hypervisor_hostname_keywords hostname)
    then declining (
        lit "Hostname "
        ∷ repr raw_hostname
        ∷ lit " did not match known hypervisor naming conventions."
        ∷ [])
    else let matched_port =
        first_matching_port (service_ports device.services) hypervisor_corroborating_ports in
      let matched_service =
        first_matching_service (service_names device.services) hypervisor_corroborating_services
          true in
      let matched_identifier =
        first_matching_identifier device.services hypervisor_product_keywords
          device.snmp_sys_descr in
      let raw_operating_system = device.operating_system in
      let operating_system = normalize_operating_system raw_operating_system in
      let system_matched = contains_any hypervisor_operating_system_keywords operating_system in
      let reason : Reason =
        if is_found matched_port || is_found matched_service
        then format_hostname_evidence_reason raw_hostname matched_port matched_service
            (lit "hypervisor")
        else lit "Hostname "
          ∷ repr raw_hostname
          ∷ lit " matched known hypervisor naming convention."
          ∷ [] in
      matching
        (reason
          ++ hypervisor_identifier_reason matched_identifier
          ++ hypervisor_system_reason system_matched raw_operating_system)
        DeviceType.hypervisor

abbrev pub windows_server_caption_keyword : Text
windows_server_caption_keyword = codes "windows server"

abbrev pub windows_server_2022_build : Text
windows_server_2022_build = codes "10.0.20348"

-- `WindowsServerRule.classify`
unfoldable pub windows_server_rule : Device → RuleResult
unfolding normalize_operating_system contains
windows_server_rule device =
    let raw_operating_system = device.operating_system in
    let operating_system = normalize_operating_system raw_operating_system in
    if contains windows_server_caption_keyword operating_system
    then matching
        (lit "Operating system "
          ∷ repr raw_operating_system
          ∷ lit " matched known Windows Server caption."
          ∷ [])
        DeviceType.server
    else if operating_system == windows_server_2022_build
    then matching
        (lit "Operating system build "
          ∷ repr raw_operating_system
          ∷ lit " matched the unambiguous Windows Server 2022 build number."
          ∷ [])
        DeviceType.server
    else declining (
        lit "Operating system "
        ∷ repr raw_operating_system
        ∷ lit " did not match known high-confidence Windows Server evidence."
        ∷ [])

abbrev pub windows_client_edition_keywords : List Text
windows_client_edition_keywords =
    codes "enterprise"
    ∷ codes "professional"
    ∷ codes "windows 10 home"
    ∷ codes "windows 11 home"
    ∷ []

-- `WindowsWorkstationRule.classify`
unfoldable pub windows_workstation_rule : Device → RuleResult
unfolding normalize_operating_system contains_any
windows_workstation_rule device =
    let raw_operating_system = device.operating_system in
    let operating_system = normalize_operating_system raw_operating_system in
    if contains_any windows_client_edition_keywords operating_system
    then matching
        (lit "Operating system "
          ∷ repr raw_operating_system
          ∷ lit " matched known Windows client edition caption."
          ∷ [])
        DeviceType.workstation
    else declining (
        lit "Operating system "
        ∷ repr raw_operating_system
        ∷ lit " did not match known Windows client edition evidence."
        ∷ [])

abbrev pub dell_workstation_hostname_keywords : List Text
dell_workstation_hostname_keywords =
    codes "optiplex"
    ∷ codes "latitude"
    ∷ codes "precision"
    ∷ codes "xps"
    ∷ codes "vostro"
    ∷ codes "inspiron"
    ∷ []

-- `DellWorkstationRule.classify`
unfoldable pub dell_workstation_rule : Device → RuleResult
unfolding normalize_vendor normalize_hostname contains_any
dell_workstation_rule device =
    let raw_vendor = device.vendor in
    let raw_hostname = device.hostname in
    let vendor = normalize_vendor raw_vendor false in
    let hostname = normalize_hostname raw_hostname false in
    if contains (codes "dell") vendor
    then matching (lit "Vendor " ∷ repr raw_vendor ∷ lit " matched known workstation vendor." ∷ [])
        DeviceType.workstation
    else if contains_any dell_workstation_hostname_keywords hostname
    then matching
        (lit "Hostname "
          ∷ repr raw_hostname
          ∷ lit " matched known Dell workstation naming pattern."
          ∷ [])
        DeviceType.workstation
    else declining (
        lit "Vendor "
        ∷ repr raw_vendor
        ∷ lit " and hostname "
        ∷ repr raw_hostname
        ∷ lit " did not match known workstation indicators."
        ∷ [])

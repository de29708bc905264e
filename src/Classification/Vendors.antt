-- ===== src/Classification/Vendors.antt =====
-- networkmapper/classification/rules: the rules for phones, switches and cameras.
use network_mapper.Prelude.{
  ℕ, true, false, ◌&&◌, ◌||◌, not, Option, none, some, List, [], ◌∷◌, ◌++◌, if◌then◌else◌,
}
use network_mapper.Prelude.Text.{Text, codes, contains, is_filled}
use network_mapper.Prelude.Eq.{nat_eq, list_eq}
use network_mapper.Devices.{Device, DeviceType, Reason, lit, repr, RuleResult, matching, declining}
use network_mapper.Classification.Evidence.{
  service_ports, service_names, contains_any, first_matching_product, first_matching_identifier,
  normalize_vendor, normalize_hostname, first_matching_port, first_matching_service,
  format_hostname_evidence_reason, is_found,
}
use network_mapper.Classification.Appliances.{detected, by_identifier}

abbrev pub supported_voice_vendor_keywords : List Text
supported_voice_vendor_keywords =
    codes "yealink"
    ∷ codes "poly"
    ∷ codes "polycom"
    ∷ codes "grandstream"
    ∷ codes "mitel"
    ∷ codes "avaya"
    ∷ codes "cisco ip phone"
    ∷ []

abbrev pub voice_hostname_keywords : List Text
voice_hostname_keywords = codes "phone" ∷ codes "voip" ∷ codes "handset" ∷ []

abbrev pub voice_signal_ports : List ℕ
voice_signal_ports = 5060 ∷ 5061 ∷ []

abbrev pub voice_signal_services : List Text
voice_signal_services = codes "sip" ∷ codes "sips" ∷ []

-- `VoiceVendorRule._match_by_hostname_and_signals`
unfoldable pub match_by_hostname_and_signals : Option Text → Text → Device → RuleResult
unfolding contains_any first_matching_port first_matching_service service_ports service_names
    format_hostname_evidence_reason
match_by_hostname_and_signals raw_hostname hostname device =
    let missing =
      declining
        (lit "Vendor " ∷ repr device.vendor ∷ lit " is not a known voice device vendor." ∷ []) in
    if not (contains_any voice_hostname_keywords hostname)
    then missing
    else let matched_port =
        first_matching_port (service_ports device.services) voice_signal_ports in
      let matched_service =
        first_matching_service (service_names device.services) voice_signal_services false in
      if not (is_found matched_port) && not (is_found matched_service)
      then missing
      else matching
          (format_hostname_evidence_reason raw_hostname matched_port matched_service
            (lit "voice device"))
          DeviceType.phone

-- `VoiceVendorRule.classify`
unfoldable pub voice_vendor_rule : Device → RuleResult
unfolding normalize_vendor normalize_hostname contains_any match_by_hostname_and_signals
voice_vendor_rule device =
    let raw_vendor = device.vendor in
    let raw_hostname = device.hostname in
    let vendor = normalize_vendor raw_vendor true in
    let hostname = normalize_hostname raw_hostname true in
    if not (is_filled vendor)
    then match_by_hostname_and_signals raw_hostname hostname device
    else if contains_any supported_voice_vendor_keywords vendor
    then matching (lit "Vendor " ∷ repr raw_vendor ∷ lit " matched known voice device vendor." ∷ [])
        DeviceType.phone
    else match_by_hostname_and_signals raw_hostname hostname device

abbrev pub switch_hostname_hints : List Text
switch_hostname_hints =
    codes "switch" ∷ codes "sw-" ∷ codes "core-sw" ∷ codes "dist-sw" ∷ codes "access-sw" ∷ []

abbrev pub switch_management_ports : List ℕ
switch_management_ports = 22 ∷ 23 ∷ 161 ∷ []

abbrev pub switch_management_services : List Text
switch_management_services = codes "ssh" ∷ codes "telnet" ∷ codes "snmp" ∷ []

abbrev pub switch_product_keywords : List Text
switch_product_keywords = codes "cisco" ∷ []

abbrev pub switch_identifier_keywords : List Text
switch_identifier_keywords = codes "procurve" ∷ codes "edgeswitch" ∷ codes "tp-link switch" ∷ []

abbrev switch_product_reason : Option Text → Reason
switch_product_reason none = []
switch_product_reason (some product) =
    lit " Detected service product "
    ∷ repr (some product)
    ∷ lit " matched known Cisco product identifier."
    ∷ []

-- The end of `SwitchVendorRule.classify`, on host name and management signal.
unfoldable pub switch_by_hostname : Device → RuleResult
unfolding normalize_hostname contains_any first_matching_port first_matching_service service_ports
    service_names first_matching_product format_hostname_evidence_reason
switch_by_hostname device =
    let hostname = normalize_hostname device.hostname false in
    let matched_port =
      first_matching_port (service_ports device.services) switch_management_ports in
    let matched_service =
      first_matching_service (service_names device.services) switch_management_services true in
    let matched_product = first_matching_product device.services switch_product_keywords in
    if contains_any switch_hostname_hints hostname
      && (is_found matched_port || is_found matched_service)
    then matching
        (format_hostname_evidence_reason device.hostname matched_port matched_service
            (lit "switch management")
          ++ switch_product_reason matched_product)
        DeviceType.switch
    else declining (lit "Vendor " ∷ repr device.vendor ∷ lit " is not a known switch vendor." ∷ [])

-- `SwitchVendorRule.classify`
unfoldable pub switch_vendor_rule : Device → RuleResult
unfolding normalize_vendor contains first_matching_identifier switch_by_hostname
switch_vendor_rule device =
    let vendor = normalize_vendor device.vendor false in
    if contains (codes "cisco") vendor && not (contains (codes "meraki") vendor)
    then matching (lit "Vendor " ∷ repr device.vendor ∷ lit " matched known switch vendor." ∷ [])
        DeviceType.switch
    else by_identifier
        (first_matching_identifier device.services switch_identifier_keywords device.snmp_sys_descr)
        (λ label value.
          matching (detected label value (lit " matched known switch identifier."))
            DeviceType.switch)
        (switch_by_hostname device)

abbrev pub supported_camera_vendor_keywords : List Text
supported_camera_vendor_keywords = codes "axis communications" ∷ []

abbrev pub camera_product_identifier_keywords : List Text
camera_product_identifier_keywords = codes "axis camera station" ∷ []

-- `CameraVendorRule.classify`
unfoldable pub camera_vendor_rule : Device → RuleResult
unfolding normalize_vendor contains_any first_matching_identifier
camera_vendor_rule device =
    let raw_vendor = device.vendor in
    let vendor = normalize_vendor raw_vendor true in
    let vendor_matched = is_filled vendor && contains_any supported_camera_vendor_keywords vendor in
    if not vendor_matched
    then declining (lit "Vendor " ∷ repr raw_vendor ∷ lit " is not a known camera vendor." ∷ [])
    else by_identifier
        (first_matching_identifier device.services camera_product_identifier_keywords
          device.snmp_sys_descr)
        (λ label value.
          matching
            (lit "Vendor "
              ∷ repr raw_vendor
              ∷ lit " matched known camera vendor, and detected "
              ∷ label
              ∷ lit " "
              ∷ repr (some value)
              ∷ lit " matched known camera/video product evidence."
              ∷ [])
            DeviceType.camera)
        (declining (
          lit "Vendor "
          ∷ repr raw_vendor
          ∷ lit
              " matched known camera vendor, but no camera/video-specific product evidence was detected."
          ∷ []))

-- ===== src/Classification/Appliances.antt =====
-- networkmapper/classification/rules: the rules for network appliances, access points, routers and
-- firewalls.
use network_mapper.Prelude.{
  ℕ, Bool, true, false, ◌&&◌, ◌||◌, not, Option, none, some, List, [], ◌∷◌, ◌++◌, map, any,
  if◌then◌else◌,
}
use network_mapper.Prelude.Text.{Text, codes, strip, contains, starts_with, is_filled, or_empty}
use network_mapper.Prelude.Eq.{nat_eq, list_eq, ◌==◌, elem}
use network_mapper.Devices.{
  Device, DeviceType, Reason, Piece, lit, repr, RuleResult, matching, declining,
}
use network_mapper.Classification.Evidence.{
  service_ports, service_names, service_http_titles, contains_any, first_containing,
  first_matching_identifier, normalize_vendor, normalize_hostname, first_matching_port,
  first_matching_service, format_hostname_evidence_reason, is_found,
}

abbrev pub network_appliance_identifier_keywords : List Text
network_appliance_identifier_keywords = codes "readynas" ∷ []

abbrev pub network_appliance_vendor_keywords : List Text
network_appliance_vendor_keywords = codes "netgear" ∷ []

abbrev pub network_appliance_hostname_hints : List Text
network_appliance_hostname_hints = codes "nas" ∷ []

-- `Detected {label} {value!r}` and the end of the sentence.
abbrev pub detected : Piece → Text → Piece → Reason
detected label value end = lit "Detected " ∷ label ∷ lit " " ∷ repr (some value) ∷ end ∷ []

-- A rule whose only evidence is an identifier.
abbrev pub by_identifier :
    Option (Piece × Text) → (Piece → Text → RuleResult) → RuleResult → RuleResult
by_identifier none found missing = missing
by_identifier (some (label, value)) found missing = found label value

-- `NetworkApplianceRule.classify`
unfoldable pub network_appliance_rule : Device → RuleResult
unfolding first_matching_identifier normalize_vendor normalize_hostname contains_any
network_appliance_rule device =
    by_identifier
      (first_matching_identifier device.services network_appliance_identifier_keywords
        device.snmp_sys_descr)
      (λ label value.
        let raw_vendor = device.vendor in
        let vendor = normalize_vendor raw_vendor true in
        let raw_hostname = device.hostname in
        let hostname = normalize_hostname raw_hostname true in
        let vendor_reason : Reason =
          if is_filled vendor && contains_any network_appliance_vendor_keywords vendor
          then lit " Vendor "
            ∷ repr raw_vendor
            ∷ lit " corroborates known NAS/network appliance vendor."
            ∷ []
          else [] in
        let hostname_reason : Reason =
          if is_filled hostname && contains_any network_appliance_hostname_hints hostname
          then lit " Hostname "
            ∷ repr raw_hostname
            ∷ lit " corroborates known NAS naming convention."
            ∷ []
          else [] in
        matching
          (detected label value (lit " matched known NAS/network appliance identifier.")
            ++ vendor_reason
            ++ hostname_reason)
          DeviceType.server)
      (declining (lit "No known NAS/network appliance identifier evidence was detected." ∷ []))

abbrev pub ubiquiti_ap_hostname_keywords : List Text
ubiquiti_ap_hostname_keywords =
    codes "nanohd" ∷ codes "ac-pro" ∷ codes "ac-lr" ∷ codes "unifi-ap" ∷ []

abbrev pub unifi_guest_portal_title_keywords : List Text
unifi_guest_portal_title_keywords = codes "guest/s/default" ∷ []

-- `s.split("-", 1)[0]`
unfoldable pub before_dash : Text → Text
before_dash [] = []
before_dash (c ∷ s) = if c == b'-' then [] else c ∷ before_dash s

-- `_find_guest_portal_identifier`
unfoldable pub find_guest_portal_identifier : Device → Option Text
unfolding service_http_titles first_containing
find_guest_portal_identifier device =
    first_containing (map some (service_http_titles device.services))
      unifi_guest_portal_title_keywords

-- `UbiquitiAccessPointRule._not_matched`
abbrev not_matched : Option Text → Option Text → RuleResult
not_matched raw_vendor raw_hostname = declining (
    lit "Vendor "
    ∷ repr raw_vendor
    ∷ lit " and hostname "
    ∷ repr raw_hostname
    ∷ lit " did not match known wireless infrastructure vendor patterns."
    ∷ [])

abbrev vendor_and_hostname : Option Text → Option Text → Piece → RuleResult
vendor_and_hostname raw_vendor raw_hostname end =
    matching (lit "Vendor " ∷ repr raw_vendor ∷ lit " and hostname " ∷ repr raw_hostname ∷ end ∷ [])
      DeviceType.access_point

-- The end of `UbiquitiAccessPointRule.classify`, on the guest-portal title.
abbrev by_title : Option Text → Option Text → Option Text → RuleResult
by_title none raw_vendor raw_hostname = not_matched raw_vendor raw_hostname
by_title (some title) raw_vendor raw_hostname =
    matching
      (lit "Vendor "
        ∷ repr raw_vendor
        ∷ lit " and HTTP title "
        ∷ repr (some title)
        ∷ lit " matched known UniFi guest-portal captive-redirect evidence."
        ∷ [])
      DeviceType.access_point

-- `UbiquitiAccessPointRule.classify`
unfoldable pub ubiquiti_access_point_rule : Device → RuleResult
unfolding normalize_vendor normalize_hostname contains_any before_dash find_guest_portal_identifier
ubiquiti_access_point_rule device =
    let raw_vendor = device.vendor in
    let raw_hostname = device.hostname in
    let vendor = normalize_vendor raw_vendor false in
    let hostname = strip (or_empty raw_hostname) in
    let hostname_normalized = normalize_hostname raw_hostname true in
    if not (vendor == codes "ubiquiti")
    then not_matched raw_vendor raw_hostname
    else if is_filled hostname
        && elem (before_dash hostname_normalized) (codes "uap" ∷ codes "u6" ∷ codes "u7" ∷ [])
    then vendor_and_hostname raw_vendor raw_hostname
        (lit " matched known wireless infrastructure vendor.")
    else if is_filled hostname && contains_any ubiquiti_ap_hostname_keywords hostname_normalized
    then vendor_and_hostname raw_vendor raw_hostname
        (lit " matched known wireless access point naming patterns.")
    else by_title (find_guest_portal_identifier device) raw_vendor raw_hostname

abbrev pub edge_router_identifier_keywords : List Text
edge_router_identifier_keywords = codes "edgeos" ∷ codes "ubiquitirouterui" ∷ []

-- `EdgeRouterRule.classify`
unfoldable pub edge_router_rule : Device → RuleResult
unfolding first_matching_identifier
edge_router_rule device =
    by_identifier
      (first_matching_identifier device.services edge_router_identifier_keywords
        device.snmp_sys_descr)
      (λ label value.
        matching (detected label value (lit " matched known EdgeOS router identifier."))
          DeviceType.router)
      (declining (lit "No known EdgeOS router identifier evidence was detected." ∷ []))

abbrev pub pfsense_identifier_keywords : List Text
pfsense_identifier_keywords = codes "pfsense" ∷ []

-- `PfSenseFirewallRule.classify`
unfoldable pub pfsense_firewall_rule : Device → RuleResult
unfolding first_matching_identifier
pfsense_firewall_rule device =
    by_identifier
      (first_matching_identifier device.services pfsense_identifier_keywords device.snmp_sys_descr)
      (λ label value.
        matching (detected label value (lit " matched known pfSense firewall identifier."))
          DeviceType.firewall)
      (declining (lit "No known pfSense firewall identifier evidence was detected." ∷ []))

abbrev pub firewall_management_ports : List ℕ
firewall_management_ports = 443 ∷ 8443 ∷ []

abbrev pub firewall_management_services : List Text
firewall_management_services = codes "https" ∷ codes "ssl/http" ∷ []

abbrev pub firewall_identifier_keywords : List Text
firewall_identifier_keywords = codes "sonicwall" ∷ []

-- `hostname_looks_like_sonicwall`
unfoldable pub hostname_looks_like_sonicwall : Text → Bool
unfolding contains starts_with
hostname_looks_like_sonicwall hostname =
    contains (codes "sonicwall") hostname
    || any (λ prefix. starts_with prefix hostname) (codes "tz" ∷ codes "nsa" ∷ codes "soho" ∷ [])

-- The end of `SonicWallFirewallRule.classify`, on host name and management signal.
unfoldable pub sonicwall_by_hostname : Device → RuleResult
unfolding normalize_hostname first_matching_port first_matching_service service_ports service_names
    hostname_looks_like_sonicwall format_hostname_evidence_reason
sonicwall_by_hostname device =
    let hostname = normalize_hostname device.hostname true in
    let matched_port =
      first_matching_port (service_ports device.services) firewall_management_ports in
    let matched_service =
      first_matching_service (service_names device.services) firewall_management_services true in
    if hostname_looks_like_sonicwall hostname && (is_found matched_port || is_found matched_service)
    then matching
        (format_hostname_evidence_reason device.hostname matched_port matched_service
          (lit "firewall management"))
        DeviceType.firewall
    else declining
        (lit "Vendor " ∷ repr device.vendor ∷ lit " is not a known firewall vendor." ∷ [])

-- `SonicWallFirewallRule.classify`
unfoldable pub sonicwall_firewall_rule : Device → RuleResult
unfolding normalize_vendor first_matching_identifier sonicwall_by_hostname
sonicwall_firewall_rule device =
    let vendor = normalize_vendor device.vendor true in
    if vendor == codes "sonicwall"
    then matching (lit "Vendor " ∷ repr device.vendor ∷ lit " matched known firewall vendor." ∷ [])
        DeviceType.firewall
    else by_identifier
        (first_matching_identifier device.services firewall_identifier_keywords
          device.snmp_sys_descr)
        (λ label value.
          matching (detected label value (lit " matched known firewall vendor identifier."))
            DeviceType.firewall)
        (sonicwall_by_hostname device)

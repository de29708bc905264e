-- ===== src/Classification/Printers.antt =====
-- networkmapper/classification/rules/printer_vendor_rule.py: printers by vendor, by identifier and by
-- printer protocols, without the evidence of Microsoft print spoolers.
use network_mapper.Prelude.{
  ℕ, Bool, true, false, ◌&&◌, ◌||◌, not, Option, none, some, List, [], ◌∷◌, map, if◌then◌else◌,
}
use network_mapper.Prelude.Text.{
  Text, codes, lower, upper, strip, contains, starts_with, is_filled, or_empty,
}
use network_mapper.Prelude.Eq.{nat_eq, list_eq, ◌==◌, elem}
use network_mapper.Devices.{
  Device, ServiceEvidence, DeviceType, Reason, Piece, lit, repr, digits, word, RuleResult, matching,
  declining,
}
use network_mapper.Classification.Evidence.{
  contains_any, first_matching_identifier, normalize_vendor, is_found,
}
use network_mapper.Classification.Appliances.{detected, by_identifier}

abbrev pub supported_printer_vendor_keywords : List Text
supported_printer_vendor_keywords =
    codes "brother"
    ∷ codes "hp"
    ∷ codes "hewlett-packard"
    ∷ codes "hewlett packard"
    ∷ codes "canon"
    ∷ codes "ricoh"
    ∷ codes "konica minolta"
    ∷ codes "epson"
    ∷ codes "xerox"
    ∷ codes "lexmark"
    ∷ codes "kyocera"
    ∷ codes "sharp"
    ∷ codes "toshiba"
    ∷ codes "zebra"
    ∷ codes "datamax"
    ∷ codes "fujifilm business innovation"
    ∷ []

abbrev pub printer_protocol_ports : List ℕ
printer_protocol_ports = 515 ∷ 631 ∷ 9100 ∷ []

abbrev pub printer_service_keywords : List Text
printer_service_keywords =
    codes "ipp"
    ∷ codes "ipps"
    ∷ codes "jetdirect"
    ∷ codes "lpd"
    ∷ codes "printer"
    ∷ codes "raw"
    ∷ codes "pdl-datastream"
    ∷ []

abbrev pub redirect_notice_prefix : Text
redirect_notice_prefix = codes "did not follow redirect"

-- The test of `_without_redirect_notice_titles` on an entry's `http_title`.
unfoldable pub is_redirect_notice : Option Text → Bool
unfolding lower strip starts_with
is_redirect_notice none = false
is_redirect_notice (some title) =
    is_filled title && starts_with redirect_notice_prefix (lower (strip title))

-- `dataclasses.replace(entry, http_title=None)`
abbrev pub without_title : ServiceEvidence → ServiceEvidence
without_title entry = record {
  port = entry.port;
  protocol = entry.protocol;
  service = entry.service;
  product = entry.product;
  version = entry.version;
  http_title = none;
  tls_subject = entry.tls_subject;
  tls_issuer = entry.tls_issuer;
  http_auth_realm = entry.http_auth_realm;
}

unfoldable pub without_redirect_notice_titles : List ServiceEvidence → List ServiceEvidence
unfolding is_redirect_notice
without_redirect_notice_titles services =
    map (λ entry. if is_redirect_notice entry.http_title then without_title entry else entry)
      services

unfoldable pub find_printer_vendor_identifier : Device → Option (Piece × Text)
unfolding first_matching_identifier without_redirect_notice_titles
find_printer_vendor_identifier device =
    first_matching_identifier (without_redirect_notice_titles device.services)
      supported_printer_vendor_keywords device.snmp_sys_descr

unfoldable pub is_microsoft_product : Option Text → Bool
unfolding lower contains
is_microsoft_product none = false
is_microsoft_product (some product) =
    is_filled product && contains (codes "microsoft") (lower product)

unfoldable pub find_printer_port : List ServiceEvidence → Option ℕ
unfolding is_microsoft_product
find_printer_port [] = none
find_printer_port (entry ∷ services) =
    if elem entry.port printer_protocol_ports && not (is_microsoft_product entry.product)
    then some entry.port
    else find_printer_port services

unfoldable pub find_printer_service : List ServiceEvidence → Option Text
unfolding is_microsoft_product lower strip
find_printer_service [] = none
find_printer_service (entry ∷ services) =
    let value = strip (or_empty entry.service) in
    let rest = find_printer_service services in
    if not (is_filled (or_empty entry.service))
    then rest
    else if elem (lower value) printer_service_keywords && not (is_microsoft_product entry.product)
    then some value
    else rest

unfoldable pub find_printer_networking : Device → Option ℕ × Option Text
unfolding find_printer_port find_printer_service
find_printer_networking device =
    (find_printer_port device.services, find_printer_service device.services)

abbrev port_label : ℕ → Piece
port_label port =
    if port == 9100
    then lit " (JetDirect)"
    else if port == 631
    then lit " (IPP)"
    else if port == 515
    then lit " (LPD)"
    else lit ""

abbrev service_label : Option Text → Piece
service_label none = lit "Unknown"
service_label (some service) = word (upper service)

unfoldable pub format_networking_reason : Option ℕ → Option Text → Reason
unfolding upper
format_networking_reason (some port) (some service) =
    lit "Open TCP port "
    ∷ digits port
    ∷ port_label port
    ∷ lit " indicates printer networking. Detected "
    ∷ service_label (some service)
    ∷ lit " service indicates printer networking."
    ∷ []
format_networking_reason (some port) none =
    lit "Open TCP port " ∷ digits port ∷ port_label port ∷ lit " indicates printer networking." ∷ []
format_networking_reason none service =
    lit "Detected " ∷ service_label service ∷ lit " service indicates printer networking." ∷ []

-- The end of `PrinterVendorRule.classify`, on printer protocols.
unfoldable pub printer_by_networking : Device → RuleResult
unfolding find_printer_networking format_networking_reason
printer_by_networking device =
    let networking = find_printer_networking device in
    let matched_port = networking.0 in
    let matched_service = networking.1 in
    if is_found matched_port || is_found matched_service
    then matching (format_networking_reason matched_port matched_service) DeviceType.printer
    else declining (
        lit "Vendor "
        ∷ repr device.vendor
        ∷ lit " is not a known printer vendor and no printer networking protocols were detected."
        ∷ [])

-- `PrinterVendorRule.classify`
unfoldable pub printer_vendor_rule : Device → RuleResult
unfolding normalize_vendor contains_any find_printer_vendor_identifier printer_by_networking
printer_vendor_rule device =
    let vendor = normalize_vendor device.vendor true in
    if is_filled vendor && contains_any supported_printer_vendor_keywords vendor
    then matching (lit "Vendor " ∷ repr device.vendor ∷ lit " matched known printer vendor." ∷ [])
        DeviceType.printer
    else by_identifier (find_printer_vendor_identifier device)
        (λ label value.
          matching (detected label value (lit " matched known printer vendor identifier."))
            DeviceType.printer)
        (printer_by_networking device)

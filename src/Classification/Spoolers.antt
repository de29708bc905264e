-- ===== src/Classification/Spoolers.antt =====
-- The printer protocols of `PrinterVendorRule` against the shared evidence helpers.
use network_mapper.Prelude.{
  ◌≡◌, refl, Bool, true, false, ◌&&◌, not, Option, some, List, [], ◌∷◌, filter_map, select, arith,
  if◌then◌else◌,
}
use network_mapper.Prelude.Text.{Text, lower, strip, is_filled, or_empty}
use network_mapper.Prelude.Eq.{nat_eq, list_eq, elem}
use network_mapper.Devices.{ServiceEvidence}
use network_mapper.Classification.Evidence.{
  filled, service_ports, service_names, first_matching_port, first_matching_service,
}
use network_mapper.Classification.Printers.{
  is_microsoft_product, find_printer_port, find_printer_service, printer_protocol_ports,
  printer_service_keywords,
}

-- The entries whose product is not a Microsoft implementation.
abbrev pub other_entries : List ServiceEvidence → List ServiceEvidence
other_entries services = select (λ entry. not (is_microsoft_product entry.product)) services

find_printer_port-select :
    (services : List ServiceEvidence)
    → find_printer_port services
      ≡ first_matching_port (service_ports (other_entries services)) printer_protocol_ports
unfolding find_printer_port first_matching_port service_ports
find_printer_port-select [] = refl
find_printer_port-select (entry ∷ services) = ground (arith, find_printer_port-select services)

-- One round of `_find_printer_service`, on whether the entry's product is Microsoft's.
find_service-step :
    (entry : ServiceEvidence) (microsoft : Bool) (keywords : List Text)
    (kept : List ServiceEvidence) (rest : Option Text)
    → rest ≡ first_matching_service (filter_map (λ e. filled e.service) kept) keywords false
    → (if not (is_filled (or_empty entry.service))
        then rest
        else if elem (lower (strip (or_empty entry.service))) keywords && not microsoft
        then some (strip (or_empty entry.service))
        else rest)
      ≡ first_matching_service
          (filter_map (λ e. filled e.service) (if not microsoft then entry ∷ kept else kept))
          keywords
          false
unfolding first_matching_service
find_service-step entry true keywords kept rest h = ground arith
find_service-step entry false keywords kept rest h = ground arith

find_printer_service-select :
    (services : List ServiceEvidence)
    → find_printer_service services
      ≡ first_matching_service
          (service_names (other_entries services))
          printer_service_keywords
          false
unfolding find_printer_service service_names first_matching_service
find_printer_service-select [] = refl
find_printer_service-select (entry ∷ services) =
    find_service-step entry (is_microsoft_product entry.product) printer_service_keywords
      (other_entries services) (find_printer_service services)
      (find_printer_service-select services)

-- The port and the service that `PrinterVendorRule` finds are those that the shared helpers find
-- in the entries whose product is not a Microsoft implementation, each on its own.
pub find_printer-select :
    (services : List ServiceEvidence)
    → (find_printer_port services
        ≡ first_matching_port (service_ports (other_entries services)) printer_protocol_ports)
      × (find_printer_service services
          ≡ first_matching_service
              (service_names (other_entries services))
              printer_service_keywords
              false)
find_printer-select services =
    (find_printer_port-select services, find_printer_service-select services)

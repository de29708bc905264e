-- ===== src/Classification/Evidence.antt =====
-- networkmapper/classification/evidence_helpers.py: the reading of vendor, host name and service
-- evidence.
use network_mapper.Prelude.{
  ℕ, Bool, true, false, ◌&&◌, Option, none, some, List, [], ◌∷◌, map, any, filter_map,
  if◌then◌else◌,
}
use network_mapper.Prelude.Text.{Text, lower, strip, contains, is_filled, or_empty}
use network_mapper.Prelude.Eq.{nat_eq, list_eq, elem}
use network_mapper.Devices.{ServiceEvidence, Reason, Piece, lit, repr, digits}

-- The value of an optional string that is not empty.
abbrev pub filled : Option Text → Option Text
filled none = none
filled (some []) = none
filled (some (c ∷ s)) = some (c ∷ s)

unfoldable pub service_ports : List ServiceEvidence → List ℕ
service_ports services = map (λ entry. entry.port) services

unfoldable pub service_names : List ServiceEvidence → List Text
service_names services = filter_map (λ entry. filled entry.service) services

unfoldable pub service_http_titles : List ServiceEvidence → List Text
service_http_titles services = filter_map (λ entry. filled entry.http_title) services

unfoldable pub service_tls_subjects : List ServiceEvidence → List Text
service_tls_subjects services = filter_map (λ entry. filled entry.tls_subject) services

unfoldable pub service_tls_issuers : List ServiceEvidence → List Text
service_tls_issuers services = filter_map (λ entry. filled entry.tls_issuer) services

unfoldable pub service_http_auth_realms : List ServiceEvidence → List Text
service_http_auth_realms services = filter_map (λ entry. filled entry.http_auth_realm) services

-- `any(keyword in s for keyword in keywords)`
unfoldable pub contains_any : List Text → Text → Bool
contains_any keywords s = any (λ keyword. contains keyword s) keywords

unfoldable pub first_containing : List (Option Text) → List Text → Option Text
first_containing [] keywords = none
first_containing (none ∷ values) keywords = first_containing values keywords
first_containing (some value ∷ values) keywords =
    if is_filled value && contains_any keywords (lower value)
    then some value
    else first_containing values keywords

unfoldable pub first_matching_product : List ServiceEvidence → List Text → Option Text
unfolding first_containing
first_matching_product services keywords =
    first_containing (map (λ entry. entry.product) services) keywords

-- The pairs of `checks` in `first_matching_identifier`, in order.
unfoldable pub checks : List ServiceEvidence → Option Text → List (Piece × List (Option Text))
unfolding service_http_titles service_tls_subjects service_tls_issuers service_http_auth_realms
checks services snmp_sys_descr =
    (lit "service product", map (λ entry. entry.product) services)
    ∷ (lit "HTTP title", map some (service_http_titles services))
    ∷ (lit "TLS certificate subject", map some (service_tls_subjects services))
    ∷ (lit "TLS certificate issuer", map some (service_tls_issuers services))
    ∷ (lit "HTTP authentication realm", map some (service_http_auth_realms services))
    ∷ (lit "SNMP sysDescr", snmp_sys_descr ∷ [])
    ∷ []

-- The loop of `first_matching_identifier`.
unfoldable pub first_check : List (Piece × List (Option Text)) → List Text → Option (Piece × Text)
unfolding first_containing
first_check [] keywords = none
first_check ((label, values) ∷ rest) keywords = elim (first_containing values keywords) [
  | some match ↦ some (label, match)
  | none ↦ first_check rest keywords
]

unfoldable pub first_matching_identifier :
    List ServiceEvidence → List Text → Option Text → Option (Piece × Text)
unfolding checks first_check
first_matching_identifier services keywords snmp_sys_descr =
    first_check (checks services snmp_sys_descr) keywords

-- The body that `normalize_vendor`, `normalize_hostname` and `normalize_operating_system` have, with
-- the argument `strip`.
unfoldable pub normalize : Bool → Option Text → Text
normalize stripped s = if stripped then lower (strip (or_empty s)) else lower (or_empty s)

unfoldable pub normalize_vendor : Option Text → Bool → Text
unfolding normalize
normalize_vendor vendor stripped = normalize stripped vendor

unfoldable pub normalize_hostname : Option Text → Bool → Text
unfolding normalize
normalize_hostname hostname stripped = normalize stripped hostname

unfoldable pub normalize_operating_system : Option Text → Text
unfolding normalize
normalize_operating_system operating_system = normalize true operating_system

unfoldable pub first_matching_port : List ℕ → List ℕ → Option ℕ
first_matching_port [] candidates = none
first_matching_port (port ∷ ports) candidates =
    if elem port candidates then some port else first_matching_port ports candidates

-- `first_matching_service` with its default `strip=True`; the flag is `return_lower`.
unfoldable pub first_matching_service : List Text → List Text → Bool → Option Text
first_matching_service [] candidates return_lower = none
first_matching_service (service ∷ services) candidates return_lower =
    if elem (lower (strip service)) candidates
    then some (if return_lower then lower (strip service) else strip service)
    else first_matching_service services candidates return_lower

unfoldable pub format_hostname_evidence_reason :
    Option Text → Option ℕ → Option Text → Piece → Reason
format_hostname_evidence_reason raw_hostname (some port) (some service) evidence_label =
    lit "Hostname "
    ∷ repr raw_hostname
    ∷ lit " with open port "
    ∷ digits port
    ∷ lit " and service "
    ∷ repr (some service)
    ∷ lit " matched known "
    ∷ evidence_label
    ∷ lit " evidence."
    ∷ []
format_hostname_evidence_reason raw_hostname (some port) none evidence_label =
    lit "Hostname "
    ∷ repr raw_hostname
    ∷ lit " with open port "
    ∷ digits port
    ∷ lit " matched known "
    ∷ evidence_label
    ∷ lit " evidence."
    ∷ []
format_hostname_evidence_reason raw_hostname none matched_service evidence_label =
    lit "Hostname "
    ∷ repr raw_hostname
    ∷ lit " with service "
    ∷ repr matched_service
    ∷ lit " matched known "
    ∷ evidence_label
    ∷ lit " evidence."
    ∷ []

abbrev pub is_found {ℓ} : {A : Type ℓ} → Option A → Bool
is_found none = false
is_found (some a) = true

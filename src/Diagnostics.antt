-- ===== src/Diagnostics.antt =====
-- networkmapper/discovery/run_diagnostics.py and reporting/discovery_summary.py: what is known of each
-- host after the enrichment of a run, and the counts of a run.
mod Counts
mod Tests
use network_mapper.Prelude.{
  ℕ, Bool, true, false, not, ◌&&◌, ◌||◌, Option, none, some, List, [], ◌∷◌, ◌++◌, any,
  if◌then◌else◌, length, ltb, nat_beq, select,
}
use network_mapper.Devices.{ServiceEvidence}
use network_mapper.Prelude.Text.{Text, codes, contains, is_filled, lower, or_empty}

-- `HostDiagnostics`, what `diagnose_host` sets of it.
pub record Diagnosis : Type 0 where
  pub enriched : Bool
  pub has_service_evidence : Bool
  pub has_smb_identity : Bool
  pub has_rdp_identity : Bool
  pub has_http_title : Bool
  pub has_tls_certificate : Bool
  pub has_http_auth_realm : Bool
  pub missing_evidence_reasons : List Text

-- `bool(s)` of an optional string
abbrev pub present : Option Text → Bool
present none = false
present (some s) = is_filled s

-- The service's name contains the text in any case.
abbrev pub named_like : Text → ServiceEvidence → Bool
named_like part entry = present entry.service && contains part (lower (or_empty entry.service))

abbrev pub is_tls_like : ServiceEvidence → Bool
is_tls_like entry =
    present entry.service
    && (contains (codes "https") (lower (or_empty entry.service))
        || contains (codes "ssl") (lower (or_empty entry.service)))

-- `[reason]` when the test holds.
abbrev pub when : Bool → Text → List Text
when true reason = reason ∷ []
when false reason = []

abbrev pub port_reason : List ServiceEvidence → List Text
port_reason [] = codes "No curated ports open." ∷ []
port_reason (entry ∷ services) =
    when (not (any (λ e. present e.service) (entry ∷ services)))
      (codes "Open ports detected, but no supported services identified.")

abbrev pub is_open : ℕ → List ServiceEvidence → Bool
is_open port services = any (λ e. nat_beq e.port port) services

abbrev pub web_reason : List ServiceEvidence → List Text
web_reason services =
    let tls_like_services = select is_tls_like services in
    if not (any (named_like (codes "http")) services)
    then codes "HTTP service not present." ∷ []
    else when (not (any (λ e. present e.tls_subject) tls_like_services) && any is_tls_like services)
        (codes "TLS certificate not presented.")

-- `diagnose_host`
unfoldable pub diagnose_host :
    List ServiceEvidence → List (Text × Option Text) → List (Text × Option Text) → Diagnosis
unfolding contains lower
diagnose_host services smb_identity rdp_identity =
    let has_smb_identity = any (λ p. present p.1) smb_identity in
    let has_rdp_identity = any (λ p. present p.1) rdp_identity in
    let has_service_evidence = ltb 0 (length services) in
    record {
      enriched = has_service_evidence || has_smb_identity || has_rdp_identity;
      has_service_evidence = has_service_evidence;
      has_smb_identity = has_smb_identity;
      has_rdp_identity = has_rdp_identity;
      has_http_title = any (λ e. present e.http_title) services;
      has_tls_certificate = any (λ e. present e.tls_subject) services;
      has_http_auth_realm = any (λ e. present e.http_auth_realm) services;
      missing_evidence_reasons =
          port_reason services
          ++ (when (not (is_open 445 services)) (codes "SMB unreachable (port 445 not open).")
              ++ (when (not (is_open 3389 services)) (codes "RDP unreachable (port 3389 not open).")
                  ++ web_reason services));
    }

-- `DiscoverySummary`
pub record DiscoverySummary : Type 0 where
  pub hosts_discovered : ℕ
  pub hosts_enriched : ℕ
  pub hosts_with_service_evidence : ℕ
  pub hosts_with_smb_identity : ℕ
  pub hosts_with_rdp_identity : ℕ
  pub hosts_with_http_titles : ℕ
  pub hosts_with_tls_certificates : ℕ
  pub hosts_with_http_auth_realms : ℕ

-- `sum(1 for host in host_diagnostics if p(host))`
abbrev pub count : (Diagnosis → Bool) → List Diagnosis → ℕ
count p hosts = length (select p hosts)

-- `DiscoverySummary.from_run_diagnostics`, on the number of hosts and the values of `host_diagnostics`.
unfoldable pub from_run_diagnostics : ℕ → List Diagnosis → DiscoverySummary
from_run_diagnostics hosts_discovered hosts = record {
  hosts_discovered = hosts_discovered;
  hosts_enriched = count (λ h. h.enriched) hosts;
  hosts_with_service_evidence = count (λ h. h.has_service_evidence) hosts;
  hosts_with_smb_identity = count (λ h. h.has_smb_identity) hosts;
  hosts_with_rdp_identity = count (λ h. h.has_rdp_identity) hosts;
  hosts_with_http_titles = count (λ h. h.has_http_title) hosts;
  hosts_with_tls_certificates = count (λ h. h.has_tls_certificate) hosts;
  hosts_with_http_auth_realms = count (λ h. h.has_http_auth_realm) hosts;
}

-- ===== src/Diagnostics/Tests.antt =====
-- A summary of two hosts, and the reasons that `diagnose_host` gives.
use network_mapper.Prelude.{◌≡◌, refl, none, some, List, [], ◌∷◌, length, map}
use network_mapper.Devices.{ServiceEvidence}
use network_mapper.Diagnostics.{diagnose_host, from_run_diagnostics}
use network_mapper.Diagnostics.Counts.{Findings, IsBounded, diagnosed, from_run_diagnostics-bounds}
use network_mapper.Prelude.Text.{codes}

-- An HTTPS service with a title and without a certificate.
abbrev https_service : ServiceEvidence
https_service = record {
  port = 443;
  protocol = codes "tcp";
  service = some (codes "HTTPS");
  product = none;
  version = none;
  http_title = some (codes "Login");
  tls_subject = none;
  tls_issuer = none;
  http_auth_realm = none;
}

abbrev hosts : List Findings
hosts =
    ((https_service ∷ []), ((codes "smb_os", none) ∷ [], []))
    ∷ ([], ([], (codes "rdp_name", some (codes "PC")) ∷ []))
    ∷ []

reasons :
    (diagnose_host (https_service ∷ []) [] []).missing_evidence_reasons
    ≡ codes "SMB unreachable (port 445 not open)."
      ∷ codes "RDP unreachable (port 3389 not open)."
      ∷ codes "TLS certificate not presented."
      ∷ []
unfolding diagnose_host
reasons = refl

enriched : (from_run_diagnostics 3 (map diagnosed hosts)).hosts_enriched ≡ 2
unfolding diagnose_host from_run_diagnostics
enriched = refl

from_run_diagnostics-bounds_example :
    IsBounded (length hosts) (from_run_diagnostics 3 (map diagnosed hosts))
from_run_diagnostics-bounds_example = from_run_diagnostics-bounds 3 hosts

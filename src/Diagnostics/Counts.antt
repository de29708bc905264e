-- ===== src/Diagnostics/Counts.antt =====
-- networkmapper/reporting/discovery_summary.py: how the counts of a run relate.
use network_mapper.Prelude.{
  ℕ, ◌+◌, ◌≤◌, ◌≡◌, refl, subst, Bool, true, ◌||◌, Option, List, [], ◌∷◌, map, arith, All, All-map,
  All-weaken, any, length, length-map, ltb,
}
use network_mapper.Devices.{ServiceEvidence}
use network_mapper.Diagnostics.{
  Diagnosis, DiscoverySummary, count, diagnose_host, from_run_diagnostics, present,
}
use network_mapper.Prelude.Text.{Text}

-- What `diagnose_host` makes true of a host.
pub record IsDiagnosed (h : Diagnosis) : Type 0 where
  pub enriched : h.enriched ≡ (h.has_service_evidence || h.has_smb_identity || h.has_rdp_identity)
  pub http_title : h.has_http_title ≡ true → h.has_service_evidence ≡ true
  pub tls_certificate : h.has_tls_certificate ≡ true → h.has_service_evidence ≡ true
  pub http_auth_realm : h.has_http_auth_realm ≡ true → h.has_service_evidence ≡ true

any-nonempty :
    (p : ServiceEvidence → Bool) (services : List ServiceEvidence)
    → any p services ≡ true
    → ltb 0 (length services) ≡ true
any-nonempty p [] h = absurd (ground arith)
any-nonempty p (entry ∷ services) h = ground arith

diagnose_host-IsDiagnosed :
    (services : List ServiceEvidence) (smb rdp : List (Text × Option Text))
    → IsDiagnosed (diagnose_host services smb rdp)
unfolding diagnose_host
diagnose_host-IsDiagnosed services smb rdp = record {
  enriched = refl;
  http_title = any-nonempty (λ e. present e.http_title) services;
  tls_certificate = any-nonempty (λ e. present e.tls_subject) services;
  http_auth_realm = any-nonempty (λ e. present e.http_auth_realm) services;
}

count-le :
    (p q : Diagnosis → Bool) (hosts : List Diagnosis)
    → All (λ h. p h ≡ true → q h ≡ true) hosts
    → count p hosts ≤ count q hosts
count-le p q [] a = omega arith
count-le p q (h ∷ hosts) a = ground (arith, count-le p q hosts, a.0)

count-length : (p : Diagnosis → Bool) (hosts : List Diagnosis) → count p hosts ≤ length hosts
count-length p [] = omega arith
count-length p (h ∷ hosts) = ground (arith, count-length p hosts)

enriched-sum :
    (hosts : List Diagnosis)
    → All IsDiagnosed hosts
    → count (λ h. h.enriched) hosts
      ≤ count (λ h. h.has_service_evidence) hosts
        + (count (λ h. h.has_smb_identity) hosts + count (λ h. h.has_rdp_identity) hosts)
enriched-sum [] a = omega arith
enriched-sum (h ∷ hosts) a = ground (arith, enriched-sum hosts a.1, a.0.enriched)

-- What is found on one host: its service evidence, its SMB identity and its RDP identity.
abbrev pub Findings : Type 0
Findings = List ServiceEvidence × (List (Text × Option Text) × List (Text × Option Text))

abbrev pub diagnosed : Findings → Diagnosis
diagnosed findings = diagnose_host findings.0 findings.1.0 findings.1.1

-- How the counts of a summary stand to each other, for so many diagnosed hosts.
pub record IsBounded (hosts : ℕ) (s : DiscoverySummary) : Type 0 where
  pub enriched : s.hosts_enriched ≤ hosts
  pub service : s.hosts_with_service_evidence ≤ s.hosts_enriched
  pub smb : s.hosts_with_smb_identity ≤ s.hosts_enriched
  pub rdp : s.hosts_with_rdp_identity ≤ s.hosts_enriched
  pub account :
      s.hosts_enriched
      ≤ s.hosts_with_service_evidence + (s.hosts_with_smb_identity + s.hosts_with_rdp_identity)
  pub http_titles : s.hosts_with_http_titles ≤ s.hosts_with_service_evidence
  pub tls_certificates : s.hosts_with_tls_certificates ≤ s.hosts_with_service_evidence
  pub http_auth_realms : s.hosts_with_http_auth_realms ≤ s.hosts_with_service_evidence

map-IsDiagnosed : (hosts : List Findings) → All IsDiagnosed (map diagnosed hosts)
map-IsDiagnosed hosts =
    All-map IsDiagnosed diagnosed hosts (λ h. diagnose_host-IsDiagnosed h.0 h.1.0 h.1.1)

le_where :
    (p q : Diagnosis → Bool)
    → ((h : Diagnosis) → IsDiagnosed h → p h ≡ true → q h ≡ true)
    → (hosts : List Diagnosis) → All IsDiagnosed hosts
    → count p hosts ≤ count q hosts
le_where p q f hosts a = count-le p q hosts (All-weaken _ _ hosts f a)

bounds_of :
    (n : ℕ) (hosts : List Diagnosis)
    → All IsDiagnosed hosts
    → IsBounded (length hosts) (from_run_diagnostics n hosts)
unfolding from_run_diagnostics
bounds_of n hosts a = record {
  enriched = count-length (λ h. h.enriched) hosts;
  service =
      le_where (λ h. h.has_service_evidence) (λ h. h.enriched)
        (λ h i e. ground (arith, i.enriched, e)) hosts a;
  smb =
      le_where (λ h. h.has_smb_identity) (λ h. h.enriched) (λ h i e. ground (arith, i.enriched, e))
        hosts a;
  rdp =
      le_where (λ h. h.has_rdp_identity) (λ h. h.enriched) (λ h i e. ground (arith, i.enriched, e))
        hosts a;
  account = enriched-sum hosts a;
  http_titles =
      le_where (λ h. h.has_http_title) (λ h. h.has_service_evidence) (λ h i. i.http_title) hosts a;
  tls_certificates =
      le_where (λ h. h.has_tls_certificate) (λ h. h.has_service_evidence) (λ h i. i.tls_certificate)
        hosts a;
  http_auth_realms =
      le_where (λ h. h.has_http_auth_realm) (λ h. h.has_service_evidence) (λ h i. i.http_auth_realm)
        hosts a;
}

-- In the summary of hosts diagnosed by `diagnose_host` the numbers of hosts with service evidence,
-- with an SMB identity and with an RDP identity are each at most the number of enriched hosts, which is
-- at most their sum and at most the number of diagnosed hosts; and the numbers of hosts with titles,
-- with certificates and with realms are each at most the number of hosts with service evidence.
pub from_run_diagnostics-bounds :
    (n : ℕ) (hosts : List Findings)
    → IsBounded (length hosts) (from_run_diagnostics n (map diagnosed hosts))
from_run_diagnostics-bounds n hosts =
    subst (λ k. IsBounded k (from_run_diagnostics n (map diagnosed hosts)))
      (length-map diagnosed hosts) (bounds_of n (map diagnosed hosts) (map-IsDiagnosed hosts))

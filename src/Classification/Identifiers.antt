-- ===== src/Classification/Identifiers.antt =====
-- What `first_matching_identifier` finds.
use network_mapper.Prelude.{
  ◌≡◌, refl, ap, ◌∙◌, Bool, false, ◌&&◌, ◌||◌, Option, none, some, List, [], ◌∷◌, map, filter_map,
  cons_some, any, any-map, arith,
}
use network_mapper.Prelude.Text.{Text, lower, is_filled}
use network_mapper.Devices.{ServiceEvidence, Piece}
use network_mapper.Classification.Evidence.{
  filled, contains_any, first_containing, checks, first_check, first_matching_identifier, is_found,
  service_http_titles, service_tls_subjects, service_tls_issuers, service_http_auth_realms,
}

-- The value is a text that is not empty and contains a keyword in any case.
abbrev pub holds : List Text → Option Text → Bool
holds keywords none = false
holds keywords (some value) = is_filled value && contains_any keywords (lower value)

-- Some evidence of the port holds a keyword.
abbrev pub entry_holds : List Text → ServiceEvidence → Bool
entry_holds keywords entry =
    holds keywords entry.product
    || holds keywords entry.http_title
    || holds keywords entry.tls_subject
    || holds keywords entry.tls_issuer
    || holds keywords entry.http_auth_realm

first_containing-found :
    (values : List (Option Text)) (keywords : List Text)
    → is_found (first_containing values keywords) ≡ any (holds keywords) values
unfolding first_containing
first_containing-found [] keywords = refl
first_containing-found (none ∷ values) keywords = first_containing-found values keywords
first_containing-found (some v ∷ values) keywords =
    ground (arith, first_containing-found values keywords)

first_check-found :
    (table : List (Piece × List (Option Text))) (keywords : List Text)
    → is_found (first_check table keywords) ≡ any (λ row. any (holds keywords) row.1) table
unfolding first_check
first_check-found [] keywords = refl
first_check-found ((label, values) ∷ table) keywords =
    ground (arith, first_containing-found values keywords, first_check-found table keywords)

filled-cases :
    (keywords : List Text) (o : Option Text) (rest : List Text)
    → any (holds keywords) (map some (cons_some (filled o) rest))
      ≡ (holds keywords o || any (holds keywords) (map some rest))
filled-cases keywords none rest = refl
filled-cases keywords (some []) rest = refl
filled-cases keywords (some (c ∷ s)) rest = refl

any-filled :
    (keywords : List Text) (f : ServiceEvidence → Option Text) (services : List ServiceEvidence)
    → any (holds keywords) (map some (filter_map (λ entry. filled (f entry)) services))
      ≡ any (λ entry. holds keywords (f entry)) services
any-filled keywords f [] = refl
any-filled keywords f (entry ∷ services) =
    filled-cases keywords (f entry) _
    ∙ ap (λ b. holds keywords (f entry) || b) (any-filled keywords f services)

any-entry_holds :
    (keywords : List Text) (services : List ServiceEvidence)
    → any (entry_holds keywords) services ≡ (
        any (λ e. holds keywords e.product) services
        || any (λ e. holds keywords e.http_title) services
        || any (λ e. holds keywords e.tls_subject) services
        || any (λ e. holds keywords e.tls_issuer) services
        || any (λ e. holds keywords e.http_auth_realm) services)
any-entry_holds keywords [] = refl
any-entry_holds keywords (entry ∷ services) = ground (arith, any-entry_holds keywords services)

flat :
    {p p' t t' s s' i i' r r' e : Bool} (d : Bool)
    → p ≡ p'
    → t ≡ t'
    → s ≡ s'
    → i ≡ i'
    → r ≡ r'
    → e ≡ (p' || t' || s' || i' || r')
    → (p || (t || (s || (i || (r || ((d || false) || false)))))) ≡ (e || d)
flat d hp ht hs hi hr he = ground arith

-- `first_matching_identifier` finds something exactly if some evidence of some port, or the SNMP
-- description, holds a keyword: product, HTTP title, TLS subject, TLS issuer or authentication realm.
pub is_found-first_matching_identifier :
    (services : List ServiceEvidence) (keywords : List Text) (snmp_sys_descr : Option Text)
    → is_found (first_matching_identifier services keywords snmp_sys_descr)
      ≡ (any (entry_holds keywords) services || holds keywords snmp_sys_descr)
unfolding first_matching_identifier checks service_http_titles service_tls_subjects
    service_tls_issuers service_http_auth_realms
is_found-first_matching_identifier services keywords d =
    first_check-found (checks services d) keywords
    ∙ flat (holds keywords d) (any-map (holds keywords) (λ e. e.product) services)
        (any-filled keywords (λ e. e.http_title) services)
        (any-filled keywords (λ e. e.tls_subject) services)
        (any-filled keywords (λ e. e.tls_issuer) services)
        (any-filled keywords (λ e. e.http_auth_realm) services) (any-entry_holds keywords services)

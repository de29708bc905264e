-- ===== src/Identity/Evidence.antt =====
-- The subjects and the observations of the identities that identity resolution returns.
use mathlib.Core.List.{Perm}
use network_mapper.Prelude.{◌≡◌, List, map, concat}
use network_mapper.Prelude.Text.{Text}
use network_mapper.Prelude.Ord.{nat_ord, list_ord, list_le}
use network_mapper.Prelude.Eq.{nat_eq, list_eq, elem}
use network_mapper.Prelude.Sort.{IsSorted, sort-perm}
use network_mapper.Prelude.Group.{IsDistinct}
use network_mapper.Prelude.Tables.{table-keys, table-perm}
use network_mapper.Observations.{IdentityObservation, Observation, identity_observations}
use network_mapper.Identity.{
  CanonicalIdentity, resolve_property, resolve_subject, resolve, name-resolve_property,
  subject-resolve_subject,
}

-- The resolved subjects are the observed ones, each once, in ascending order.
pub resolve-subjects :
    (os : List Observation)
    → IsSorted list_le (map (λ i. i.subject) (resolve os))
      × IsDistinct (map (λ i. i.subject) (resolve os))
      × ((s : Text)
          → elem s (map (λ i. i.subject) (resolve os))
            ≡ elem s (map (λ o. o.subject) (identity_observations os)))
unfolding resolve
resolve-subjects os =
    table-keys (λ o. o.subject) (λ i. i.subject) resolve_subject subject-resolve_subject
      (identity_observations os)

-- Within one identity, the properties are the observed ones, each once, in ascending order.
pub resolve_subject-properties :
    (s : Text) (os : List IdentityObservation)
    → IsSorted list_le (map (λ p. p.property_name) (resolve_subject s os).properties)
      × IsDistinct (map (λ p. p.property_name) (resolve_subject s os).properties)
      × ((p : Text)
          → elem p (map (λ c. c.property_name) (resolve_subject s os).properties)
            ≡ elem p (map (λ o. o.property_name) os))
unfolding resolve_subject
resolve_subject-properties s os =
    table-keys (λ o. o.property_name) (λ c. c.property_name) resolve_property name-resolve_property
      os

-- All observations that an identity retains.
abbrev pub retained : CanonicalIdentity → List IdentityObservation
retained i = concat (map (λ p. p.observations) i.properties)

retained-resolve_property :
    (p : Text) (os : List IdentityObservation) → Perm (resolve_property p os).observations os
unfolding resolve_property
retained-resolve_property p os = sort-perm _ os

retained-resolve_subject :
    (s : Text) (os : List IdentityObservation) → Perm (retained (resolve_subject s os)) os
unfolding resolve_subject
retained-resolve_subject s os =
    table-perm (λ o. o.property_name) (λ c. c.property_name) resolve_property name-resolve_property
      (λ c. c.observations) retained-resolve_property os

-- The identities retain the identity observations of the input, each as often as it was given:
-- none is dropped, merged or invented.
pub resolve-retains :
    (os : List Observation) → Perm (concat (map retained (resolve os))) (identity_observations os)
unfolding resolve
resolve-retains os =
    table-perm (λ o. o.subject) (λ i. i.subject) resolve_subject subject-resolve_subject retained
      retained-resolve_subject (identity_observations os)

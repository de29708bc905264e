-- ===== src/Identity/Order.antt =====
-- Identity resolution and the order of the observations.
use mathlib.Core.List.{Perm, Permᴰ}
use mathlib.Core.Logic.{∥∥₁_elim}
use network_mapper.Prelude.{◌≡◌, sym, ap, ◌∙◌, List, All, All-weaken, length, ltb, arith}
use network_mapper.Prelude.Text.{Text}
use network_mapper.Prelude.Ord.{nat_ord, list_ord}
use network_mapper.Prelude.Eq.{nat_eq, list_eq, pair_eq, ◌==◌}
use network_mapper.Prelude.Sort.{sort_by-permᴰ}
use network_mapper.Prelude.Group.{
  of_key, All-of_key, group_keys, group_keys-IsDistinct, elem-group_keys,
}
use network_mapper.Prelude.Sets.{group_set, to_set-IsDistinct}
use network_mapper.Prelude.Unions.{all_values, elem-all_values, length-group_set, more_than_one}
use network_mapper.Prelude.Reorder.{All-trivial, filter_map-permᴰ, select-permᴰ, elem-map-permᴰ}
use network_mapper.Prelude.Tables.{table, table-permᴰ}
use native.Mathlib.Decide.{ℕ_discrete}
use network_mapper.Observations.{
  IdentityObservation, Observation, as_identity, identity_observations,
}
use network_mapper.Identity.{
  CanonicalIdentity, PropertyCorroboration, property_observation_sort_key, observation_source,
  resolve_property, roll_up_identity_state, resolve_subject, resolve, name-resolve_property,
  subject-resolve_subject,
}

-- Observations of one subject and one property.
abbrev Claim : Text → Text → IdentityObservation → Type 0
Claim s p o = (o.subject ≡ s) × (o.property_name ≡ p)

-- Among them the sort key determines the observation.
key_determines :
    (s p : Text) (a b : IdentityObservation)
    → Claim s p a
    → Claim s p b
    → property_observation_sort_key a ≡ property_observation_sort_key b
    → a ≡ b
key_determines s p a b ca cb e = ground arith

module _ (p : Text) {xs ys : List IdentityObservation} (r : Permᴰ xs ys) where
  values_agree :
      ltb 1 (length (all_values (group_set observation_source (λ o. o.value) xs)))
      ≡ ltb 1 (length (all_values (group_set observation_source (λ o. o.value) ys)))
  values_agree = more_than_one _ _ (to_set-IsDistinct _) (to_set-IsDistinct _) (λ w.
      elem-all_values observation_source (λ o. o.value) w xs
      ∙ elem-map-permᴰ (λ o. o.value) w r
      ∙ sym (elem-all_values observation_source (λ o. o.value) w ys))

  sources_agree :
      ltb 1 (length (group_keys observation_source xs))
      ≡ ltb 1 (length (group_keys observation_source ys))
  sources_agree =
      more_than_one _ _ (group_keys-IsDistinct observation_source xs)
        (group_keys-IsDistinct observation_source ys)
        (λ k.
          elem-group_keys observation_source k xs
          ∙ elem-map-permᴰ observation_source k r
          ∙ sym (elem-group_keys observation_source k ys))

  resolve_property-permᴰ :
      (s : Text) → All (Claim s p) xs → resolve_property p xs ≡ resolve_property p ys
  unfolding resolve_property
  resolve_property-permᴰ s a = ground (
    arith,
    values_agree,
    sources_agree,
    length-group_set observation_source (λ (o : IdentityObservation). o.value) xs,
    length-group_set observation_source (λ (o : IdentityObservation). o.value) ys,
    sort_by-permᴰ property_observation_sort_key (Claim s p) (key_determines s p) r a,
  )

module _ (s : Text) {xs ys : List IdentityObservation} (r : Permᴰ xs ys)
    (a : All (λ o. o.subject ≡ s) xs) where
  property_agrees :
      (p : Text)
      → resolve_property p (of_key (λ o. o.property_name) p xs)
        ≡ resolve_property p (of_key (λ o. o.property_name) p ys)
  property_agrees p =
      resolve_property-permᴰ p (select-permᴰ (λ o. o.property_name == p) r) s
        (All-of_key (λ (o : IdentityObservation). o.property_name) (λ o. o.subject ≡ s) p xs a)

  properties_agree :
      table (λ o. o.property_name) (λ c. c.property_name) resolve_property name-resolve_property xs
      ≡ table
          (λ o. o.property_name)
          (λ c. c.property_name)
          resolve_property
          name-resolve_property
          ys
  properties_agree =
      table-permᴰ (λ o. o.property_name) (λ c. c.property_name) resolve_property
        name-resolve_property r property_agrees

  resolve_subject-permᴰ : resolve_subject s xs ≡ resolve_subject s ys
  unfolding resolve_subject
  resolve_subject-permᴰ =
      ap
        (λ (ps : List PropertyCorroboration). record {
          subject = s;
          state = roll_up_identity_state ps;
          properties = ps;
        })
        properties_agree

resolve-permᴰ : {os ps : List Observation} → Permᴰ os ps → resolve os ≡ resolve ps
unfolding resolve
resolve-permᴰ {os} {ps} r =
    let q = filter_map-permᴰ as_identity r in
    table-permᴰ (λ o. o.subject) (λ i. i.subject) resolve_subject subject-resolve_subject q
      (λ s. resolve_subject-permᴰ s (select-permᴰ (λ o. o.subject == s) q) (
        All-weaken _ (λ o. o.subject ≡ s) _ (λ o c. c.1)
          (All-of_key (λ (o : IdentityObservation). o.subject) (λ _. Unit {0}) s
            (identity_observations os) (All-trivial (identity_observations os)))))

CanonicalIdentity-set : IsSet (List CanonicalIdentity)
CanonicalIdentity-set = hlevel ℕ_discrete

-- Identity resolution returns the same tuple for every order of the same observations.
pub resolve-perm : (os ps : List Observation) → Perm os ps → resolve os ≡ resolve ps
resolve-perm os ps r = ∥∥₁_elim r (CanonicalIdentity-set _ _) resolve-permᴰ

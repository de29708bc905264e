-- ===== src/Identity.antt =====
-- networkmapper/identity/models.py and resolver.py: canonical identities from observations.
-- The theorems stand in the modules below.
pub mod Order
mod Tests
pub mod Evidence
pub mod States
use network_mapper.Prelude.{
  ℕ, ◌≡◌, refl, Bool, true, false, List, [], ◌∷◌, map, ltb, leb, any, length, if◌then◌else◌,
}
use network_mapper.Prelude.Text.{Text}
use network_mapper.Prelude.Ord.{nat_ord, list_ord}
use network_mapper.Prelude.Eq.{nat_eq, list_eq, pair_eq}
use network_mapper.Prelude.Sort.{sort_by}
use network_mapper.Prelude.Group.{group}
use network_mapper.Prelude.Sets.{group_set}
use network_mapper.Prelude.Unions.{all_values}
use network_mapper.Observations.{
  Provenance, IdentityObservation, Observation, identity_observations, source,
}

-- `IdentityCorroborationState`
pub data State : Type 0 where
  weak probable confirmed conflicting : State

abbrev pub state_eq : State → State → Bool
state_eq State.weak State.weak = true
state_eq State.probable State.probable = true
state_eq State.confirmed State.confirmed = true
state_eq State.conflicting State.conflicting = true
state_eq _ _ = false

pub record PropertyCorroboration : Type 0 where
  pub property_name : Text
  pub state : State
  pub observations : List IdentityObservation

pub record CanonicalIdentity : Type 0 where
  pub subject : Text
  pub state : State
  pub properties : List PropertyCorroboration

-- `_property_observation_sort_key`
abbrev pub property_observation_sort_key : IdentityObservation → List Text
property_observation_sort_key o =
    o.provenance.provider ∷ o.provenance.collection_method ∷ o.value ∷ o.provenance.source_run
    ∷ o.provenance.observed_at ∷ []

abbrev pub observation_source : IdentityObservation → Text × Text
observation_source o = source o.provenance

-- The `if`-chain of `_resolve_property` on the two counts.
abbrev pub property_state : ℕ → ℕ → State
property_state distinct_values independent_source_count =
    if ltb 1 distinct_values
    then State.conflicting
    else if leb 2 independent_source_count
    then State.confirmed
    else State.weak

-- `_resolve_property`
unfoldable pub resolve_property : Text → List IdentityObservation → PropertyCorroboration
resolve_property property_name observations =
    let values_by_independent_source =
      group_set observation_source (λ (o : IdentityObservation). o.value) observations in
    record {
      property_name = property_name;
      state =
          property_state (length (all_values values_by_independent_source))
            (length values_by_independent_source);
      observations = sort_by property_observation_sort_key observations;
    }

abbrev pub has_state : State → List PropertyCorroboration → Bool
has_state s = any (λ p. state_eq p.state s)

-- `_roll_up_identity_state`
unfoldable pub roll_up_identity_state : List PropertyCorroboration → State
roll_up_identity_state properties =
    if has_state State.conflicting properties
    then State.conflicting
    else if has_state State.confirmed properties
    then State.confirmed
    else if leb 2 (length properties)
    then State.probable
    else State.weak

-- `_resolve_subject`
unfoldable pub resolve_subject : Text → List IdentityObservation → CanonicalIdentity
resolve_subject subject observations =
    let properties : List PropertyCorroboration =
      sort_by (λ p. p.property_name)
        (map (λ g. resolve_property g.0 g.1) (group (λ o. o.property_name) observations)) in
    record { subject = subject; state = roll_up_identity_state properties; properties = properties }

-- `IdentityResolver.resolve`
unfoldable pub resolve : List Observation → List CanonicalIdentity
resolve observations =
    sort_by (λ i. i.subject)
      (map (λ g. resolve_subject g.0 g.1)
        (group (λ o. o.subject) (identity_observations observations)))

-- The record of a property is named by it, and the record of a subject by its subject.
pub name-resolve_property :
    (p : Text) (os : List IdentityObservation) → (resolve_property p os).property_name ≡ p
unfolding resolve_property
name-resolve_property p os = refl

pub subject-resolve_subject :
    (s : Text) (os : List IdentityObservation) → (resolve_subject s os).subject ≡ s
unfolding resolve_subject
subject-resolve_subject s os = refl

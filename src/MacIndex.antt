-- ===== src/MacIndex.antt =====
-- networkmapper/identity/mac_index.py: the reverse index from a MAC address to the subjects that
-- claimed it.
mod Tests
use network_mapper.Prelude.{
  ◌≡◌, refl, ap, ◌∙◌, ◌↔◌, Bool, true, false, ◌&&◌, Option, none, some, List, [], ◌∷◌, map, arith,
  any, if◌then◌else◌, select,
}
use network_mapper.Observations.{IdentityObservation, Observation, identity_observations}
use network_mapper.Prelude.Decimal.{int_eq}
use network_mapper.Prelude.Eq.{elem, list_eq, nat_eq, option_eq, pair_eq, ◌==◌}
use network_mapper.Prelude.Group.{IsDistinct, of_key, of_key-absent}
use network_mapper.Prelude.Ord.{list_ord, nat_ord}
use network_mapper.Prelude.Sets.{
  elem-to_set, group_set, lookup, lookup-group_set, to_set, to_set-IsDistinct,
}
use network_mapper.Prelude.Text.{Text, codes}
use network_mapper.Presentation.{cardinality_eq}
use network_mapper.Relationships.{◌>>=◌}
use network_mapper.Snmp.Rows.{rem_key_eq}

abbrev pub mac_address_property : Text
mac_address_property = codes "mac_address"

abbrev pub is_mac : IdentityObservation → Bool
is_mac o = o.property_name == mac_address_property

-- The observations that the loop does not skip.
abbrev pub mac_observations : List Observation → List IdentityObservation
mac_observations os = select is_mac (identity_observations os)

-- `build_mac_index`
unfoldable pub build_mac_index : List Observation → List (Text × List Text)
build_mac_index os = group_set (λ o. o.value) (λ o. o.subject) (mac_observations os)

-- The subjects that some observation reports with this MAC.
abbrev pub claims : Text → Text → IdentityObservation → Bool
claims mac s o = is_mac o && o.value == mac && o.subject == s

claimed :
    (mac s : Text) (xs : List IdentityObservation)
    → elem s (map (λ o. o.subject) (of_key (λ o. o.value) mac (select is_mac xs)))
      ≡ any (claims mac s) xs
claimed mac s [] = refl
claimed mac s (x ∷ xs) = ground (arith, claimed mac s xs)

present :
    (mac : Text) (xs : List IdentityObservation)
    → elem mac (map (λ o. o.value) (select is_mac xs)) ≡ any (λ o. is_mac o && o.value == mac) xs
present mac [] = refl
present mac (x ∷ xs) = ground (arith, present mac xs)

-- The set of subjects that the index has for a MAC.
abbrev pub subjects_of : Option (List Text) → List Text
subjects_of none = []
subjects_of (some s) = s

pick : Bool → List Text → Option (List Text)
pick b vs = if b then some (to_set vs) else none

elem-pick :
    (s : Text) (b : Bool) (vs : List Text)
    → (b ≡ false → vs ≡ [])
    → elem s (subjects_of (pick b vs)) ≡ elem s vs
unfolding pick
elem-pick s true vs h = elem-to_set s vs
elem-pick s false vs h = rw (h refl) refl

pick-none : (b : Bool) (vs : List Text) → (pick b vs ≡ none) ↔ (b ≡ false)
unfolding pick
pick-none true vs = ground arith
pick-none false vs = ground arith

pick-IsDistinct : (b : Bool) (vs : List Text) → IsDistinct (subjects_of (pick b vs))
unfolding pick
pick-IsDistinct true vs = to_set-IsDistinct vs
pick-IsDistinct false vs = tt

-- The index has each subject of a MAC once.
pub build_mac_index-IsDistinct :
    (os : List Observation) (mac : Text)
    → IsDistinct (subjects_of (lookup mac (build_mac_index os)))
unfolding build_mac_index pick
build_mac_index-IsDistinct os mac =
    let xs = mac_observations os in
    rw (lookup-group_set (λ (o : IdentityObservation). o.value) (λ o. o.subject) mac xs) (
      pick-IsDistinct (elem mac (map (λ (o : IdentityObservation). o.value) xs))
        (map (λ (o : IdentityObservation). o.subject) (of_key (λ o. o.value) mac xs)))

-- A subject is in the set that `build_mac_index` holds for a MAC exactly if some identity
-- observation of the property `mac_address` with that value is about the subject, and the index has
-- no entry for a MAC exactly if no such observation has it as value.
pub build_mac_index-exact :
    (os : List Observation) (mac : Text)
    → ((s : Text)
        → elem s (subjects_of (lookup mac (build_mac_index os)))
          ≡ any (claims mac s) (identity_observations os))
      × ((lookup mac (build_mac_index os) ≡ none)
          ↔ (any (λ o. is_mac o && o.value == mac) (identity_observations os) ≡ false))
unfolding build_mac_index pick
build_mac_index-exact os mac =
    let xs = mac_observations os in
    let found = lookup-group_set (λ (o : IdentityObservation). o.value) (λ o. o.subject) mac xs in
    let here = present mac (identity_observations os) in
    let vs = map (λ (o : IdentityObservation). o.subject) (of_key (λ o. o.value) mac xs) in
    let b = elem mac (map (λ (o : IdentityObservation). o.value) xs) in
    (
      λ s.
          ap (λ r. elem s (subjects_of r)) found
          ∙ elem-pick s b vs
              (λ h. ap (map (λ o. o.subject)) (of_key-absent (λ o. o.value) mac xs h))
          ∙ claimed mac s (identity_observations os),
      rw found (rw (← here) (pick-none b vs)),
    )

-- ===== src/Identity/Tests.antt =====
-- Identity resolution on the sample network.
use mathlib.Core.List.{Perm}
use mathlib.Core.List.Perm
use network_mapper.Prelude.{◌≡◌, refl, ◌≢◌, ◌↔◌, List, [], ◌∷◌, map, concat}
use network_mapper.Identity.{
  State, resolve, resolve_property, resolve_subject, roll_up_identity_state,
}
use network_mapper.Identity.Evidence.{resolve-retains, resolve-subjects, retained}
use network_mapper.Identity.Order.{resolve-perm}
use network_mapper.Identity.States.{
  IsConsistent, IsSingleProperty, IsSingleSourced, resolve_subject-state,
}
use network_mapper.Observations.{IdentityObservation, identity_observations}
use network_mapper.Prelude.Decimal.{int_eq}
use network_mapper.Prelude.Eq.{elem, list_beq, list_eq, nat_eq, option_eq, pair_eq}
use network_mapper.Prelude.Group.{IsDistinct, group_from}
use network_mapper.Prelude.Ord.{list_le, list_ord, nat_ord}
use network_mapper.Prelude.Sets.{group_set_from, set_from}
use network_mapper.Prelude.Sort.{IsSorted, sort}
use network_mapper.Prelude.Text.{Text, codes}
use network_mapper.Presentation.{cardinality_eq}
use network_mapper.Samples.{by_nmap, by_snmp, mac_claim, network, network_reordered}
use network_mapper.Snmp.Rows.{rem_key_eq}

abbrev claims_of_a : List IdentityObservation
claims_of_a = mac_claim (codes "a") by_nmap ∷ mac_claim (codes "a") by_snmp ∷ []

states : map (λ i. i.state) (resolve network) ≡ State.confirmed ∷ State.weak ∷ []
unfolding resolve sort group_from list_beq list_le resolve_subject roll_up_identity_state
    resolve_property set_from group_set_from
states = refl

resolve-perm_example : resolve network ≡ resolve network_reordered
resolve-perm_example = resolve-perm network network_reordered (Perm.swap _ _ _)

resolve-subjects_example :
    IsSorted list_le (map (λ i. i.subject) (resolve network))
    × IsDistinct (map (λ i. i.subject) (resolve network))
    × ((s : Text)
        → elem s (map (λ i. i.subject) (resolve network))
          ≡ elem s (map (λ o. o.subject) (identity_observations network)))
resolve-subjects_example = resolve-subjects network

resolve-retains_example :
    Perm (concat (map retained (resolve network))) (identity_observations network)
resolve-retains_example = resolve-retains network

abbrev mac_of_a : State
mac_of_a = (resolve_property (codes "mac_address") claims_of_a).state

abbrev state_of_a : State
state_of_a = (resolve_subject (codes "a") claims_of_a).state

-- Two values of one source conflict.
one_source :
    (resolve_property (codes "mac_address") (
      mac_claim (codes "a") by_nmap
      ∷ record (mac_claim (codes "a") by_nmap) { value = codes "another" }
      ∷ [])).state
    ≡ State.conflicting
unfolding resolve_property list_beq set_from group_set_from
one_source = refl

resolve_subject-state_example :
    ((state_of_a ≢ State.conflicting) ↔ IsConsistent claims_of_a)
    × ((state_of_a ≡ State.confirmed) ↔ (IsConsistent claims_of_a × ¬ IsSingleSourced claims_of_a))
    × ((state_of_a ≡ State.probable)
        ↔ (IsConsistent claims_of_a × IsSingleSourced claims_of_a × ¬ IsSingleProperty claims_of_a))
    × ((state_of_a ≡ State.weak)
        ↔ (IsConsistent claims_of_a × IsSingleSourced claims_of_a × IsSingleProperty claims_of_a))
resolve_subject-state_example = resolve_subject-state (codes "a") claims_of_a

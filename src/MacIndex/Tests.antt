-- ===== src/MacIndex/Tests.antt =====
-- The MAC index of the sample network.
use network_mapper.Prelude.{◌≡◌, ◌↔◌, refl, false, ◌&&◌, none, [], ◌∷◌, any}
use network_mapper.Prelude.Text.{Text, codes}
use network_mapper.Prelude.Eq.{list_beq, nat_eq, list_eq, ◌==◌, elem}
use network_mapper.Prelude.Sets.{lookup, group_set_from}
use network_mapper.Observations.{identity_observations}
use network_mapper.MacIndex.{build_mac_index, build_mac_index-exact, claims, is_mac, subjects_of}
use network_mapper.Samples.{network}

index : build_mac_index network ≡ (codes "aa", codes "a" ∷ []) ∷ []
unfolding build_mac_index group_set_from list_beq
index = refl

build_mac_index-exact_example :
    ((s : Text)
      → elem s (subjects_of (lookup (codes "aa") (build_mac_index network)))
        ≡ any (claims (codes "aa") s) (identity_observations network))
    × ((lookup (codes "aa") (build_mac_index network) ≡ none)
        ↔ (any (λ o. is_mac o && o.value == codes "aa") (identity_observations network) ≡ false))
build_mac_index-exact_example = build_mac_index-exact network (codes "aa")

-- ===== src/Graph/Count.antt =====
-- The number of devices in a graph.
use network_mapper.Prelude.{
  ◌≡◌, refl, sym, ap, ◌∙◌, false, List, [], ◌∷◌, ◌++◌, map, length, length-map, arith, Bool-cases,
  inl, inr,
}
use network_mapper.Prelude.Text.{Text}
use network_mapper.Prelude.Eq.{nat_eq, list_eq, elem}
use network_mapper.Prelude.Sets.{set_add, set_from, to_set}
use network_mapper.Prelude.Dict.{keys_of, assign}
use network_mapper.Devices.{Device}
use network_mapper.Graph.{NetworkGraph, empty_graph, add_device, add_devices, device_count}

keys_of-assign_absent :
    (k : Text) (device : Device) (graph : NetworkGraph)
    → elem k (keys_of graph) ≡ false
    → keys_of (assign k device graph) ≡ keys_of graph ++ k ∷ []
unfolding assign
keys_of-assign_absent k device [] h = refl
keys_of-assign_absent k device ((j, other) ∷ graph) h =
    ground (arith, keys_of-assign_absent k device graph)

keys_of-add_device :
    (device : Device) (graph : NetworkGraph)
    → keys_of (add_device device graph) ≡ set_add (keys_of graph) device.ip_address
unfolding add_device
keys_of-add_device device graph = elim (Bool-cases (elem device.ip_address (keys_of graph))) [
  | inl p ↦ rw p refl
  | inr p ↦ rw p (keys_of-assign_absent device.ip_address device graph p)
]

keys_of-add_devices :
    (devices : List Device) (graph : NetworkGraph)
    → keys_of (add_devices devices graph)
      ≡ set_from (keys_of graph) (map (λ d. d.ip_address) devices)
unfolding add_devices set_from
keys_of-add_devices [] graph = refl
keys_of-add_devices (device ∷ devices) graph =
    keys_of-add_devices devices (add_device device graph)
    ∙ ap (λ ks. set_from ks (map (λ d. d.ip_address) devices)) (keys_of-add_device device graph)

-- The number of devices of a graph that is filled with devices is the number of their distinct
-- addresses.
pub device_count-add_devices :
    (devices : List Device)
    → device_count (add_devices devices empty_graph)
      ≡ length (to_set (map (λ d. d.ip_address) devices))
unfolding device_count
device_count-add_devices devices =
    sym (length-map (λ p. p.0) (add_devices devices empty_graph))
    ∙ ap length (keys_of-add_devices devices empty_graph)

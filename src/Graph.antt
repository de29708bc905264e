-- ===== src/Graph.antt =====
-- networkmapper/core/network_graph.py: the devices by IP address, the first device of an address
-- being kept.
mod Tests
pub mod Count
use network_mapper.Prelude.{
  ℕ, ◌≡◌, refl, ap, ◌∙◌, sym, Bool-cases, inl, inr, Bool, true, false, Option, none, some, List, [],
  ◌∷◌, ◌++◌, map, All, length, arith, if◌then◌else◌,
}
use network_mapper.Prelude.Text.{Text}
use network_mapper.Prelude.Eq.{nat_eq, list_eq, ◌==◌, elem}
use network_mapper.Prelude.Group.{IsDistinct}
use network_mapper.Prelude.Sets.{lookup}
use network_mapper.Prelude.Dict.{
  keys_of, assign, assign-IsDistinct, All-assign, or_else, or_else-none, lookup-assign_absent,
  lookup-or_else_present,
}
use network_mapper.Devices.{Device}

-- The field `_devices`.
abbrev pub NetworkGraph : Type 0
NetworkGraph = List (Text × Device)

abbrev pub empty_graph : NetworkGraph
empty_graph = []

unfoldable pub add_device : Device → NetworkGraph → NetworkGraph
unfolding assign
add_device device graph =
    if elem device.ip_address (keys_of graph) then graph else assign device.ip_address device graph

unfoldable pub get_device : Text → NetworkGraph → Option Device
get_device ip_address graph = lookup ip_address graph

unfoldable pub all_devices : NetworkGraph → List Device
all_devices graph = map (λ p. p.1) graph

unfoldable pub device_count : NetworkGraph → ℕ
device_count graph = length graph

-- `for device in devices: graph.add_device(device)`
unfoldable pub add_devices : List Device → NetworkGraph → NetworkGraph
unfolding add_device
add_devices [] graph = graph
add_devices (device ∷ devices) graph = add_devices devices (add_device device graph)

-- Every device stands under its own address, and no address stands twice.
pub record IsWellFormed (graph : NetworkGraph) : Type 0 where
  pub own_address : All (λ p. p.1.ip_address ≡ p.0) graph
  pub distinct : IsDistinct (keys_of graph)

add_device-IsWellFormed :
    (device : Device) (graph : NetworkGraph)
    → IsWellFormed graph
    → IsWellFormed (add_device device graph)
unfolding add_device
add_device-IsWellFormed device graph w =
    elim (Bool-cases (elem device.ip_address (keys_of graph))) [
      | inl p ↦ rw p w
      | inr p ↦ rw p (record {
        own_address = All-assign (λ q. q.1.ip_address ≡ q.0) _ device graph refl w.own_address;
        distinct = assign-IsDistinct _ device graph w.distinct;
      })
    ]

-- Adding any devices, in any order and with any repeated addresses, keeps a graph well-formed.
pub add_devices-IsWellFormed :
    (devices : List Device) (graph : NetworkGraph)
    → IsWellFormed graph
    → IsWellFormed (add_devices devices graph)
unfolding add_devices
add_devices-IsWellFormed [] graph w = w
add_devices-IsWellFormed (device ∷ devices) graph w =
    add_devices-IsWellFormed devices (add_device device graph)
      (add_device-IsWellFormed device graph w)

-- The first device of the list with the address.
unfoldable pub first_with : Text → List Device → Option Device
first_with ip [] = none
first_with ip (device ∷ devices) =
    if device.ip_address == ip then some device else first_with ip devices

lookup-add_device :
    (ip : Text) (device : Device) (graph : NetworkGraph)
    → lookup ip (add_device device graph)
      ≡ or_else (lookup ip graph) (if device.ip_address == ip then some device else none)
unfolding add_device
lookup-add_device ip device graph = elim (Bool-cases (elem device.ip_address (keys_of graph))) [
  | inl p ↦ rw p (sym (lookup-or_else_present ip device.ip_address device graph p))
  | inr p ↦ rw p (lookup-assign_absent ip device.ip_address device graph p)
]

or_else-first :
    (o rest : Option Device) (b : Bool) (device : Device)
    → or_else (or_else o (if b then some device else none)) rest
      ≡ or_else o (if b then some device else rest)
or_else-first none rest true device = refl
or_else-first none rest false device = refl
or_else-first (some d) rest b device = refl

-- After devices are added to a graph, an address has the device that the graph had for it, and
-- otherwise the first added device with that address.
pub get_device-add_devices :
    (ip : Text) (devices : List Device) (graph : NetworkGraph)
    → get_device ip (add_devices devices graph)
      ≡ or_else (get_device ip graph) (first_with ip devices)
unfolding get_device add_devices first_with
get_device-add_devices ip [] graph = sym (or_else-none (lookup ip graph))
get_device-add_devices ip (device ∷ devices) graph =
    get_device-add_devices ip devices (add_device device graph)
    ∙ ap (λ o. or_else o (first_with ip devices)) (lookup-add_device ip device graph)
    ∙ or_else-first (lookup ip graph) _ _ device

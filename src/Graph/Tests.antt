-- ===== src/Graph/Tests.antt =====
-- The graph of the sample devices.
use network_mapper.Prelude.{◌≡◌, [], ◌∷◌}
use network_mapper.Prelude.Text.{codes}
use network_mapper.Prelude.Dict.{or_else}
use network_mapper.Graph.{
  empty_graph, add_devices, get_device, first_with, IsWellFormed, get_device-add_devices,
}
use network_mapper.Prelude.Eq.{nat_eq, list_eq}
use network_mapper.Samples.{windows_host, hyper_v_host}

empty-IsWellFormed : IsWellFormed empty_graph
empty-IsWellFormed = record { own_address = tt; distinct = tt }

get_device-add_devices_example :
    get_device
      (codes "10.0.0.6")
      (add_devices (windows_host ∷ hyper_v_host ∷ windows_host ∷ []) empty_graph)
    ≡ or_else
        (get_device (codes "10.0.0.6") empty_graph)
        (first_with (codes "10.0.0.6") (windows_host ∷ hyper_v_host ∷ windows_host ∷ []))
get_device-add_devices_example =
    get_device-add_devices (codes "10.0.0.6") (windows_host ∷ hyper_v_host ∷ windows_host ∷ [])
      empty_graph

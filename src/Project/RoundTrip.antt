-- ===== src/Project/RoundTrip.antt =====
-- networkmapper/project/serializer.py: a project saved and loaded.
use network_mapper.Prelude.{
  ◌≡◌, refl, sym, ap, ◌∙◌, true, false, some, [], ◌∷◌, ◌++◌, map, append-nil, append_assoc, arith,
  All,
}
use network_mapper.Devices.{Device}
use network_mapper.Graph.{
  IsWellFormed, NetworkGraph, add_device, add_devices, all_devices, empty_graph,
}
use network_mapper.Prelude.Decimal.{int_eq}
use network_mapper.Prelude.Dict.{assign, elem-assign, keys_of}
use network_mapper.Prelude.Eq.{elem, list_beq, list_beq_iff, list_eq, nat_eq, option_eq, pair_eq}
use network_mapper.Prelude.Group.{IsDistinct}
use network_mapper.Prelude.Text.{Text}
use network_mapper.Project.{Project}
use network_mapper.Project.Loading.{load, load_device}
use network_mapper.Project.Saving.{device_payload, save}
use network_mapper.Project.Services.{each-map, load_device-device_payload}
use network_mapper.Replay.Timestamps.{is_canonical_timestamp}
use network_mapper.Snmp.Rows.{rem_key_eq}

assign-absent :
    (k : Text) (d : Device) (graph : NetworkGraph)
    → elem k (keys_of graph) ≡ false
    → assign k d graph ≡ graph ++ (k, d) ∷ []
unfolding assign
assign-absent k d [] h = refl
assign-absent k d ((j, e) ∷ graph) h = ground (arith, assign-absent k d graph)

-- Keys that are not in a graph are not in it after another key is added.
still_absent :
    (k : Text) (d : Device) (graph rest : NetworkGraph)
    → elem k (keys_of rest) ≡ false
    → All (λ p. elem p.0 (keys_of graph) ≡ false) rest
    → All (λ p. elem p.0 (keys_of (assign k d graph)) ≡ false) rest
still_absent k d graph [] h a = tt
still_absent k d graph ((j, e) ∷ rest) h a = (
  ground (arith, elem-assign j k d graph, a.0, list_beq_iff j k, list_beq_iff k j),
  still_absent k d graph rest (ground arith) a.1,
)

add_device-own :
    (k : Text) (d : Device) (graph : NetworkGraph)
    → d.ip_address ≡ k
    → elem k (keys_of graph) ≡ false
    → add_device d graph ≡ assign k d graph
unfolding add_device
add_device-own k d graph e h = rw e (rw h refl)

add_devices-items :
    (rest graph : NetworkGraph)
    → All (λ p. p.1.ip_address ≡ p.0) rest
    → IsDistinct (keys_of rest)
    → All (λ p. elem p.0 (keys_of graph) ≡ false) rest
    → add_devices (map (λ p. p.1) rest) graph ≡ graph ++ rest
unfolding add_devices
add_devices-items [] graph own distinct absent = sym (append-nil graph)
add_devices-items ((k, d) ∷ rest) graph own distinct absent =
    ap (add_devices (map (λ p. p.1) rest)) (add_device-own k d graph own.0 absent.0)
    ∙ add_devices-items rest (assign k d graph) own.1 distinct.1
        (still_absent k d graph rest distinct.0 absent.1)
    ∙ ap (λ g. g ++ rest) (assign-absent k d graph absent.0)
    ∙ append_assoc graph ((k, d) ∷ []) rest

nothing_absent : (rest : NetworkGraph) → All (λ p. elem p.0 (keys_of empty_graph) ≡ false) rest
nothing_absent [] = tt
nothing_absent (p ∷ rest) = (refl, nothing_absent rest)

-- Adding the devices of a well-formed graph to an empty one gives the graph.
add_devices-all_devices :
    (graph : NetworkGraph)
    → IsWellFormed graph
    → add_devices (all_devices graph) empty_graph ≡ graph
unfolding all_devices
add_devices-all_devices graph w =
    add_devices-items graph empty_graph w.own_address w.distinct (nothing_absent graph)

-- When every device of a project stands under its own address, each address once, and the dates of the
-- project are texts of a `datetime`, loading the payload that was saved gives back the project: its
-- name, its dates, and all devices with every field, in their order.
pub load-save :
    (project : Project)
    → IsWellFormed project.network_graph
    → is_canonical_timestamp project.created_date ≡ true
    → is_canonical_timestamp project.modified_date ≡ true
    → load (save project) ≡ some project
unfolding load save list_beq
load-save project w created modified = rw created (
    rw modified (
      rw
        (each-map load_device device_payload load_device-device_payload
          (all_devices project.network_graph))
        (rw (add_devices-all_devices project.network_graph w) refl)))

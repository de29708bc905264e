-- ===== src/Comparison/Tests.antt =====
-- Comparisons of projects of the sample devices.
use network_mapper.Prelude.{◌≡◌, [], ◌∷◌}
use network_mapper.Comparison.{compare_projects}
use network_mapper.Comparison.Changes.{compare_projects_swap}
use network_mapper.Graph.{NetworkGraph}
use network_mapper.Samples.{camera_host, hyper_v_host, windows_host}

abbrev before : NetworkGraph
before = (windows_host.ip_address, windows_host) ∷ (camera_host.ip_address, camera_host) ∷ []

abbrev after : NetworkGraph
after = (hyper_v_host.ip_address, hyper_v_host) ∷ (camera_host.ip_address, camera_host) ∷ []

compare_projects_swap_example :
    ((compare_projects before after).added_devices
      ≡ (compare_projects after before).removed_devices)
    × ((compare_projects before after).removed_devices
        ≡ (compare_projects after before).added_devices)
compare_projects_swap_example = compare_projects_swap before after

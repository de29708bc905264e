-- ===== src/Comparison.antt =====
-- networkmapper/comparison/project_comparator.py: the changes between two snapshots. A project is the
-- list of the devices of its graph, which is all that the comparator reads of it.
mod Tests
pub mod Changes
use network_mapper.Prelude.{
  ℕ, Bool, true, false, not, Option, none, some, List, [], ◌∷◌, length, if◌then◌else◌,
}
use network_mapper.Prelude.Text.{Text, codes, lower, strip, is_filled, or_empty}
use network_mapper.Prelude.Eq.{nat_eq, list_eq, option_eq, ◌==◌}
use network_mapper.Prelude.Sets.{lookup}
use network_mapper.Prelude.Dict.{assign}
use network_mapper.Devices.{Device}
use network_mapper.Graph.{NetworkGraph, all_devices}

pub record ComparisonResult : Type 0 where
  pub added_devices : List Device
  pub removed_devices : List Device
  pub hostname_changed_devices : List (Device × Device)
  pub ip_changed_devices : List (Device × Device)
  pub summary_counts : List (Text × ℕ)

unfoldable pub device_identity : Device → Text
unfolding lower strip
device_identity device =
    let mac_address = lower (strip (or_empty device.mac_address)) in
    if is_filled mac_address then mac_address else lower (strip device.ip_address)

abbrev pub Index : Type 0
Index = List (Text × Device)

-- The loop of `_index_devices`: a later device with the same identity replaces an earlier one.
unfoldable pub index_from : Index → List Device → Index
unfolding assign device_identity
index_from index [] = index
index_from index (device ∷ devices) =
    index_from (assign (device_identity device) device index) devices

unfoldable pub index_devices : NetworkGraph → Index
unfolding index_from all_devices
index_devices graph = index_from [] (all_devices graph)

-- The three lists that the first loop of `compare` fills.
pub record OldChanges : Type 0 where
  pub removed : List Device
  pub hostname_changed : List (Device × Device)
  pub ip_changed : List (Device × Device)

-- One round of the first loop, on `new_devices.get(identity)`.
abbrev pub compare_device : Device → Option Device → OldChanges → OldChanges
compare_device old_device none rest = record {
  removed = old_device ∷ rest.removed;
  hostname_changed = rest.hostname_changed;
  ip_changed = rest.ip_changed;
}
compare_device old_device (some new_device) rest = record {
  removed = rest.removed;
  hostname_changed =
      if not (old_device.hostname == new_device.hostname)
      then (old_device, new_device) ∷ rest.hostname_changed
      else rest.hostname_changed;
  ip_changed =
      if not (old_device.ip_address == new_device.ip_address)
      then (old_device, new_device) ∷ rest.ip_changed
      else rest.ip_changed;
}

-- The first loop of `compare`, over `old_devices.items()`.
unfoldable pub compare_old : Index → Index → OldChanges
compare_old [] new_devices = record { removed = []; hostname_changed = []; ip_changed = [] }
compare_old ((identity, old_device) ∷ items) new_devices =
    compare_device old_device (lookup identity new_devices) (compare_old items new_devices)

abbrev pub add_new : Device → Option Device → List Device → List Device
add_new new_device none rest = new_device ∷ rest
add_new new_device (some old_device) rest = rest

-- The second loop of `compare`, over `new_devices.items()`.
unfoldable pub compare_new : Index → Index → List Device
compare_new [] old_devices = []
compare_new ((identity, new_device) ∷ items) old_devices =
    add_new new_device (lookup identity old_devices) (compare_new items old_devices)

-- `ProjectComparator.compare`
unfoldable pub compare_projects : NetworkGraph → NetworkGraph → ComparisonResult
unfolding index_devices compare_old compare_new
compare_projects old_project new_project =
    let old_devices = index_devices old_project in
    let new_devices = index_devices new_project in
    let changes = compare_old old_devices new_devices in
    let added = compare_new new_devices old_devices in
    record {
      added_devices = added;
      removed_devices = changes.removed;
      hostname_changed_devices = changes.hostname_changed;
      ip_changed_devices = changes.ip_changed;
      summary_counts =
          (codes "added", length added)
          ∷ (codes "removed", length changes.removed)
          ∷ (codes "hostname_changed", length changes.hostname_changed)
          ∷ (codes "ip_changed", length changes.ip_changed)
          ∷ [];
    }

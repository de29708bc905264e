-- ===== src/Project/Tests.antt =====
-- A project of two devices, saved and loaded.
use network_mapper.Prelude.{◌≡◌, refl, none, some, [], ◌∷◌, ◌&◌}
use network_mapper.Devices.{DeviceType}
use network_mapper.Graph.{IsWellFormed}
use network_mapper.Prelude.Text.{codes}
use network_mapper.Project.{Project}
use network_mapper.Project.Loading.{as_type, load}
use network_mapper.Project.RoundTrip.{load-save}
use network_mapper.Project.Saving.{save}
use network_mapper.Replay.Json.{Json}
use network_mapper.Samples.{hyper_v_host, windows_host}

abbrev sample : Project
sample = record {
  customer_name = codes "ACME";
  created_date = codes "2026-01-01T08:00:00";
  modified_date = codes "2026-01-02T08:00:00.000001";
  network_graph =
      (windows_host.ip_address, windows_host) ∷ (hyper_v_host.ip_address, hyper_v_host) ∷ [];
}

sample-IsWellFormed : IsWellFormed sample.network_graph
unfolding network_mapper.Prelude.Eq.list_beq
sample-IsWellFormed = record { own_address = refl & refl & tt; distinct = refl & refl & tt }

load-save_example : load (save sample) ≡ some sample
unfolding network_mapper.Replay.Timestamps.is_canonical_timestamp
load-save_example = load-save sample sample-IsWellFormed refl refl

-- A device with an unknown type is refused, and one without a type is unknown.
types :
    (as_type (some (Json.string (codes "toaster"))) ≡ none)
    × (as_type none ≡ some DeviceType.unknown)
unfolding as_type network_mapper.Prelude.Eq.list_beq
types = (refl, refl)

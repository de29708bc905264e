-- ===== src/Comparison/Changes.antt =====
-- The changes that `ProjectComparator.compare` reports.
use network_mapper.Prelude.{
  ◌≡◌, refl, sym, ap, ◌∙◌, map, Bool, true, false, not, Option, none, some, List, [], ◌∷◌, All,
  arith, if◌then◌else◌,
}
use network_mapper.Prelude.Eq.{Eq, nat_eq, list_eq, option_eq, ◌==◌, beq_refl}
use network_mapper.Prelude.Group.{IsDistinct}
use network_mapper.Prelude.Sets.{lookup}
use network_mapper.Prelude.Dict.{
  keys_of, assign, assign-IsDistinct, All-assign, lookup-items, lookup-All,
}
use network_mapper.Devices.{Device}
use network_mapper.Graph.{NetworkGraph, all_devices}
use network_mapper.Comparison.{
  device_identity, Index, index_from, index_devices, OldChanges, compare_device, compare_old,
  compare_new, compare_projects,
}

-- Every device is indexed under its identity, once.
record IsIndex (index : Index) : Type 0 where
  own : All (λ p. device_identity p.1 ≡ p.0) index
  distinct : IsDistinct (keys_of index)

index_from-IsIndex :
    (index : Index) (devices : List Device) → IsIndex index → IsIndex (index_from index devices)
unfolding index_from
index_from-IsIndex index [] i = i
index_from-IsIndex index (device ∷ devices) i =
    index_from-IsIndex (assign (device_identity device) device index) devices (record {
      own = All-assign (λ q. device_identity q.1 ≡ q.0) _ device index refl i.own;
      distinct = assign-IsDistinct _ device index i.distinct;
    })

index_devices-IsIndex : (project : NetworkGraph) → IsIndex (index_devices project)
unfolding index_devices
index_devices-IsIndex project =
    index_from-IsIndex [] (all_devices project) (record { own = tt; distinct = tt })

compare_new-removed :
    (items others : Index) → compare_new items others ≡ (compare_old items others).removed
unfolding compare_new compare_old
compare_new-removed [] others = refl
compare_new-removed ((identity, device) ∷ items) others =
    ground (arith, compare_new-removed items others)

-- The devices added from one project to another are the devices removed the other way round.
pub compare_projects_swap :
    (old new : NetworkGraph)
    → ((compare_projects old new).added_devices ≡ (compare_projects new old).removed_devices)
      × ((compare_projects old new).removed_devices ≡ (compare_projects new old).added_devices)
unfolding compare_projects
compare_projects_swap old new = (
  compare_new-removed (index_devices new) (index_devices old),
  sym (compare_new-removed (index_devices old) (index_devices new)),
)

compare_old-same :
    (items full : Index)
    → All (λ p. lookup p.0 full ≡ some p.1) items
    → compare_old items full ≡ record { removed = []; hostname_changed = []; ip_changed = [] }
unfolding compare_old
compare_old-same [] full h = refl
compare_old-same ((identity, device) ∷ items) full h = ground (
  arith,
  h.0,
  compare_old-same items full h.1,
  beq_refl device.hostname,
  beq_refl device.ip_address,
)

-- Comparing a project with itself reports no change of any kind, and counts of 0.
pub compare_projects_self :
    (project : NetworkGraph)
    → let result = compare_projects project project in
      (result.added_devices ≡ [])
      × (result.removed_devices ≡ [])
      × (result.hostname_changed_devices ≡ [])
      × (result.ip_changed_devices ≡ [])
      × (map (λ p. p.1) result.summary_counts ≡ 0 ∷ 0 ∷ 0 ∷ 0 ∷ [])
unfolding compare_projects
compare_projects_self project =
    let index = index_devices project in
    let same =
      compare_old-same index index (lookup-items index (index_devices-IsIndex project).distinct) in
    let added = compare_new-removed index index ∙ ap (λ c. c.removed) same in
    rw same (rw added (refl, refl, refl, refl, refl))

-- The two devices of a pair have one identity and differ in the field.
abbrev pub IsChange {κ} : {A : Type κ} ⦃e : Eq A⦄ → (Device → A) → Device × Device → Type 0
IsChange f (old_device, new_device) =
    (device_identity old_device ≡ device_identity new_device)
    × ((f old_device == f new_device) ≡ false)

All-unless :
    (P : Device × Device → Type 0) (b : Bool) (x : Device × Device) (l : List (Device × Device))
    → (b ≡ false → P x)
    → All P l
    → All P (if not b then x ∷ l else l)
All-unless P true x l h k = k
All-unless P false x l h k = (h refl, k)

compare_device-IsChange :
    (device : Device) (o : Option Device) (rest : OldChanges)
    → ((n : Device) → o ≡ some n → device_identity device ≡ device_identity n)
    → All (IsChange (λ d. d.hostname)) rest.hostname_changed
    → All (IsChange (λ d. d.ip_address)) rest.ip_changed
    → All (IsChange (λ d. d.hostname)) (compare_device device o rest).hostname_changed
      × All (IsChange (λ d. d.ip_address)) (compare_device device o rest).ip_changed
compare_device-IsChange device none rest same hs ips = (hs, ips)
compare_device-IsChange device (some n) rest same hs ips = (
  All-unless (IsChange (λ d. d.hostname)) (device.hostname == n.hostname) (device, n)
      rest.hostname_changed (λ e. (same n refl, e)) hs,
  All-unless (IsChange (λ d. d.ip_address)) (device.ip_address == n.ip_address) (device, n)
      rest.ip_changed (λ e. (same n refl, e)) ips,
)

compare_old-IsChange :
    (items others : Index)
    → All (λ p. device_identity p.1 ≡ p.0) items
    → All (λ p. device_identity p.1 ≡ p.0) others
    → All (IsChange (λ d. d.hostname)) (compare_old items others).hostname_changed
      × All (IsChange (λ d. d.ip_address)) (compare_old items others).ip_changed
unfolding compare_old
compare_old-IsChange [] others h k = (tt, tt)
compare_old-IsChange ((identity, device) ∷ items) others h k =
    let rest = compare_old-IsChange items others h.1 k in
    compare_device-IsChange device (lookup identity others) (compare_old items others)
      (λ n found. h.0 ∙ sym (lookup-All (λ p. device_identity p.1 ≡ p.0) identity n others k found))
      rest.0 rest.1

-- Every reported change of a host name or of an address is between two devices of one identity that
-- differ in that field.
pub compare_projects-IsChange :
    (old new : NetworkGraph)
    → All (IsChange (λ d. d.hostname)) (compare_projects old new).hostname_changed_devices
      × All (IsChange (λ d. d.ip_address)) (compare_projects old new).ip_changed_devices
unfolding compare_projects
compare_projects-IsChange old new =
    compare_old-IsChange (index_devices old) (index_devices new) (index_devices-IsIndex old).own
      (index_devices-IsIndex new).own

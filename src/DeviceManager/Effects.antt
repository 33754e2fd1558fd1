-- ===== src/DeviceManager/Effects.antt =====
-- What the methods of src/device_manager.cpp do to the devices and tags that can be looked up.
use edge_link.DeviceManager
use edge_link.Device
use edge_link.Prelude.{
  ℕ, suc, ◌≡◌, refl, inl, inr, false, not, ◌&&◌, Option, none, some, arith, if◌then◌else◌,
  Option-cases, is_some, Text, is_empty,
}
use edge_link.Device.{Quality, Tag, Device, find_tag}
use edge_link.Device.Tags.{find_tag-update_tag}
use edge_link.DeviceManager.{
  DeviceManager, add_device, remove_device, find_device, has_device, device_count, modify, mark,
  update_all_tag_qualities,
}
use edge_link.Prelude.Dict.{
  find, find-put, find-erase, length-put, map_values, Option_map, find-map_values,
}
use edge_link.Prelude.Keys.{nat_eq, text_beq, text_beq_iff, text_eq}

-- The tag that a device shows under a name.
pub lookup_tag : DeviceManager → Text → Text → Option Tag
lookup_tag m id name = elim (find_device m id) [ none ↦ none | some d ↦ find_tag d name ]

pub has_device-find_device :
    (m : DeviceManager) (id : Text) → has_device m id ≡ is_some (find_device m id)
unfolding has_device find_device
has_device-find_device m id = refl

-- `addDevice` succeeds exactly when the ID is not empty and new; the device can then be found, all
-- others are as before, and a refused call changes nothing.
pub add_device_lem :
    (m : DeviceManager) (d : Device) (j : Text)
    → let (ok, m') = add_device m d in
      (ok ≡ (not (is_empty d.id) && not (has_device m d.id)))
      × (find_device m' j ≡ (if ok && text_beq d.id j then some d else find_device m j))
      × (device_count m' ≡ (if ok then suc (device_count m) else device_count m))
      × (ok ≡ false → m' ≡ m)
unfolding add_device has_device find_device device_count
add_device_lem m d j = ground (arith, find-put d.id j d m.devices, length-put d.id d m.devices)

-- `removeDevice` succeeds exactly when the ID is present; the device is then gone and all others
-- are as before.
pub remove_device_lem :
    (m : DeviceManager) (id j : Text)
    → let (ok, m') = remove_device m id in
      (ok ≡ has_device m id)
      × (find_device m' j ≡ (if text_beq id j then none else find_device m j))
unfolding remove_device has_device find_device
remove_device_lem m id j = ground (arith, find-erase id j m.devices, text_beq_iff id j)

pub modify_lem :
    (m : DeviceManager) (id : Text) (f : Device → Device) (j : Text)
    → let (ok, m') = modify m id f in
      (ok ≡ has_device m id)
      × (find_device m' j
          ≡ (if text_beq id j then Option_map f (find_device m j) else find_device m j))
unfolding modify has_device find_device
modify_lem m id f j = elim (Option-cases (find id m.devices)) [
  | inl e ↦ ground (arith, text_beq_iff id j)
  | inr (d, e) ↦ ground (arith, find-put id j (f d) m.devices, text_beq_iff id j)
]

pub find_device-update_tag :
    (m : DeviceManager) (id : Text) (tag : Tag) (now : ℕ) (j : Text)
    → let (ok, m') = DeviceManager.update_tag m id tag now in
      (ok ≡ (has_device m id && not (is_empty tag.name)))
      × (find_device m' j ≡ (
          if ok && text_beq id j
          then Option_map (λ d. Device.update_tag d tag now) (find_device m j)
          else find_device m j))
unfolding DeviceManager.update_tag has_device find_device
find_device-update_tag m id tag now j = elim (Option-cases (find id m.devices)) [
  | inl e ↦ ground (arith, text_beq_iff id j)
  | inr (d, e) ↦
      ground (arith, find-put id j (Device.update_tag d tag now) m.devices, text_beq_iff id j)
]

-- `updateTag` succeeds exactly when the device exists and the tag has a name. The tag then shows
-- with the time of the call, and every other tag of every device is as before.
pub update_tag_lem :
    (m : DeviceManager) (id : Text) (tag : Tag) (now : ℕ) (j name : Text)
    → let (ok, m') = DeviceManager.update_tag m id tag now in
      (ok ≡ (has_device m id && not (is_empty tag.name)))
      × (lookup_tag m' j name ≡ (
          if ok && (text_beq id j && text_beq tag.name name)
          then some (record tag { timestamp = now })
          else lookup_tag m j name))
unfolding lookup_tag
update_tag_lem m id tag now j name =
    let facts = find_device-update_tag m id tag now j in
    elim (Option-cases (find_device m j)) [
      | inl e ↦ ground (arith, has_device-find_device m id, text_beq_iff id j)
      | inr (d, e) ↦ ground (arith, find_tag-update_tag d tag now name)
    ]

find_tag-mark :
    (d : Device) (q : Quality) (now : ℕ) (name : Text)
    → find_tag (record d { tags = map_values (mark q now) d.tags }) name
      ≡ Option_map (mark q now) (find_tag d name)
unfolding find_tag
find_tag-mark d q now name = find-map_values (mark q now) name d.tags

-- `updateAllTagQualities` succeeds exactly when the device exists. Each tag of that device then has
-- the given quality and the time of the call, with its name and value kept; the tags of all other
-- devices are as before.
pub update_all_tag_qualities_lem :
    (m : DeviceManager) (id : Text) (q : Quality) (now : ℕ) (j name : Text)
    → let (ok, m') = update_all_tag_qualities m id q now in
      (ok ≡ has_device m id)
      × (lookup_tag m' j name ≡ (
          if text_beq id j
          then Option_map (mark q now) (lookup_tag m j name)
          else lookup_tag m j name))
unfolding update_all_tag_qualities has_device find_device lookup_tag
update_all_tag_qualities_lem m id q now j name = elim (Option-cases (find id m.devices)) [
  | inl e ↦ ground (arith, text_beq_iff id j)
  | inr (d, e) ↦ ground (
    arith,
    find-put id j (record d { tags = map_values (mark q now) d.tags }) m.devices,
    text_beq_iff id j,
    find_tag-mark d q now name,
  )
]

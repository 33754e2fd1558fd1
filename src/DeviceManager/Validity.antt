-- ===== src/DeviceManager/Validity.antt =====
-- The representation invariant of the device table of src/device_manager.cpp.
use edge_link.DeviceManager
use edge_link.Device
use edge_link.Prelude.{
  ℕ, ◌≡◌, refl, inl, inr, false, List, [], ◌∷◌, Bool-cases, Option-cases, is_some, Text, is_empty,
  All,
}
use edge_link.Device.{Quality, Tag, Device}
use edge_link.Device.Tags.{TagsOk, update_tag-TagsOk}
use edge_link.DeviceManager.{
  clear, step, run, DeviceManager, add_device, remove_device, modify, update_connection_state, mark,
  update_all_tag_qualities, Op, add, remove, set_state, set_tag, mark_all, clear_all,
}
use edge_link.Prelude.Dict.{
  find, put, IsUnique, put-IsUnique, erase-IsUnique, All-put, All-erase, All-find, map_values,
  map_values-IsUnique,
}
use edge_link.Prelude.Keys.{nat_eq, text_eq}

-- A device stands under its own, non-empty ID, with a well-formed tag map.
abbrev pub EntryOk : Text × Device → Type 0
EntryOk e = (e.0 ≡ e.1.id) × (is_empty e.0 ≡ false) × TagsOk e.1.tags

pub record IsValid (m : DeviceManager) : Type 0 where
  pub entries : All EntryOk m.devices
  pub unique : IsUnique m.devices

-- What a caller owes: a device that it hands over has a well-formed tag map.
abbrev pub Accepts : Op → Type 0
Accepts (add d) = TagsOk d.tags
Accepts _ = Unit {0}

mark-TagsOk :
    (q : Quality) (now : ℕ) (tags : List (Text × Tag))
    → TagsOk tags
    → TagsOk (map_values (mark q now) tags)
mark-TagsOk q now tags ok = (go tags ok.0, map_values-IsUnique (mark q now) tags ok.1)
  where
    go :
        (ts : List (Text × Tag))
        → All (λ e. (e.0 ≡ e.1.name) × (is_empty e.0 ≡ false)) ts
        → All (λ e. (e.0 ≡ e.1.name) × (is_empty e.0 ≡ false)) (map_values (mark q now) ts)
    go [] a = tt
    go ((k, v) ∷ ts) a = (a.0, go ts a.1)

put-IsValid :
    (m : DeviceManager) (id : Text) (d : Device)
    → EntryOk (id, d)
    → IsValid m
    → IsValid (record m { devices = put id d m.devices })
put-IsValid m id d h v = record {
  entries = All-put EntryOk id d m.devices h v.entries;
  unique = put-IsUnique id d m.devices v.unique;
}

modify-IsValid :
    (m : DeviceManager) (id : Text) (f : Device → Device)
    → ((d : Device) → EntryOk (id, d) → EntryOk (id, f d))
    → IsValid m
    → IsValid (modify m id f).1
unfolding modify
modify-IsValid m id f keep v = elim (Option-cases (find id m.devices)) [
  | inl e ↦ rw (e, modify) v
  | inr (d, e) ↦
      rw (e, modify) (put-IsValid m id (f d) (keep d (All-find EntryOk id m.devices v.entries e)) v)
]

add_device-IsValid :
    (m : DeviceManager) (d : Device) → TagsOk d.tags → IsValid m → IsValid (add_device m d).1
unfolding add_device
add_device-IsValid m d ok v = elim (Bool-cases (is_empty d.id)) [
  | inl e ↦ rw e v
  | inr e ↦ elim (Bool-cases (is_some (find d.id m.devices))) [
    | inl s ↦ rw (e, s) v
    | inr s ↦ rw (e, s) (put-IsValid m d.id d (refl, e, ok) v)
  ]
]

remove_device-IsValid : (m : DeviceManager) (id : Text) → IsValid m → IsValid (remove_device m id).1
unfolding remove_device
remove_device-IsValid m id v = elim (Option-cases (find id m.devices)) [
  | inl e ↦ rw (e, remove_device) v
  | inr (d, e) ↦
      rw (e, remove_device)
        (record {
          entries = All-erase EntryOk id m.devices v.entries;
          unique = erase-IsUnique id m.devices v.unique;
        })
]

update_tag-EntryOk :
    (d : Device) (id : Text) (tag : Tag) (now : ℕ)
    → is_empty tag.name ≡ false
    → EntryOk (id, d)
    → EntryOk (id, Device.update_tag d tag now)
unfolding Device.update_tag
update_tag-EntryOk d id tag now s ok = (ok.0, ok.1, update_tag-TagsOk d tag now s ok.2)

update_tag-IsValid :
    (m : DeviceManager) (id : Text) (tag : Tag) (now : ℕ)
    → IsValid m
    → IsValid (DeviceManager.update_tag m id tag now).1
unfolding DeviceManager.update_tag
update_tag-IsValid m id tag now v = elim (Option-cases (find id m.devices)) [
  | inl e ↦ rw (e, DeviceManager.update_tag) v
  | inr (d, e) ↦ elim (Bool-cases (is_empty tag.name)) [
    | inl s ↦ rw (e, DeviceManager.update_tag, s) v
    | inr s ↦
        rw (e, DeviceManager.update_tag, s)
          (put-IsValid m id (Device.update_tag d tag now)
            (update_tag-EntryOk d id tag now s (All-find EntryOk id m.devices v.entries e)) v)
  ]
]

-- Every method keeps each device under its own non-empty ID and each tag under its own non-empty
-- name, with no key twice, if the devices handed to `addDevice` have such tag maps.
pub step-IsValid : (m : DeviceManager) (op : Op) → Accepts op → IsValid m → IsValid (step m op).1
unfolding step update_connection_state update_all_tag_qualities clear
step-IsValid m (add d) ok v = add_device-IsValid m d ok v
step-IsValid m (remove id) ok v = remove_device-IsValid m id v
step-IsValid m (set_state id s) ok v = modify-IsValid m id _ (λ d h. h) v
step-IsValid m (set_tag id tag now) ok v = update_tag-IsValid m id tag now v
step-IsValid m (mark_all id q now) ok v =
    modify-IsValid m id _ (λ d h. (h.0, h.1, mark-TagsOk q now d.tags h.2)) v
step-IsValid m clear_all ok v = record { entries = tt; unique = tt }

-- After any calls on a valid table, an empty one for example, each device stands under its own
-- non-empty ID and each tag under its own non-empty name, and no key stands twice, if the devices
-- handed to `addDevice` have such tag maps.
pub devices_run-IsValid :
    (ops : List Op) (m : DeviceManager) → All Accepts ops → IsValid m → IsValid (run m ops)
unfolding run
devices_run-IsValid [] m ok v = v
devices_run-IsValid (op ∷ ops) m ok v =
    devices_run-IsValid ops (step m op).1 ok.1 (step-IsValid m op ok.0 v)

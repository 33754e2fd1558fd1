-- ===== src/DeviceManager/States.antt =====
-- Which methods of src/device_manager.cpp leave the connection states alone.
use edge_link.Device
use edge_link.Prelude.{◌≡◌, refl, not, ◌&&◌, some, arith, if◌then◌else◌, Text, is_empty}
use edge_link.Device.{Device}
use edge_link.Device.Tags.{state-update_tag}
use edge_link.DeviceManager.{
  step, DeviceManager, find_device, has_device, mark, update_all_tag_qualities, Op, add, remove,
  set_state, set_tag, mark_all, clear_all,
}
use edge_link.DeviceManager.Effects.{
  has_device-find_device, add_device_lem, modify_lem, find_device-update_tag,
}
use edge_link.Prelude.Dict.{map_values}
use edge_link.Prelude.Keys.{nat_eq, text_beq, text_beq_iff, text_eq}

-- A call on the table that neither removes a device nor sets a connection state by itself.
abbrev pub Harmless : Op → Type 0
Harmless (remove id) = ⊥
Harmless (set_state id state) = ⊥
Harmless clear_all = ⊥
Harmless _ = Unit {0}

-- Such a call leaves every device in its place and in its state.
pub step_state :
    (m : DeviceManager) (op : Op) (j : Text) (d : Device)
    → Harmless op
    → find_device m j ≡ some d
    → (d' : Device) × (find_device (step m op).1 j ≡ some d') × (d'.state ≡ d.state)
unfolding step update_all_tag_qualities
step_state m (add a) j d h f =
    let facts = add_device_lem m a j in
    let present = has_device-find_device m a.id in (d, ground (arith, text_beq_iff a.id j), refl)
step_state m (remove id) j d h f = absurd h
step_state m (set_state id state) j d h f = absurd h
step_state m (set_tag id tag now) j d h f =
    let facts = find_device-update_tag m id tag now j in
    let kept = state-update_tag d tag now in
    let hit = has_device m id && not (is_empty tag.name) && text_beq id j in
    (if hit then Device.update_tag d tag now else d, ground arith, ground arith)
step_state m (mark_all id q now) j d h f =
    let f' = λ (d : Device). record d { tags = map_values (mark q now) d.tags } in
    let facts = modify_lem m id f' j in
    (if text_beq id j then f' d else d, ground arith, ground arith)
step_state m clear_all j d h f = absurd h

-- ===== src/Device/Tags.antt =====
-- What `Device::updateTag` and `Device::findTag` of include/edgelink/device.h do to the tag map.
use edge_link.Prelude.{ℕ, ◌≡◌, refl, false, some, List, if◌then◌else◌, Text, is_empty, All}
use edge_link.Device.{update_tag, Tag, Device, find_tag}
use edge_link.Prelude.Dict.{IsUnique, find-put, put-IsUnique, All-put}
use edge_link.Prelude.Keys.{nat_eq, text_beq, text_eq}

-- Every tag stands under its own, non-empty name, and no name stands twice.
abbrev pub TagsOk : List (Text × Tag) → Type 0
TagsOk tags = All (λ e. (e.0 ≡ e.1.name) × (is_empty e.0 ≡ false)) tags × IsUnique tags

-- A lookup after an update sees the new tag under its name, stamped with the time of the update,
-- and every other tag as it was.
pub find_tag-update_tag :
    (d : Device) (tag : Tag) (now : ℕ) (name : Text)
    → find_tag (update_tag d tag now) name
      ≡ (if text_beq tag.name name then some (record tag { timestamp = now }) else find_tag d name)
unfolding find_tag update_tag
find_tag-update_tag d tag now name = find-put tag.name name _ d.tags

pub update_tag-TagsOk :
    (d : Device) (tag : Tag) (now : ℕ)
    → is_empty tag.name ≡ false
    → TagsOk d.tags
    → TagsOk (update_tag d tag now).tags
unfolding update_tag
update_tag-TagsOk d tag now h ok =
    (All-put _ tag.name _ d.tags (refl, h) ok.0, put-IsUnique tag.name _ d.tags ok.1)

pub state-update_tag : (d : Device) (tag : Tag) (now : ℕ) → (update_tag d tag now).state ≡ d.state
unfolding update_tag
state-update_tag d tag now = refl

-- ===== src/MicVirtio/Device/Tests.antt =====
-- A device that is added and deleted, and one that cannot be added.
use doublefetch.Base.{err, ◌≡◌, refl, Bytes, true, some, [], ◌∷◌, pos, ltb, if◌then◌else◌, ◌==◌}
use doublefetch.MicVirtio.{added}
use doublefetch.MicVirtio.Device.{
  Host, Held, Device, init_device_ctrl, set_up, unwind, add_with, del_device,
}
use doublefetch.MicVirtio.Device.Balance.{SameHeld, del_device-add_with}

-- A card with one device before, and a page entry for three rings
abbrev host : Host
host = record {
  self = 77;
  has_ring = λ i. true;
  is_mapped = λ i. true;
  ring_init = λ i. pos 0;
  has_buf = λ i. ltb i 2;
  irq = pos 0;
  virtio_db = 3;
  config_db = some 5;
}

abbrev entry : Bytes
entry = 0 ∷ 3 ∷ 0 ∷ 0 ∷ 0 ∷ 0 ∷ 0 ∷ 0 ∷ []

abbrev nothing : Held
nothing = record { ring_pages = λ i. 0; ring_maps = λ i. 0; buf_pages = λ i. 0; buf_maps = λ i. 0 }

abbrev device : Device
device = record {
  page = entry;
  dd = 0;
  virtio_id = 0;
  dc = init_device_ctrl;
  held = nothing;
  vdev_list = 70 ∷ [];
  sent = [];
}

abbrev added_device : Device
added_device = record {
  page = 1 ∷ 3 ∷ 0 ∷ 0 ∷ 0 ∷ 0 ∷ 0 ∷ 0 ∷ [];
  dd = 0;
  virtio_id = 1;
  dc = record init_device_ctrl { c2h_vdev_db = some 3 };
  held = (set_up host 3 0 nothing).2;
  vdev_list = 70 ∷ 77 ∷ [];
  sent = 5 ∷ [];
}

add_run : add_with host (added 1 0 entry) device ≡ some (pos 0, added_device)
unfolding add_with
add_run = refl

del_device-add_with_example :
    SameHeld host 1 nothing (del_device host added_device).held
    × ((del_device host added_device).vdev_list ≡ 70 ∷ [])
del_device-add_with_example = del_device-add_with host 1 0 entry device added_device add_run refl 1

-- The ring with the index 2 cannot be set up.
abbrev short : Host
short = record host { ring_init = λ i. if i == 2 then err 22 else pos 0 }

abbrev failed_device : Device
failed_device = record device {
  virtio_id = 1;
  held = unwind short 2 0 (set_up short 3 0 nothing).2;
}

fail_run : add_with short (added 1 0 entry) device ≡ some (err 22, failed_device)
unfolding add_with
fail_run = refl

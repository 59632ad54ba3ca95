-- ===== src/MicVirtio/Device.antt =====
-- The life of a device: `mic_init_device_ctrl`, `mic_virtio_add_device` and `mic_virtio_del_device` of
-- auto_fix/patched_files/5-patched-mic_virtio.c, as far as they hold pages and
-- mappings. The addresses that the host writes to the page are not kept.
pub mod Balance
pub mod Leak
mod Tests
use doublefetch.Base.{
  ℕ, zero, suc, ◌+◌, ◌-◌, ◌≡◌, Bool, true, false, Option, none, some, List, [], ◌∷◌, ◌++◌, Bytes,
  get_or, set, drop, ltb, ◌==◌, ◌&&◌, not, if◌then◌else◌, ℤ, pos, negsuc, err, is_zero, enomem,
}
use doublefetch.Kernel.{Kernel, M}
use doublefetch.MicVirtio.{PageCall, Outcome, failed, added, stray, num_vq, copy_dp_entry}

-- How often the pages and mappings of the ring with an index are held, and those of its buffer
pub record Held : Type 0 where
  pub ring_pages : ℕ → ℕ
  pub ring_maps : ℕ → ℕ
  pub buf_pages : ℕ → ℕ
  pub buf_maps : ℕ → ℕ

-- `struct mic_device_ctrl`
pub record Ctrl : Type 0 where
  pub config_change : ℕ
  pub guest_ack : ℕ
  pub vdev_reset : ℕ
  pub host_ack : ℕ
  pub used_address_updated : ℕ
  pub c2h_vdev_db : Option ℕ  -- `none` is -1
  pub h2c_vdev_db : Option ℕ

-- `struct mic_vdev` with the list, the page and the interrupts of its card
pub record Device : Type 0 where
  pub page : Bytes
  pub dd : ℕ
  pub virtio_id : ℕ
  pub dc : Ctrl
  pub held : Held
  pub vdev_list : List ℕ
  pub sent : List ℕ

-- What the host answers for the ring with an index, and for the interrupt
pub record Host : Type 0 where
  pub self : ℕ  -- the address of the `struct mic_vdev`
  pub has_ring : ℕ → Bool
  pub is_mapped : ℕ → Bool
  pub ring_init : ℕ → ℤ
  pub has_buf : ℕ → Bool
  pub irq : ℤ
  pub virtio_db : ℕ
  pub config_db : Option ℕ  -- h2c_config_db

-- One more of them for an index, and one fewer
abbrev pub take_one : ℕ → (ℕ → ℕ) → ℕ → ℕ
take_one i f j = if j == i then f j + 1 else f j

abbrev pub give_one : ℕ → (ℕ → ℕ) → ℕ → ℕ
give_one i f j = if j == i then f j - 1 else f j

-- `mic_init_device_ctrl`
abbrev pub init_device_ctrl : Ctrl
init_device_ctrl = record {
  config_change = 0;
  guest_ack = 0;
  vdev_reset = 0;
  host_ack = 0;
  used_address_updated = 0;
  c2h_vdev_db = none;
  h2c_vdev_db = none;
}

module _ (s : Host) where
  abbrev pub with_ring : ℕ → Held → Held
  with_ring i h = record h {
    ring_pages = take_one i h.ring_pages;
    ring_maps = take_one i h.ring_maps;
  }

  -- The buffer, whose pages are not tested for NULL
  abbrev pub with_buf : ℕ → Held → Held
  with_buf i h = record h {
    buf_pages = if s.has_buf i then take_one i h.buf_pages else h.buf_pages;
    buf_maps = take_one i h.buf_maps;
  }

  -- The loop over the rings, for those left: the result, and the index that it ends with
  unfoldable pub set_up : (n i : ℕ) → Held → ℤ × ℕ × Held
  set_up zero i h = (pos 0, i, h)
  set_up (suc n) i h = elim (s.has_ring i) [
    | false ↦ (err enomem, i, h)
    | true ↦ elim (s.is_mapped i) [
      | false ↦ (err enomem, i, record h { ring_pages = give_one i (take_one i h.ring_pages) })
      | true ↦ elim (is_zero (s.ring_init i)) [
        | false ↦ (s.ring_init i, i, with_ring i h)
        | true ↦ set_up n (i + 1) (with_buf i (with_ring i h))
      ]
    ]
  ]

  abbrev pub without_ring : ℕ → Held → Held
  without_ring i h = record h {
    ring_pages = give_one i h.ring_pages;
    ring_maps = give_one i h.ring_maps;
  }

  -- The loop at the label `err`
  unfoldable pub unwind : (n j : ℕ) → Held → Held
  unwind zero j h = h
  unwind (suc n) j h = unwind n (j + 1) (without_ring j h)

  -- The loop of `mic_virtio_del_device`
  unfoldable pub tear_down : (n i : ℕ) → Held → Held
  tear_down zero i h = h
  tear_down (suc n) i h = tear_down n (i + 1) (
      without_ring i (record h {
        buf_pages = if s.has_buf i then give_one i h.buf_pages else h.buf_pages;
        buf_maps = give_one i h.buf_maps;
      }))

  -- An interrupt of the card, where it takes any
  abbrev pub interrupted : List ℕ → List ℕ
  interrupted sent = elim s.config_db [ none ↦ sent | some db ↦ db ∷ sent ]

  -- `mic_virtio_add_device`, after `mic_copy_dp_entry`; `none` is a stray access there.
  unfoldable pub add_with : Outcome → Device → Option (ℤ × Device)
  unfolding set_up unwind
  add_with (failed ret) d = some (ret, d)
  add_with stray d = none
  add_with (added type dd page) d =
      let (ret, i, h) = set_up (num_vq (drop dd page)) 0 d.held in
      let d1 = record d { page = page; dd = dd; virtio_id = type; dc = init_device_ctrl } in
      let back = record d1 { held = unwind i 0 h } in
      elim (is_zero ret) [
        | false ↦ some (ret, back)
        | true ↦ elim (is_zero s.irq) [
          | false ↦ some (s.irq, back)
          | true ↦ some (
            pos 0,
            record d1 {
              held = h;
              page = set page dd type;
              dc = record init_device_ctrl { c2h_vdev_db = some s.virtio_db };
              vdev_list = d.vdev_list ++ (s.self ∷ []);
              sent = interrupted d.sent;
            },
          )
        ]
      ]

  -- The first entry of a list that is the device
  abbrev pub without_self : List ℕ → List ℕ
  without_self [] = []
  without_self (v ∷ vs) = if v == s.self then vs else v ∷ without_self vs

  -- `mic_virtio_del_device`. The wait for the guest changes nothing but its answer, which is cleared.
  unfoldable pub del_device : Device → Device
  unfolding tear_down
  del_device d = record d {
    dc = elim s.config_db [
      | none ↦ d.dc
      | some db ↦ record d.dc { config_change = 0; guest_ack = 0 }
    ];
    sent = interrupted d.sent;
    held = tear_down (num_vq (drop d.dd d.page)) 0 d.held;
    vdev_list = without_self d.vdev_list;
    page = set d.page d.dd 255;
  }

-- `mic_virtio_add_device`, for a page that no one else writes to
unfoldable pub add_device : Kernel → Host → ℕ → Device → M PageCall (Option (ℤ × Device))
unfolding copy_dp_entry add_with
add_device k s arg d w = let (o, w') = copy_dp_entry k arg d.page w in (add_with s o d, w')

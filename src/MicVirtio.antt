-- ===== src/MicVirtio.antt =====
-- The virtio devices of a card, as the host adds them to the device page: mic_copy_dp_entry of
-- auto_fix/bug_files/mic_virtio.c and auto_fix/patched_files/5-patched-mic_virtio.c, with the sizes of
-- cocci/testdir/truecases/mic_common.h. Iov has the copies between the rings and the user.
pub mod Slots
pub mod Page
pub mod Patch
pub mod Iov
pub mod Copy
pub mod Device
mod Tests
use doublefetch.Base.{
  ℕ, zero, suc, ◌+◌, ◌-◌, ◌*◌, ◌/◌, ◌%◌, ◌≡◌, Bool, true, false, Option, none, some, List, [], ◌∷◌,
  ◌++◌, Bytes, length, get_or, set, take, drop, overwrite, memcmp_eq, ltb, ◌==◌, ◌||◌,
  if◌then◌else◌, ℤ, err, efault, einval, enomem,
}
use doublefetch.Kernel.{Kernel, Block, M, pure, ◌>>=◌, ◌>>◌, copy_from_user, kmalloc, kfree, call}

-- `struct mic_device_desc` has eight bytes: type, num_vq, feature_len, config_len, status.
abbrev pub header_size : ℕ
header_size = 8

abbrev pub vqconfig_size : ℕ
vqconfig_size = 24

abbrev pub ctrl_size : ℕ
ctrl_size = 16

abbrev pub bootparam_size : ℕ
bootparam_size = 24

abbrev pub dp_size : ℕ
dp_size = 4096

abbrev pub desc_type : Bytes → ℕ
desc_type d = get_or d 0 0

abbrev pub num_vq : Bytes → ℕ
num_vq d = get_or d 1 0

abbrev pub feature_len : Bytes → ℕ
feature_len d = get_or d 2 0

abbrev pub config_len : Bytes → ℕ
config_len d = get_or d 3 0

unfoldable pub desc_size : Bytes → ℕ
desc_size d = header_size + num_vq d * vqconfig_size + feature_len d * 2 + config_len d

-- `__mic_align(mic_desc_size(d), 8)`
abbrev pub aligned_desc_size : Bytes → ℕ
aligned_desc_size d = (desc_size d + 7) / 8 * 8

abbrev pub total_desc_size : Bytes → ℕ
total_desc_size d = aligned_desc_size d + ctrl_size

-- What the search for a free entry of the page ends with; `astray` is a read outside the page.
pub data Slot : Type 0 where
  found : ℕ → Slot
  full : Slot
  astray : Slot

-- From an offset on. Each entry has eight bytes at least, so that the size of the page is enough fuel.
unfoldable pub find_slot : ℕ → (limit i : ℕ) → Bytes → Slot
find_slot zero limit i page = astray
find_slot (suc n) limit i page = elim (ltb i limit) [
  | false ↦ full
  | true ↦ elim (ltb (length page) (i + header_size)) [
    | true ↦ astray
    | false ↦ elim ((desc_type (drop i page) == 0) || (desc_type (drop i page) == 255)) [
      | true ↦ found i
      | false ↦ find_slot n limit (i + total_desc_size (drop i page)) page
    ]
  ]
]

-- Whether one of the rings has more than MIC_MAX_VRING_ENTRIES
unfoldable pub has_large : ℕ → ℕ → Bytes → Bool
has_large zero i config = false
has_large (suc n) i config =
    let num =
      get_or config (header_size + i * vqconfig_size + 16) 0
      + 256 * get_or config (header_size + i * vqconfig_size + 17) 0 in
    ltb 128 num || has_large n (i + 1) config

-- The store of a descriptor: its place in the page, its length, and the size of the block it is in
pub data PageCall : Type 0 where
  store : (offset len room : ℕ) → PageCall

-- What `mic_copy_dp_entry` returns; `added` has the type, the place and the page. `stray` is an access
-- outside the page.
pub data Outcome : Type 0 where
  failed : ℤ → Outcome
  added : (type devpage : ℕ) (page : Bytes) → Outcome
  stray : Outcome

abbrev pub store_at : ℕ → Bytes → Bytes → Bytes
store_at i bytes page = take i page ++ overwrite (drop i page) bytes

-- The bound of the search, an `unsigned` of 32 bits
abbrev pub slot_limit : Bytes → ℕ
slot_limit config = (dp_size + 4294967296 - total_desc_size config % 4294967296) % 4294967296

-- From the test of the rings on, for the descriptor `dd` that was checked
unfoldable pub placed : Bytes → Bytes → Bytes → M PageCall Outcome
unfolding find_slot has_large desc_size call overwrite
placed page dd config = elim (has_large (num_vq dd) 0 config) [
  | true ↦ pure (failed (err einval))
  | false ↦ elim (find_slot dp_size (slot_limit config) bootparam_size page) [
    | full ↦ pure (failed (err einval))
    | astray ↦ pure stray
    | found i ↦ do
      call (PageCall.store i (desc_size config) (length config))
      pure (added (desc_type config) i (store_at i (take (desc_size config) (set config 0 0)) page))
  ]
]

module _ (k : Kernel) where
  -- The second fetch fills the block, and the header is compared with the one that was checked.
  unfoldable pub dp_config : ℕ → Bytes → Bytes → Block → M PageCall Outcome
  unfolding copy_from_user placed memcmp_eq overwrite desc_size
  dp_config arg page dd b = do
    fetched ← copy_from_user k arg (desc_size dd)
    elim fetched [
      | none ↦ pure (failed (err efault))
      | some bytes ↦ elim (memcmp_eq header_size dd (overwrite b.bytes bytes)) [
        | true ↦ placed page dd (overwrite b.bytes bytes)
        | false ↦ pure (failed (err efault))
      ]
    ]

  -- The same before the patch
  unfoldable pub dp_config_bug : ℕ → Bytes → Bytes → Block → M PageCall Outcome
  unfolding copy_from_user placed overwrite desc_size
  dp_config_bug arg page dd b = do
    fetched ← copy_from_user k arg (desc_size dd)
    elim fetched [
      | none ↦ pure (failed (err efault))
      | some bytes ↦ placed page dd (overwrite b.bytes bytes)
    ]

  abbrev pub copy_with :
      (ℕ → Bytes → Bytes → Block → M PageCall Outcome) → ℕ → Bytes → M PageCall Outcome
  unfolding copy_from_user kmalloc kfree desc_size
  copy_with config arg page = do
    header ← copy_from_user k arg header_size
    elim header [
      | none ↦ pure (failed (err efault))
      | some dd ↦ elim (ltb 256 (aligned_desc_size dd) || ltb 4 (num_vq dd)) [
        | true ↦ pure (failed (err einval))
        | false ↦ do
          block ← kmalloc k (desc_size dd)
          elim block [
            | none ↦ pure (failed (err enomem))
            | some b ↦ do r ← config arg page dd b; kfree b.id; pure r
          ]
      ]
    ]

  -- `mic_copy_dp_entry` with the patch, and before it, for the bytes of the device page
  unfoldable pub copy_dp_entry : ℕ → Bytes → M PageCall Outcome
  unfolding copy_with dp_config
  copy_dp_entry = copy_with dp_config

  unfoldable pub copy_dp_entry_bug : ℕ → Bytes → M PageCall Outcome
  unfolding copy_with dp_config_bug
  copy_dp_entry_bug = copy_with dp_config_bug

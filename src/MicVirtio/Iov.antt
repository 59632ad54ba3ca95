-- ===== src/MicVirtio/Iov.antt =====
-- The copies between a card and the user: mic_sync_dma, mic_virtio_copy_to_user,
-- mic_virtio_copy_from_user, mic_vringh_iov_consumed and mic_vringh_copy of
-- auto_fix/patched_files/5-patched-mic_virtio.c. What the card and the user's memory answer at a time
-- is the parameter Card.
pub mod Conserve
pub mod Ranges
pub mod Overrun
use doublefetch.Base.{
  ℕ, zero, suc, ◌+◌, ◌-◌, ◌*◌, ◌/◌, ◌%◌, ◌≡◌, ◌<◌, Bool, true, false, Option, none, some, List, [],
  ◌∷◌, ltb, ◌==◌, not, if◌then◌else◌, ℤ, pos, err, is_zero, efault, enomem, ebusy, min,
}

-- The DMA engine of the card and the user's memory, at a time
pub record Card : Type 0 where
  pub alignment : ℕ  -- 1 << copy_align
  pub alignment_pos : 0 < alignment
  pub has_channel : Bool
  pub prepared : ℕ → Bool  -- device_prep_dma_memcpy returns a descriptor
  pub submitted : ℕ → ℤ  -- dma_submit_error
  pub waited : ℕ → ℤ  -- dma_sync_wait
  pub user_writes : (time addr len : ℕ) → Bool  -- copy_to_user writes every byte
  pub user_reads : (time addr len : ℕ) → Bool

-- The transfers, by their addresses and lengths
pub data IoCall : Type 0 where
  from_card : (daddr len : ℕ) → IoCall
  to_card : (daddr len : ℕ) → IoCall
  to_user : (ubuf offset len : ℕ) → IoCall  -- from an offset in the buffer
  from_user : (ubuf len : ℕ) → IoCall
  user_to_card : (ubuf daddr len : ℕ) → IoCall

-- `struct mic_vdev`, as far as the copies go, with the time
pub record Vdev : Type 0 where
  pub clock : ℕ
  pub calls : List IoCall
  pub in_bytes : ℕ
  pub in_bytes_dma : ℕ
  pub out_bytes : ℕ
  pub out_bytes_dma : ℕ
  pub tx_dst_unaligned : ℕ
  pub tx_len_unaligned : ℕ

abbrev pub int_buf_size : ℕ
int_buf_size = 65536

module _ (c : Card) where
  abbrev pub align : ℕ → ℕ
  align n = (n + (c.alignment - 1)) / c.alignment * c.alignment

  abbrev pub noted : IoCall → Vdev → Vdev
  noted call v = record v { clock = v.clock + 1; calls = call ∷ v.calls }

  -- `mic_sync_dma`
  abbrev pub sync_dma : ℕ → ℤ
  sync_dma t =
      if not c.has_channel
      then err ebusy
      else if not (c.prepared t)
      then err enomem
      else if not (is_zero (c.submitted t))
      then c.submitted t
      else c.waited t

  -- The loop of `mic_virtio_copy_to_user`; each round copies a byte at least, so that the length is
  -- enough fuel.
  unfoldable pub to_user_loop : ℕ → (ubuf len daddr offset : ℕ) → Vdev → ℤ × Vdev
  to_user_loop zero ubuf len daddr offset v = (pos 0, v)
  to_user_loop (suc n) ubuf len daddr offset v =
      let part = min len int_buf_size in
      let v1 = noted (IoCall.from_card daddr (align part)) v in
      let v2 = noted (IoCall.to_user ubuf offset (part - offset)) v1 in
      elim (len == 0) [
        | true ↦ (pos 0, v)
        | false ↦ elim (is_zero (sync_dma v.clock)) [
          | false ↦ (sync_dma v.clock, v1)
          | true ↦ elim (c.user_writes v1.clock ubuf (part - offset)) [
            | false ↦ (err efault, v2)
            | true ↦
                to_user_loop n (ubuf + part) (len - part) (daddr + part) 0 (record v2 {
                  in_bytes_dma = v2.in_bytes_dma + part;
                  in_bytes = v2.in_bytes + part;
                })
          ]
        ]
      ]

  -- `mic_virtio_copy_to_user`: the address is rounded down, and the length grows by as much.
  unfoldable pub copy_to_user : (ubuf len daddr : ℕ) → Vdev → ℤ × Vdev
  unfolding to_user_loop
  copy_to_user ubuf len daddr v =
      let offset = daddr % c.alignment in
      to_user_loop (len + offset) ubuf (len + offset) (daddr - offset) offset v

  -- The code at the label `memcpy`
  abbrev pub copied : (ubuf len daddr : ℕ) → Vdev → ℤ × Vdev
  copied ubuf len daddr v =
      let v1 = noted (IoCall.user_to_card ubuf daddr len) v in
      elim (c.user_reads v.clock ubuf len) [
        | false ↦ (err efault, v1)
        | true ↦ (pos 0, record v1 { out_bytes = v1.out_bytes + len })
      ]

  -- The loop of `mic_virtio_copy_from_user`, which ends at the label, with nothing left to copy
  unfoldable pub from_user_loop : ℕ → (ubuf len daddr : ℕ) → Vdev → ℤ × Vdev
  from_user_loop zero ubuf len daddr v = copied ubuf len daddr v
  from_user_loop (suc n) ubuf len daddr v =
      let part = min len int_buf_size in
      let v1 = noted (IoCall.from_user ubuf part) v in
      let v2 = noted (IoCall.to_card daddr (align part)) v1 in
      elim (len == 0) [
        | true ↦ copied ubuf len daddr v
        | false ↦ elim (c.user_reads v.clock ubuf part) [
          | false ↦ (err efault, v1)
          | true ↦ elim (is_zero (sync_dma v1.clock)) [
            | false ↦ (sync_dma v1.clock, v2)
            | true ↦ from_user_loop n (ubuf + part) (len - part) (daddr + part) (record v2 {
              out_bytes_dma = v2.out_bytes_dma + part;
              out_bytes = v2.out_bytes + part;
            })
          ]
        ]
      ]

  -- `mic_virtio_copy_from_user`: what is not aligned, or would reach past the descriptor's `dlen` bytes,
  -- is copied without DMA.
  unfoldable pub copy_from_user : (ubuf len daddr dlen : ℕ) → Vdev → ℤ × Vdev
  unfolding from_user_loop
  copy_from_user ubuf len daddr dlen v =
      if not ((daddr % c.alignment) == 0)
      then copied ubuf len daddr (record v { tx_dst_unaligned = v.tx_dst_unaligned + len })
      else if ltb dlen (align len)
      then copied ubuf len daddr (record v { tx_len_unaligned = v.tx_len_unaligned + len })
      else from_user_loop len ubuf len daddr v

-- An element of `iov`: its base and its length
pub record Elem : Type 0 where
  pub base : ℕ
  pub len : ℕ

-- `struct vringh_kiov`: the elements before the index `i`, the nearest first, those from `i` up to
-- `used`, and how much of the first of these is consumed
pub record Kiov : Type 0 where
  pub past : List Elem
  pub rest : List Elem
  pub consumed : ℕ

abbrev pub sum_len : List Elem → ℕ
sum_len [] = 0
sum_len (e ∷ es) = e.len + sum_len es

-- `mic_vringh_iov_consumed`, a u32
abbrev pub iov_consumed : Kiov → ℕ
iov_consumed iov = (iov.consumed + sum_len iov.past) % 4294967296

module _ (xfer : (ubuf len daddr dlen : ℕ) → Vdev → ℤ × Vdev) where
  -- `mic_vringh_copy`, with the copy of its direction: the result, `out_len` so far, the elements, the
  -- device. An element that is used up gets its length and base back.
  unfoldable pub vringh_copy :
      List Elem → (past : List Elem) (consumed ubuf len total : ℕ) → Vdev → ℤ × ℕ × Kiov × Vdev
  vringh_copy [] past consumed ubuf len total v =
      (pos 0, total, record { past = past; rest = []; consumed = consumed }, v)
  vringh_copy (e ∷ es) past consumed ubuf len total v =
      let part = min e.len len in
      let (ret, v') = xfer ubuf part e.base e.len v in
      let used = consumed + part in
      elim (len == 0) [
        | true ↦ (pos 0, total, record { past = past; rest = e ∷ es; consumed = consumed }, v)
        | false ↦ elim (is_zero ret) [
          | false ↦ (ret, total, record { past = past; rest = e ∷ es; consumed = consumed }, v')
          | true ↦ elim (e.len - part == 0) [
            | true ↦
                vringh_copy es (record { base = e.base + part - used; len = used } ∷ past) 0
                  (ubuf + part) (len - part) (total + part) v'
            | false ↦ (
              pos 0,
              total + part,
              record {
                past = past;
                rest = record { base = e.base + part; len = e.len - part } ∷ es;
                consumed = used;
              },
              v',
            )
          ]
        ]
      ]

-- ===== src/MicVirtio/Copy.antt =====
-- `_mic_virtio_copy`, `mic_verify_copy_args` and `mic_virtio_copy_desc` of
-- auto_fix/patched_files/5-patched-mic_virtio.c: the elements of a ring against those of the user.
pub mod Used
use doublefetch.Base.{
  ℕ, zero, suc, ◌+◌, ◌-◌, ◌%◌, ◌≡◌, Bool, true, false, Option, none, some, List, [], ◌∷◌, ltb, ◌==◌,
  ◌&&◌, ◌||◌, not, if◌then◌else◌, ℤ, pos, err, is_zero, is_neg, einval, enodev,
}
use doublefetch.MicVirtio.Iov.{
  Card, Vdev, Elem, Kiov, iov_consumed, vringh_copy, copy_to_user, copy_from_user,
}

-- The vringh library and the user's iovecs, at a time
pub record Source : Type 0 where
  pub getdesc : ℕ → ℤ × Kiov × Kiov × ℕ  -- vringh_getdesc_kern: the result, both iovs, the head
  pub iovec : (time addr : ℕ) → Option (ℕ × ℕ)  -- an iovec of the user: base and length
  pub needs_notify : ℕ → ℤ
  pub last_avail_idx : ℕ → ℕ

-- `struct mic_vringh`, with what was handed to the used ring: the head and the total, newest first
pub record Ring : Type 0 where
  pub riov : Kiov
  pub wiov : Kiov
  pub head : ℕ
  pub avail_idx : ℕ
  pub completed : List (ℕ × ℕ)
  pub notified : ℕ

abbrev pub ushrt_max : ℕ
ushrt_max = 65535

abbrev pub is_empty : List Elem → Bool
is_empty [] = true
is_empty (e ∷ es) = false

-- No element of either iov is left.
abbrev pub exhausted : Kiov → Kiov → Bool
exhausted riov wiov = is_empty riov.rest && is_empty wiov.rest

abbrev pub cleanup : Kiov
cleanup = record { past = []; rest = []; consumed = 0 }

-- What the loop changes: the result, `out_len`, both iovs, the device
pub record Loop : Type 0 where
  pub ret : ℤ
  pub out_len : ℕ
  pub riov : Kiov
  pub wiov : Kiov
  pub vdev : Vdev

module _ (c : Card) (s : Source) where
  -- The read descriptors first: from the card to the user
  abbrev pub read_iov : (ubuf len : ℕ) → Loop → ℤ × ℕ × Kiov × Vdev
  read_iov ubuf len l =
      vringh_copy (λ u n d dlen v. copy_to_user c u n d v) l.riov.rest l.riov.past l.riov.consumed
        ubuf len 0 l.vdev

  abbrev pub write_iov : (ubuf len : ℕ) → Loop → ℤ × ℕ × Kiov × Vdev
  write_iov ubuf len l =
      vringh_copy (λ u n d dlen v. copy_from_user c u n d dlen v) l.wiov.rest l.wiov.past
        l.wiov.consumed ubuf len 0 l.vdev

  -- One round with an iovec of the user: what is left of it, and the state. Where a copy fails, its
  -- `out_len` is not added.
  unfoldable pub round : (ubuf len : ℕ) → Loop → ℕ × Loop
  round ubuf len l =
      let (r1, o1, riov, v1) = read_iov ubuf len l in
      let l1 : Loop = record {
        ret = r1;
        out_len = l.out_len + o1;
        riov = riov;
        wiov = l.wiov;
        vdev = v1;
      } in
      let (r2, o2, wiov, v2) = write_iov (ubuf + o1) (len - o1) l1 in
      elim (is_zero r1) [
        | false ↦ (len, record l1 { out_len = l.out_len })
        | true ↦ elim (is_zero r2) [
          | false ↦ (len - o1, record l1 { ret = r2; wiov = wiov; vdev = v2 })
          | true ↦ (
            len - o1 - o2,
            record l1 { ret = r2; out_len = l.out_len + o1 + o2; wiov = wiov; vdev = v2 },
          )
        ]
      ]

  -- The loop over the user's iovecs, of which `len` bytes at `ubuf` are left of the last. `none` is
  -- fuel that ran out.
  unfoldable pub copy_loop : ℕ → (iovcnt u_iov ubuf len : ℕ) → Loop → Option Loop
  unfolding round
  copy_loop zero iovcnt u_iov ubuf len l = none
  copy_loop (suc n) iovcnt u_iov ubuf len l = elim (iovcnt == 0) [
    | true ↦ some l
    | false ↦ elim (if len == 0 then s.iovec l.vdev.clock u_iov else some (ubuf, len)) [
      | none ↦ some (record l { ret = err einval })
      | some (base, size) ↦
          let (left, l') = round base size l in
          elim (is_zero l'.ret) [
            | false ↦ some l'
            | true ↦ elim (exhausted l'.riov l'.wiov) [
              | true ↦ some l'
              | false ↦ elim (left == 0) [
                | true ↦ copy_loop n (iovcnt - 1) (u_iov + 16) 0 0 l'
                | false ↦ copy_loop n iovcnt u_iov (base + (size - left)) left l'
              ]
            ]
          ]
    ]
  ]

  -- The update of the used ring, where a descriptor was at hand, data was copied and the user asked
  abbrev pub completed : (update_used : Bool) → Loop → Ring → Ring
  completed update_used l r =
      let both = (iov_consumed l.riov + iov_consumed l.wiov) % 4294967296 in
      if not (r.head == ushrt_max) && not (l.out_len == 0) && update_used
      then record {
        riov = cleanup;
        wiov = cleanup;
        head = ushrt_max;
        avail_idx = s.last_avail_idx l.vdev.clock;
        completed = (r.head, both) ∷ r.completed;
        notified =
            if not (is_neg (s.needs_notify l.vdev.clock))
              && not (is_zero (s.needs_notify l.vdev.clock))
            then r.notified + 1
            else r.notified;
      }
      else record r { riov = l.riov; wiov = l.wiov }

  -- From a ring that has elements on, with `ret` as it is then
  unfoldable pub copy_with :
      ℤ → (iovcnt u_iov : ℕ) → Bool → Ring → Vdev → Option (ℤ × ℕ × Ring × Vdev)
  unfolding copy_loop
  copy_with ret iovcnt u_iov update_used r v =
      elim (copy_loop (iovcnt + 1) iovcnt u_iov 0 0
        (record { ret = ret; out_len = 0; riov = r.riov; wiov = r.wiov; vdev = v })) [
          | none ↦ none
          | some l ↦ some (l.ret, l.out_len, completed update_used l r, l.vdev)
        ]

  -- `_mic_virtio_copy`: the result, `out_len`, the ring, the device
  unfoldable pub virtio_copy :
      (iovcnt u_iov : ℕ) → Bool → Ring → Vdev → Option (ℤ × ℕ × Ring × Vdev)
  unfolding copy_with
  virtio_copy iovcnt u_iov update_used r v =
      let (ret, riov, wiov, head) = s.getdesc v.clock in
      let fresh = record r { riov = riov; wiov = wiov; head = head } in
      if exhausted r.riov r.wiov
      then if is_neg ret || is_zero ret
        then some (ret, 0, fresh, v)
        else copy_with ret iovcnt u_iov update_used fresh v
      else copy_with (pos 0) iovcnt u_iov update_used r v

  -- `mic_virtio_copy_desc` with `mic_verify_copy_args`, for the ring of that index
  unfoldable pub copy_desc :
      (num_vq vr_idx : ℕ) (is_up : Bool) (iovcnt u_iov : ℕ)
      → Bool
      → Ring
      → Vdev
      → Option (ℤ × ℕ × Ring × Vdev)
  unfolding virtio_copy
  copy_desc num_vq vr_idx is_up iovcnt u_iov update_used r v =
      if not (ltb vr_idx num_vq)
      then some (err einval, 0, r, v)
      else if not is_up
      then some (err enodev, 0, r, v)
      else virtio_copy iovcnt u_iov update_used r v

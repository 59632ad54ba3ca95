-- ===== src/CrosDev/Safety.antt =====
-- What the patched transfer of a command guarantees: no block is leaked, and what reaches the
-- controller is what was checked.
use doublefetch.Base.{
  ℕ, ◌+◌, ◌≤◌, ◌≡◌, ◌⊎◌, inl, inr, ◌∷◌, Bytes, length, arith, overwrite, memcmp_eq, some,
  length-overwrite, read-overwrite, err, efault, is_neg, take, Bool-cases, max, ◌≢◌, length-take,
  Option-cases, refl, memcmp_ne,
}
use doublefetch.Kernel.{Kernel, Block, World, kmalloc, ◌>>=◌}
use doublefetch.CrosDev.{Command, Controller, EcCall, xcmd_send, xcmd_filled, ioctl_xcmd}

module _ (k : Kernel) (s : Command) (ec : Controller) where
  live-xcmd_filled :
      (arg : ℕ) (u : Bytes) (b : Block) (w : World EcCall)
      → (xcmd_filled k s ec arg u b w).1.live ≡ w.live
  unfolding xcmd_filled
  live-xcmd_filled arg u b w = ground arith

  -- Whatever the fetches, the allocation and the controller do, the patched handler leaves exactly
  -- the blocks allocated that were allocated before it.
  pub live-ioctl_xcmd : (arg : ℕ) (w : World EcCall) → (ioctl_xcmd k s ec arg w).1.live ≡ w.live
  unfolding ioctl_xcmd
  live-ioctl_xcmd arg w = ground arith

  -- A message that the controller may read and answer within its block, with the sizes of `u`.
  pub record IsChecked (u m : Bytes) : Type 0 where
    pub same_out : s.outsize.read m ≡ s.outsize.read u
    pub same_in : s.insize.read m ≡ s.insize.read u
    pub out_fits : s.size + s.outsize.read m ≤ length m
    pub in_fits : s.size + s.insize.read m ≤ length m

  -- What a run from `w` to `w'` handed to the controller and to the user.
  abbrev pub SentChecked : ℕ → Bytes → World EcCall → World EcCall → Type 0
  SentChecked arg u w w' =
      ((w'.calls ≡ w.calls) × (w'.writes ≡ w.writes))
      ⊎ ((m : Bytes) × (w'.calls ≡ EcCall.xfer m ∷ w.calls)
          × IsChecked u m
          × ((w'.writes ≡ w.writes)
              ⊎ ((t : ℕ) × (r : Bytes) × (w'.writes ≡ (arg, r) ∷ w.writes)
                  × (r ≡ take (s.size + s.insize.read u) (ec.xfer t m).1)
                  × (length r ≡ s.size + s.insize.read u))))

  sent-xcmd_send :
      (arg : ℕ) (u m : Bytes) (w : World EcCall)
      → s.outsize.read m ≡ s.outsize.read u
      → s.insize.read m ≡ s.insize.read u
      → s.size + s.outsize.read u ≤ length m
      → s.size + s.insize.read u ≤ length m
      → SentChecked arg u w (xcmd_send k s ec arg u m w).1
  unfolding xcmd_send
  sent-xcmd_send arg u m w eo ei lo li = inr (msg, ground arith, checked, out)
    where
      msg : Bytes
      msg = s.add_command ec.cmd_offset m

      checked : IsChecked u msg
      checked = ground (
        arith,
        s.length_kept ec.cmd_offset m,
        s.outsize_kept ec.cmd_offset m,
        s.insize_kept ec.cmd_offset m,
      )

      reply : Bytes
      reply = take (s.size + s.insize.read u) (ec.xfer w.clock msg).1

      out :
          ((xcmd_send k s ec arg u m w).1.writes ≡ w.writes)
          ⊎ ((t : ℕ) × (r : Bytes) × ((xcmd_send k s ec arg u m w).1.writes ≡ (arg, r) ∷ w.writes)
              × (r ≡ take (s.size + s.insize.read u) (ec.xfer t msg).1)
              × (length r ≡ s.size + s.insize.read u))
      out = elim (Bool-cases (is_neg (ec.xfer w.clock msg).0)) [
        | inl e ↦ inl (ground arith)
        | inr e ↦ inr (
          w.clock,
          reply,
          ground arith,
          refl,
          omega (
            arith,
            length-take (s.size + s.insize.read u) (ec.xfer w.clock msg).1,
            ec.xfer_length w.clock msg,
            s.length_kept ec.cmd_offset m,
          ),
        )
      ]

  sent-xcmd_filled :
      (arg : ℕ) (u : Bytes) (b : Block) (w : World EcCall)
      → length b.bytes ≡ s.size + max (s.outsize.read u) (s.insize.read u)
      → SentChecked arg u w (xcmd_filled k s ec arg u b w).1
  unfolding xcmd_filled
  sent-xcmd_filled arg u b w h =
      elim (Option-cases (k.fetch w.clock arg (s.size + s.outsize.read u))) [
        | inl e ↦ rw e (inl (refl, refl))
        | inr (d, e) ↦ elim (Bool-cases (memcmp_eq s.size u (overwrite b.bytes d))) [
          | inl same ↦
              let len = k.fetch_length w.clock arg (s.size + s.outsize.read u) d e in
              let full = length-overwrite b.bytes d (omega arith) in
              rw (e, same)
                (sent-xcmd_send arg u (overwrite b.bytes d) (record w { clock = w.clock + 1 })
                  (read-overwrite s.size s.outsize u b.bytes d same)
                  (read-overwrite s.size s.insize u b.bytes d same) (omega arith) (omega arith))
          | inr differ ↦ rw (e, differ) (inl (refl, refl))
        ]
      ]

  -- If the first fetch returns `u`, the patched handler calls the controller at most once, and then
  -- with the sizes of `u`, in a message that reaches as far as both sizes say; and it copies at most
  -- once to the user: the header and as many bytes of data as `u` asks for, which are the first
  -- bytes of that message as the controller leaves it.
  pub sent-ioctl_xcmd :
      (arg : ℕ) (u : Bytes) (w : World EcCall)
      → k.fetch w.clock arg s.size ≡ some u
      → SentChecked arg u w (ioctl_xcmd k s ec arg w).1
  unfolding ioctl_xcmd
  sent-ioctl_xcmd arg u w e = elim (Option-cases (k.fresh (w.clock + 1) n)) [
    | inl none_left ↦ inl (ground arith, ground arith)
    | inr (b, got) ↦
        rw (e, ◌>>=◌, kmalloc, got)
          (sent-xcmd_filled arg u (record { id = w.clock + 1; bytes = b })
            (record {
              clock = w.clock + 1 + 1;
              live = (w.clock + 1) ∷ w.live;
              writes = w.writes;
              calls = w.calls;
            })
            (k.fresh_length (w.clock + 1) n b got))
  ]
    where
      n : ℕ
      n = s.size + max (s.outsize.read u) (s.insize.read u)

  -- When the second fetch returns another header than the first, the patched handler fails with
  -- EFAULT, and neither the controller nor the user gets anything.
  pub ioctl_xcmd-differ :
      (arg : ℕ) (u d b : Bytes) (w : World EcCall)
      → k.fetch w.clock arg s.size ≡ some u
      → k.fresh (w.clock + 1) (s.size + max (s.outsize.read u) (s.insize.read u)) ≡ some b
      → k.fetch (w.clock + 1 + 1) arg (s.size + s.outsize.read u) ≡ some d
      → take s.size d ≢ take s.size u
      → ((ioctl_xcmd k s ec arg w).0 ≡ err efault)
        × ((ioctl_xcmd k s ec arg w).1.calls ≡ w.calls)
        × ((ioctl_xcmd k s ec arg w).1.writes ≡ w.writes)
  unfolding ioctl_xcmd xcmd_filled
  ioctl_xcmd-differ arg u d b w e1 e2 e3 ne =
      ground (arith, memcmp_ne s.size u b d (omega (arith, k.fetch_length _ _ _ d e3)) ne)

-- ===== src/CrosDev/Patch.antt =====
-- The patched and the unpatched transfer of a command side by side.
use doublefetch.Base.{
  ℕ, ◌+◌, ◌<◌, ◌≡◌, ◌∷◌, Bytes, length, arith, overwrite, some, max, take, inl, inr, Option-cases,
  refl, memcmp_same, length-overwrite, take-overwrite,
}
use doublefetch.Kernel.{Kernel, Block, World}
use doublefetch.CrosDev.{
  Command, Controller, EcCall, xcmd_send, xcmd_filled, xcmd_filled_bug, ioctl_xcmd, ioctl_xcmd_bug,
}

module _ (k : Kernel) (s : Command) (ec : Controller) where
  filled-eq-bug :
      (arg : ℕ) (u : Bytes) (b : Block) (w : World EcCall)
      → ((d : Bytes)
          → k.fetch w.clock arg (s.size + s.outsize.read u) ≡ some d
          → take s.size d ≡ take s.size u)
      → xcmd_filled k s ec arg u b w ≡ xcmd_filled_bug k s ec arg u b w
  unfolding xcmd_filled xcmd_filled_bug
  filled-eq-bug arg u b w same =
      elim (Option-cases (k.fetch w.clock arg (s.size + s.outsize.read u))) [
        | inl e ↦ rw e refl
        | inr (d, e) ↦
            rw
              (
                e,
                memcmp_same s.size u b.bytes d
                    (omega (arith, k.fetch_length w.clock arg (s.size + s.outsize.read u) d e))
                    (same d e),
              )
              refl
      ]

  -- If the second fetch returns the header that the first returned, or fails, the patched handler
  -- has the same result and leaves the same state as the unpatched one.
  pub ioctl_xcmd-eq-bug :
      (arg : ℕ) (w : World EcCall)
      → ((u d : Bytes)
          → k.fetch w.clock arg s.size ≡ some u
          → k.fetch (w.clock + 1 + 1) arg (s.size + s.outsize.read u) ≡ some d
          → take s.size d ≡ take s.size u)
      → ioctl_xcmd k s ec arg w ≡ ioctl_xcmd_bug k s ec arg w
  unfolding ioctl_xcmd ioctl_xcmd_bug
  ioctl_xcmd-eq-bug arg w same = elim (Option-cases (k.fetch w.clock arg s.size)) [
    | inl e ↦ rw e refl
    | inr (u, e) ↦
        elim (Option-cases
          (k.fresh (w.clock + 1) (s.size + max (s.outsize.read u) (s.insize.read u)))) [
            | inl e2 ↦ ground arith
            | inr (b, e2) ↦ ground (
              arith,
              filled-eq-bug arg u (record { id = w.clock + 1; bytes = b })
                  (record {
                    clock = w.clock + 1 + 1;
                    live = (w.clock + 1) ∷ w.live;
                    writes = w.writes;
                    calls = w.calls;
                  })
                  (λ d ed. same u d e ed),
            )
          ]
  ]

  -- Before the patch, a second fetch whose header asks for a longer answer than both sizes that were
  -- checked makes the handler call the controller with a message whose answer does not fit the block.
  pub ioctl_xcmd_bug-overrun :
      (arg : ℕ) (u d b : Bytes) (w : World EcCall)
      → k.fetch w.clock arg s.size ≡ some u
      → k.fresh (w.clock + 1) (s.size + max (s.outsize.read u) (s.insize.read u)) ≡ some b
      → k.fetch (w.clock + 1 + 1) arg (s.size + s.outsize.read u) ≡ some d
      → max (s.outsize.read u) (s.insize.read u) < s.insize.read d
      → (m : Bytes) × ((ioctl_xcmd_bug k s ec arg w).1.calls ≡ EcCall.xfer m ∷ w.calls)
        × (length m < s.size + s.insize.read m)
  unfolding ioctl_xcmd_bug xcmd_filled_bug xcmd_send
  ioctl_xcmd_bug-overrun arg u d b w e1 e2 e3 big =
      let len = k.fetch_length (w.clock + 1 + 1) arg (s.size + s.outsize.read u) d e3 in
      let room =
        k.fresh_length (w.clock + 1) (s.size + max (s.outsize.read u) (s.insize.read u)) b e2 in
      let same = s.insize.local (overwrite b d) d (take-overwrite s.size b d (omega arith)) in
      (
        s.add_command ec.cmd_offset (overwrite b d),
        ground arith,
        omega (
          arith,
          s.length_kept ec.cmd_offset (overwrite b d),
          s.insize_kept ec.cmd_offset (overwrite b d),
          length-overwrite b d (omega arith),
        ),
      )

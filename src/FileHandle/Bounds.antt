-- ===== src/FileHandle/Bounds.antt =====
-- What reaches the decoder of a file system lies in the block that the handle was read into.
use doublefetch.Base.{
  ℕ, ◌+◌, ◌*◌, ◌≤◌, ◌<◌, ◌≡◌, List, [], ◌∷◌, Bytes, length, overwrite, memcmp_eq, some, none, inl,
  inr, err, enomem, Option-cases, Bool-cases, length-drop, length-overwrite, read-overwrite, arith,
  ℤ, ◌||◌, ltb, ◌==◌, false, true, take-overwrite,
}
use doublefetch.Kernel.{Kernel, Block, World, ◌>>=◌, tick, call, kmalloc, kfree, pure, ◌>>◌}
use doublefetch.FileHandle.{
  Handle, FileSystem, FsCall, Lookup, failed, is_cwd, decoded, do_handle_to_path, full_handle,
  handle_to_path, handle_to_path_bug,
}

-- The decoder reads `dwords` words of four bytes.
abbrev pub InBounds : FsCall → Type 0
InBounds (FsCall.decode mnt fid dwords type) = 4 * dwords ≤ length fid
InBounds _ = Unit

abbrev pub AllInBounds : List FsCall → Type 0
AllInBounds [] = Unit
AllInBounds (c ∷ cs) = InBounds c × AllInBounds cs

module _ (k : Kernel) (s : Handle) (fs : FileSystem) where
  bounds-decoded :
      (mnt : ℕ) (h : Bytes) (w : World FsCall)
      → s.size + s.handle_bytes.read h ≤ length h
      → AllInBounds w.calls
      → AllInBounds (decoded s fs mnt h w).1.calls
  unfolding decoded
  bounds-decoded mnt h w fits old = ground (arith, length-drop s.size h)

  bounds-do_handle_to_path :
      (fd : ℤ) (h : Bytes) (w : World FsCall)
      → s.size + s.handle_bytes.read h ≤ length h
      → AllInBounds w.calls
      → AllInBounds (do_handle_to_path s fs fd h w).1.calls
  unfolding do_handle_to_path
  bounds-do_handle_to_path fd h w fits old = elim (Bool-cases (is_cwd fs fd)) [
    | inl e ↦
        rw (e, ◌>>=◌, call)
          (bounds-decoded (fs.pwd_mnt w.clock) h
            (record (tick w) { calls = FsCall.mntget (fs.pwd_mnt w.clock) ∷ w.calls }) fits
            (tt, old))
    | inr e ↦ elim (Option-cases (fs.fd_mnt w.clock fd)) [
      | inl bad ↦ rw (e, bad, ◌>>=◌) old
      | inr (mnt, e2) ↦
          rw (e, e2, ◌>>=◌, call)
            (bounds-decoded mnt h (record (tick w) { calls = FsCall.mntget mnt ∷ w.calls }) fits
              (tt, old))
    ]
  ]

  bounds-full_handle :
      (fd : ℤ) (p : ℕ) (u : Bytes) (b : Block) (w : World FsCall)
      → length b.bytes ≡ s.size + s.handle_bytes.read u
      → AllInBounds w.calls
      → AllInBounds (full_handle k s fs fd p u b w).1.calls
  unfolding full_handle
  bounds-full_handle fd p u b w room old =
      elim (Option-cases (k.fetch w.clock p (s.size + s.handle_bytes.read u))) [
        | inl e ↦ rw e old
        | inr (d, e) ↦
            let len = k.fetch_length w.clock p (s.size + s.handle_bytes.read u) d e in
            elim (Bool-cases (memcmp_eq s.size u (overwrite b.bytes d))) [
              | inl same ↦
                  let full = length-overwrite b.bytes d (omega arith) in
                  let field = read-overwrite s.size s.handle_bytes u b.bytes d same in
                  rw (e, same)
                    (bounds-do_handle_to_path fd (overwrite b.bytes d) (tick w) (omega arith) old)
              | inr differ ↦ rw (e, differ) old
            ]
      ]

  -- `handle_to_path` from the allocation on
  abbrev allocated : ℤ → ℕ → Bytes → World FsCall → Lookup × World FsCall
  unfolding kmalloc kfree
  allocated fd p u w =
      (do
        block ← kmalloc k (s.size + s.handle_bytes.read u)
        elim block [
          | none ↦ pure (failed (err enomem))
          | some b ↦ do r ← full_handle k s fs fd p u b; kfree b.id; pure r
        ])
        w

  bounds-allocated :
      (fd : ℤ) (p : ℕ) (u : Bytes) (w : World FsCall)
      → AllInBounds w.calls
      → AllInBounds (allocated fd p u w).1.calls
  unfolding allocated
  bounds-allocated fd p u w old =
      elim (Option-cases (k.fresh w.clock (s.size + s.handle_bytes.read u))) [
        | inl e ↦ rw (◌>>=◌, kmalloc, e) old
        | inr (b, e) ↦
            rw (◌>>=◌, kmalloc, e)
              (bounds-full_handle fd p u (record { id = w.clock; bytes = b })
                (record (tick w) { live = w.clock ∷ w.live })
                (k.fresh_length w.clock (s.size + s.handle_bytes.read u) b e) old)
      ]

  -- Whatever user space writes between the two fetches, every call of a decoder that the patched
  -- `handle_to_path` adds stays within the bytes that were fetched.
  pub bounds-handle_to_path :
      (fd : ℤ) (p : ℕ) (w : World FsCall)
      → AllInBounds w.calls
      → AllInBounds (handle_to_path k s fs fd p w).1.calls
  unfolding handle_to_path allocated
  bounds-handle_to_path fd p w old = elim (Bool-cases (fs.capable w.clock)) [
    | inr e ↦ rw (AllInBounds, e) old
    | inl e ↦ elim (Option-cases (k.fetch w.clock p s.size)) [
      | inl e2 ↦ rw (AllInBounds, e, ◌>>=◌, e2) old
      | inr (u, e2) ↦
          elim (Bool-cases
            (ltb s.max_size (s.handle_bytes.read u) || (s.handle_bytes.read u == 0))) [
              | inl e3 ↦ rw (AllInBounds, e, ◌>>=◌, e2, e3) old
              | inr e3 ↦ rw (AllInBounds, e, ◌>>=◌, e2, e3) (bounds-allocated fd p u (tick w) old)
            ]
    ]
  ]

  -- Before the patch, a caller with the capability who makes the second fetch return a larger
  -- `handle_bytes`, by a word or more, has a decoder read past the bytes that were fetched.
  pub handle_to_path_bug-overrun :
      (fd : ℤ) (p mnt : ℕ) (u d b : Bytes) (w : World FsCall)
      → fs.capable w.clock ≡ true
      → k.fetch w.clock p s.size ≡ some u
      → 0 < s.handle_bytes.read u
      → s.handle_bytes.read u ≤ s.max_size
      → k.fresh (w.clock + 1) (s.size + s.handle_bytes.read u) ≡ some b
      → k.fetch (w.clock + 1 + 1) p (s.size + s.handle_bytes.read u) ≡ some d
      → s.handle_bytes.read u + 4 ≤ s.handle_bytes.read d
      → is_cwd fs fd ≡ false
      → fs.fd_mnt (w.clock + 1 + 1 + 1) fd ≡ some mnt
      → ¬ AllInBounds (handle_to_path_bug k s fs fd p w).1.calls
  unfolding handle_to_path_bug do_handle_to_path decoded
  handle_to_path_bug-overrun fd p mnt u d b w cap e1 low high e2 e3 big cwd e4 all =
      let len = k.fetch_length (w.clock + 1 + 1) p (s.size + s.handle_bytes.read u) d e3 in
      let room = k.fresh_length (w.clock + 1) (s.size + s.handle_bytes.read u) b e2 in
      let field =
        s.handle_bytes.local (overwrite b d) d (take-overwrite s.size b d (omega arith)) in
      let full = length-overwrite b d (omega arith) in
      ground (arith, length-drop s.size (overwrite b d))

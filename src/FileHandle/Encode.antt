-- ===== src/FileHandle/Encode.antt =====
-- `name_to_handle_at`: a path is encoded as a handle, which is copied to the user.
use doublefetch.Base.{
  ℕ, ◌+◌, ◌*◌, ◌/◌, ◌%◌, ◌^◌, ◌≤◌, ◌≡◌, ◌⊎◌, inl, inr, ◌∷◌, Bool, true, false, none, some, Bytes,
  length, take, ◌++◌, overwrite, ℤ, pos, err, is_err, is_pos, efault, enomem, einval, eopnotsupp,
  eoverflow, enospc, ltb, if◌then◌else◌, ◌||◌, arith, length-take, length-overwrite, length-append,
  ◌∙◌, Bool-cases,
}
use doublefetch.Kernel.{
  Kernel, Block, World, M, pure, ◌>>=◌, ◌>>◌, copy_from_user, copy_to_user, kmalloc, kfree, call,
  now, tick,
}
use doublefetch.FileHandle.{Handle, FsCall}
use doublefetch.FileHandle.Balance.{Balanced}

-- The side of a file system that encodes.
pub record Encoder : Type 0 where
  pub can_decode : ℕ → Bool  -- `s_export_op` has `fh_to_dentry`
  -- the result, the words that are used or wanted, and the bytes written: at most the room given
  pub encode_fh : ℕ → ℕ → ℕ → ℤ × ℕ × Bytes
  pub encode_room : (t dentry room : ℕ) → length (encode_fh t dentry room).2 ≤ 4 * room
  pub invalid : ℕ  -- FILEID_INVALID
  pub mnt_id : ℕ → Bytes
  pub flag_follow : ℕ → Bool  -- AT_SYMLINK_FOLLOW
  pub flag_empty : ℕ → Bool  -- AT_EMPTY_PATH
  pub flag_other : ℕ → Bool  -- any other bit
  -- LOOKUP_FOLLOW and LOOKUP_EMPTY asked for, or not
  pub user_path_at : ℕ → ℤ → ℕ → Bool → Bool → (ℕ × ℕ) ⊎ ℕ

module _ (k : Kernel) (s : Handle) (e : Encoder) where
  -- `handle_bytes` after the encoding, 0 where the handle is not to be copied
  abbrev pub is_overflow : ℤ → ℕ → ℕ → Bool
  is_overflow retval bytes room =
      ltb room bytes || (is_pos e.invalid retval || is_err enospc retval)

  -- The encoded handle in its block: the words behind the header, then type and size.
  abbrev pub filled : Bytes → ℤ → ℕ → Bytes → Bytes
  filled block retval bytes fid =
      s.set_bytes bytes (s.set_type retval (overwrite block (take s.size block ++ fid)))

  -- both copies to the user
  unfoldable pub copy_out : ℕ → ℕ → ℕ → Bytes → ℤ → M FsCall ℤ
  unfolding copy_to_user
  copy_out mnt ufh mnt_id handle retval = do
    first ← copy_to_user k mnt_id (e.mnt_id mnt)
    elim first [
      | false ↦ pure (err efault)
      | true ↦ do second ← copy_to_user k ufh handle; pure (if second then retval else err efault)
    ]

  unfoldable pub encoded : ℕ → ℕ → ℕ → ℕ → Bytes → Block → M FsCall ℤ
  unfolding copy_out call now
  encoded mnt dentry ufh mnt_id f_handle b = do
    t ← now
    let room = s.handle_bytes.read f_handle
    call (FsCall.encode dentry (room / 4))
    let (retval, dwords, fid) = e.encode_fh t dentry (room / 4)
    let bytes = dwords * 4 % 2 ^ 32
    elim (is_overflow retval bytes room) [
      | true ↦
          copy_out mnt ufh mnt_id (take (s.size + 0) (filled b.bytes retval bytes fid))
            (err eoverflow)
      | false ↦
          copy_out mnt ufh mnt_id (take (s.size + bytes) (filled b.bytes retval bytes fid)) (pos 0)
    ]

  unfoldable pub do_sys_name_to_handle : ℕ → ℕ → ℕ → ℕ → M FsCall ℤ
  unfolding encoded copy_from_user kmalloc kfree
  do_sys_name_to_handle mnt dentry ufh mnt_id = elim (e.can_decode dentry) [
    | false ↦ pure (err eopnotsupp)
    | true ↦ do
      header ← copy_from_user k ufh s.size
      elim header [
        | none ↦ pure (err efault)
        | some f_handle ↦ elim (ltb s.max_size (s.handle_bytes.read f_handle)) [
          | true ↦ pure (err einval)
          | false ↦ do
            block ← kmalloc k (s.size + s.handle_bytes.read f_handle)
            elim block [
              | none ↦ pure (err enomem)
              | some b ↦ do r ← encoded mnt dentry ufh mnt_id f_handle b; kfree b.id; pure r
            ]
        ]
      ]
  ]

  unfoldable pub name_to_handle_at : ℤ → ℕ → ℕ → ℕ → ℕ → M FsCall ℤ
  unfolding do_sys_name_to_handle call now
  name_to_handle_at dfd name handle mnt_id flag = do
    t ← now
    elim (e.flag_other flag) [
      | true ↦ pure (err einval)
      | false ↦ elim (e.user_path_at t dfd name (e.flag_follow flag) (e.flag_empty flag)) [
        | inr n ↦ pure (err n)
        | inl (mnt, dentry) ↦ do
          call (FsCall.path_get mnt dentry)
          r ← do_sys_name_to_handle mnt dentry handle mnt_id
          call (FsCall.path_put mnt dentry)
          pure r
      ]
    ]

  balance-encoded :
      (mnt dentry ufh mnt_id : ℕ) (u : Bytes) (b : Block) (w : World FsCall)
      → Balanced 0 w (encoded mnt dentry ufh mnt_id u b w).1
  unfolding encoded
  balance-encoded mnt dentry ufh mnt_id u b w = ground arith

  balance-do_sys_name_to_handle :
      (mnt dentry ufh mnt_id : ℕ) (w : World FsCall)
      → Balanced 0 w (do_sys_name_to_handle mnt dentry ufh mnt_id w).1
  unfolding do_sys_name_to_handle
  balance-do_sys_name_to_handle mnt dentry ufh mnt_id w = grind (arith, balance-encoded)

  -- `name_to_handle_at` gives back the path that it looks up and frees its block, on every path.
  pub balance-name_to_handle_at :
      (dfd : ℤ) (name handle mnt_id flag : ℕ) (w : World FsCall)
      → Balanced 0 w (name_to_handle_at dfd name handle mnt_id flag w).1
  unfolding name_to_handle_at
  balance-name_to_handle_at dfd name handle mnt_id flag w =
      grind (arith, balance-do_sys_name_to_handle)

  -- From `w` to `w'` the mount's number was handed to the user, and after it the handle, if at all:
  -- `n` bytes behind its header, no more than the room that the user gave.
  abbrev pub Copied : ℕ → ℕ → ℕ → ℕ → World FsCall → World FsCall → Type 0
  Copied mnt ufh mnt_id room w w' =
      (w'.writes ≡ (mnt_id, e.mnt_id mnt) ∷ w.writes)
      ⊎ ((r : Bytes) × (n : ℕ) × (w'.writes ≡ (ufh, r) ∷ (mnt_id, e.mnt_id mnt) ∷ w.writes)
          × (length r ≡ s.size + n)
          × (n ≤ room))

  Copied-copy_out :
      (mnt ufh mnt_id room n : ℕ) (h : Bytes) (retval : ℤ) (w : World FsCall)
      → length h ≡ s.size + n
      → n ≤ room
      → Copied mnt ufh mnt_id room w (copy_out mnt ufh mnt_id h retval w).1
  unfolding copy_out
  Copied-copy_out mnt ufh mnt_id room n h retval w len le =
      elim (Bool-cases (k.store w.clock mnt_id (e.mnt_id mnt))) [
        | inl ok ↦ inr (h, n, ground arith, len, le)
        | inr bad ↦ inl (ground arith)
      ]

  length-filled :
      (b : Bytes) (retval : ℤ) (bytes : ℕ) (fid : Bytes)
      → s.size + length fid ≤ length b
      → length (filled b retval bytes fid) ≡ length b
  length-filled b retval bytes fid le = omega (
    arith,
    s.length_bytes bytes (s.set_type retval (overwrite b (take s.size b ++ fid))),
    s.length_type retval (overwrite b (take s.size b ++ fid)),
    length-overwrite b (take s.size b ++ fid),
    length-append (take s.size b) fid,
    length-take s.size b,
  )

  -- What `name_to_handle_at` hands to the user is the mount's number and then at most the header and
  -- as many bytes of handle as the user has room for, all of them from the allocated block, whatever
  -- the file system answers.
  pub Copied-encoded :
      (mnt dentry ufh mnt_id : ℕ) (u : Bytes) (b : Block) (w : World FsCall)
      → length b.bytes ≡ s.size + s.handle_bytes.read u
      → Copied mnt ufh mnt_id (s.handle_bytes.read u) w (encoded mnt dentry ufh mnt_id u b w).1
  unfolding encoded
  Copied-encoded mnt dentry ufh mnt_id u b w room =
      elim (Bool-cases (is_overflow retval bytes limit)) [
        | inl over ↦ rw over (
            Copied-copy_out mnt ufh mnt_id limit 0 (take (s.size + 0) block) (err eoverflow) w'
              (omega (arith, length-take (s.size + 0) block, whole)) (omega arith))
        | inr fits ↦ rw fits (
            Copied-copy_out mnt ufh mnt_id limit bytes (take (s.size + bytes) block) (pos 0) w'
              (omega (arith, length-take (s.size + bytes) block, whole, small fits)) (small fits))
      ]
    where
      limit : ℕ
      limit = s.handle_bytes.read u

      retval : ℤ
      retval = (e.encode_fh w.clock dentry (limit / 4)).0

      bytes : ℕ
      bytes = (e.encode_fh w.clock dentry (limit / 4)).1 * 4 % 2 ^ 32

      fid : Bytes
      fid = (e.encode_fh w.clock dentry (limit / 4)).2

      block : Bytes
      block = filled b.bytes retval bytes fid

      w' : World FsCall
      w' = record (tick w) { calls = FsCall.encode dentry (limit / 4) ∷ w.calls }

      whole : length block ≡ s.size + limit
      whole =
          length-filled b.bytes retval bytes fid
            (omega (arith, room, e.encode_room w.clock dentry (limit / 4)))
          ∙ room

      small : is_overflow retval bytes limit ≡ false → bytes ≤ limit
      small h = ground arith

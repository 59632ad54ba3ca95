-- ===== src/FileHandle/Balance.antt =====
-- References, descriptors and memory on every path of the opening of a handle.
use doublefetch.Base.{ℕ, ◌+◌, ◌≡◌, List, [], ◌∷◌, Bytes, ℤ, arith}
use doublefetch.Kernel.{Kernel, Block, World}
use doublefetch.FileHandle.{
  Handle, FileSystem, FsCall, Lookup, get_vfsmount_from_fd, decoded, do_handle_to_path, full_handle,
  handle_to_path, open_path, do_handle_open, open_by_handle_at,
}

-- References taken, and given back.
abbrev pub gets : List FsCall → ℕ
gets [] = 0
gets (FsCall.mntget mnt ∷ cs) = gets cs + 1
gets (FsCall.path_get mnt dentry ∷ cs) = gets cs + 1
gets (c ∷ cs) = gets cs

abbrev pub puts : List FsCall → ℕ
puts [] = 0
puts (FsCall.mntput mnt ∷ cs) = puts cs + 1
puts (FsCall.path_put mnt dentry ∷ cs) = puts cs + 1
puts (c ∷ cs) = puts cs

-- Descriptors reserved, and given back or installed.
abbrev pub reserved : List FsCall → ℕ
reserved [] = 0
reserved (FsCall.reserve_fd fd ∷ cs) = reserved cs + 1
reserved (c ∷ cs) = reserved cs

abbrev pub settled : List FsCall → ℕ
settled [] = 0
settled (FsCall.put_fd fd ∷ cs) = settled cs + 1
settled (FsCall.install_fd fd file ∷ cs) = settled cs + 1
settled (c ∷ cs) = settled cs

-- the reference that comes with a path
abbrev pub held : Lookup → ℕ
held (Lookup.found mnt dentry) = 1
held (Lookup.failed e) = 0

-- From `w` to `w'` the run kept the memory as it was, and holds `n` references more.
abbrev pub Balanced : ℕ → World FsCall → World FsCall → Type 0
Balanced n w w' =
    (gets w'.calls + puts w.calls ≡ gets w.calls + puts w'.calls + n)
    × (reserved w'.calls + settled w.calls ≡ reserved w.calls + settled w'.calls)
    × (w'.live ≡ w.live)

module _ (s : Handle) (fs : FileSystem) where
  balance-do_handle_to_path :
      (fd : ℤ) (h : Bytes) (w : World FsCall)
      → Balanced (held (do_handle_to_path s fs fd h w).0) w (do_handle_to_path s fs fd h w).1
  unfolding do_handle_to_path get_vfsmount_from_fd decoded
  balance-do_handle_to_path fd h w = ground arith

module _ (k : Kernel) (s : Handle) (fs : FileSystem) where
  balance-full_handle :
      (fd : ℤ) (p : ℕ) (u : Bytes) (b : Block) (w : World FsCall)
      → Balanced (held (full_handle k s fs fd p u b w).0) w (full_handle k s fs fd p u b w).1
  unfolding full_handle
  balance-full_handle fd p u b w = grind (arith, balance-do_handle_to_path)

  -- The patched `handle_to_path` frees its block on every path, and holds a reference to the mount
  -- exactly if it found a path.
  pub balance-handle_to_path :
      (fd : ℤ) (p : ℕ) (w : World FsCall)
      → Balanced (held (handle_to_path k s fs fd p w).0) w (handle_to_path k s fs fd p w).1
  unfolding handle_to_path
  balance-handle_to_path fd p w = grind (arith, balance-full_handle)

  -- The state before holds one reference more than the state after.
  balance-open_path :
      (mnt dentry flags : ℕ) (w : World FsCall)
      → Balanced 1 (open_path k s fs mnt dentry flags w).1 w
  unfolding open_path
  balance-open_path mnt dentry flags w = ground arith

  balance-do_handle_open :
      (fd : ℤ) (p flags : ℕ) (w : World FsCall)
      → Balanced 0 w (do_handle_open k s fs fd p flags w).1
  unfolding do_handle_open
  balance-do_handle_open fd p flags w = grind (arith, balance-handle_to_path, balance-open_path)

  -- Opening by handle gives back every reference that it takes, settles each descriptor that it
  -- reserves, by installing it or giving it back, and frees what it allocates: on every path.
  pub balance-open_by_handle_at :
      (fd : ℤ) (p flags : ℕ) (w : World FsCall)
      → Balanced 0 w (open_by_handle_at k s fs fd p flags w).1
  unfolding open_by_handle_at
  balance-open_by_handle_at fd p flags w = balance-do_handle_open fd p _ w

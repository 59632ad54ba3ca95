-- ===== src/FileHandle.antt =====
-- File handles: auto_fix/bug_files/fhandle.c and auto_fix/patched_files/4-patched-fhandle.c.
-- This file has what the two system calls share and the opening of a handle; Encode has the other.
pub mod Encode
pub mod Bounds
pub mod Balance
mod Tests
use doublefetch.Base.{
  ℕ, ◌+◌, ◌*◌, ◌/◌, ◌≤◌, ◌≡◌, Bool, true, false, Option, none, some, Bytes, Field, length, drop,
  overwrite, memcmp_eq, if◌then◌else◌, ℤ, pos, negsuc, err, is_neg, efault, enomem, eperm, einval,
  ebadf, ltb, ◌==◌, ◌||◌, Ptr, ptr, err_ptr,
}
use doublefetch.Kernel.{
  Kernel, Block, M, pure, ◌>>=◌, ◌>>◌, copy_from_user, kmalloc, kfree, call, now,
}

-- `struct file_handle` and MAX_HANDLE_SZ, of <linux/exportfs.h> and <linux/fs.h>.
pub record Handle : Type 0 where
  pub size : ℕ
  pub handle_bytes : Field size
  pub handle_type : Field size
  pub max_size : ℕ
  pub set_bytes : ℕ → Bytes → Bytes
  pub set_type : ℤ → Bytes → Bytes
  pub length_bytes : (n : ℕ) (b : Bytes) → length (set_bytes n b) ≡ length b
  pub length_type : (t : ℤ) (b : Bytes) → length (set_type t b) ≡ length b

-- What is asked of the file systems. A mount, a dentry, a file are named by numbers.
pub data FsCall : Type 0 where
  mntget : (mnt : ℕ) → FsCall
  mntput : (mnt : ℕ) → FsCall
  path_get : (mnt dentry : ℕ) → FsCall  -- by `user_path_at`
  path_put : (mnt dentry : ℕ) → FsCall
  decode : (mnt : ℕ) (fid : Bytes) (dwords type : ℕ) → FsCall
  encode : (dentry dwords : ℕ) → FsCall
  reserve_fd : (fd : ℕ) → FsCall
  put_fd : (fd : ℕ) → FsCall
  install_fd : (fd file : ℕ) → FsCall

-- How the rest of the kernel answers, at a time.
pub record FileSystem : Type 0 where
  pub capable : ℕ → Bool  -- CAP_DAC_READ_SEARCH
  pub at_fdcwd : ℤ
  pub pwd_mnt : ℕ → ℕ
  pub fd_mnt : ℕ → ℤ → Option ℕ  -- the mount of an open file
  pub decode_fh : ℕ → ℕ → Bytes → ℕ → ℕ → Ptr
  pub unused_fd : ℕ → ℕ → ℤ
  pub open_root : ℕ → ℕ → ℕ → ℕ → Ptr
  pub force_largefile : Bool
  pub add_largefile : ℕ → ℕ  -- `flags | O_LARGEFILE`

-- The path that is found, with a reference held on it, or the error.
pub data Lookup : Type 0 where
  found : (mnt dentry : ℕ) → Lookup
  failed : ℤ → Lookup

module _ (fs : FileSystem) where
  unfoldable pub is_cwd : ℤ → Bool
  is_cwd (pos n) = elim fs.at_fdcwd [ pos m ↦ n == m | negsuc m ↦ false ]
  is_cwd (negsuc n) = elim fs.at_fdcwd [ pos m ↦ false | negsuc m ↦ n == m ]

  unfoldable pub get_vfsmount_from_fd : ℤ → M FsCall Ptr
  unfolding call now is_cwd
  get_vfsmount_from_fd fd = do
    t ← now
    elim (is_cwd fd) [
      | true ↦ do call (FsCall.mntget (fs.pwd_mnt t)); pure (ptr (fs.pwd_mnt t))
      | false ↦ elim (fs.fd_mnt t fd) [
        | none ↦ pure (err_ptr ebadf)
        | some mnt ↦ do call (FsCall.mntget mnt); pure (ptr mnt)
      ]
    ]

module _ (s : Handle) (fs : FileSystem) where
  unfoldable pub decoded : ℕ → Bytes → M FsCall Lookup
  unfolding call now
  decoded mnt handle = do
    t ← now
    call (
        FsCall.decode mnt (drop s.size handle) (s.handle_bytes.read handle / 4)
          (s.handle_type.read handle))
    elim (fs.decode_fh t mnt (drop s.size handle) (s.handle_bytes.read handle / 4)
        (s.handle_type.read handle)) [
          | err_ptr e ↦ do call (FsCall.mntput mnt); pure (failed (err e))
          | ptr dentry ↦ pure (found mnt dentry)
        ]

  unfoldable pub do_handle_to_path : ℤ → Bytes → M FsCall Lookup
  unfolding get_vfsmount_from_fd decoded
  do_handle_to_path mountdirfd handle = do
    m ← get_vfsmount_from_fd fs mountdirfd
    elim m [ err_ptr e ↦ pure (failed (err e)) | ptr mnt ↦ decoded mnt handle ]

module _ (k : Kernel) (s : Handle) (fs : FileSystem) where
  -- the second fetch, of the full handle, and the patch's comparison
  unfoldable pub full_handle : ℤ → ℕ → Bytes → Block → M FsCall Lookup
  unfolding copy_from_user do_handle_to_path
  full_handle mountdirfd ufh f_handle b = do
    fetched ← copy_from_user k ufh (s.size + s.handle_bytes.read f_handle)
    elim fetched [
      | none ↦ pure (failed (err efault))
      | some bytes ↦ elim (memcmp_eq s.size f_handle (overwrite b.bytes bytes)) [
        | true ↦ do_handle_to_path s fs mountdirfd (overwrite b.bytes bytes)
        | false ↦ pure (failed (err efault))
      ]
    ]

  -- before the patch
  unfoldable pub full_handle_bug : ℤ → ℕ → Bytes → Block → M FsCall Lookup
  unfolding copy_from_user do_handle_to_path
  full_handle_bug mountdirfd ufh f_handle b = do
    fetched ← copy_from_user k ufh (s.size + s.handle_bytes.read f_handle)
    elim fetched [
      | none ↦ pure (failed (err efault))
      | some bytes ↦ do_handle_to_path s fs mountdirfd (overwrite b.bytes bytes)
    ]

  -- `handle_to_path` up to the second fetch
  abbrev handle_with : (ℤ → ℕ → Bytes → Block → M FsCall Lookup) → ℤ → ℕ → M FsCall Lookup
  unfolding copy_from_user kmalloc kfree now
  handle_with full mountdirfd ufh = do
    t ← now
    elim (fs.capable t) [
      | false ↦ pure (failed (err eperm))
      | true ↦ do
        header ← copy_from_user k ufh s.size
        elim header [
          | none ↦ pure (failed (err efault))
          | some f_handle ↦
              elim (ltb s.max_size (s.handle_bytes.read f_handle)
                || (s.handle_bytes.read f_handle == 0)) [
                  | true ↦ pure (failed (err einval))
                  | false ↦ do
                    block ← kmalloc k (s.size + s.handle_bytes.read f_handle)
                    elim block [
                      | none ↦ pure (failed (err enomem))
                      | some b ↦ do r ← full mountdirfd ufh f_handle b; kfree b.id; pure r
                    ]
                ]
        ]
    ]

  unfoldable pub handle_to_path : ℤ → ℕ → M FsCall Lookup
  unfolding handle_with full_handle
  handle_to_path = handle_with full_handle

  unfoldable pub handle_to_path_bug : ℤ → ℕ → M FsCall Lookup
  unfolding handle_with full_handle_bug
  handle_to_path_bug = handle_with full_handle_bug

  -- `do_handle_open` once there is a path
  unfoldable pub open_path : ℕ → ℕ → ℕ → M FsCall ℤ
  unfolding call now
  open_path mnt dentry flags = do
    t ← now
    elim (fs.unused_fd t flags) [
      | negsuc e ↦ do call (FsCall.path_put mnt dentry); pure (negsuc e)
      | pos fd ↦ do
        call (FsCall.reserve_fd fd)
        u ← now
        elim (fs.open_root u dentry mnt flags) [
          | err_ptr e ↦ do call (FsCall.put_fd fd); call (FsCall.path_put mnt dentry); pure (err e)
          | ptr file ↦ do
            call (FsCall.install_fd fd file)
            call (FsCall.path_put mnt dentry)
            pure (pos fd)
        ]
    ]

  unfoldable pub do_handle_open : ℤ → ℕ → ℕ → M FsCall ℤ
  unfolding handle_to_path open_path
  do_handle_open mountdirfd ufh flags = do
    r ← handle_to_path mountdirfd ufh
    elim r [ failed e ↦ pure e | found mnt dentry ↦ open_path mnt dentry flags ]

  unfoldable pub open_by_handle_at : ℤ → ℕ → ℕ → M FsCall ℤ
  unfolding do_handle_open
  open_by_handle_at mountdirfd handle flags =
      do_handle_open mountdirfd handle
        (if fs.force_largefile then fs.add_largefile flags else flags)

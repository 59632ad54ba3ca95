-- ===== src/FileHandle/Tests.antt =====
-- Runs of the system calls on file handles, and the theorems at them.
use doublefetch.Base.{
  ℕ, ◌+◌, ◌≡◌, refl, pos, negsuc, err, some, [], ◌∷◌, if◌then◌else◌, ◌==◌, ltb, u32_field, put_u32,
  length-put_u32, arith, inl, replicate, length-replicate, ◌*◌, true, false, ptr, err_ptr,
  memcmp_eq, overwrite,
}
use doublefetch.Kernel.{Block}
use doublefetch.Kernel.Machine.{machine, boot}
use doublefetch.FileHandle.{
  Handle, FileSystem, handle_to_path, handle_to_path_bug, open_by_handle_at, is_cwd,
}
use doublefetch.FileHandle.Bounds.{AllInBounds, bounds-handle_to_path, handle_to_path_bug-overrun}
use doublefetch.FileHandle.Encode.{Encoder}

-- `handle_bytes` and `handle_type`, 32 bits each
abbrev layout : Handle
layout = record {
  size = 8;
  handle_bytes = u32_field 8 0 (omega arith);
  handle_type = u32_field 8 4 (omega arith);
  max_size = 128;
  set_bytes = λ n b. put_u32 0 n b;
  set_type = λ t b. put_u32 4 (elim t [ pos n ↦ n | negsuc n ↦ 0xffff_fffe ]) b;
  length_bytes = λ n b. length-put_u32 0 n b;
  length_type = λ t b. length-put_u32 4 (elim t [ pos n ↦ n | negsuc n ↦ 0xffff_fffe ]) b;
}

-- a file system where descriptor 3 is open on mount 7, and every handle is dentry 11
abbrev disk : FileSystem
disk = record {
  capable = λ t. true;
  at_fdcwd = negsuc 99;
  pwd_mnt = λ t. 1;
  fd_mnt = λ t fd. some 7;
  decode_fh = λ t mnt fid n type. ptr 11;
  unused_fd = λ t flags. pos 5;
  open_root = λ t dentry mnt flags. err_ptr 2;
  force_largefile = true;
  add_largefile = λ flags. flags + 0x8000;
}

abbrev still : ℕ → ℕ → ℕ
still t a = if a == 0 then 4 else 0

-- `handle_bytes` is 64 from the second access on.
abbrev racing : ℕ → ℕ → ℕ
racing t a = if a == 0 then (if ltb 0 t then 64 else 4) else 0

opened_then_refused : (open_by_handle_at (machine still) layout disk (pos 3) 0 0 boot).0 ≡ err 2
unfolding open_by_handle_at machine memcmp_eq overwrite
opened_then_refused = refl

bounds-handle_to_path_example :
    AllInBounds (handle_to_path (machine racing) layout disk (pos 3) 0 boot).1.calls
bounds-handle_to_path_example = bounds-handle_to_path (machine racing) layout disk (pos 3) 0 boot tt

handle_to_path_bug-overrun_example :
    ¬ AllInBounds (handle_to_path_bug (machine racing) layout disk (pos 3) 0 boot).1.calls
unfolding machine is_cwd
handle_to_path_bug-overrun_example =
    handle_to_path_bug-overrun (machine racing) layout disk (pos 3) 0 7 (4 ∷ replicate 7 0)
      (64 ∷ replicate 11 0) (replicate 12 0) boot refl refl (omega arith) (omega arith) refl refl
      (omega arith) refl refl

-- an encoder that uses one word of the room given
abbrev writer : Encoder
writer = record {
  can_decode = λ d. true;
  encode_fh = λ t d room. (pos 1, 1, replicate (4 * room) 9);
  encode_room = λ t d room. omega (arith, length-replicate {A = ℕ} (4 * room) 9);
  invalid = 255;
  mnt_id = λ m. m ∷ 0 ∷ 0 ∷ 0 ∷ [];
  flag_follow = λ f. false;
  flag_empty = λ f. false;
  flag_other = λ f. ltb 0x1400 f;
  user_path_at = λ t dfd name follow empty. inl (7, 11);
}

abbrev block : Block
block = record { id = 1; bytes = replicate 12 0 }

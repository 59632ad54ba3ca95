-- ===== src/AacSrb.antt =====
-- A raw SCSI request to an aacraid adapter, the ioctl FSACTL_SEND_RAW_SRB: `aac_send_raw_srb` of
-- auto_fix/patched_files/2-patched-commctrl.c. It fetches the size of the request, and then the request.
pub mod Freed
pub mod Live
pub mod Fill
pub mod Fits
pub mod Listed
pub mod Stray
pub mod Overrun
mod Tests
use doublefetch.Base.{
  ℕ, zero, suc, ◌+◌, ◌-◌, ◌*◌, ◌%◌, ◌≡◌, Bool, true, false, Option, none, some, List, [], ◌∷◌, ◌++◌,
  Bytes, length, ltb, ◌==◌, ◌&&◌, ◌||◌, not, if◌then◌else◌, ℤ, pos, err, is_zero, is_err, efault,
  enomem, einval, ebusy, eperm, enxio, erestartsys, overwrite, u32_at, reverse_aux,
}
use doublefetch.Kernel.{
  Kernel, Block, M, World, pure, ◌>>=◌, ◌>>◌, tick, copy_from_user, copy_to_user, kmalloc, kfree,
  call, now,
}

-- `struct user_aac_srb` and `struct aac_srb`, of aacraid.h. An entry of the list of buffers is an address
-- and a count; the list may be read with entries of 32 and of 64 bits.
pub record SrbLayout : Type 0 where
  pub user_base : ℕ  -- sizeof(struct user_aac_srb) - sizeof(struct user_sgentry)
  pub srb_base : ℕ  -- sizeof(struct aac_srb) - sizeof(struct sgentry)
  pub header : ℕ  -- sizeof(struct aac_fibhdr)
  pub sgmap : ℕ  -- sizeof(struct sgmap)
  pub sg32 : ℕ  -- sizeof(struct sgentry)
  pub sg64 : ℕ  -- sizeof(struct sgentry64)
  pub count_offset : ℕ
  pub flags : Bytes → ℕ
  pub is_in : ℕ → Bool  -- flags & SRB_DataIn
  pub is_out : ℕ → Bool
  pub command : Bytes → Bytes  -- channel, id, lun, timeout, flags, cdb_size and cdb
  pub sg_count : Bytes → ℕ
  pub entry32 : Bytes → ℕ → ℕ × ℕ
  pub entry64 : Bytes → ℕ → ℕ × ℕ

-- What goes to the adapter: a fib with its size and the counts of its buffers; a copy of so many bytes to a
-- buffer with so much room; the end of a fib. `stray` is a copy to the user from NULL, to an address that
-- was never set.
pub data SrbCall : Type 0 where
  send : (is_64 : Bool) (size byte_count : ℕ) (command : Bytes) (counts : List ℕ) → SrbCall
  fill : (room len : ℕ) → SrbCall
  stray : (index : ℕ) → SrbCall  -- a copy to an address that was never set
  complete : SrbCall

-- The adapter, at a time
pub record SrbAdapter : Type 0 where
  pub in_reset : Bool
  pub is_admin : Bool
  pub max_fib_size : ℕ
  pub is_host64 : Bool  -- AAC_OPT_SGMAP_HOST64
  pub is_new_comm : Bool  -- AAC_OPT_NEW_COMM
  pub max_sectors : ℕ
  pub fib_alloc : ℕ → Bool
  pub fib_send : ℕ → ℤ
  pub count_after : (time i count : ℕ) → ℕ  -- a count of the fib, as the answer leaves it
  pub filled : (time len : ℕ) → Bytes  -- so much of a buffer, as the adapter leaves it
  pub stray_done : ℕ → Bool  -- whether a stray copy does not fail
  pub reply : ℕ → Bytes

-- A buffer: `sg_user`, `sg_list` and its count
pub record Sg : Type 0 where
  pub addr : ℕ
  pub id : ℕ
  pub len : ℕ

abbrev pub lens : List Sg → List ℕ
lens [] = []
lens (g ∷ gs) = g.len ∷ lens gs

abbrev pub sum_len : List Sg → ℕ
sum_len [] = 0
sum_len (g ∷ gs) = g.len + sum_len gs

-- The entry of `sg_user` and `sg_list` with an index, for the buffers, the oldest first
abbrev pub slot : List Sg → ℕ → Option Sg
slot [] i = none
slot (g ∷ gs) zero = some g
slot (g ∷ gs) (suc i) = slot gs i

-- `sg_indx`: the index of the last buffer, and 0 where there is none
abbrev pub sg_indx : List Sg → ℕ
sg_indx gs = length gs - 1

-- The buffers are freed from the first on.
unfoldable pub free_all : List Sg → M SrbCall (Unit {0})
unfolding kfree
free_all [] = pure tt
free_all (g ∷ gs) = do kfree g.id; free_all gs

-- An interrupted request leaves the fib to the adapter.
unfoldable pub end_fib : ℕ → ℤ → M SrbCall ℤ
unfolding call kfree
end_fib id ret = elim (is_err erestartsys ret) [
  | true ↦ pure ret
  | false ↦ do call SrbCall.complete; kfree id; pure ret
]

module _ (l : SrbLayout) where
  abbrev pub actual32 : ℕ → ℕ
  actual32 count = l.srb_base + count % 256 * l.sg32

  abbrev pub actual64 : ℕ → ℕ
  actual64 count = actual32 count + count % 256 * (l.sg64 - l.sg32)

module _ (k : Kernel) (l : SrbLayout) (a : SrbAdapter) where
  -- the largest count of an entry
  abbrev pub limit : ℕ
  limit = if a.is_new_comm then a.max_sectors * 512 else 65536

  module _ (entry : ℕ → ℕ × ℕ) (copied : ℕ → ℕ) (is_out : Bool) where
    -- The data of the user for the entry `i`, for which `copied` is the length that the code uses
    unfoldable pub fill_buffer : (i : ℕ) → Block → M SrbCall Bool
    unfolding copy_from_user call
    fill_buffer i b = elim is_out [
      | false ↦ pure true
      | true ↦ do
        call (SrbCall.fill (length b.bytes) (copied i))
        fetched ← copy_from_user k (entry i).0 (copied i)
        pure (elim fetched [ none ↦ false | some bytes ↦ true ])
    ]

    -- One of the four loops over the entries, for those left from `i` on: the buffers, the newest first
    unfoldable pub map_entries : (n i : ℕ) → List Sg → M SrbCall (ℤ × List Sg)
    unfolding fill_buffer kmalloc
    map_entries zero i gs = pure (pos 0, gs)
    map_entries (suc n) i gs = elim (ltb limit (entry i).1) [
      | true ↦ pure (err einval, gs)
      | false ↦ do
        block ← kmalloc k (entry i).1
        elim block [
          | none ↦ pure (err enomem, gs)
          | some b ↦ do
            done ← fill_buffer i b
            let gs' = record { addr = (entry i).0; id = b.id; len = (entry i).1 } ∷ gs
            elim done [ false ↦ pure (err efault, gs') | true ↦ map_entries n (i + 1) gs' ]
        ]
    ]

  -- The copy of a list of 32 bits, which is read while the original stays at hand
  unfoldable pub map_copied : Bytes → M SrbCall (ℤ × List Sg)
  unfolding map_entries kmalloc kfree
  map_copied b = do
    usg ← kmalloc k (actual32 l (l.sg_count b) + l.sgmap - (l.srb_base + l.sg32))
    elim usg [
      | none ↦ pure (err enomem, [])
      | some u ↦ do
        r ←
            map_entries (l.entry32 b) (λ i. (l.entry64 b i).1) (l.is_out (l.flags b)) (l.sg_count b)
              0 []
        kfree u.id
        pure r
    ]

  -- The loop for the adapter's and the list's kind
  unfoldable pub map_list : (fibsize : ℕ) → Bytes → M SrbCall (ℤ × List Sg)
  unfolding map_entries map_copied
  map_list fibsize b = elim (actual64 l (l.sg_count b) == fibsize) [
    | true ↦
        map_entries (l.entry64 b) (λ i. (l.entry64 b i).1) (l.is_out (l.flags b)) (l.sg_count b) 0
          []
    | false ↦ elim a.is_host64 [
      | true ↦ map_copied b
      | false ↦
          map_entries (l.entry32 b) (λ i. (l.entry32 b i).1) (l.is_out (l.flags b)) (l.sg_count b) 0
            []
    ]
  ]

  -- One round of the loop back, for the entry of `sg_user` and `sg_list` with the index `i`: where it was never
  -- set, the copy uses an address that nobody wrote, and `stray_done` says how that ends.
  abbrev pub copy_slot : (i : ℕ) → Option Sg → M SrbCall Bool
  unfolding copy_to_user call now
  copy_slot i none = do t ← now; call (SrbCall.stray i); pure (a.stray_done t)
  copy_slot i (some g) = do t ← now; copy_to_user k g.addr (a.filled t (a.count_after t i g.len))

  -- The loop back, for `n` rounds from the index `i` on
  unfoldable pub copy_back : (n i : ℕ) → List Sg → M SrbCall ℤ
  unfolding copy_slot
  copy_back zero i gs = pure (pos 0)
  copy_back (suc n) i gs = do
    done ← copy_slot i (slot gs i)
    elim done [ false ↦ pure (err efault) | true ↦ copy_back n (i + 1) gs ]

  -- `for (i = 0; i <= sg_indx; i++)`, over the buffers, the oldest first
  unfoldable pub from_first : List Sg → M SrbCall ℤ
  unfolding copy_back
  from_first gs = copy_back (sg_indx gs + 1) 0 gs

  abbrev pub data_back : Bytes → List Sg → M SrbCall ℤ
  unfolding from_first
  data_back b gs = elim (l.is_in (l.flags b)) [
    | false ↦ pure (pos 0)
    | true ↦ from_first (reverse_aux gs [])
  ]

  -- From the fib that is sent to the reply
  unfoldable pub send_srb : (arg fibsize : ℕ) → Bytes → List Sg → M SrbCall ℤ
  unfolding from_first call now copy_to_user
  send_srb arg fibsize b gs = do
    t ← now
    call (
        SrbCall.send a.is_host64
          (if a.is_host64 then actual64 l (l.sg_count b) else actual32 l (l.sg_count b))
          (sum_len gs % 4294967296) (l.command b) (reverse_aux (lens gs) []))
    let status = a.fib_send t
    elim (is_err erestartsys status) [
      | true ↦ pure (err erestartsys)
      | false ↦ elim (is_zero status) [
        | false ↦ pure (err enxio)
        | true ↦ do
          back ← data_back b gs
          elim (is_zero back) [
            | false ↦ pure back
            | true ↦ do
              t' ← now
              done ← copy_to_user k (arg + fibsize) (a.reply t')
              pure (if done then pos 0 else err efault)
          ]
      ]
    ]

  -- From the tests of the list to the cleanup: the result, and the buffers
  unfoldable pub with_request : (arg fibsize : ℕ) → Bytes → M SrbCall (ℤ × List Sg)
  unfolding map_list send_srb
  with_request arg fibsize b =
      if ltb 32 (l.sg_count b)
      then pure (err einval, [])
      else if not (actual32 l (l.sg_count b) == fibsize)
          && not (actual64 l (l.sg_count b) == fibsize)
      then pure (err einval, [])
      else if not (l.is_in (l.flags b) || l.is_out (l.flags b)) && not (l.sg_count b == 0)
      then pure (err einval, [])
      else do
        (ret, gs) ← map_list fibsize b
        elim (is_zero ret) [
          | false ↦ pure (ret, gs)
          | true ↦ do ret' ← send_srb arg fibsize b gs; pure (ret', gs)
        ]

  -- The second fetch, into a block of the size that the first one gave
  unfoldable pub with_size : (arg fibsize : ℕ) → M SrbCall ℤ
  unfolding kmalloc copy_from_user with_request free_all kfree overwrite
  with_size arg fibsize = do
    block ← kmalloc k fibsize
    elim block [
      | none ↦ pure (err enomem)
      | some u ↦ do
        fetched ← copy_from_user k arg fibsize
        elim fetched [
          | none ↦ do kfree u.id; pure (err efault)
          | some bytes ↦ do
            (ret, gs) ← with_request arg fibsize (overwrite u.bytes bytes)
            kfree u.id
            free_all (reverse_aux gs [])
            pure ret
        ]
    ]

  -- The first fetch, of the size of the request
  unfoldable pub with_fib : ℕ → M SrbCall ℤ
  unfolding copy_from_user with_size
  with_fib arg = do
    fetched ← copy_from_user k (arg + l.count_offset) 4
    elim fetched [
      | none ↦ pure (err efault)
      | some bytes ↦
          if ltb (u32_at 0 bytes) l.user_base || ltb (a.max_fib_size - l.header) (u32_at 0 bytes)
          then pure (err einval)
          else with_size arg (u32_at 0 bytes)
    ]

  -- `aac_fib_alloc`
  unfoldable pub alloc_fib : M SrbCall (Option ℕ)
  alloc_fib w = elim (a.fib_alloc w.clock) [
    | false ↦ (none, tick w)
    | true ↦ (some w.clock, record (tick w) { live = w.clock ∷ w.live })
  ]

  unfoldable pub send_raw_srb : ℕ → M SrbCall ℤ
  unfolding alloc_fib with_fib end_fib
  send_raw_srb arg =
      if a.in_reset then pure (err ebusy) else if not a.is_admin then pure (err eperm) else do
        fib ← alloc_fib
        elim fib [ none ↦ pure (err enomem) | some id ↦ do ret ← with_fib arg; end_fib id ret ]

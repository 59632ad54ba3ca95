-- ===== src/MicVirtio/Patch.antt =====
-- `mic_copy_dp_entry` without the patch: what it stores can be more than its block holds.
use doublefetch.Base.{
  ℕ, suc, ◌+◌, ◌%◌, ◌∙◌, ◌-◌, ◌≡◌, ◌≤◌, ◌<◌, true, false, some, [], ◌∷◌, Bytes, length, take, drop,
  overwrite, ltb, ◌==◌, ◌||◌, arith, Option-cases, Bool-cases, inl, inr, refl, ap, sym, subst,
  memcmp_same, memcmp_eq, memcmp_eq_sound,
}
use doublefetch.Kernel.{Kernel, Block, M, World, call, copy_from_user, kmalloc, kfree}
use doublefetch.MicVirtio.{
  header_size, dp_size, bootparam_size, num_vq, desc_type, desc_size, aligned_desc_size,
  total_desc_size, found, find_slot, has_large, PageCall, slot_limit, placed, dp_config,
  dp_config_bug, copy_with, copy_dp_entry, copy_dp_entry_bug, Outcome,
}
use doublefetch.MicVirtio.Page.{AllInside}
use doublefetch.MicVirtio.Slots.{desc_size-local}

overwrite_all : (xs ys : Bytes) → length xs ≡ length ys → overwrite xs ys ≡ ys
unfolding overwrite
overwrite_all [] [] e = refl
overwrite_all [] (y ∷ ys) e = absurd (omega arith)
overwrite_all (x ∷ xs) [] e = absurd (omega arith)
overwrite_all (x ∷ xs) (y ∷ ys) e = ap (λ zs. y ∷ zs) (overwrite_all xs ys (omega (arith, e)))

within : (m x : ℕ) → x ≤ m → ltb m x ≡ false
within m x h = ground arith

-- The search ends at its first place, where that is free.
found_here :
    (n limit i : ℕ) (page : Bytes)
    → i < limit
    → i + header_size ≤ length page
    → desc_type (drop i page) ≡ 0
    → find_slot (suc n) limit i page ≡ found i
unfolding find_slot
found_here n limit i page before inside free =
    let d = drop i page in
    let on : ltb i limit ≡ true = ground arith in
    let within_page = within (length page) (i + header_size) inside in
    let is_free : ((desc_type d == 0) || (desc_type d == 255)) ≡ true = ground arith in ground arith

slot_limit_lem :
    (total : ℕ)
    → bootparam_size + total < dp_size
    → bootparam_size < (dp_size + 4294967296 - total % 4294967296) % 4294967296
slot_limit_lem total fits = omega (arith, fits)

-- The sizes are read from the headers, so that the headers differ where the sizes do.
differ : (dd d : Bytes) → desc_size dd < desc_size d → memcmp_eq header_size dd d ≡ false
differ dd d more = elim (Bool-cases (memcmp_eq header_size dd d)) [
  | inr caught ↦ caught
  | inl same ↦
      absurd (omega (arith, more, desc_size-local dd d (memcmp_eq_sound header_size dd d same)))
]

calls-placed :
    (page dd d : Bytes) (i : ℕ) (w : World PageCall)
    → has_large (num_vq dd) 0 d ≡ false
    → find_slot dp_size (slot_limit d) bootparam_size page ≡ found i
    → (placed page dd d w).1.calls ≡ PageCall.store i (desc_size d) (length d) ∷ w.calls
unfolding placed call
calls-placed page dd d i w fine slot = rw (fine, placed, slot) refl

module _ (k : Kernel) where
  dp_config-eq-bug :
      (arg : ℕ) (page dd : Bytes) (b : Block) (w : World PageCall)
      → header_size ≤ desc_size dd
      → ((d : Bytes)
          → k.fetch w.clock arg (desc_size dd) ≡ some d
          → take header_size d ≡ take header_size dd)
      → dp_config k arg page dd b w ≡ dp_config_bug k arg page dd b w
  unfolding dp_config dp_config_bug
  dp_config-eq-bug arg page dd b w long same =
      elim (Option-cases (k.fetch w.clock arg (desc_size dd))) [
        | inl e ↦ rw e refl
        | inr (d, e) ↦
            rw
              (
                e,
                memcmp_same header_size dd b.bytes d
                    (omega (arith, k.fetch_length w.clock arg (desc_size dd) d e)) (same d e),
              )
              refl
      ]

  -- After a header that passes the tests, and with memory for the block, the calls are those of what follows.
  second_fetch :
      (config : ℕ → Bytes → Bytes → Block → M PageCall Outcome) (arg : ℕ) (page dd bytes : Bytes)
      (w : World PageCall)
      → k.fetch w.clock arg header_size ≡ some dd
      → (ltb 256 (aligned_desc_size dd) || ltb 4 (num_vq dd)) ≡ false
      → k.fresh (w.clock + 1) (desc_size dd) ≡ some bytes
      → (copy_with k config arg page w).1.calls
        ≡ (config arg page dd
            (record { id = w.clock + 1; bytes = bytes })
            (record w { clock = w.clock + 1 + 1; live = (w.clock + 1) ∷ w.live })).1.calls
  unfolding copy_from_user kmalloc kfree copy_with
  second_fetch config arg page dd bytes w e pass room = cc

  -- A user who changes a descriptor between the two fetches, in a page whose first entry is free: the first
  -- header passes the tests, there is memory for a block of the size it states, and the descriptor that the
  -- second fetch brings states more, has no ring that is too large and would fit the page. Then the
  -- unpatched `mic_copy_dp_entry` stores as many bytes as the second states out of a block of the size that
  -- the first stated, where the patched one stores nothing.
  pub copy_dp_entry_bug-overrun :
      (arg : ℕ) (page dd d bytes : Bytes) (w : World PageCall)
      → length page ≡ dp_size
      → desc_type (drop bootparam_size page) ≡ 0
      → k.fetch w.clock arg header_size ≡ some dd
      → aligned_desc_size dd ≤ 256
      → num_vq dd ≤ 4
      → k.fresh (w.clock + 1) (desc_size dd) ≡ some bytes
      → k.fetch (w.clock + 1 + 1) arg (desc_size dd) ≡ some d
      → desc_size dd < desc_size d
      → has_large (num_vq dd) 0 d ≡ false
      → bootparam_size + total_desc_size d < dp_size
      → let calls = (copy_dp_entry_bug k arg page w).1.calls in
        (calls ≡ PageCall.store bootparam_size (desc_size d) (desc_size dd) ∷ w.calls)
        × ¬ AllInside calls
        × ((copy_dp_entry k arg page w).1.calls ≡ w.calls)
  unfolding copy_dp_entry_bug copy_dp_entry dp_config_bug dp_config copy_from_user placed call
  copy_dp_entry_bug-overrun arg page dd d bytes w whole free e small few room e1 more fine fits =
      let len = k.fetch_length (w.clock + 1 + 1) arg (desc_size dd) d e1 in
      let same : overwrite bytes d ≡ d =
        overwrite_all bytes d
          (omega (arith, k.fresh_length (w.clock + 1) (desc_size dd) bytes room)) in
      let slot =
        found_here 4095 (slot_limit d) bootparam_size page (slot_limit_lem (total_desc_size d) fits)
          (omega (arith, whole)) free in
      let pass : (ltb 256 (aligned_desc_size dd) || ltb 4 (num_vq dd)) ≡ false =
        rw (within 256 (aligned_desc_size dd) small, within 4 (num_vq dd) few) refl in
      let caught : memcmp_eq header_size dd d ≡ false = differ dd d more in
      let w3 = record w { clock = w.clock + 1 + 1 + 1; live = (w.clock + 1) ∷ w.live } in
      let calls : (copy_dp_entry_bug k arg page w).1.calls
          ≡ PageCall.store bootparam_size (desc_size d) (length d) ∷ w.calls =
        second_fetch (dp_config_bug k) arg page dd bytes w e pass room
        ∙ (rw (e1, same) (calls-placed page dd d bootparam_size w3 fine slot)) in
      let stored =
        subst
          (λ n.
            (copy_dp_entry_bug k arg page w).1.calls
            ≡ PageCall.store bootparam_size (desc_size d) n ∷ w.calls)
          len calls in
      (
        stored,
        subst (λ cs. ¬ AllInside cs) (sym stored)
            (λ (inside, held, old). omega (arith, held, more)),
        second_fetch (dp_config k) arg page dd bytes w e pass room ∙ (rw (e1, same, caught) refl),
      )

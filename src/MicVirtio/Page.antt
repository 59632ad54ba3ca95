-- ===== src/MicVirtio/Page.antt =====
-- With the patch a descriptor is stored inside the device page, and all of it comes from its block.
use doublefetch.Base.{
  ℕ, ◌+◌, ◌-◌, ◌≡◌, ◌≤◌, ◌<◌, List, [], ◌∷◌, Bytes, length, set, take, drop, overwrite, memcmp_eq,
  memcmp_eq_sound, ltb, ◌||◌, arith, Bool-cases, Option-cases, inl, inr, sym, ◌∙◌, ap, subst, refl,
  length-overwrite, length-set, take_all, err, einval, efault, enomem,
}
use doublefetch.Kernel.{Kernel, Block, World, tick, kmalloc, kfree, call, copy_from_user, remove}
use doublefetch.MicVirtio.{
  header_size, bootparam_size, dp_size, desc_type, num_vq, desc_size, aligned_desc_size,
  total_desc_size, find_slot, has_large, PageCall, Outcome, failed, added, stray, store_at,
  slot_limit, placed, dp_config, copy_dp_entry,
}
use doublefetch.MicVirtio.Slots.{
  Slot-cases, find_slot-Ends, desc_size-local, header-le-desc_size, desc_size-set, length-store_at,
  take-store_at, desc_size-store_at, Ends,
}

-- What is right of an outcome: no access outside the page; a descriptor that is added stands behind the
-- boot parameters, with its control structure inside the page, and the entries before it are kept.
abbrev pub IsPlaced : Bytes → Outcome → Type 0
IsPlaced page (failed e) = Unit
IsPlaced page stray = ⊥
IsPlaced page (added t i page') =
    (bootparam_size ≤ i)
    × (i + total_desc_size (drop i page') < dp_size)
    × (length page' ≡ length page)
    × (take i page' ≡ take i page)

-- A store lies in the page and in its block.
abbrev pub AllInside : List PageCall → Type 0
AllInside [] = Unit
AllInside (PageCall.store i len room ∷ cs) = (i + len ≤ dp_size) × (len ≤ room) × AllInside cs

abbrev pub Right : Bytes → Outcome × World PageCall → Type 0
Right page r = IsPlaced page r.0 × AllInside r.1.calls

IsPlaced-added :
    (page config : Bytes) (t i : ℕ)
    → length config ≡ desc_size config
    → bootparam_size ≤ i
    → i + total_desc_size config < dp_size
    → length page ≡ dp_size
    → IsPlaced page (added t i (store_at i (take (desc_size config) (set config 0 0)) page))
IsPlaced-added page config t i exact behind inside whole =
    let bytes = set config 0 0 in
    let long = length-set config 0 0 in
    let all : take (desc_size config) bytes ≡ bytes =
      ap (λ n. take n bytes) (sym (long ∙ exact)) ∙ take_all bytes in
    let room : i + length bytes ≤ length page = omega arith in
    let size = desc_size-store_at i bytes page room (omega (arith, header-le-desc_size config)) in
    subst (λ b. IsPlaced page (added t i (store_at i b page))) (sym all)
      (
        behind,
        omega (arith, size, desc_size-set config),
        length-store_at i bytes page room,
        take-store_at i bytes page room,
      )

placed-Right :
    (page dd config : Bytes) (w : World PageCall)
    → length page ≡ dp_size
    → length config ≡ desc_size config
    → aligned_desc_size config ≤ 256
    → AllInside w.calls
    → Right page (placed page dd config w)
unfolding placed call
placed-Right page dd config w whole exact small old =
    let limit : slot_limit config ≡ dp_size - total_desc_size config = omega arith in
    let ends =
      find_slot-Ends dp_size (slot_limit config) bootparam_size page
        (omega (arith, header-le-desc_size config)) (omega arith) (omega arith) in
    let done = placed page dd config w in
    elim (Bool-cases (has_large (num_vq dd) 0 config)) [
      | inl large ↦
          let e : done ≡ (failed (err einval), w) = ground arith in
          subst (Right page) (sym e) (tt, old)
      | inr fine ↦ elim (Slot-cases (find_slot dp_size (slot_limit config) bootparam_size page)) [
        | inl none_left ↦
            let e : done ≡ (failed (err einval), w) = ground arith in
            subst (Right page) (sym e) (tt, old)
        | inr (inl off) ↦ absurd (subst (Ends (slot_limit config) bootparam_size) off ends)
        | inr (inr (i, at)) ↦
            let (behind, before) = subst (Ends (slot_limit config) bootparam_size) at ends in
            let after = record (tick w) {
              calls = PageCall.store i (desc_size config) (length config) ∷ w.calls;
            } in
            let e : done ≡ (
              added (desc_type config) i
                  (store_at i (take (desc_size config) (set config 0 0)) page),
              after,
            ) =
              ground arith in
            subst (Right page) (sym e) (
              IsPlaced-added page config (desc_type config) i exact behind (omega arith) whole,
              (omega arith, omega arith, old),
            )
      ]
    ]

live-placed :
    (page dd config : Bytes) (w : World PageCall) → (placed page dd config w).1.live ≡ w.live
unfolding placed call
live-placed page dd config w = elim (Bool-cases (has_large (num_vq dd) 0 config)) [
  | inl large ↦ rw (large, placed) refl
  | inr fine ↦ elim (Slot-cases (find_slot dp_size (slot_limit config) bootparam_size page)) [
    | inl none_left ↦ rw (fine, placed, none_left) refl
    | inr (inl off) ↦ rw (fine, placed, off) refl
    | inr (inr (i, at)) ↦ rw (fine, placed, at) refl
  ]
]

module _ (k : Kernel) where
  dp_config-Right :
      (arg : ℕ) (page dd : Bytes) (b : Block) (w : World PageCall)
      → length page ≡ dp_size
      → length b.bytes ≡ desc_size dd
      → aligned_desc_size dd ≤ 256
      → AllInside w.calls
      → Right page (dp_config k arg page dd b w)
  unfolding dp_config copy_from_user
  dp_config-Right arg page dd b w whole exact small old =
      elim (Option-cases (k.fetch w.clock arg (desc_size dd))) [
        | inl e ↦
            let step : dp_config k arg page dd b w ≡ (failed (err efault), tick w) = ground arith in
            subst (Right page) (sym step) (tt, old)
        | inr (bytes, e) ↦
            let config = overwrite b.bytes bytes in
            let len = k.fetch_length w.clock arg (desc_size dd) bytes e in
            elim (Bool-cases (memcmp_eq header_size dd config)) [
              | inr differ ↦
                  let step : dp_config k arg page dd b w ≡ (failed (err efault), tick w) =
                    ground arith in
                  subst (Right page) (sym step) (tt, old)
              | inl same ↦
                  let size =
                    desc_size-local dd config (memcmp_eq_sound header_size dd config same) in
                  let step : dp_config k arg page dd b w ≡ placed page dd config (tick w) =
                    ground arith in
                  subst (Right page) (sym step) (
                    placed-Right page dd config (tick w) whole
                      (omega (arith, length-overwrite b.bytes bytes (omega arith))) (omega arith)
                      old)
            ]
      ]

  -- Whatever user space writes between the two fetches: with a device page of 4096 bytes, the patched
  -- `mic_copy_dp_entry` makes no access outside the page; a descriptor that it adds stands behind the
  -- boot parameters with its control structure inside the page, the page keeps its length and the
  -- entries before it; and every store lies in the page and comes out of a block that holds all of it.
  pub copy_dp_entry-Right :
      (arg : ℕ) (page : Bytes) (w : World PageCall)
      → length page ≡ dp_size
      → AllInside w.calls
      → Right page (copy_dp_entry k arg page w)
  unfolding copy_dp_entry copy_from_user kmalloc kfree
  copy_dp_entry-Right arg page w whole old = elim (Option-cases (k.fetch w.clock arg header_size)) [
    | inl e ↦
        let step : copy_dp_entry k arg page w ≡ (failed (err efault), tick w) = ground arith in
        subst (Right page) (sym step) (tt, old)
    | inr (dd, e) ↦ elim (Bool-cases (ltb 256 (aligned_desc_size dd) || ltb 4 (num_vq dd))) [
      | inl large ↦
          let step : copy_dp_entry k arg page w ≡ (failed (err einval), tick w) = ground arith in
          subst (Right page) (sym step) (tt, old)
      | inr small ↦ elim (Option-cases (k.fresh (w.clock + 1) (desc_size dd))) [
        | inl e2 ↦
            let step : copy_dp_entry k arg page w ≡ (failed (err enomem), tick (tick w)) =
              ground arith in
            subst (Right page) (sym step) (tt, old)
        | inr (b, e2) ↦
            let block : Block = record { id = w.clock + 1; bytes = b } in
            let w2 = record (tick (tick w)) { live = (w.clock + 1) ∷ w.live } in
            let inner =
              dp_config-Right arg page dd block w2 whole
                (k.fresh_length (w.clock + 1) (desc_size dd) b e2) (ground arith) old in
            let r = dp_config k arg page dd block w2 in
            let step : copy_dp_entry k arg page w
                ≡ (r.0, record r.1 { live = remove (w.clock + 1) r.1.live }) =
              ground arith in
            subst (Right page) (sym step) inner
      ]
    ]
  ]

  live-dp_config :
      (arg : ℕ) (page dd : Bytes) (b : Block) (w : World PageCall)
      → (dp_config k arg page dd b w).1.live ≡ w.live
  unfolding dp_config copy_from_user
  live-dp_config arg page dd b w = elim (Option-cases (k.fetch w.clock arg (desc_size dd))) [
    | inl e ↦ rw (e, dp_config) refl
    | inr (d, e) ↦
        let config = overwrite b.bytes d in
        elim (Bool-cases (memcmp_eq header_size dd config)) [
          | inr differ ↦ rw (e, dp_config, differ) refl
          | inl same ↦ rw (e, dp_config, same) (live-placed page dd config (tick w))
        ]
  ]

  -- The block of the copy is freed on every way out of the patched `mic_copy_dp_entry`.
  pub live-copy_dp_entry :
      (arg : ℕ) (page : Bytes) (w : World PageCall) → (copy_dp_entry k arg page w).1.live ≡ w.live
  unfolding copy_dp_entry copy_from_user kmalloc kfree
  live-copy_dp_entry arg page w = elim (Option-cases (k.fetch w.clock arg header_size)) [
    | inl e ↦ ground arith
    | inr (dd, e) ↦ elim (Option-cases (k.fresh (w.clock + 1) (desc_size dd))) [
      | inl e2 ↦ ground arith
      | inr (b, e2) ↦ ground (
        arith,
        live-dp_config arg page dd (record { id = w.clock + 1; bytes = b })
            (record (tick (tick w)) { live = (w.clock + 1) ∷ w.live }),
      )
    ]
  ]

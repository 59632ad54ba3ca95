-- ===== src/FibPool/Area.antt =====
-- The memory of the fibs: `fib_map_alloc`, `aac_fib_map_free` and the addresses that `aac_fib_setup` gives.
use doublefetch.Base.{
  ℕ, zero, suc, ◌+◌, ◌-◌, ◌*◌, ◌/◌, ◌≡◌, ◌≤◌, ◌<◌, true, false, Option, none, some, ltb, arith,
  Bool-cases, Option-cases, inl, inr, ◌⊎◌, refl, ◌∙◌,
}

-- The size of a fib and of the header before it, and the memory that `pci_alloc_consistent` gives at a time
pub record AreaEnv : Type 0 where
  pub max_fib_size : ℕ
  pub xport_size : ℕ
  pub alloc : ℕ → ℕ → Option ℕ

-- The end of the loop of `aac_fib_setup`, with the address and `can_queue`, or that it has not ended
pub data Area : Type 0 where
  got_area : (addr can_queue : ℕ) → Area
  no_area : Area
  searching : Area

-- AAC_NUM_MGT_FIB
abbrev pub num_mgt : ℕ
num_mgt = 8

-- The products that the bounds of a fib stand on
below-next : (s i n : ℕ) → i < n → i * s + s ≤ s * n
below-next s i zero h = elim h [ ]
below-next s zero (suc n) h = grind arith
below-next s (suc i) (suc n) h = let ih = below-next s i n (omega arith) in grind arith

module _ (e : AreaEnv) where
  abbrev pub stride : ℕ
  stride = e.max_fib_size + e.xport_size

  -- The size in `fib_map_alloc`
  abbrev pub area_size : ℕ → ℕ
  area_size can_queue = stride * (can_queue + num_mgt) + 31

  -- The `can_queue` of the next round
  abbrev pub halved : ℕ → ℕ
  halved can_queue = (can_queue + num_mgt) / 2 - num_mgt

  -- The first loop of `aac_fib_setup`, from a time on; each round halves the number of fibs.
  unfoldable pub find_area : (fuel t can_queue : ℕ) → Area
  find_area zero t q = searching
  find_area (suc fuel) t q = elim (e.alloc t (area_size q)) [
    | some addr ↦ got_area addr q
    | none ↦ elim (ltb (64 - num_mgt) q) [
      | true ↦ find_area fuel (t + 1) (halved q)
      | false ↦ no_area
    ]
  ]

  -- The address of the first fib, after the alignment to 32 bytes, and that of each
  abbrev pub first_fib : ℕ → ℕ
  first_fib addr = (addr + 31) / 32 * 32 + e.xport_size

  abbrev pub hw_fib : (addr i : ℕ) → ℕ
  hw_fib addr i = first_fib addr + i * stride

  -- What `aac_fib_map_free` gives back: the address and the size
  abbrev pub map_free : (addr can_queue : ℕ) → ℕ × ℕ
  map_free addr can_queue = (first_fib addr, e.max_fib_size * (can_queue + num_mgt))

  -- The search for memory ends; the number of fibs is the one that was asked for or at least 24, and it is the
  -- one that the memory was given for.
  pub find_area_ends :
      (fuel t q : ℕ)
      → q < fuel
      → (find_area fuel t q ≡ no_area)
        ⊎ ((addr : ℕ) × (q' : ℕ) × (find_area fuel t q ≡ got_area addr q')
            × ((q' ≡ q) ⊎ ((24 ≤ q') × (q' < q))))
  unfolding find_area
  find_area_ends zero t q h = elim h [ ]
  find_area_ends (suc fuel) t q h = elim (Option-cases (e.alloc t (area_size q))) [
    | inr (addr, is) ↦ inr (addr, q, ground arith, inl refl)
    | inl out ↦ elim (Bool-cases (ltb 56 q)) [
      | inr few ↦ inl (ground arith)
      | inl many ↦
          (let step : find_area (suc fuel) t q ≡ find_area fuel (t + 1) (halved q) = ground arith in
            let less : halved q < fuel = ground arith in
            let left : 24 ≤ halved q = ground arith in
            let lower : halved q < q = ground arith in
            elim (find_area_ends fuel (t + 1) (halved q) less) [
              | inl ended ↦ inl (step ∙ ended)
              | inr (addr, q', found, size) ↦ inr (
                addr,
                q',
                step ∙ found,
                inr (elim size [
                  | inl same ↦ (omega arith, omega arith)
                  | inr (low, high) ↦ (low, omega arith)
                ]),
              )
            ])
    ]
  ]

  -- Each fib with its header lies within the memory, starts at or behind its begin, and ends before the next.
  pub hw_fib_bounds :
      (addr q i : ℕ)
      → i < q + num_mgt
      → (addr + e.xport_size ≤ hw_fib addr i)
        × (hw_fib addr i + e.max_fib_size ≤ addr + area_size q)
        × (hw_fib addr i + e.max_fib_size + e.xport_size ≡ hw_fib addr (i + 1))
  hw_fib_bounds addr q i h =
      let room = below-next stride i (q + num_mgt) h in
      (omega arith, omega (arith, room), grind arith)

  -- What is given back has another address and less bytes than what was taken, wherever a fib has a header.
  pub map_free-short :
      (addr q : ℕ)
      → 0 < e.xport_size
      → (addr < (map_free addr q).0)
        × ((map_free addr q).1 + (q + num_mgt) * e.xport_size + 31 ≡ area_size q)
  map_free-short addr q h = (omega arith, grind arith)

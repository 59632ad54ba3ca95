-- ===== src/MicVirtio/Device/Balance.antt =====
-- What adding a device takes, deleting it gives back; an error does not.
use doublefetch.Base.{
  ℕ, zero, suc, ◌+◌, ◌-◌, ◌≡◌, Bool, true, false, some, List, [], ◌∷◌, ◌++◌, Bytes, set, drop, ltb,
  leb, ◌==◌, ◌&&◌, ◌||◌, not, if◌then◌else◌, pos, is_zero, arith, Bool-cases, inl, inr, refl, ap,
  ap₂, sym, ◌∙◌, subst,
}
use doublefetch.MicVirtio.{added, num_vq}
use doublefetch.MicVirtio.Device.{
  Held, Device, Host, take_one, give_one, with_ring, with_buf, set_up, without_ring, tear_down,
  add_with, without_self, del_device,
}

-- Whether the device is on a list
abbrev pub is_listed : Host → List ℕ → Bool
is_listed s [] = false
is_listed s (v ∷ vs) = (v == s.self) || is_listed s vs

-- 1 for an index from `i` on, before `i + n`
abbrev pub inside : (n i j : ℕ) → ℕ
inside n i j = if leb i j && ltb j (i + n) then 1 else 0

pub take_one-inside :
    (n i j : ℕ) (f : ℕ → ℕ) → take_one i f j + inside n (i + 1) j ≡ f j + inside (suc n) i j
take_one-inside n i j f = elim (Bool-cases (j == i)) [
  | inl here ↦ ground arith
  | inr away ↦ ground arith
]

give_one-inside :
    (n i j : ℕ) (f : ℕ → ℕ) → give_one i f j - inside n (i + 1) j ≡ f j - inside (suc n) i j
give_one-inside n i j f = elim (Bool-cases (j == i)) [
  | inl here ↦ ground arith
  | inr away ↦ ground arith
]

-- The rings with an index from `i` on, before `i + n`, are held once more, with the buffers.
module _ (s : Host) where
  abbrev pub More : (n i j : ℕ) → Held → Held → Type 0
  More n i j h h' =
      (h'.ring_pages j ≡ h.ring_pages j + inside n i j)
      × (h'.ring_maps j ≡ h.ring_maps j + inside n i j)
      × (h'.buf_pages j ≡ h.buf_pages j + (if s.has_buf j then inside n i j else 0))
      × (h'.buf_maps j ≡ h.buf_maps j + inside n i j)

  take_buf :
      (n i j : ℕ) (f : ℕ → ℕ)
      → (if s.has_buf i then take_one i f else f) j
          + (if s.has_buf j then inside n (i + 1) j else 0)
        ≡ f j + (if s.has_buf j then inside (suc n) i j else 0)
  take_buf n i j f = elim (Bool-cases (j == i)) [
    | inl here ↦
        let same : j ≡ i = ground arith in
        elim (Bool-cases (s.has_buf j)) [
          | inl has ↦
              (let has_i : s.has_buf i ≡ true = ap s.has_buf (sym same) ∙ has in ground arith)
          | inr not ↦
              (let not_i : s.has_buf i ≡ false = ap s.has_buf (sym same) ∙ not in ground arith)
        ]
    | inr away ↦ elim (Bool-cases (s.has_buf i)) [
      | inl has ↦ elim (Bool-cases (s.has_buf j)) [ inl x ↦ ground arith | inr x ↦ ground arith ]
      | inr not ↦ elim (Bool-cases (s.has_buf j)) [ inl x ↦ ground arith | inr x ↦ ground arith ]
    ]
  ]

  give_buf :
      (n i j : ℕ) (f : ℕ → ℕ)
      → (if s.has_buf i then give_one i f else f) j
          - (if s.has_buf j then inside n (i + 1) j else 0)
        ≡ f j - (if s.has_buf j then inside (suc n) i j else 0)
  give_buf n i j f = elim (Bool-cases (j == i)) [
    | inl here ↦
        let same : j ≡ i = ground arith in
        elim (Bool-cases (s.has_buf j)) [
          | inl has ↦
              (let has_i : s.has_buf i ≡ true = ap s.has_buf (sym same) ∙ has in ground arith)
          | inr not ↦
              (let not_i : s.has_buf i ≡ false = ap s.has_buf (sym same) ∙ not in ground arith)
        ]
    | inr away ↦ elim (Bool-cases (s.has_buf i)) [
      | inl has ↦ elim (Bool-cases (s.has_buf j)) [ inl x ↦ ground arith | inr x ↦ ground arith ]
      | inr not ↦ elim (Bool-cases (s.has_buf j)) [ inl x ↦ ground arith | inr x ↦ ground arith ]
    ]
  ]

  set_up-More :
      (n i j : ℕ) (h : Held) → is_zero (set_up s n i h).0 ≡ true → More n i j h (set_up s n i h).2
  unfolding set_up
  set_up-More zero i j h e = ground arith
  set_up-More (suc n) i j h e =
      let h1 = with_buf s i (with_ring s i h) in
      elim (Bool-cases (s.has_ring i)) [
        | inr no_ring ↦ absurd (ground arith)
        | inl ring ↦ elim (Bool-cases (s.is_mapped i)) [
          | inr no_map ↦ absurd (ground arith)
          | inl map ↦ elim (Bool-cases (is_zero (s.ring_init i))) [
            | inr bad ↦ absurd (ground arith)
            | inl good ↦
                let step : set_up s (suc n) i h ≡ set_up s n (i + 1) h1 = ground arith in
                let rest = set_up-More n (i + 1) j h1 (ap (λ r. is_zero r.0) (sym step) ∙ e) in
                subst (λ r. More (suc n) i j h r.2) (sym step)
                  (
                    rest.0 ∙ take_one-inside n i j h.ring_pages,
                    rest.1 ∙ take_one-inside n i j h.ring_maps,
                    rest.2 ∙ take_buf n i j h.buf_pages,
                    rest.3 ∙ take_one-inside n i j h.buf_maps,
                  )
          ]
        ]
      ]

  abbrev Less : (n i j : ℕ) → Held → Held → Type 0
  Less n i j h h' =
      (h'.ring_pages j ≡ h.ring_pages j - inside n i j)
      × (h'.ring_maps j ≡ h.ring_maps j - inside n i j)
      × (h'.buf_pages j ≡ h.buf_pages j - (if s.has_buf j then inside n i j else 0))
      × (h'.buf_maps j ≡ h.buf_maps j - inside n i j)

  tear_down-Less : (n i j : ℕ) (h : Held) → Less n i j h (tear_down s n i h)
  unfolding tear_down
  tear_down-Less zero i j h = ground arith
  tear_down-Less (suc n) i j h =
      let h1 = without_ring s i (record h {
        buf_pages = if s.has_buf i then give_one i h.buf_pages else h.buf_pages;
        buf_maps = give_one i h.buf_maps;
      }) in
      let rest = tear_down-Less n (i + 1) j h1 in
      (
        rest.0 ∙ give_one-inside n i j h.ring_pages,
        rest.1 ∙ give_one-inside n i j h.ring_maps,
        rest.2 ∙ give_buf n i j h.buf_pages,
        rest.3 ∙ give_one-inside n i j h.buf_maps,
      )

  -- The ring with the index is held as often.
  abbrev pub SameHeld : (j : ℕ) → Held → Held → Type 0
  SameHeld j h h' =
      (h'.ring_pages j ≡ h.ring_pages j)
      × (h'.ring_maps j ≡ h.ring_maps j)
      × (h'.buf_pages j ≡ h.buf_pages j)
      × (h'.buf_maps j ≡ h.buf_maps j)

  without_self-append :
      (vs : List ℕ) → is_listed s vs ≡ false → without_self s (vs ++ (s.self ∷ [])) ≡ vs
  without_self-append [] h = ground arith
  without_self-append (v ∷ vs) h = ground (arith, without_self-append vs)

given_back : (o : ℕ) {a b c : ℕ} → b ≡ a + o → c ≡ b - o → c ≡ a
given_back o e f = omega arith

num_vq-set : (page : Bytes) (dd v : ℕ) → num_vq (drop dd (set page dd v)) ≡ num_vq (drop dd page)
num_vq-set [] zero v = refl
num_vq-set [] (suc dd) v = refl
num_vq-set (x ∷ page) zero v = refl
num_vq-set (x ∷ page) (suc dd) v = num_vq-set page dd v

module _ (s : Host) where
  -- A device that was added and is deleted leaves every page and mapping held as often as before, and
  -- the list of devices as it was, where the device was not on it.
  pub del_device-add_with :
      (type dd : ℕ) (page : Bytes) (d d1 : Device)
      → add_with s (added type dd page) d ≡ some (pos 0, d1)
      → is_listed s d.vdev_list ≡ false
      → (j : ℕ)
      → SameHeld s j d.held (del_device s d1).held × ((del_device s d1).vdev_list ≡ d.vdev_list)
  unfolding add_with del_device
  del_device-add_with type dd page d d1 run fresh j =
      let n = num_vq (drop dd page) in
      let h = (set_up s n 0 d.held).2 in
      elim (Bool-cases (is_zero (set_up s n 0 d.held).0)) [
        | inr bad ↦ absurd (ground arith)
        | inl good ↦ elim (Bool-cases (is_zero s.irq)) [
          | inr bad ↦ absurd (ground arith)
          | inl irq ↦
              let held : d1.held ≡ h = ground arith in
              let list : d1.vdev_list ≡ d.vdev_list ++ (s.self ∷ []) = ground arith in
              let rings : num_vq (drop d1.dd d1.page) ≡ n =
                (let at_dd : d1.dd ≡ dd = ground arith in
                  let at_page : d1.page ≡ set page dd type = ground arith in
                  ap₂ (λ a b. num_vq (drop a b)) at_dd at_page ∙ num_vq-set page dd type) in
              let gone : (del_device s d1).held ≡ tear_down s n 0 h =
                ap₂ (λ m x. tear_down s m 0 x) rings held in
              (
                (let more = set_up-More s n 0 j d.held good in
                    let less = tear_down-Less s n 0 j h in
                    subst
                      (λ x.
                        (x.ring_pages j ≡ d.held.ring_pages j)
                        × (x.ring_maps j ≡ d.held.ring_maps j)
                        × (x.buf_pages j ≡ d.held.buf_pages j)
                        × (x.buf_maps j ≡ d.held.buf_maps j))
                      (sym gone)
                      (
                        given_back (inside n 0 j) more.0 less.0,
                        given_back (inside n 0 j) more.1 less.1,
                        given_back (if s.has_buf j then inside n 0 j else 0) more.2 less.2,
                        given_back (inside n 0 j) more.3 less.3,
                      )),
                ap (without_self s) list ∙ without_self-append s d.vdev_list fresh,
              )
        ]
      ]

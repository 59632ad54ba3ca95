-- ===== src/AuditCore/Rate.antt =====
-- `audit_rate_check`, and how many messages it lets through.
use doublefetch.Base.{
  ℕ, ◌+◌, ◌-◌, ◌%◌, ◌≡◌, ◌≤◌, ◌<◌, Bool, true, false, List, [], ◌∷◌, length, ltb, ◌==◌, arith,
  Bool-cases, inl, inr, sym, subst,
}

-- `last_check` and `messages`, which the function keeps
pub record Rate : Type 0 where
  pub last_check : ℕ
  pub messages : ℕ

module _ (hz limit : ℕ) where
  -- At a time `now`, that is not before the last check; the counter has 32 bits.
  unfoldable pub rate_check : (now : ℕ) → Rate → Bool × Rate
  rate_check now r =
      let messages = (r.messages + 1) % 4294967296 in
      elim (limit == 0) [
        | true ↦ (true, r)
        | false ↦ elim (ltb messages limit) [
          | true ↦ (true, record r { messages = messages })
          | false ↦ elim (ltb hz (now - r.last_check)) [
            | true ↦ (true, record { last_check = now; messages = 0 })
            | false ↦ (false, record r { messages = messages })
          ]
        ]
      ]

  -- How many of the messages at some times pass
  unfoldable pub passed : List ℕ → Rate → ℕ
  unfolding rate_check
  passed [] r = 0
  passed (t ∷ ts) r =
      let (ok, r') = rate_check t r in elim ok [ true ↦ passed ts r' + 1 | false ↦ passed ts r' ]

  abbrev pub AllWithin : ℕ → List ℕ → Type 0
  AllWithin last [] = Unit
  AllWithin last (t ∷ ts) = (t ≤ last + hz) × AllWithin last ts

  -- Within a second of the last check, no more messages pass than the limit leaves, less one: those that
  -- passed since the check are counted in `messages`.
  pub passed_bounds :
      (ts : List ℕ) (r : Rate)
      → 0 < limit
      → AllWithin r.last_check ts
      → r.messages + length ts < 4294967296
      → passed ts r ≤ limit - 1 - r.messages
  unfolding passed
  passed_bounds [] r some_limit within small = omega arith
  passed_bounds (t ∷ ts) r some_limit (now, within) small =
      let m = (r.messages + 1) % 4294967296 in
      let r' = record r { messages = m } in
      let rest = passed_bounds ts r' some_limit within (omega arith) in
      elim (Bool-cases (ltb m limit)) [
        | inl few ↦
            (let step : passed (t ∷ ts) r ≡ passed ts r' + 1 = ground arith in
              subst (λ p. p ≤ limit - 1 - r.messages) (sym step)
                (let is : m ≡ r.messages + 1 = omega arith in ground arith))
        | inr many ↦
            (let step : passed (t ∷ ts) r ≡ passed ts r' = ground arith in
              subst (λ p. p ≤ limit - 1 - r.messages) (sym step)
                (let is : m ≡ r.messages + 1 = omega arith in ground arith))
      ]

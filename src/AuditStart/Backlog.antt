-- ===== src/AuditStart/Backlog.antt =====
-- How the wait for a record ends.
use doublefetch.Base.{
  ℕ, ◌+◌, ◌%◌, ◌≡◌, ◌≤◌, true, false, List, [], ◌∷◌, ◌==◌, ◌&&◌, if◌then◌else◌, arith, Bool-cases,
  inl, inr, ◌⊎◌, refl, sym, subst,
}
use doublefetch.AuditText.{LogEnv, log_format}
use doublefetch.AuditStart.{
  new_buffer, Round, Caller, Counters, Outcome, waiting, refused, granted, sleeps, reserve, is_over,
  goes_on, wait_loop, Started, not_yet, no_buffer, buffer, with_leave, after_wait, log_start,
}

-- A round at which the wait is over: the caller may not sleep, the queue has room,
-- nobody waits now, or the caller's time is over.
abbrev pub IsLast : Caller → Round → Type 0
IsLast c r =
    (sleeps c ≡ false)
    ⊎ (r.length ≤ r.limit)
    ⊎ (r.limit ≡ 0)
    ⊎ (r.wait_time ≡ 0)
    ⊎ (c.start + r.wait_time ≤ r.now)

abbrev pub AnyLast : Caller → List Round → Type 0
AnyLast c [] = ⊥
AnyLast c (r ∷ rs) = IsLast c r ⊎ AnyLast c rs

last_round : (c : Caller) (r : Round) → IsLast c r → (is_over c r ≡ false) ⊎ (goes_on c r ≡ false)
last_round c r h = elim (Bool-cases (is_over c r)) [ inr fine ↦ inl fine | inl over ↦ ground arith ]

-- A round at which the queue had room, of five entries more where the caller does not wait
abbrev pub HasRoom : Caller → Round → Type 0
HasRoom c r = (r.limit ≡ 0) ⊎ (r.length ≤ r.limit + reserve c)

abbrev pub AnyRoom : Caller → List Round → Type 0
AnyRoom c [] = ⊥
AnyRoom c (r ∷ rs) = HasRoom c r ⊎ AnyRoom c rs

-- How the loop ends
abbrev Ended : Caller → List Round → Outcome → Type 0
Ended c rs waiting = ⊥
Ended c rs refused = Unit
Ended c rs (granted w) = AnyRoom c rs

Ended-later :
    (c : Caller) (r : Round) (rs : List Round) (o : Outcome) → Ended c rs o → Ended c (r ∷ rs) o
Ended-later c r rs waiting h = h
Ended-later c r rs refused h = h
Ended-later c r rs (granted w) h = inr h

has_room : (c : Caller) (r : Round) → is_over c r ≡ false → HasRoom c r
has_room c r fine = elim (Bool-cases (r.limit == 0)) [
  | inl a ↦ inl (ground arith)
  | inr a ↦ inr (ground arith)
]

wait_loop-Ended : (c : Caller) (rs : List Round) → AnyLast c rs → Ended c rs (wait_loop c rs)
unfolding wait_loop
wait_loop-Ended c [] h = elim h [ ]
wait_loop-Ended c (r ∷ rs) h = elim (Bool-cases (is_over c r)) [
  | inr fine ↦
      (let step : wait_loop c (r ∷ rs) ≡ granted r.wait_time = ground arith in
        subst (Ended c (r ∷ rs)) (sym step) (inl (has_room c r fine)))
  | inl over ↦ elim (Bool-cases (goes_on c r)) [
    | inr off ↦
        (let step : wait_loop c (r ∷ rs) ≡ refused = ground arith in
          subst (Ended c (r ∷ rs)) (sym step) tt)
    | inl on ↦ elim h [
      | inl last ↦ elim (last_round c r last) [
        | inl a ↦ absurd (ground arith)
        | inr a ↦ absurd (ground arith)
      ]
      | inr later ↦
          (let step : wait_loop c (r ∷ rs) ≡ wait_loop c rs = ground arith in
            subst (Ended c (r ∷ rs)) (sym step)
              (Ended-later c r rs (wait_loop c rs) (wait_loop-Ended c rs later)))
    ]
  ]
]

-- How a request for a record ends: with a message counted as lost, or with a buffer
abbrev pub Answered : Caller → List Round → Counters → Started × Counters → Type 0
Answered c rs v (not_yet, v') = ⊥
Answered c rs v (no_buffer, v') = (v'.lost ≡ v.lost + 1) × (v'.serial ≡ v.serial)
Answered c rs v (buffer b, v') = (v'.lost ≡ v.lost) × AnyRoom c rs

Answered-with_leave :
    (e : LogEnv) (c : Caller) (rs : List Round) (w : ℕ) (v : Counters)
    → AnyRoom c rs
    → Answered c rs v (with_leave e c w v)
unfolding with_leave
Answered-with_leave e c rs w v room =
    let wait' = if sleeps c && (w == 0) then v.wait_master else w in
    let P = Answered c rs v in
    elim (Bool-cases c.has_memory) [
      | inr out ↦
          (let step : with_leave e c w v
                ≡ (no_buffer, record v { wait_time = wait'; lost = v.lost + 1 }) =
              ground arith in
            subst P (sym step) (refl, refl))
      | inl fine ↦ elim (Bool-cases c.has_stamp) [
        | inl stamped ↦
            (let b = log_format e (c.prefix c.context_serial) new_buffer in
              let step : with_leave e c w v ≡ (buffer b, record v { wait_time = wait' }) =
                ground arith in
              subst P (sym step) (refl, room))
        | inr fresh ↦
            (let serial = (v.serial + 1) % 4294967296 in
              let b = log_format e (c.prefix serial) new_buffer in
              let step : with_leave e c w v
                  ≡ (buffer b, record v { wait_time = wait'; serial = serial }) =
                ground arith in
              subst P (sym step) (refl, room))
      ]
    ]

Answered-after_wait :
    (e : LogEnv) (c : Caller) (rs : List Round) (v : Counters) (o : Outcome)
    → Ended c rs o
    → Answered c rs v (after_wait e c v o)
unfolding after_wait
Answered-after_wait e c rs v waiting h = elim h [ ]
Answered-after_wait e c rs v refused h = (refl, refl)
Answered-after_wait e c rs v (granted w) h = Answered-with_leave e c rs w v h

-- A request for a record ends, as soon as a round comes at which the caller may not sleep, the queue has room,
-- the wait time is zero or the caller's time is over; where audit is initialized and the filters let the type
-- through, it ends with a message counted as lost and no serial number used, or with a buffer and nothing
-- lost, and then one of the rounds had room in the queue.
pub Answered-log_start :
    (e : LogEnv) (c : Caller) (rs : List Round) (v : Counters)
    → c.is_initialized ≡ true
    → c.is_filtered ≡ false
    → AnyLast c rs
    → Answered c rs v (log_start e c rs v)
unfolding log_start
Answered-log_start e c rs v on free last =
    let step : log_start e c rs v ≡ after_wait e c v (wait_loop c rs) = ground arith in
    subst (Answered c rs v) (sym step)
      (Answered-after_wait e c rs v (wait_loop c rs) (wait_loop-Ended c rs last))

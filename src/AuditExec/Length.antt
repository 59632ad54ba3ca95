-- ===== src/AuditExec/Length.antt =====
-- How long the records get, and that all of an argument is logged.
use doublefetch.Base.{
  ap₂, ◌++◌, ◌⊎◌, take, take_all, take-overwrite, ℕ, zero, suc, ◌+◌, ◌-◌, ◌≡◌, ◌≤◌, Bool, true,
  some, List, [], ◌∷◌, Bytes, length, set, overwrite, ltb, ◌==◌, ◌&&◌, if◌then◌else◌, min, arith,
  refl, sym, ap, ◌∙◌, Bool-cases, inl, inr, length-set, length-overwrite, subst,
}
use mathlib.Core.List.{append_assoc, append-nil}
use doublefetch.Kernel.{Kernel, World, copy_from_user, call, now, tick}
use doublefetch.AuditExec.{
  Audit, LogCall, Sent, killed, lost, sent, max_len, max_piece, cost, arg_num_len, to_send,
  too_long, piece, with_room, refetched, send, send_piece, filled,
}

abbrev pub RoomFor : ℕ → Sent → Type 0
RoomFor n killed = Unit
RoomFor n lost = Unit
RoomFor n (sent total buf) = total ≤ n

pub Sent-cases :
    (r : Sent) → (r ≡ killed) ⊎ (r ≡ lost) ⊎ ((total : ℕ) × (buf : Bytes) × (r ≡ sent total buf))
Sent-cases killed = inl refl
Sent-cases lost = inr (inl refl)
Sent-cases (sent total buf) = inr (inr (total, buf, refl))

module _ (k : Kernel) (a : Audit) (arg len : ℕ) (has_cntl : Bool) where
  -- A piece leaves no more than 7500 characters in its record and those of the argument's number, name
  -- and quotes.
  send_piece_bounds :
      (i len_left p len_sent : ℕ) (buf : Bytes) (w : World LogCall)
      → RoomFor
          (max_len + arg_num_len k a arg len has_cntl)
          (send_piece k a arg len has_cntl i len_left p len_sent buf w).0
  unfolding send_piece with_room refetched
  send_piece_bounds i len_left p len_sent buf w = ground arith

  -- The characters of a record are never more than 7500 and those of the argument's number, name and
  -- quotes, whatever is left in it from the arguments before.
  pub send_bounds :
      (fuel i len_left p len_sent : ℕ) (buf : Bytes) (w : World LogCall)
      → len_sent ≤ max_len + arg_num_len k a arg len has_cntl
      → RoomFor
          (max_len + arg_num_len k a arg len has_cntl)
          (send k a arg len has_cntl fuel i len_left p len_sent buf w).0
  unfolding send
  send_bounds zero i len_left p len_sent buf w h = h
  send_bounds (suc fuel) i len_left p len_sent buf w h =
      let n = max_len + arg_num_len k a arg len has_cntl in
      let r = send_piece k a arg len has_cntl i len_left p len_sent buf w in
      let now = send_piece_bounds i len_left p len_sent buf w in
      let all = send k a arg len has_cntl (suc fuel) i len_left p len_sent buf w in
      let P : Sent × World LogCall → Type 0 = λ z. RoomFor n z.0 in
      let m = to_send k a arg len has_cntl len_left in
      elim (Bool-cases (len_left == 0)) [
        | inl done ↦ (let e : all ≡ (sent len_sent buf, w) = ground arith in subst P (sym e) h)
        | inr more ↦ elim (Sent-cases r.0) [
          | inl bad ↦ (let e : all ≡ (killed, r.1) = ground arith in subst P (sym e) tt)
          | inr (inl bad) ↦ (let e : all ≡ (lost, r.1) = ground arith in subst P (sym e) tt)
          | inr (inr (total, buf', good)) ↦
              (let e : all
                    ≡ send k a arg len has_cntl fuel (i + 1) (len_left - m) (p + m) total buf' r.1 =
                  ground arith in
                let small : total ≤ n = subst (RoomFor n) good now in
                subst P (sym e)
                  (send_bounds fuel (i + 1) (len_left - m) (p + m) total buf' r.1 small))
        ]
      ]

-- The bytes that were logged in hex, the oldest first
abbrev pub hex_bytes : List LogCall → Bytes
hex_bytes [] = []
hex_bytes (LogCall.hex_piece arg i b ∷ cs) = hex_bytes cs ++ b
hex_bytes (LogCall.text_piece arg i b ∷ cs) = hex_bytes cs
hex_bytes (LogCall.log_end ∷ cs) = hex_bytes cs
hex_bytes (LogCall.log_start ∷ cs) = hex_bytes cs
hex_bytes (LogCall.arg_len arg n ∷ cs) = hex_bytes cs
hex_bytes (LogCall.sigkill ∷ cs) = hex_bytes cs

-- The bytes of a memory from an address on
abbrev pub bytes_at : (ℕ → ℕ) → (p n : ℕ) → Bytes
bytes_at mem p zero = []
bytes_at mem p (suc n) = mem p ∷ bytes_at mem (p + 1) n

pub length-bytes_at : (mem : ℕ → ℕ) (p n : ℕ) → length (bytes_at mem p n) ≡ n
length-bytes_at mem p zero = refl
length-bytes_at mem p (suc n) = ap suc (length-bytes_at mem (p + 1) n)

bytes_at-add :
    (mem : ℕ → ℕ) (p m n : ℕ) → bytes_at mem p m ++ bytes_at mem (p + m) n ≡ bytes_at mem p (m + n)
bytes_at-add mem p zero n =
    let e1 : p + 0 ≡ p = omega arith in let e2 : n ≡ 0 + n = omega arith in ap₂ (bytes_at mem) e1 e2
bytes_at-add mem p (suc m) n =
    let e1 : p + suc m ≡ p + 1 + m = omega arith in
    let e2 : suc (m + n) ≡ suc m + n = omega arith in
    ap (λ q. bytes_at mem p (suc m) ++ bytes_at mem q n) e1
    ∙ ap (λ l. mem p ∷ l) (bytes_at-add mem (p + 1) m n)
    ∙ ap (bytes_at mem p) e2

take-set : (n : ℕ) (xs : Bytes) (v : ℕ) → take n (set xs n v) ≡ take n xs
take-set zero xs v = refl
take-set (suc n) [] v = refl
take-set (suc n) (x ∷ xs) v = ap (λ r. x ∷ r) (take-set n xs v)

-- Where user memory stays as it is, every fetch succeeds and there is always a record
module _ (k : Kernel) (a : Audit) (arg len : ℕ) (mem : ℕ → ℕ)
    (reads : (t q n : ℕ) → k.fetch t q n ≡ some (bytes_at mem q n))
    (starts : (t : ℕ) → a.starts t ≡ true) where
  with_room-some :
      (n len_sent : ℕ) (w : World LogCall)
      → (so_far : ℕ) × (w' : World LogCall) × (with_room k a arg len true n len_sent w
          ≡ (some so_far, w'))
        × (hex_bytes w'.calls ≡ hex_bytes w.calls)
  unfolding call now
  with_room-some n len_sent w =
      elim (Bool-cases (ltb max_len (arg_num_len k a arg len true + len_sent + cost true n))) [
        | inr fits ↦ (len_sent, w, ground arith, refl)
        | inl full ↦ (
          0,
          record (tick (tick w)) { calls = LogCall.log_start ∷ LogCall.log_end ∷ w.calls },
          ground (arith, starts w.clock),
          refl,
        )
      ]

  -- What is left of the argument is fetched again, or stands in the buffer.
  abbrev pub InReach : (left p : ℕ) → Bytes → Type 0
  InReach left p buf = (3750 ≤ len) ⊎ ((left ≤ 3750) × (take left buf ≡ bytes_at mem p left))

  refetched-some :
      (left p : ℕ) (buf : Bytes) (w : World LogCall)
      → length buf ≡ max_len + 1
      → InReach left p buf
      → let n = min left 3750 in
        (buf' : Bytes) × (w' : World LogCall) × (refetched k a arg len true n p buf w
          ≡ (some buf', w'))
        × (w'.calls ≡ w.calls)
        × (length buf' ≡ max_len + 1)
        × (take n buf' ≡ bytes_at mem p n)
  unfolding copy_from_user overwrite
  refetched-some left p buf w size held =
      let n = min left 3750 in
      let d = bytes_at mem p n in
      let exact = length-bytes_at mem p n in
      elim (Bool-cases (ltb len (max_piece true))) [
        | inl short ↦ (
          set buf n 0,
          w,
          ground arith,
          refl,
          length-set buf n 0 ∙ size,
          elim held [
            | inl long ↦ absurd (ground arith)
            | inr (few, same) ↦
                let all : n ≡ left = omega arith in
                take-set n buf 0 ∙ subst (λ m. take m buf ≡ bytes_at mem p m) (sym all) same
          ],
        )
        | inr long ↦ (
          filled buf d n,
          tick w,
          ground (arith, reads w.clock p n),
          refl,
          length-set (overwrite buf d) n 0 ∙ length-overwrite buf d (omega (arith, exact)) ∙ size,
          take-set n (overwrite buf d) 0
              ∙ take-overwrite n buf d (omega (arith, exact))
              ∙ subst (λ m. take m d ≡ d) exact (take_all d),
        )
      ]

  -- A round that nothing disturbs is sent, with the bytes of its piece.
  send_piece-sent :
      (i left p len_sent : ℕ) (buf : Bytes) (w : World LogCall)
      → length buf ≡ max_len + 1
      → InReach left p buf
      → let n = min left 3750 in
        (total : ℕ) × (buf' : Bytes) × (w' : World LogCall) × (send_piece k a arg len true i left p
            len_sent buf w
          ≡ (sent total buf', w'))
        × (hex_bytes w'.calls ≡ hex_bytes w.calls ++ bytes_at mem p n)
        × (length buf' ≡ max_len + 1)
  unfolding send_piece call
  send_piece-sent i left p len_sent buf w size held =
      let n = min left 3750 in
      let (so_far, w1, e1, kept) = with_room-some n len_sent w in
      let w2 : World LogCall =
        if (i == 0) && too_long k a arg len true
        then record (tick w1) { calls = LogCall.arg_len arg (cost true len) ∷ w1.calls }
        else w1 in
      let same : hex_bytes w2.calls ≡ hex_bytes w1.calls = ground arith in
      let (buf', w3, e3, calls, size', bytes) = refetched-some left p buf w2 size held in
      let w4 : World LogCall = record (tick w3) {
        calls = piece k a arg len true i n buf' ∷ w3.calls;
      } in
      (
        so_far + arg_num_len k a arg len true + cost true n,
        buf',
        w4,
        ground arith,
        ap₂ (λ l b. l ++ b) (ap hex_bytes calls ∙ same ∙ kept) bytes,
        size',
      )

  -- An argument that is logged in hex is logged whole: where user memory stays as it is, every fetch succeeds
  -- and there is always a record, the bytes that the loop logs, one piece after the other, are those of the
  -- argument, in their order. An argument of less than 3750 bytes is in the buffer to begin with.
  pub send_whole :
      (fuel i left p len_sent : ℕ) (buf : Bytes) (w : World LogCall)
      → left ≤ fuel
      → length buf ≡ max_len + 1
      → InReach left p buf
      → (total : ℕ) × (buf' : Bytes) × (w' : World LogCall) × (send k a arg len true fuel i left p
            len_sent buf w
          ≡ (sent total buf', w'))
        × (hex_bytes w'.calls ≡ hex_bytes w.calls ++ bytes_at mem p left)
  unfolding send
  send_whole zero i left p len_sent buf w le size held =
      let none_left : left ≡ 0 = omega arith in
      (
        len_sent,
        buf,
        w,
        refl,
        sym (
            subst (λ m. hex_bytes w.calls ++ bytes_at mem p m ≡ hex_bytes w.calls) (sym none_left)
              (append-nil (hex_bytes w.calls))),
      )
  send_whole (suc fuel) i left p len_sent buf w le size held = elim (Bool-cases (left == 0)) [
    | inl done ↦
        let none_left : left ≡ 0 = ground arith in
        (
          len_sent,
          buf,
          w,
          ground arith,
          sym (
              subst (λ m. hex_bytes w.calls ++ bytes_at mem p m ≡ hex_bytes w.calls) (sym none_left)
                (append-nil (hex_bytes w.calls))),
        )
    | inr more ↦
        let n = min left 3750 in
        let (total, buf', w', e, grown, size') =
          send_piece-sent i left p len_sent buf w size held in
        let held' : InReach (left - n) (p + n) buf' = elim held [
          | inl long ↦ inl long
          | inr (few, same) ↦
              let none_left : left - n ≡ 0 = omega arith in
              inr (
                omega arith,
                subst (λ m. take m buf' ≡ bytes_at mem (p + n) m) (sym none_left) refl,
              )
        ] in
        let (total2, buf2, w2, e2, grown2) =
          send_whole fuel (i + 1) (left - n) (p + n) total buf' w' (ground arith) size' held' in
        let all : n + (left - n) ≡ left = omega arith in
        (
          total2,
          buf2,
          w2,
          ground arith,
          grown2
              ∙ ap (λ l. l ++ bytes_at mem (p + n) (left - n)) grown
              ∙ append_assoc (hex_bytes w.calls) (bytes_at mem p n)
                  (bytes_at mem (p + n) (left - n))
              ∙ ap (λ l. hex_bytes w.calls ++ l)
                  (bytes_at-add mem p n (left - n) ∙ ap (bytes_at mem p) all),
        )
  ]

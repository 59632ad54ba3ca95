-- ===== src/CommQueue/Wait.antt =====
-- The wait of `aac_queue_get` for an entry, for the consumer's index at each of its rounds.
use doublefetch.Base.{
  ℕ, ◌+◌, ◌≡◌, ◌≤◌, suc, Bool, true, false, Option, none, some, List, [], ◌∷◌, ◌==◌, arith,
  Bool-cases, inl, inr, ◌⊎◌, refl, sym, subst,
}
use doublefetch.CommQueue.{wrapped, moderated, fill, get_entry, Queue, Qid, HwFib, Got, queue_get}
use doublefetch.CommQueue.Ring.{count, Sound}

-- One of some consumer indices
abbrev pub Seen : ℕ → List ℕ → Type 0
Seen c [] = ⊥
Seen c (x ∷ xs) = (c ≡ x) ⊎ Seen c xs

-- The queue is full for each of some consumer indices.
abbrev pub AllFull : Queue → List ℕ → Type 0
AllFull q [] = Unit
AllFull q (c ∷ cs) = (suc (count (record q { consumer = c })) ≡ q.entries) × AllFull q cs

-- Indices that the consumer of a queue may have
abbrev pub AllIndices : Queue → List ℕ → Type 0
AllIndices q [] = Unit
AllIndices q (c ∷ cs) = ((1 ≤ c) × (c ≤ q.entries)) × AllIndices q cs

full_lem :
    (q : Queue)
    → Sound q
    → (wrapped q.entries q.producer + 1 == q.consumer) ≡ true
    → suc (count q) ≡ q.entries
full_lem q s full = ground arith

Sound-move :
    (q : Queue) (c : ℕ) → Sound q → 1 ≤ c → c ≤ q.entries → Sound (record q { consumer = c })
Sound-move q c s low high = record {
  producer_low = s.producer_low;
  producer_high = s.producer_high;
  consumer_low = low;
  consumer_high = high;
  whole = s.whole;
}

module _ (capacity : Qid → ℕ) where
  -- What `aac_queue_get` finds: a full queue at each index that it sees, or room at one of them
  unfoldable pub Found : Qid → HwFib → List ℕ → Queue → Option Got → Type 0
  Found qid h seen q none = AllFull q seen
  Found qid h seen q (some g) =
      (c : ℕ) × (nonotify : Bool) × Seen c seen
      × Sound (record q { consumer = c })
      × (queue_get capacity qid h [] nonotify (record q { consumer = c }) ≡ some g)

  Found-later :
      (qid : Qid) (h : HwFib) (moves : List ℕ) (c : ℕ) (q : Queue) (r : Option Got)
      → suc (count q) ≡ q.entries
      → Found qid h (c ∷ moves) (record q { consumer = c }) r
      → Found qid h (q.consumer ∷ c ∷ moves) q r
  unfolding Found
  Found-later qid h moves c q none full rest = (full, rest)
  Found-later qid h moves c q (some g) full (m, nonotify, seen, sound, got) =
      (m, nonotify, inr seen, sound, got)

  -- A round that has room
  Found-room :
      (qid : Qid) (h : HwFib) (moves : List ℕ) (nonotify : Bool) (q : Queue)
      → capacity qid ≡ q.entries
      → Sound q
      → (wrapped q.entries q.producer + 1 == q.consumer) ≡ false
      → Found qid h (q.consumer ∷ moves) q (
          some (
            fill capacity qid h
              (moderated capacity qid q nonotify)
              q
              (wrapped q.entries q.producer)))
  unfolding Found queue_get get_entry
  Found-room qid h moves nonotify q is_size s room =
      (q.consumer, nonotify, inl refl, s, ground arith)

  pub Found-queue_get :
      (qid : Qid) (h : HwFib) (moves : List ℕ) (nonotify : Bool) (q : Queue)
      → capacity qid ≡ q.entries
      → Sound q
      → AllIndices q moves
      → Found qid h (q.consumer ∷ moves) q (queue_get capacity qid h moves nonotify q)
  unfolding Found queue_get get_entry
  Found-queue_get qid h [] nonotify q is_size s all =
      let P = Found qid h (q.consumer ∷ []) q in
      let g =
        fill capacity qid h (moderated capacity qid q nonotify) q (wrapped q.entries q.producer) in
      elim (Bool-cases (wrapped q.entries q.producer + 1 == q.consumer)) [
        | inr room ↦
            (let step : queue_get capacity qid h [] nonotify q ≡ some g = ground arith in
              subst P (sym step) (Found-room qid h [] nonotify q is_size s room))
        | inl full ↦
            (let step : queue_get capacity qid h [] nonotify q ≡ none = ground arith in
              subst P (sym step) (full_lem q s full, tt))
      ]
  Found-queue_get qid h (c ∷ cs) nonotify q is_size s ((low, high), all) =
      let P = Found qid h (q.consumer ∷ c ∷ cs) q in
      let g =
        fill capacity qid h (moderated capacity qid q nonotify) q (wrapped q.entries q.producer) in
      let q' = record q { consumer = c } in
      let later = queue_get capacity qid h cs (moderated capacity qid q nonotify) q' in
      elim (Bool-cases (wrapped q.entries q.producer + 1 == q.consumer)) [
        | inr room ↦
            (let step : queue_get capacity qid h (c ∷ cs) nonotify q ≡ some g = ground arith in
              subst P (sym step) (Found-room qid h (c ∷ cs) nonotify q is_size s room))
        | inl full ↦
            (let step : queue_get capacity qid h (c ∷ cs) nonotify q ≡ later = ground arith in
              subst P (sym step) (
                Found-later qid h cs c q later (full_lem q s full) (
                  Found-queue_get qid h cs (moderated capacity qid q nonotify) q' is_size
                    (Sound-move q c s low high) all)))
      ]

-- ===== src/CommQueue/Ring.antt =====
-- The queue as the list of its entries, the oldest first.
use doublefetch.Base.{
  ℕ, zero, suc, ◌+◌, ◌-◌, ◌≡◌, ◌≢◌, ◌≤◌, ◌<◌, Bool, false, some, List, [], ◌∷◌, ◌++◌, length,
  get_or, set, length-set, get_or-set_ne, ltb, leb, ◌==◌, if◌then◌else◌, arith, Bool-cases, inl,
  inr, refl, ap, ap₂, sym, subst, ◌∙◌,
}
use doublefetch.CommQueue.{
  Entry, Queue, Qid, HwFib, Got, wrapped, entry_of, get_entry, fill, queue_get, publish,
  consumer_get, consumer_free, moderated,
}

abbrev pub nothing : Entry
nothing = record { size = 0; addr = 0 }

-- Where the entry stands that comes `d` entries after the index `c`
abbrev place : (n c d : ℕ) → ℕ
place n c d = if ltb (c + d) n then c + d else c + d - n

abbrev next : (n c : ℕ) → ℕ
next n c = if leb n c then 1 else c + 1

-- The `k` entries from the index `c` on
unfoldable pub items : (n : ℕ) → List Entry → (k c : ℕ) → List Entry
items n b zero c = []
items n b (suc k) c = get_or b (wrapped n c) nothing ∷ items n b k (next n c)

abbrev pub count : Queue → ℕ
count q =
    if leb q.consumer q.producer
    then q.producer - q.consumer
    else q.producer + q.entries - q.consumer

abbrev pub contents : Queue → List Entry
contents q = items q.entries q.base (count q) q.consumer

-- The indices are from 1 to the number of entries, as they are when the queue is set up.
pub record Sound (q : Queue) : Type 0 where
  pub producer_low : 1 ≤ q.producer
  pub producer_high : q.producer ≤ q.entries
  pub consumer_low : 1 ≤ q.consumer
  pub consumer_high : q.consumer ≤ q.entries
  pub whole : length q.base ≡ q.entries

get_or-set_eq :
    (xs : List Entry) (i : ℕ) (v : Entry) → i < length xs → get_or (set xs i v) i nothing ≡ v
get_or-set_eq [] i v h = absurd (omega arith)
get_or-set_eq (x ∷ xs) zero v h = refl
get_or-set_eq (x ∷ xs) (suc i) v h = get_or-set_eq xs i v (omega arith)

-- A write behind the last entry adds it.
items-set :
    (n : ℕ) (b : List Entry) (x : Entry) (k c : ℕ)
    → length b ≡ n
    → k < n
    → 1 ≤ c
    → c ≤ n
    → items n (set b (place n c k) x) (suc k) c ≡ items n b k c ++ (x ∷ [])
unfolding items
items-set n b x zero c whole less low high =
    let at : wrapped n c ≡ place n c 0 = ground arith in
    let is = get_or-set_eq b (place n c 0) x (ground arith) in
    ap (λ y. y ∷ []) (ap (λ j. get_or (set b (place n c 0) x) j nothing) at ∙ is)
items-set n b x (suc k) c whole less low high =
    let step : place n (next n c) k ≡ place n c (suc k) = ground arith in
    let ih = items-set n b x k (next n c) whole (omega arith) (ground arith) (ground arith) in
    let apart : place n c (suc k) ≢ wrapped n c = λ e. ground arith in
    let same = get_or-set_ne b (place n c (suc k)) (wrapped n c) x nothing apart in
    ap₂ (λ y ys. y ∷ ys) same
      (subst (λ j. items n (set b j x) (suc k) (next n c) ≡ items n b k (next n c) ++ (x ∷ [])) step
        ih)

-- The queue after its oldest entry is taken
abbrev taken : Queue → Queue
taken q = record q { consumer = next q.entries q.consumer }

-- `count` after an entry is put, and after one is taken
count-publish :
    (q : Queue) (b : List Entry)
    → Sound q
    → (wrapped q.entries q.producer + 1 == q.consumer) ≡ false
    → count (publish (wrapped q.entries q.producer) (record q { base = b })) ≡ suc (count q)
count-publish q b s room = ground arith

place-count :
    (q : Queue) → Sound q → wrapped q.entries q.producer ≡ place q.entries q.consumer (count q)
place-count q s = ground arith

count-taken :
    (q : Queue) → Sound q → (q.producer == q.consumer) ≡ false → count q ≡ suc (count (taken q))
count-taken q s some_entry = ground arith

pub count_bounds : (q : Queue) → Sound q → count q < q.entries
count_bounds q s = ground arith

module _ (capacity : Qid → ℕ) where
  -- A put, where there is room: the queue is sound again, and has one more entry at its end.
  pub put_lem :
      (qid : Qid) (h : HwFib) (nonotify : Bool) (q : Queue) (g : Got)
      → capacity qid ≡ q.entries
      → Sound q
      → queue_get capacity qid h [] nonotify q ≡ some g
      → Sound (publish g.index g.queue)
        × (contents (publish g.index g.queue) ≡ contents q ++ (entry_of qid h ∷ []))
  unfolding queue_get get_entry
  put_lem qid h nonotify q g is_size s is =
      let i = wrapped q.entries q.producer in
      let x = entry_of qid h in
      let b = set q.base i x in
      elim (Bool-cases (i + 1 == q.consumer)) [
        | inl full ↦ absurd (ground arith)
        | inr room ↦
            (let got : g ≡ fill capacity qid h (moderated capacity qid q nonotify) q i =
                ground arith in
              let after = publish i (record q { base = b }) in
              let sound : Sound after = record {
                producer_low = omega arith;
                producer_high = ground arith;
                consumer_low = s.consumer_low;
                consumer_high = s.consumer_high;
                whole = length-set q.base i x ∙ s.whole;
              } in
              let longer : count after ≡ suc (count q) = count-publish q b s room in
              let bound = count_bounds q s in
              let all : items q.entries b (suc (count q)) q.consumer ≡ contents q ++ (x ∷ []) =
                subst
                  (λ j.
                    items q.entries (set q.base j x) (suc (count q)) q.consumer
                    ≡ contents q ++ (x ∷ []))
                  (sym (place-count q s))
                  (items-set q.entries q.base x (count q) q.consumer s.whole bound s.consumer_low
                    s.consumer_high) in
              subst
                (λ r.
                  Sound (publish r.index r.queue)
                  × (contents (publish r.index r.queue) ≡ contents q ++ (x ∷ [])))
                (sym got)
                (
                  sound,
                  subst (λ k. items q.entries b k q.consumer ≡ contents q ++ (x ∷ [])) (sym longer)
                      all,
                ))
      ]

-- A take: the entry that is found is the oldest, and the others stay.
pub take_lem :
    (qid : Qid) (q : Queue) (i : ℕ)
    → Sound q
    → consumer_get q ≡ some i
    → Sound (consumer_free qid q).1
      × (contents q ≡ get_or q.base i nothing ∷ contents (consumer_free qid q).1)
unfolding consumer_get consumer_free items
take_lem qid q i s is = elim (Bool-cases (q.producer == q.consumer)) [
  | inl empty ↦ absurd (ground arith)
  | inr some_entry ↦
      (let at : wrapped q.entries q.consumer ≡ i = ground arith in
        let shorter = count-taken q s some_entry in
        let sound : Sound (consumer_free qid q).1 = record {
          producer_low = s.producer_low;
          producer_high = s.producer_high;
          consumer_low = ground arith;
          consumer_high = ground arith;
          whole = s.whole;
        } in
        (
          sound,
          subst
              (λ k.
                items q.entries q.base k q.consumer
                ≡ get_or q.base i nothing ∷ contents (consumer_free qid q).1)
              (sym shorter)
              (subst
                (λ j.
                  items q.entries q.base (suc (count (taken q))) q.consumer
                  ≡ get_or q.base j nothing ∷ contents (consumer_free qid q).1)
                at refl),
        ))
]

-- ===== src/CommQueue/Complete.antt =====
-- The answer to a fib of the adapter: `aac_fib_adapter_complete` of cocci/testdir/truecases/commsup.c.
use doublefetch.Base.{
  ℕ, ◌+◌, ◌%◌, ◌≡◌, ◌≤◌, ◌<◌, Bool, true, false, Option, none, some, List, [], ◌∷◌, ◌++◌, ltb, ◌==◌,
  ◌&&◌, not, if◌then◌else◌, ℤ, pos, err, einval, emsgsize, arith, Bool-cases, inl, inr, ◌⊎◌, refl,
  sym, subst,
}
use doublefetch.CommQueue.{Queue, Qid, adap_resp, HwFib, Got, entry_of, queue_get, publish}
use doublefetch.CommQueue.Ring.{contents, Sound, put_lem}
use doublefetch.CommQueue.Wait.{Seen, AllFull, AllIndices, Found, Found-queue_get}

-- The fib and the adapter, as the function sees them
pub record Completion : Type 0 where
  pub is_typed : Bool  -- AAC_COMM_MESSAGE_TYPE1, AAC_COMM_MESSAGE_TYPE2
  pub is_message : Bool  -- AAC_COMM_MESSAGE
  pub is_idle : Bool  -- XferState == 0
  pub has_magic : Bool  -- StructType
  pub from_adapter : Bool  -- SentFromAdapter
  pub fib : HwFib
  pub sender_size : ℕ
  pub header_size : ℕ  -- of struct aac_fibhdr
  pub moderates : Bool  -- aac_config.irq_mod

-- What it leaves: the result, how often the fib is freed, whether the adapter is told, and the queue
pub record Completed : Type 0 where
  pub result : ℤ
  pub freed : ℕ
  pub is_told : Bool
  pub queue : Queue

-- It has returned, waits for an entry, or has met BUG.
pub data End : Type 0 where
  ended : Completed → End
  no_entry : End
  bug : End

abbrev pub without_queue : ℤ → ℕ → Queue → End
without_queue r n q = ended (record { result = r; freed = n; is_told = false; queue = q })

-- The size with the header, of an `unsigned short`
abbrev pub full_size : Completion → ℕ → ℕ
full_size c size = (size + c.header_size) % 65536

abbrev pub sized : Completion → ℕ → HwFib
sized c size = if size == 0 then c.fib else record (c.fib) { size = full_size c size }

-- What follows `aac_queue_get`
abbrev pub published : Completion → Option Got → End
published c none = no_entry
published c (some g) = ended (record {
  result = pos 0;
  freed = 0;
  is_told = not (g.nonotify && c.moderates);
  queue = publish g.index g.queue;
})

false-not : (b : Bool) → not b ≡ true → b ≡ false
false-not true h = sym h
false-not false h = refl

module _ (capacity : Qid → ℕ) where
  -- The branch for the queues
  unfoldable pub by_queue : Completion → ℕ → List ℕ → Queue → End
  unfolding queue_get
  by_queue c size moves q = elim (not (size == 0) && ltb c.sender_size (full_size c size)) [
    | true ↦ without_queue (err emsgsize) 0 q
    | false ↦ published c (queue_get capacity adap_resp (sized c size) moves false q)
  ]

  unfoldable pub adapter_complete : Completion → ℕ → List ℕ → Queue → End
  unfolding by_queue
  adapter_complete c size moves q =
      let freed = if c.is_message then 1 else 0 in
      if c.is_typed
      then without_queue (pos 0) 1 q
      else if c.is_idle
      then without_queue (pos 0) freed q
      else if not c.has_magic
      then without_queue (err einval) freed q
      else if not c.from_adapter
      then bug
      else if c.is_message
      then without_queue (pos 0) 1 q
      else by_queue c size moves q

  -- Why a fib is not queued: the adapter takes messages, the fib is idle or not one, or the answer is longer
  -- than the fib.
  abbrev pub IsLeft : Completion → ℕ → Type 0
  IsLeft c size =
      (c.is_typed ≡ true)
      ⊎ (c.is_message ≡ true)
      ⊎ (c.is_idle ≡ true)
      ⊎ (c.has_magic ≡ false)
      ⊎ ((0 < size) × (c.sender_size < full_size c size))

  -- What a call may leave, for the indices of the consumer that it sees: it waits on, where the queue is full at
  -- each of them; it meets BUG; or it ends, with the queue as it was, or with one entry more at the end of what
  -- the queue held at one of them.
  abbrev pub Answers : Completion → ℕ → List ℕ → Queue → End → Type 0
  Answers c size seen q no_entry = AllFull q seen
  Answers c size seen q bug = (c.from_adapter ≡ false)
  Answers c size seen q (ended d) =
      ((d.queue ≡ q) × (d.is_told ≡ false) × IsLeft c size)
      ⊎ ((m : ℕ) × Seen m seen
          × (d.result ≡ pos 0)
          × (d.freed ≡ 0)
          × Sound d.queue
          × (contents d.queue
              ≡ contents (record q { consumer = m }) ++ (entry_of adap_resp (sized c size) ∷ []))
          × ((size ≡ 0) ⊎ ((entry_of adap_resp (sized c size)).size ≤ c.sender_size)))

  Answers-if :
      (c : Completion) (size : ℕ) (seen : List ℕ) (q : Queue) (test : Bool) (x y : End)
      → (test ≡ true → Answers c size seen q x)
      → Answers c size seen q y
      → Answers c size seen q (if test then x else y)
  Answers-if c size seen q true x y f g = f refl
  Answers-if c size seen q false x y f g = g

  Answers-published :
      (c : Completion) (size : ℕ) (seen : List ℕ) (q : Queue) (r : Option Got)
      → capacity adap_resp ≡ q.entries
      → (size ≡ 0) ⊎ ((entry_of adap_resp (sized c size)).size ≤ c.sender_size)
      → Found capacity adap_resp (sized c size) seen q r
      → Answers c size seen q (published c r)
  unfolding Found
  Answers-published c size seen q none is_size small found = found
  Answers-published c size seen q (some g) is_size small (m, nonotify, at, s, got) =
      let (sound, is) =
        put_lem capacity adap_resp (sized c size) nonotify (record q { consumer = m }) g is_size s
          got in
      inr (m, at, refl, refl, sound, is, small)

  Answers-by_queue :
      (c : Completion) (size : ℕ) (moves : List ℕ) (q : Queue)
      → capacity adap_resp ≡ q.entries
      → Sound q
      → AllIndices q moves
      → Answers c size (q.consumer ∷ moves) q (by_queue c size moves q)
  unfolding by_queue
  Answers-by_queue c size moves q is_size s all =
      let P = Answers c size (q.consumer ∷ moves) q in
      let h = sized c size in
      let got = queue_get capacity adap_resp h moves false q in
      elim (Bool-cases (not (size == 0) && ltb c.sender_size (full_size c size))) [
        | inl long ↦
            (let step : by_queue c size moves q ≡ without_queue (err emsgsize) 0 q = ground arith in
              let some_size : 0 < size = ground arith in
              let too_long : c.sender_size < full_size c size = ground arith in
              subst P (sym step) (inl (refl, refl, inr (inr (inr (inr (some_size, too_long)))))))
        | inr fits ↦
            (let step : by_queue c size moves q ≡ published c got = ground arith in
              let small : (size ≡ 0) ⊎ ((entry_of adap_resp h).size ≤ c.sender_size) =
                elim (Bool-cases (size == 0)) [
                  | inl a ↦ inl (ground arith)
                  | inr a ↦ inr (ground arith)
                ] in
              subst P (sym step) (
                Answers-published c size (q.consumer ∷ moves) q got is_size small
                  (Found-queue_get capacity adap_resp h moves false q is_size s all)))
      ]

  -- Whatever the consumer's index is at each round of the wait, the completion of a fib of the adapter returns 0
  -- with one entry more in the response queue, behind those that it held at one of the indices seen, or
  -- leaves the queue as it was and tells nobody, which it does only where the adapter takes messages, the
  -- fib is idle or has no magic number, or the answer is longer than the fib. An entry that it
  -- adds has the size of the answer, at most that of the adapter's fib, or the fib's own where no size is
  -- given, and the fib is not freed. It waits on only where the queue was full at every index seen, and it
  -- meets BUG only for a fib that is not the adapter's.
  pub Answers-adapter_complete :
      (c : Completion) (size : ℕ) (moves : List ℕ) (q : Queue)
      → capacity adap_resp ≡ q.entries
      → Sound q
      → AllIndices q moves
      → Answers c size (q.consumer ∷ moves) q (adapter_complete c size moves q)
  unfolding adapter_complete
  Answers-adapter_complete c size moves q is_size s all =
      let freed = if c.is_message then 1 else 0 in
      let by = by_queue c size moves q in
      let seen = q.consumer ∷ moves in
      let none_freed = λ (r : ℤ) (n : ℕ). without_queue r n q in
      let e1 = if c.is_message then none_freed (pos 0) 1 else by in
      let e2 = if not c.from_adapter then bug else e1 in
      let e3 = if not c.has_magic then none_freed (err einval) freed else e2 in
      let e4 = if c.is_idle then none_freed (pos 0) freed else e3 in
      Answers-if c size seen q c.is_typed (none_freed (pos 0) 1) e4 (λ t. inl (refl, refl, inl t))
        (Answers-if c size seen q c.is_idle (none_freed (pos 0) freed) e3
          (λ t. inl (refl, refl, inr (inr (inl t))))
          (Answers-if c size seen q (not c.has_magic) (none_freed (err einval) freed) e2
            (λ t. inl (refl, refl, inr (inr (inr (inl (false-not c.has_magic t))))))
            (Answers-if c size seen q (not c.from_adapter) bug e1 (false-not c.from_adapter) (
              Answers-if c size seen q c.is_message (none_freed (pos 0) 1) by
                (λ t. inl (refl, refl, inr (inl t)))
                (Answers-by_queue c size moves q is_size s all)))))

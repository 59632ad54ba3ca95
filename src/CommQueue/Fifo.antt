-- ===== src/CommQueue/Fifo.antt =====
-- The order of what goes through a queue.
use doublefetch.Base.{
  ℕ, suc, zero, ◌≡◌, ◌<◌, Bool, some, List, [], ◌∷◌, ◌++◌, length, get_or, refl, ap, sym, subst,
  ◌∙◌,
}
use mathlib.Core.List.{append_assoc, append-nil}
use doublefetch.CommQueue.{
  Entry, Queue, Qid, HwFib, Got, entry_of, queue_get, publish, consumer_get, consumer_free,
}
use doublefetch.CommQueue.Ring.{
  nothing, items, contents, count, count_bounds, Sound, put_lem, take_lem,
}

length-items : (n : ℕ) (b : List Entry) (k c : ℕ) → length (items n b k c) ≡ k
unfolding items
length-items n b zero c = refl
length-items n b (suc k) c = ap suc (length-items n b k _)

length-contents : (q : Queue) → length (contents q) ≡ count q
length-contents q = length-items q.entries q.base (count q) q.consumer

module _ (capacity : Qid → ℕ) where
  -- What happens to a queue: the side that fills it gets an entry and publishes it, or the side that empties
  -- it takes the oldest. The host does one of them and the adapter the other. With what was put so far and
  -- what was taken
  pub data Run (start_queue : Queue) : List Entry → List Entry → Queue → Type 0 where
    start : Run start_queue [] [] start_queue
    put :
        {ps gs : List Entry} {q : Queue} (qid : Qid) (h : HwFib) (nonotify : Bool) (g : Got)
        → capacity qid ≡ q.entries
        → queue_get capacity qid h [] nonotify q ≡ some g
        → Run start_queue ps gs q
        → Run start_queue (ps ++ (entry_of qid h ∷ [])) gs (publish g.index g.queue)
    take :
        {ps gs : List Entry} {q : Queue} (qid : Qid) (i : ℕ)
        → consumer_get q ≡ some i
        → Run start_queue ps gs q
        → Run start_queue ps (gs ++ (get_or q.base i nothing ∷ [])) (consumer_free qid q).1

  -- Whatever sequence of puts and takes a queue sees, from indices that are neither 0 nor above the number of
  -- its entries, what was taken with what is in the queue is what was in it and what was put, in that order;
  -- and a queue holds less than its number of entries.
  pub contents-Run :
      {q0 q : Queue} {ps gs : List Entry}
      → Sound q0
      → Run q0 ps gs q
      → Sound q × (gs ++ contents q ≡ contents q0 ++ ps) × (length (contents q) < q.entries)
  contents-Run {q0} s start = (
    s,
    sym (append-nil (contents q0)),
    subst (λ n. n < q0.entries) (sym (length-contents q0)) (count_bounds q0 s),
  )
  contents-Run {q0} s (put {ps} {gs} {q} qid h nonotify g is_size got run) =
      let (sound, is, low) = contents-Run s run in
      let (sound', is') = put_lem capacity qid h nonotify q g is_size sound got in
      let x = entry_of qid h in
      let q' = publish g.index g.queue in
      (
        sound',
        ap (λ l. gs ++ l) is'
            ∙ sym (append_assoc gs (contents q) (x ∷ []))
            ∙ ap (λ l. l ++ (x ∷ [])) is
            ∙ append_assoc (contents q0) ps (x ∷ []),
        subst (λ n. n < q'.entries) (sym (length-contents q')) (count_bounds q' sound'),
      )
  contents-Run {q0} s (take {ps} {gs} {q} qid i found run) =
      let (sound, is, low) = contents-Run s run in
      let (sound', is') = take_lem qid q i sound found in
      let y = get_or q.base i nothing in
      let q' = (consumer_free qid q).1 in
      (
        sound',
        append_assoc gs (y ∷ []) (contents q') ∙ ap (λ l. gs ++ l) (sym is') ∙ is,
        subst (λ n. n < q'.entries) (sym (length-contents q')) (count_bounds q' sound'),
      )

-- ===== src/CommQueue/Notify.antt =====
-- When the adapter is told that a queue is no longer full.
use doublefetch.Base.{suc, ◌+◌, ◌≡◌, ◌<◌, ◌⊎◌, inl, inr, ◌==◌, arith, Bool-cases, refl, sym, subst}
use doublefetch.CommQueue.{
  Queue, Qid, adap_cmd, adap_resp, host_cmd, host_resp, host_cmd_not_full, host_resp_not_full, Told,
  silent, told_of, met_bug, notice, consumer_free,
}
use doublefetch.CommQueue.Ring.{count, count_bounds, Sound}

-- Of the queues that the host empties, each has a notice of its own; the others are a BUG.
abbrev pub Announced : Qid → Told → Type 0
Announced host_cmd t = t ≡ told_of host_cmd_not_full
Announced host_resp t = t ≡ told_of host_resp_not_full
Announced adap_cmd t = t ≡ met_bug
Announced adap_resp t = t ≡ met_bug

Announced-notice : (qid : Qid) → Announced qid (notice qid)
Announced-notice host_cmd = refl
Announced-notice host_resp = refl
Announced-notice adap_cmd = refl
Announced-notice adap_resp = refl

-- Where the queue was full and the producer's index is not the number of entries, the freed entry is announced
-- by the notice of the queue, for a queue that the host empties, and is a BUG for the others. Else nothing is
-- told, and then the queue was not full, or the producer's index is the number of entries: a queue that was
-- full is not announced there.
pub notice-consumer_free :
    (qid : Qid) (q : Queue)
    → Sound q
    → let told = (consumer_free qid q).0 in
      ((suc (count q) ≡ q.entries) × (q.producer < q.entries) × Announced qid told)
      ⊎ (((suc (count q) < q.entries) ⊎ (q.producer ≡ q.entries)) × (told ≡ silent))
unfolding consumer_free
notice-consumer_free qid q s =
    let bound = count_bounds q s in
    elim (Bool-cases (q.producer + 1 == q.consumer)) [
      | inl full ↦
          (let step : (consumer_free qid q).0 ≡ notice qid = ground arith in
            inl
              (ground arith, ground arith, subst (Announced qid) (sym step) (Announced-notice qid)))
      | inr room ↦ elim (Bool-cases (q.producer == q.entries)) [
        | inl last ↦ inr (inr (ground arith), ground arith)
        | inr before ↦ inr (inl (ground arith), ground arith)
      ]
    ]

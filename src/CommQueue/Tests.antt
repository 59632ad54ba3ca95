-- ===== src/CommQueue/Tests.antt =====
-- A queue of three entries, and the theorems at it.
use doublefetch.Base.{
  ℕ, suc, ◌≡◌, ◌<◌, ◌⊎◌, false, true, none, some, [], ◌∷◌, ◌++◌, length, replicate, arith, refl,
}
use doublefetch.CommQueue.{silent, Queue, Qid, HwFib, Got, queue_get, consumer_free, consumer_get}
use doublefetch.CommQueue.Ring.{nothing, contents, count, Sound}
use doublefetch.CommQueue.Fifo.{Run, contents-Run}
use doublefetch.CommQueue.Complete.{Completion, Answers, Answers-adapter_complete, adapter_complete}
use doublefetch.CommQueue.Notify.{Announced, notice-consumer_free}

abbrev capacity : Qid → ℕ
capacity qid = 3

abbrev empty : Queue
empty = record { entries = 3; producer = 3; consumer = 3; base = replicate 3 nothing }

abbrev fib : HwFib
fib = record { size = 32; sender = 7; receiver = 0; address = 9 }

-- After the first fib
abbrev one : Queue
one = record {
  entries = 3;
  producer = 1;
  consumer = 3;
  base = record { size = 32; addr = 9 } ∷ replicate 2 nothing;
}

abbrev got : Got
got = record { index = 0; nonotify = false; fib = fib; queue = record one { producer = 3 } }

put_run : queue_get capacity Qid.adap_cmd fib [] false empty ≡ some got
unfolding queue_get
put_run = refl

take_run : consumer_get one ≡ some 0
unfolding consumer_get
take_run = refl

-- A queue of two entries that waits is full until the other side takes one.
wait_run : queue_get capacity Qid.adap_cmd fib [] false (record one { consumer = 2 }) ≡ none
unfolding queue_get
wait_run = refl

Sound-empty : Sound empty
Sound-empty = record {
  producer_low = omega arith;
  producer_high = omega arith;
  consumer_low = omega arith;
  consumer_high = omega arith;
  whole = refl;
}

contents-Run_example :
    let q = (consumer_free Qid.adap_cmd one).1 in
    Sound q
    × ((record { size = 32; addr = 9 } ∷ []) ++ contents q
        ≡ contents empty ++ (record { size = 32; addr = 9 } ∷ []))
    × (length (contents q) < q.entries)
contents-Run_example =
    contents-Run capacity {q0 = empty} {q = (consumer_free Qid.adap_cmd one).1} Sound-empty
      (Run.take Qid.adap_cmd 0 take_run (Run.put Qid.adap_cmd fib false got refl put_run Run.start))

-- A full queue whose producer's index is the number of entries
abbrev full : Queue
full = record empty { consumer = 1 }

Sound-full : Sound full
Sound-full = record {
  producer_low = omega arith;
  producer_high = omega arith;
  consumer_low = omega arith;
  consumer_high = omega arith;
  whole = refl;
}

missed_run : ((consumer_free Qid.host_cmd full).0 ≡ silent) × (suc (count full) ≡ full.entries)
unfolding consumer_free
missed_run = (refl, refl)

notice-consumer_free_example :
    let told = (consumer_free Qid.host_cmd full).0 in
    ((suc (count full) ≡ full.entries)
      × (full.producer < full.entries)
      × Announced Qid.host_cmd told)
    ⊎ (((suc (count full) < full.entries) ⊎ (full.producer ≡ full.entries)) × (told ≡ silent))
notice-consumer_free_example = notice-consumer_free Qid.host_cmd full Sound-full

-- A fib of the adapter that is answered with four bytes
abbrev completion : Completion
completion = record {
  is_typed = false;
  is_message = false;
  is_idle = false;
  has_magic = true;
  from_adapter = true;
  fib = fib;
  sender_size = 512;
  header_size = 32;
  moderates = true;
}

-- The response queue is full until the adapter takes an entry.
Answers-adapter_complete_example :
    Answers capacity completion 4
      (1 ∷ 2 ∷ [])
      full
      (adapter_complete capacity completion 4 (2 ∷ []) full)
Answers-adapter_complete_example =
    Answers-adapter_complete capacity completion 4 (2 ∷ []) full refl Sound-full (omega arith)

-- ===== src/CommQueue.antt =====
-- The queues between the host and the adapter: `aac_get_entry`, `aac_queue_get`, `aac_consumer_get` and
-- `aac_consumer_free` of cocci/testdir/truecases/commsup.c.
pub mod Ring
pub mod Fifo
pub mod Notify
pub mod Wait
pub mod Complete
mod Tests
use doublefetch.Base.{
  ℕ, zero, suc, ◌+◌, ◌-◌, ◌*◌, ◌%◌, ◌≡◌, Bool, true, false, Option, none, some, List, [], ◌∷◌,
  length, get_or, set, ltb, leb, ◌==◌, ◌&&◌, ◌||◌, not, if◌then◌else◌,
}

-- `struct aac_entry`
pub record Entry : Type 0 where
  pub size : ℕ
  pub addr : ℕ

-- `struct aac_queue`, with the indices that its headers point to
pub record Queue : Type 0 where
  pub entries : ℕ
  pub producer : ℕ
  pub consumer : ℕ
  pub base : List Entry

-- The queues that the host fills, and those that it empties
pub data Qid : Type 0 where
  adap_cmd : Qid
  adap_resp : Qid
  host_cmd : Qid
  host_resp : Qid

pub data Notice : Type 0 where
  host_cmd_not_full : Notice
  host_resp_not_full : Notice

-- The fields of a `struct hw_fib` and the address of its fib
pub record HwFib : Type 0 where
  pub size : ℕ
  pub sender : ℕ
  pub receiver : ℕ
  pub address : ℕ

abbrev pub wrapped : ℕ → ℕ → ℕ
wrapped n i = if leb n i then 0 else i

-- One entry of a queue that the host fills, and the fib after that
abbrev pub entry_of : Qid → HwFib → Entry
entry_of adap_cmd h = record { size = h.size; addr = h.address }
entry_of _ h = record { size = h.size; addr = h.sender }

abbrev pub told : Qid → HwFib → HwFib
told adap_cmd h = h
told _ h = record h { receiver = h.sender }

-- What `aac_queue_get` gives: the index, whether the adapter need not be told, the fib and the queue
pub record Got : Type 0 where
  pub index : ℕ
  pub nonotify : Bool
  pub fib : HwFib
  pub queue : Queue

-- For the numbers of entries that the headers name
module _ (capacity : Qid → ℕ) where
  -- The moderation of interrupts of `aac_get_entry`: `nonotify` after it; the index is an `unsigned long`
  abbrev pub moderated : Qid → Queue → Bool → Bool
  moderated qid q nonotify =
      if q.producer == q.consumer
      then nonotify
      else (let before = (q.producer + 18446744073709551615) % 18446744073709551616 in
          nonotify || not ((if before == 0 then capacity qid else before) == q.consumer))

  -- `aac_get_entry`: the index of the entry, where the queue is not full
  unfoldable pub get_entry : Qid → Queue → Option ℕ
  get_entry qid q =
      let index = wrapped (capacity qid) q.producer in
      if index + 1 == q.consumer then none else some index

  -- What `aac_queue_get` writes for the entry
  abbrev pub fill : Qid → HwFib → Bool → Queue → ℕ → Got
  fill qid h nonotify q i = record {
    index = i;
    nonotify = nonotify;
    fib = told qid h;
    queue = record q { base = set q.base i (entry_of qid h) };
  }

  -- `aac_queue_get`, which polls until the consumer has moved: the consumer's index at each further round. It
  -- is still waiting where the list ends first.
  unfoldable pub queue_get : Qid → HwFib → List ℕ → Bool → Queue → Option Got
  unfolding get_entry
  queue_get qid h [] nonotify q = elim (get_entry qid q) [
    | some i ↦ some (fill qid h (moderated qid q nonotify) q i)
    | none ↦ none
  ]
  queue_get qid h (c ∷ cs) nonotify q =
      let rest = queue_get qid h cs (moderated qid q nonotify) (record q { consumer = c }) in
      elim (get_entry qid q) [
        | some i ↦ some (fill qid h (moderated qid q nonotify) q i)
        | none ↦ rest
      ]

-- The producer's index past the entry, as `aac_fib_adapter_complete` sets it
abbrev pub publish : ℕ → Queue → Queue
publish i q = record q { producer = i + 1 }

-- `aac_consumer_get`: the index of the oldest entry
unfoldable pub consumer_get : Queue → Option ℕ
consumer_get q = if q.producer == q.consumer then none else some (wrapped q.entries q.consumer)

-- What `aac_consumer_free` does where the queue was full: the adapter is told, or it is the BUG of a queue
-- that the host does not empty.
pub data Told : Type 0 where
  silent : Told
  told_of : Notice → Told
  met_bug : Told

abbrev pub notice : Qid → Told
notice host_cmd = told_of host_cmd_not_full
notice host_resp = told_of host_resp_not_full
notice adap_cmd = met_bug
notice adap_resp = met_bug

-- `aac_consumer_free`; the test for a full queue comes before the index is moved.
unfoldable pub consumer_free : Qid → Queue → Told × Queue
consumer_free qid q = (
  (if q.producer + 1 == q.consumer then notice qid else silent),
  record q { consumer = if leb q.entries q.consumer then 1 else q.consumer + 1 },
)

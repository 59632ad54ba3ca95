-- ===== src/AuditStart/Tests.antt =====
-- Callers that wait for a record, and the theorem at one.
use doublefetch.Base.{ℕ, ◌+◌, ◌≡◌, true, false, some, List, [], ◌∷◌, arith, refl, inl, inr}
use doublefetch.AuditText.{LogEnv}
use doublefetch.AuditStart.{Round, Caller, Counters, log_start}
use doublefetch.AuditStart.Backlog.{Answered, Answered-log_start}

abbrev env : LogEnv
env = record { grow = λ t room extra. some (room + extra); digits = λ x. (0, 0) }

abbrev caller : Caller
caller = record {
  is_initialized = true;
  is_filtered = false;
  may_sleep = true;
  is_daemon = false;
  start = 100;
  has_memory = true;
  has_stamp = false;
  prefix = λ serial. serial ∷ [];
  context_serial = 0;
}

-- A round over the limit, and a time
abbrev full_at : ℕ → Round
full_at now = record {
  limit = 64;
  length = 70;
  wait_time = 60;
  now = now;
  limit_again = 64;
  length_again = 70;
  left = λ sleep. 5;
}

-- One with room
abbrev room_at : ℕ → Round
room_at now = record (full_at now) { length = 64 }

abbrev counters : Counters
counters = record { wait_time = 60; wait_master = 60; lost = 0; serial = 8 }

abbrev rounds : List Round
rounds = full_at 100 ∷ full_at 120 ∷ room_at 130 ∷ []

start_run : (log_start env caller rounds counters).1.serial ≡ 9
unfolding log_start
start_run = refl

late_run : (log_start env caller (full_at 100 ∷ full_at 160 ∷ room_at 161 ∷ []) counters).1.lost ≡ 1
unfolding log_start
late_run = refl

Answered-log_start_example : Answered caller rounds counters (log_start env caller rounds counters)
Answered-log_start_example =
    Answered-log_start env caller rounds counters refl refl
      (inr (inr (inl (inr (inl (omega arith))))))

-- ===== src/FibPool/Tests.antt =====
-- Two fibs that are obtained and freed, and the theorems at them.
use doublefetch.Base.{◌≡◌, false, none, some, [], ◌∷◌, ltb, if◌then◌else◌, arith, refl}
use doublefetch.FibPool.{Pool, set_up, fib_alloc, fib_free}
use doublefetch.FibPool.Chain.{Uses, Split, Split-Uses}
use doublefetch.FibPool.Area.{AreaEnv, Area, find_area, map_free}

abbrev blank : Pool
blank = record {
  free = none;
  next = λ i. none;
  is_timed_out = λ i. false;
  state = λ i. 0;
  timeouts = 0;
  has_timed_out = λ i. false;
}

-- Of two fibs, both are obtained, and the first is freed.
abbrev after : Pool
unfolding fib_alloc fib_free set_up
after = fib_free 0 (fib_alloc (fib_alloc (set_up 2 blank)).1).1

free_run : (after.free ≡ some 0) × (after.next 0 ≡ none)
unfolding after fib_alloc fib_free set_up
free_run = (refl, refl)

first_run : (fib_alloc (set_up 2 blank)).0 ≡ some 0
unfolding fib_alloc set_up
first_run = refl

second_run : (fib_alloc (fib_alloc (set_up 2 blank)).1).0 ≡ some 1
unfolding fib_alloc set_up
second_run = refl

in_time_run : (fib_alloc (fib_alloc (set_up 2 blank)).1).1.is_timed_out 0 ≡ false
unfolding fib_alloc set_up
in_time_run = refl

Split-Uses_example : Split 2 (1 ∷ []) [] (fib_free 0 (fib_alloc (fib_alloc (set_up 2 blank)).1).1)
Split-Uses_example =
    Split-Uses 2 (1 ∷ []) [] (fib_free 0 (fib_alloc (fib_alloc (set_up 2 blank)).1).1) (omega arith)
      (Uses.release 0 (1 ∷ []) [] refl in_time_run
        (Uses.obtain 1 second_run (Uses.obtain 0 first_run (Uses.begin blank))))

-- Memory for up to 64 fibs
abbrev env : AreaEnv
env = record {
  max_fib_size = 512;
  xport_size = 16;
  alloc = λ t n. if ltb n 40000 then some 1000 else none;
}

area_run : find_area env 20 0 504 ≡ Area.got_area 1000 56
unfolding find_area
area_run = refl

short_run : map_free env 1000 56 ≡ (1040, 32768)
short_run = refl

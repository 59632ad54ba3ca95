-- ===== src/AacContext/Tests.antt =====
-- An adapter with two contexts, and the theorems at it.
use doublefetch.Base.{
  ℕ, ◌≡◌, refl, ◌%◌, true, false, some, List, [], ◌∷◌, pos, err, length, erestartsys,
}
use doublefetch.AacContext.{
  Context, Device, Request, word, find_unique, next_fib, return_fib, close_fib,
}
use doublefetch.AacContext.Sound.{AllSound}
use doublefetch.AacContext.Queue.{close_fib-next_fib}

abbrev reader : ℕ → List ℕ → Context
reader u fibs = record {
  unique = u;
  is_typed = true;
  is_sized = true;
  count = length fibs;
  fibs = fibs;
  stamp = 0;
}

-- The last identifier and the first one are taken, so that the search wraps around.
abbrev board : Device
board = record {
  contexts = reader 4294967295 (7 ∷ 8 ∷ []) ∷ reader 0 [] ∷ [];
  freed = [];
  restarts = 0;
}

board-AllSound : AllSound board.contexts
board-AllSound = (refl, (refl, refl, refl), (refl, (refl, refl, refl), tt))

abbrev request : Request
request = record { wait = true; given = true; gone = false; now = 5 }

wraps : find_unique 3 4294967295 board.contexts ≡ some 1
unfolding find_unique
wraps = refl

-- The reader of the second context waits until the fib 9 arrives, and is then given it.
woken : (next_fib request ((9 ∷ []) ∷ []) (some 0) board).0 ≡ pos 0
unfolding next_fib return_fib
woken = refl

woken_late : (next_fib request [] (some 0) board).0 ≡ err erestartsys
unfolding next_fib return_fib
woken_late = refl

close_fib-next_fib_example :
    close_fib 4294967295 (next_fib request [] (some (4294967295 % word)) board).1
    ≡ close_fib 4294967295 board
close_fib-next_fib_example = close_fib-next_fib request 4294967295 board board-AllSound refl

-- ===== src/AuditTree/Tests.antt =====
-- Runs on chains of one and of two pages, and the theorems at them.
use doublefetch.Base.{
  ℕ, ◌≡◌, ◌++◌, true, false, Option, none, some, List, [], ◌∷◌, refl, replicate, reverse_aux, arith,
}
use doublefetch.AuditTree.{Chain, at, Context, Round, mark, handle_path, unroll_tree_refs}
use doublefetch.AuditTree.Unroll.{contents}
use doublefetch.AuditTree.Extends.{Extends, Extends-unroll_tree_refs}
use doublefetch.AuditTree.Path.{Handled, Handled-handle_path}

-- One page with one entry free
abbrev chain : Chain
chain = at [] (replicate 31 (some 1)) 1 []

abbrev start : Context
start = record { chain = chain; put = []; prio = 0; is_recorded = false }

-- Two directories have chunks: the second finds no room, a page is added, and the walk begins again.
abbrev path : List (Option ℕ)
path = some 7 ∷ none ∷ some 8 ∷ []

abbrev rounds : List Round
rounds =
    record { path = path; is_raced = true; room = true }
    ∷ record { path = path; is_raced = false; room = true }
    ∷ []

abbrev done : Context
done = record {
  chain = at ((some 7 ∷ replicate 30 (some 1)) ∷ []) (replicate 30 none ++ (some 8 ∷ [])) 30 [];
  put = some 7 ∷ some 8 ∷ [];
  prio = 0;
  is_recorded = false;
}

rounds_run : handle_path (mark chain) rounds start ≡ some done
unfolding handle_path
rounds_run = refl

chain-Extends : Extends chain chain
chain-Extends = (0, (refl, refl, omega arith, refl), tt, omega arith)

Handled-handle_path_example : Handled chain rounds start done
Handled-handle_path_example =
    Handled-handle_path chain rounds start done chain-Extends refl rounds_run

-- The chain with the chunk 7 in its last free entry and 8 in a second page
abbrev longer : Chain
longer = done.chain

longer-Extends : Extends chain longer
longer-Extends = (1, (refl, omega arith, (refl, refl, omega arith, refl)), tt, omega arith)

Extends-unroll_tree_refs_example :
    Extends chain (unroll_tree_refs (mark chain) longer).1
    × (contents (unroll_tree_refs (mark chain) longer).1 ≡ contents chain)
    × (contents longer ≡ reverse_aux (unroll_tree_refs (mark chain) longer).0 (contents chain))
Extends-unroll_tree_refs_example = Extends-unroll_tree_refs chain longer longer-Extends

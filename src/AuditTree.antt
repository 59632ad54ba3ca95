-- ===== src/AuditTree.antt =====
-- The chunks of watched trees that a system call meets: `put_tree_ref`, `grow_tree_refs`,
-- `unroll_tree_refs`, `match_tree_refs`, `handle_one` and `handle_path` of
-- cocci/testdir/truecases/auditsc.c, with CONFIG_AUDIT_TREE.
pub mod Unroll
pub mod Extends
pub mod Path
mod Tests
use doublefetch.Base.{
  ℕ, zero, suc, ◌+◌, ◌-◌, ◌≡◌, Bool, true, false, Option, none, some, List, [], ◌∷◌, ◌++◌, length,
  get_or, set, drop, replicate, ◌||◌, ◌==◌, if◌then◌else◌, reverse_aux,
}

-- `c` of `struct audit_tree_refs`: 31 pointers to a chunk, or NULL
abbrev pub Page : Type 0
Page = List (Option ℕ)

abbrev pub page_size : ℕ
page_size = 31

-- The list of pages from `first_trees` on, as `trees` divides it: those before it, the nearest first,
-- the page itself, `tree_count`, and those after it. `empty` is (NULL, NULL, 0).
pub data Chain : Type 0 where
  empty : Chain
  at : (before : List Page) (cur : Page) (count : ℕ) (after : List Page) → Chain

-- The new chain, if there was room for the chunk
unfoldable pub put_tree_ref : ℕ → Chain → Option Chain
put_tree_ref chunk empty = none
put_tree_ref chunk (at before cur (suc n) after) = some (at before (set cur n (some chunk)) n after)
put_tree_ref chunk (at before cur zero []) = none
put_tree_ref chunk (at before cur zero (next ∷ after)) =
    some (at (cur ∷ before) (set next 30 (some chunk)) 30 after)

-- With memory for a page: what stood behind the current page is no longer reached.
unfoldable pub grow_tree_refs : Chain → Chain
grow_tree_refs empty = at [] (replicate page_size none) page_size []
grow_tree_refs (at before cur n after) = at (cur ∷ before) (replicate page_size none) page_size []

-- `while (n--)` for the number of rounds left: the chunks that are put, in order, and the page with
-- NULL in their places
unfoldable pub put_chunks : ℕ → ℕ → Page → List (Option ℕ) × Page
put_chunks zero n c = ([], c)
put_chunks (suc r) n c =
    let (rest, cleared) = put_chunks r (n - 1) (set c (n - 1) none) in
    (get_or c (n - 1) none ∷ rest, cleared)

-- What an unrolling gives: the chunks that were put, in order, the page where it began, the pages
-- before that, and the pages behind it
pub record Unrolled : Type 0 where
  pub chunks : List (Option ℕ)
  pub page : Page
  pub before : List Page
  pub after : List Page

-- The loops of `unroll_tree_refs`, for the number of pages that `p` lies before the last page: the
-- pages before it are walked first, from `count` entries of `p` and all of the others down to 0. In
-- the page where this ends, the entries below `low` are free.
unfoldable pub unroll_from : ℕ → ℕ → List Page → Page → ℕ → List Page → Unrolled
unfolding put_chunks
unroll_from (suc d) count (q ∷ before) cur low after =
    let (put, cleared) = put_chunks (page_size - low) page_size cur in
    let first = unroll_from d count before q 0 (cleared ∷ after) in
    record first { chunks = first.chunks ++ put }
unroll_from d count before cur low after =
    let (put, cleared) = put_chunks (count - low) count cur in
    record { chunks = put; page = cleared; before = before; after = after }

-- A page by the number of pages before it, with the count of its free entries; NULL is `none`.
abbrev pub Mark : Type 0
Mark = Option (ℕ × ℕ)

abbrev pub mark : Chain → Mark
mark empty = none
mark (at before cur n after) = some (length before, n)

-- `unroll_tree_refs`: the chunks that are put, and the chain. From NULL on it begins with all of the
-- first page.
unfoldable pub unroll_tree_refs : Mark → Chain → List (Option ℕ) × Chain
unfolding unroll_from
unroll_tree_refs m empty = ([], empty)
unroll_tree_refs none (at before cur low after) =
    let u = unroll_from (length before) page_size before cur low after in
    (u.chunks, at u.before u.page page_size u.after)
unroll_tree_refs (some (k, count)) (at before cur low after) =
    let u = unroll_from (length before - k) count before cur low after in
    (u.chunks, at u.before u.page count u.after)

-- Whether `audit_tree_match` finds a chunk among some entries
module _ (tree_match : Option ℕ → Bool) where
  abbrev pub any_match : Page → Bool
  any_match [] = false
  any_match (x ∷ xs) = tree_match x || any_match xs

  abbrev pub full_match : List Page → Bool
  full_match [] = false
  full_match (c ∷ cs) = any_match c || full_match cs

  -- `match_tree_refs`, for a tree that is not NULL: the full pages from the first one on, then the
  -- entries in use of the last
  unfoldable pub match_tree_refs : Chain → Bool
  match_tree_refs empty = false
  match_tree_refs (at before cur n after) =
      full_match (reverse_aux before []) || any_match (drop n cur)

-- What the handlers change: the chain, the references that were dropped, the newest first, and
-- `prio` with `current_state`, which `audit_set_auditable` sets.
pub record Context : Type 0 where
  pub chain : Chain
  pub put : List (Option ℕ)
  pub prio : ℕ
  pub is_recorded : Bool

abbrev pub set_auditable : Context → Context
set_auditable x = if x.prio == 0 then record x { prio = 1; is_recorded = true } else x

abbrev pub unrolled : Mark → Context → Context
unrolled m x =
    let (chunks, chain) = unroll_tree_refs m x.chain in
    record x { chain = chain; put = reverse_aux chunks x.put }

abbrev pub put_chunk : ℕ → Context → Context
put_chunk chunk x = record x { put = some chunk ∷ x.put }

-- `handle_one`, for the chunk that `audit_tree_lookup` finds; `room` is whether there is memory.
unfoldable pub handle_one : Bool → Option ℕ → Context → Context
unfolding put_tree_ref grow_tree_refs unroll_tree_refs
handle_one room none x = x
handle_one room (some chunk) x = elim (put_tree_ref chunk x.chain) [
  | some chain ↦ record x { chain = chain }
  | none ↦ elim room [
    | false ↦ unrolled (mark x.chain) (put_chunk chunk (set_auditable x))
    | true ↦ elim (put_tree_ref chunk (grow_tree_refs x.chain)) [
      | some chain ↦ record x { chain = chain }
      | none ↦ record x { chain = grow_tree_refs x.chain }
    ]
  ]
]

-- The walk of `handle_path` to the root: `none` where a directory has no chunk. It stops at the
-- first chunk for which there is no room, `drop`.
unfoldable pub walk : List (Option ℕ) → Chain → Option ℕ × Chain
unfolding put_tree_ref
walk [] c = (none, c)
walk (none ∷ path) c = walk path c
walk (some chunk ∷ path) c = elim (put_tree_ref chunk c) [
  | some c' ↦ walk path c'
  | none ↦ (some chunk, c)
]

-- One round of `handle_path`: the directories that it meets, whether a rename raced with it, and
-- whether there is memory for a page.
pub record Round : Type 0 where
  pub path : List (Option ℕ)
  pub is_raced : Bool
  pub room : Bool

-- `handle_path` over the rounds that it is run with; `none` where it would try again.
unfoldable pub handle_path : Mark → List Round → Context → Option Context
unfolding walk grow_tree_refs unroll_tree_refs
handle_path m [] x = none
handle_path m (r ∷ rounds) x =
    let (dropped, chain) = walk r.path x.chain in
    let walked : Context = record x { chain = chain } in
    elim dropped [
      | none ↦ elim r.is_raced [
        | false ↦ some walked
        | true ↦ handle_path m rounds (unrolled m walked)
      ]
      | some chunk ↦ elim r.room [
        | true ↦
            handle_path m rounds
              (unrolled m (record (put_chunk chunk walked) { chain = grow_tree_refs chain }))
        | false ↦ some (set_auditable (unrolled m (put_chunk chunk walked)))
      ]
    ]

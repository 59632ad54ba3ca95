-- ===== src/AuditTree/Unroll.antt =====
-- A chain of pages is a stack of chunks, and `unroll_tree_refs` takes it back to a mark.
use mathlib.Core.List.{reverse_aux-append}
use doublefetch.Base.{
  ℕ, zero, suc, ◌+◌, ◌-◌, ◌≡◌, ◌≤◌, ◌<◌, Bool, Option, none, List, [], ◌∷◌, ◌++◌, length, get_or,
  set, drop, ◌||◌, reverse_aux, arith, refl, sym, ap, ◌∙◌, length-set, ap₂, get_or-set_ne,
}
use doublefetch.AuditTree.{
  Page, page_size, Chain, empty, at, put_chunks, unroll_from, any_match, full_match,
  match_tree_refs,
}

abbrev pub flat : List Page → Page
flat [] = []
flat (c ∷ cs) = c ++ flat cs

-- The entries in use, the newest first
abbrev pub contents : Chain → List (Option ℕ)
contents empty = []
contents (at before cur n after) = drop n cur ++ flat before

-- The entries that the loop reads
abbrev entries : ℕ → ℕ → Page → List (Option ℕ)
entries zero n c = []
entries (suc r) n c = get_or c (n - 1) none ∷ entries r (n - 1) c

pub drop-set : (c : Page) (n i : ℕ) (v : Option ℕ) → i < n → drop n (set c i v) ≡ drop n c
drop-set [] n i v h = refl
drop-set (x ∷ c) zero i v h = elim h [ ]
drop-set (x ∷ c) (suc n) zero v h = refl
drop-set (x ∷ c) (suc n) (suc i) v h = drop-set c n i v (omega arith)

pub drop-set_self :
    (c : Page) (i : ℕ) (v : Option ℕ) → i < length c → drop i (set c i v) ≡ v ∷ drop (suc i) c
drop-set_self [] i v h = elim h [ ]
drop-set_self (x ∷ c) zero v h = refl
drop-set_self (x ∷ c) (suc i) v h = drop-set_self c i v (omega arith)

drop_step : (c : Page) (i : ℕ) → i < length c → drop i c ≡ get_or c i none ∷ drop (suc i) c
drop_step [] i h = elim h [ ]
drop_step (x ∷ c) zero h = refl
drop_step (x ∷ c) (suc i) h = drop_step c i (omega arith)

pub drop_all : (c : Page) (n : ℕ) → length c ≤ n → drop n c ≡ []
drop_all [] zero h = refl
drop_all [] (suc n) h = refl
drop_all (x ∷ c) zero h = elim h [ ]
drop_all (x ∷ c) (suc n) h = drop_all c n (omega arith)

pub drop_nil : (n : ℕ) → ◌≡◌ {A = Page} (drop n []) []
drop_nil zero = refl
drop_nil (suc n) = refl

drop-drop : (m n : ℕ) (c : Page) → drop m (drop n c) ≡ drop (m + n) c
drop-drop m zero c = ap (λ k. drop k c) (omega arith)
drop-drop m (suc n) [] = drop_nil m ∙ sym (drop_nil (m + suc n))
drop-drop m (suc n) (x ∷ c) =
    drop-drop m n c ∙ ap (λ k. drop k (x ∷ c)) (let e : suc (m + n) ≡ m + suc n = omega arith in e)

-- What two pages share from an entry on they share further up.
drop_above : (m n : ℕ) (b c : Page) → m ≤ n → drop m b ≡ drop m c → drop n b ≡ drop n c
drop_above m n b c h e =
    let up : n ≡ n - m + m = omega arith in
    ap (λ k. drop k b) up
    ∙ sym (drop-drop (n - m) m b)
    ∙ ap (drop (n - m)) e
    ∙ drop-drop (n - m) m c
    ∙ ap (λ k. drop k c) (sym up)

entries-set :
    (r n i : ℕ) (v : Option ℕ) (c : Page) → r ≤ n → n ≤ i → entries r n (set c i v) ≡ entries r n c
entries-set zero n i v c k h = refl
entries-set (suc r) n i v c k h =
    ap₂ ◌∷◌ (get_or-set_ne c i (n - 1) v none (omega arith))
      (entries-set r (n - 1) i v c (omega arith) (omega arith))

entries-drop :
    (r n : ℕ) (c : Page)
    → r ≤ n
    → n ≤ length c
    → drop (n - r) c ≡ reverse_aux (entries r n c) (drop n c)
entries-drop zero n c h l = ap (λ k. drop k c) (omega arith)
entries-drop (suc r) n c h l =
    let lower : n - suc r ≡ n - 1 - r = omega arith in
    let up : suc (n - 1) ≡ n = omega arith in
    ap (λ k. drop k c) lower
    ∙ entries-drop r (n - 1) c (omega arith) (omega arith)
    ∙ ap (reverse_aux (entries r (n - 1) c))
        (drop_step c (n - 1) (omega arith) ∙ ap (λ k. get_or c (n - 1) none ∷ drop k c) up)

put_chunks_lem :
    (r n : ℕ) (c : Page)
    → r ≤ n
    → ((put_chunks r n c).0 ≡ entries r n c)
      × (drop n (put_chunks r n c).1 ≡ drop n c)
      × (length (put_chunks r n c).1 ≡ length c)
unfolding put_chunks
put_chunks_lem zero n c h = (refl, refl, refl)
put_chunks_lem (suc r) n c h =
    let c' = set c (n - 1) none in
    let (same, kept, size) = put_chunks_lem r (n - 1) c' (omega arith) in
    let up : n ≡ suc (n - 1) = omega arith in
    (
      ap (λ t. get_or c (n - 1) none ∷ t)
          (same ∙ entries-set r (n - 1) (n - 1) none c (omega arith) (omega arith)),
      drop_above (n - 1) n (put_chunks r (n - 1) c').1 c' (omega arith) kept
          ∙ drop-set c n (n - 1) none (omega arith),
      size ∙ length-set c (n - 1) none,
    )

reverse_aux-append_right : (l x y : Page) → reverse_aux l x ++ y ≡ reverse_aux l (x ++ y)
reverse_aux-append_right [] x y = refl
reverse_aux-append_right (a ∷ l) x y = reverse_aux-append_right l (a ∷ x) y

-- The entries from `low` on, those below `n` turned round
put_chunks-drop :
    (low n : ℕ) (c rest : Page)
    → low ≤ n
    → n ≤ length c
    → drop low c ++ rest ≡ reverse_aux (put_chunks (n - low) n c).0 (drop n c ++ rest)
put_chunks-drop low n c rest h l =
    let e : low ≡ n - (n - low) = omega arith in
    let (same, kept, size) = put_chunks_lem (n - low) n c (omega arith) in
    ap (λ k. drop k c ++ rest) e
    ∙ ap (λ t. t ++ rest) (entries-drop (n - low) n c (omega arith) l)
    ∙ reverse_aux-append_right (entries (n - low) n c) (drop n c) rest
    ∙ ap (λ t. reverse_aux t (drop n c ++ rest)) (sym same)

abbrev pub AllSized : List Page → Type 0
AllSized [] = Unit
AllSized (c ∷ cs) = (length c ≡ page_size) × AllSized cs

-- Where `d` pages lie before the current one, the page from which they grew: it has the entries of `p`
-- from `n` on and the pages `b` before it.
module _ (b : List Page) (p : Page) (n : ℕ) where
  abbrev pub Above : ℕ → List Page → Page → ℕ → Type 0
  Above zero before cur low =
      (before ≡ b) × (drop n cur ≡ drop n p) × (low ≤ n) × (length cur ≡ page_size)
  Above (suc d) [] cur low = ⊥
  Above (suc d) (q ∷ before) cur low =
      (length cur ≡ page_size) × (low ≤ page_size) × Above d before q 0

  pub length-Above :
      (d : ℕ) (before : List Page) (cur : Page) (low : ℕ)
      → Above d before cur low
      → length before ≡ d + length b
  length-Above zero before cur low h = ap length h.0 ∙ omega arith
  length-Above (suc d) [] cur low h = elim h [ ]
  length-Above (suc d) (q ∷ before) cur low h = omega (arith, length-Above d before q 0 h.2)

  pub unroll_from_lem :
      (d : ℕ) (before : List Page) (cur : Page) (low : ℕ) (after : List Page)
      → n ≤ page_size
      → Above d before cur low
      → let u = unroll_from d n before cur low after in
        (drop low cur ++ flat before ≡ reverse_aux u.chunks (drop n p ++ flat b))
        × Above 0 u.before u.page n
  unfolding unroll_from
  unroll_from_lem zero before cur low after h a =
      let (same, kept, le, size) = a in
      let (read, rest, long) = put_chunks_lem (n - low) n cur (omega arith) in
      (
        put_chunks-drop low n cur (flat before) le (omega arith)
            ∙ ap₂ (λ t l. reverse_aux (put_chunks (n - low) n cur).0 (t ++ flat l)) kept same,
        (same, rest ∙ kept, omega arith, long ∙ size),
      )
  unroll_from_lem (suc d) [] cur low after h a = elim a [ ]
  unroll_from_lem (suc d) (q ∷ before) cur low after h a =
      let (size, le, below) = a in
      let (put, cleared) = put_chunks (page_size - low) page_size cur in
      let (whole, at_mark) = unroll_from_lem d before q 0 (cleared ∷ after) h below in
      let u = unroll_from d n before q 0 (cleared ∷ after) in
      let none_left : drop page_size cur ++ (q ++ flat before) ≡ q ++ flat before =
        ap (λ t. t ++ (q ++ flat before)) (drop_all cur page_size (omega arith)) in
      (
        put_chunks-drop low page_size cur (q ++ flat before) le (omega arith)
            ∙ ap (reverse_aux put) (none_left ∙ whole)
            ∙ sym (reverse_aux-append u.chunks put (drop n p ++ flat b)),
        at_mark,
      )

  pub AllSized-unroll_from :
      (d : ℕ) (before : List Page) (cur : Page) (low : ℕ) (after : List Page)
      → Above d before cur low
      → AllSized after
      → AllSized (unroll_from d n before cur low after).after
  unfolding unroll_from
  AllSized-unroll_from zero before cur low after a s = s
  AllSized-unroll_from (suc d) [] cur low after a s = elim a [ ]
  AllSized-unroll_from (suc d) (q ∷ before) cur low after a s =
      let (size, le, below) = a in
      let (put, cleared) = put_chunks (page_size - low) page_size cur in
      let (read, rest, long) = put_chunks_lem (page_size - low) page_size cur (omega arith) in
      AllSized-unroll_from d before q 0 (cleared ∷ after) below (long ∙ size, s)

module _ (tree_match : Option ℕ → Bool) where
  any_match-append :
      (c l : List (Option ℕ))
      → any_match tree_match (c ++ l) ≡ (any_match tree_match c || any_match tree_match l)
  any_match-append [] l = refl
  any_match-append (x ∷ c) l = ground (arith, any_match-append c l)

  full_match-reverse :
      (before done : List Page)
      → full_match tree_match (reverse_aux before done)
        ≡ (any_match tree_match (flat before) || full_match tree_match done)
  full_match-reverse [] done = refl
  full_match-reverse (c ∷ cs) done =
      ground (arith, full_match-reverse cs (c ∷ done), any_match-append c (flat cs))

  -- The search for a tree finds it exactly where it is among the entries in use.
  pub match_tree_refs-contents :
      (c : Chain) → match_tree_refs tree_match c ≡ any_match tree_match (contents c)
  unfolding match_tree_refs
  match_tree_refs-contents empty = refl
  match_tree_refs-contents (at before cur n after) =
      ground (arith, full_match-reverse before [], any_match-append (drop n cur) (flat before))

-- ===== src/AuditTree/Extends.antt =====
-- A chain that has grown from another keeps its chunks, and can be unrolled to it.
use doublefetch.Base.{
  ℕ, zero, suc, ◌-◌, ◌≡◌, ◌≤◌, Option, none, some, List, [], ◌∷◌, ◌++◌, length, set, drop,
  reverse_aux, arith, refl, sym, ap, ap₂, ◌∙◌, length-set, Option-cases, inl, inr, subst, ◌⊎◌,
}
use doublefetch.AuditTree.{
  Page, page_size, Chain, empty, at, put_tree_ref, grow_tree_refs, unroll_from, mark,
  unroll_tree_refs, walk,
}
use doublefetch.AuditTree.Unroll.{
  flat, contents, Above, length-Above, unroll_from_lem, AllSized, AllSized-unroll_from, drop-set,
  drop-set_self, drop_all,
}

-- Where a mark leads: an empty chain leads to all of the first page.
abbrev base_pages : Chain → List Page
base_pages empty = []
base_pages (at b p k a) = b

abbrev base_page : Chain → Page
base_page empty = []
base_page (at b p k a) = p

abbrev base_count : Chain → ℕ
base_count empty = page_size
base_count (at b p k a) = k

abbrev IsEmpty : Chain → Type 0
IsEmpty empty = Unit
IsEmpty (at b p k a) = ⊥

abbrev pub Extends : Chain → Chain → Type 0
Extends c0 empty = IsEmpty c0
Extends c0 (at before cur n after) =
    (d : ℕ) × Above (base_pages c0) (base_page c0) (base_count c0) d before cur n
    × AllSized after
    × (base_count c0 ≤ page_size)

-- A page for a chunk
Above-set :
    (b : List Page) (p : Page) (k d : ℕ) (before : List Page) (cur : Page) (n chunk : ℕ)
    → Above b p k d before cur (suc n)
    → Above b p k d before (set cur n (some chunk)) n
Above-set b p k zero before cur n chunk (same, kept, le, size) = (
  same,
  drop-set cur k n (some chunk) (omega arith) ∙ kept,
  omega arith,
  length-set cur n (some chunk) ∙ size,
)
Above-set b p k (suc d) [] cur n chunk h = elim h [ ]
Above-set b p k (suc d) (q ∷ before) cur n chunk (size, le, below) =
    (length-set cur n (some chunk) ∙ size, omega arith, below)

Above-size :
    (b : List Page) (p : Page) (k d : ℕ) (before : List Page) (cur : Page) (n : ℕ)
    → k ≤ page_size
    → Above b p k d before cur n
    → (length cur ≡ page_size) × (n ≤ page_size)
Above-size b p k zero before cur n le h = (h.3, omega arith)
Above-size b p k (suc d) [] cur n le h = elim h [ ]
Above-size b p k (suc d) (q ∷ before) cur n le h = (h.0, h.1)

-- Where there is room, a chunk is put on top of the others.
pub Extends-put_tree_ref :
    (c0 c c' : Chain) (chunk : ℕ)
    → Extends c0 c
    → put_tree_ref chunk c ≡ some c'
    → Extends c0 c' × (contents c' ≡ some chunk ∷ contents c)
unfolding put_tree_ref
Extends-put_tree_ref c0 empty c' chunk h e = absurd (cc)
Extends-put_tree_ref c0 (at before cur zero []) c' chunk h e = absurd (cc)
Extends-put_tree_ref c0 (at before cur (suc n) after) c' chunk (d, above, sized, le) e =
    let cur' = set cur n (some chunk) in
    let e' : at before cur' n after ≡ c' = cc in
    let (size, room) = Above-size _ _ _ d before cur (suc n) le above in
    subst (λ z. Extends c0 z × (contents z ≡ some chunk ∷ contents (at before cur (suc n) after)))
      e'
      (
        (d, Above-set _ _ _ d before cur n chunk above, sized, le),
        ap (λ t. t ++ flat before) (drop-set_self cur n (some chunk) (omega arith)),
      )
Extends-put_tree_ref c0 (at before cur zero (next ∷ after)) c' chunk (d, above, sized, le) e =
    let next' = set next 30 (some chunk) in
    let e' : at (cur ∷ before) next' 30 after ≡ c' = cc in
    subst
      (λ z. Extends c0 z × (contents z ≡ some chunk ∷ contents (at before cur zero (next ∷ after))))
      e'
      (
        (suc d, (length-set next 30 (some chunk) ∙ sized.0, omega arith, above), sized.1, le),
        ap (λ t. t ++ (cur ++ flat before))
            (drop-set_self next 30 (some chunk) (omega (arith, sized.0))
              ∙ ap (λ t. some chunk ∷ t) (drop_all next 31 (omega (arith, sized.0)))),
      )

-- A page that is added, where there was no room, changes none of the chunks.
pub Extends-grow_tree_refs :
    (c0 c : Chain) (chunk : ℕ)
    → Extends c0 c
    → put_tree_ref chunk c ≡ none
    → Extends c0 (grow_tree_refs c) × (contents (grow_tree_refs c) ≡ contents c)
unfolding put_tree_ref grow_tree_refs
Extends-grow_tree_refs empty empty chunk h e =
    ((0, (refl, refl, omega arith, refl), tt, omega arith), refl)
Extends-grow_tree_refs (at b p k a) empty chunk h e = absurd h
Extends-grow_tree_refs c0 (at before cur (suc n) after) chunk h e = absurd (cc)
Extends-grow_tree_refs c0 (at before cur zero (next ∷ after)) chunk h e = absurd (cc)
Extends-grow_tree_refs c0 (at before cur zero []) chunk (d, above, sized, le) e =
    ((suc d, (refl, omega arith, above), tt, le), refl)

unrolled_lem :
    (b : List Page) (p : Page) (k r d : ℕ) (before : List Page) (cur : Page) (n : ℕ)
    (after : List Page)
    → k ≤ page_size
    → Above b p k d before cur n
    → AllSized after
    → d ≡ r
    → let u = unroll_from r k before cur n after in
      Above b p k 0 u.before u.page k
      × AllSized u.after
      × (drop k u.page ++ flat u.before ≡ drop k p ++ flat b)
      × (drop n cur ++ flat before ≡ reverse_aux u.chunks (drop k p ++ flat b))
unrolled_lem b p k r d before cur n after le above sized e =
    let from = subst (λ t. Above b p k t before cur n) e above in
    let (whole, at_mark) = unroll_from_lem b p k r before cur n after le from in
    (
      at_mark,
      AllSized-unroll_from b p k r before cur n after from sized,
      ap₂ (λ t l. t ++ flat l) at_mark.1 at_mark.0,
      whole,
    )

-- Unrolling to the mark of a chain gives back its chunks, and puts each of the others once, the oldest
-- first.
pub Extends-unroll_tree_refs :
    (c0 c : Chain)
    → Extends c0 c
    → Extends c0 (unroll_tree_refs (mark c0) c).1
      × (contents (unroll_tree_refs (mark c0) c).1 ≡ contents c0)
      × (contents c ≡ reverse_aux (unroll_tree_refs (mark c0) c).0 (contents c0))
unfolding unroll_tree_refs
Extends-unroll_tree_refs empty empty h = (tt, refl, refl)
Extends-unroll_tree_refs (at b p k a) empty h = absurd h
Extends-unroll_tree_refs empty (at before cur n after) (d, above, sized, le) =
    let (base, sizes, same, whole) =
      unrolled_lem [] [] page_size (length before) d before cur n after le above sized
        (omega (arith, length-Above [] [] page_size d before cur n above)) in
    ((0, base, sizes, le), same, whole)
Extends-unroll_tree_refs (at b p k a) (at before cur n after) (d, above, sized, le) =
    let (base, sizes, same, whole) =
      unrolled_lem b p k (length before - length b) d before cur n after le above sized
        (omega (arith, length-Above b p k d before cur n above)) in
    ((0, base, sizes, le), same, whole)

abbrev pub somes : List (Option ℕ) → List (Option ℕ)
somes [] = []
somes (none ∷ l) = somes l
somes (some x ∷ l) = some x ∷ somes l

-- How a walk from a chain ends: with the chunks of the path on top, or where there is no room for one.
abbrev pub Walked : Chain → Chain → List (Option ℕ) → Option ℕ × Chain → Type 0
Walked c0 c path r =
    Extends c0 r.1
    × ((r.0 ≡ none) × (contents r.1 ≡ reverse_aux (somes path) (contents c))
        ⊎ ((x : ℕ) × (r.0 ≡ some x) × (put_tree_ref x r.1 ≡ none)))

pub Extends-walk :
    (c0 c : Chain) (path : List (Option ℕ)) → Extends c0 c → Walked c0 c path (walk path c)
unfolding walk
Extends-walk c0 c [] h = (h, inl (refl, refl))
Extends-walk c0 c (none ∷ path) h = Extends-walk c0 c path h
Extends-walk c0 c (some x ∷ path) h = elim (Option-cases (put_tree_ref x c)) [
  | inl e ↦
      let step : walk (some x ∷ path) c ≡ (some x, c) = ground arith in
      subst (Walked c0 c (some x ∷ path)) (sym step) (h, inr (x, refl, e))
  | inr (c', e) ↦
      let (h', top) = Extends-put_tree_ref c0 c c' x h e in
      let step : walk (some x ∷ path) c ≡ walk path c' = ground arith in
      let (h2, r) = Extends-walk c0 c' path h' in
      subst (Walked c0 c (some x ∷ path)) (sym step) (
        h2,
        elim r [
          | inl (e2, same) ↦ inl (e2, same ∙ ap (reverse_aux (somes path)) top)
          | inr w ↦ inr w
        ],
      )
]

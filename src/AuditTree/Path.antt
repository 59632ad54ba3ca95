-- ===== src/AuditTree/Path.antt =====
-- `handle_path` adds the chunks of one walk, whole, or none.
use doublefetch.Base.{
  ℕ, ◌≡◌, ◌≢◌, Bool, true, false, ◌==◌, Option, none, some, List, [], ◌∷◌, ◌++◌, reverse_aux, arith,
  refl, sym, ap, ◌∙◌, Bool-cases, Option-cases, inl, inr, subst, ◌⊎◌,
}
use doublefetch.AuditTree.{
  Chain, put_tree_ref, grow_tree_refs, mark, walk, Context, Round, unrolled, put_chunk,
  set_auditable, handle_path, handle_one, empty, at,
}
use doublefetch.AuditTree.Unroll.{contents}
use doublefetch.AuditTree.Extends.{
  Extends, Extends-walk, Extends-put_tree_ref, Extends-grow_tree_refs, Extends-unroll_tree_refs,
  somes,
}

-- One of the rounds met no rename, and its chunks are on top of the others.
abbrev pub Took : List Round → List (Option ℕ) → List (Option ℕ) → Type 0
Took [] before after = ⊥
Took (r ∷ rounds) before after =
    ((r.is_raced ≡ false) × (after ≡ reverse_aux (somes r.path) before)) ⊎ Took rounds before after

-- `prio` and `current_state` are as they were.
abbrev pub SameState : Context → Context → Type 0
SameState x y = (y.prio ≡ x.prio) × (y.is_recorded ≡ x.is_recorded)

-- The context is marked to be recorded, unless an earlier decision gave it a priority.
abbrev pub Marked : Context → Context → Type 0
Marked x y = ((x.prio ≡ 0) × (y.prio ≡ 1) × (y.is_recorded ≡ true)) ⊎ ((x.prio ≢ 0) × SameState x y)

-- What `handle_path` may leave, for the chain and the context that it began with
abbrev pub Handled : Chain → List Round → Context → Context → Type 0
Handled c0 rounds x y =
    Extends c0 y.chain
    × ((Took rounds (contents c0) (contents y.chain) × SameState x y)
        ⊎ ((contents y.chain ≡ contents c0) × Marked x y))

chain-set_auditable : (x : Context) → (set_auditable x).chain ≡ x.chain
chain-set_auditable x = ground arith

prio-set_auditable : (x : Context) → (set_auditable x).prio ≢ 0
prio-set_auditable x = ground arith

Marked-set_auditable : (x : Context) → Marked x (set_auditable x)
Marked-set_auditable x = elim (Bool-cases (x.prio == 0)) [
  | inl a ↦ inl (ground arith, ground arith, ground arith)
  | inr a ↦ inr ((λ e. ground arith), (ground arith, ground arith))
]

later :
    (c0 : Chain) (r : Round) (rounds : List Round) (x y : Context)
    → Handled c0 rounds x y
    → Handled c0 (r ∷ rounds) x y
later c0 r rounds x y (h, inl (t, same)) = (h, inl (inr t, same))
later c0 r rounds x y (h, inr t) = (h, inr t)

-- Whatever renames race with it and whatever memory there is: where `handle_path` returns, the chunks
-- of one round that met no rename are on top of those before, each once and in the order of the path,
-- and `prio` and `current_state` are as they were; or the chunks are those before, and a context of
-- priority 0 has got the priority 1 and is marked to be recorded, while one of another priority keeps
-- it and its state.
pub Handled-handle_path :
    (c0 : Chain) (rounds : List Round) (x x' : Context)
    → Extends c0 x.chain
    → contents x.chain ≡ contents c0
    → handle_path (mark c0) rounds x ≡ some x'
    → Handled c0 rounds x x'
unfolding handle_path
Handled-handle_path c0 [] x x' h same e = absurd (cc)
Handled-handle_path c0 (r ∷ rounds) x x' h same e =
    let (h', ends) = Extends-walk c0 x.chain r.path h in
    let chain = (walk r.path x.chain).1 in
    let walked : Context = record x { chain = chain } in
    elim ends [
      | inl (e1, taken) ↦ elim (Bool-cases r.is_raced) [
        | inr still ↦
            let done : walked ≡ x' = ground arith in
            subst (Handled c0 (r ∷ rounds) x) done
              (h', inl (inl (still, taken ∙ ap (reverse_aux (somes r.path)) same), (refl, refl)))
        | inl raced ↦
            let (h2, back, _) = Extends-unroll_tree_refs c0 chain h' in
            let again : handle_path (mark c0) rounds (unrolled (mark c0) walked) ≡ some x' =
              ground arith in
            later c0 r rounds x x'
              (Handled-handle_path c0 rounds (unrolled (mark c0) walked) x' h2 back again)
      ]
      | inr (chunk, e1, full) ↦
          let (hg, grown) = Extends-grow_tree_refs c0 chain chunk h' full in
          elim (Bool-cases r.room) [
            | inl room ↦
                let next : Context = record (put_chunk chunk walked) {
                  chain = grow_tree_refs chain;
                } in
                let (h2, back, _) = Extends-unroll_tree_refs c0 (grow_tree_refs chain) hg in
                let again : handle_path (mark c0) rounds (unrolled (mark c0) next) ≡ some x' =
                  ground arith in
                later c0 r rounds x x'
                  (Handled-handle_path c0 rounds (unrolled (mark c0) next) x' h2 back again)
            | inr no_room ↦
                let (h2, back, _) = Extends-unroll_tree_refs c0 chain h' in
                let done : set_auditable (unrolled (mark c0) (put_chunk chunk walked)) ≡ x' =
                  ground arith in
                let same_chain =
                  chain-set_auditable (unrolled (mark c0) (put_chunk chunk walked)) in
                subst (Handled c0 (r ∷ rounds) x) done (
                  subst (Extends c0) (sym same_chain) h2,
                  inr (
                    ap contents same_chain ∙ back,
                    Marked-set_auditable (unrolled (mark c0) (put_chunk chunk walked)),
                  ),
                )
          ]
    ]

grown_put :
    (c : Chain) (chunk : ℕ) → (c' : Chain) × (put_tree_ref chunk (grow_tree_refs c) ≡ some c')
unfolding put_tree_ref grow_tree_refs
grown_put empty chunk = (_, refl)
grown_put (at before cur n after) chunk = (_, refl)

-- For a sound chain, `handle_one` puts the chunk that was found on top of the others; or, without
-- memory, it leaves the chunks and marks the context to be recorded; without a chunk it changes
-- nothing.
pub handle_one-contents :
    (room : Bool) (found : Option ℕ) (x : Context)
    → Extends x.chain x.chain
    → (contents (handle_one room found x).chain ≡ somes (found ∷ []) ++ contents x.chain)
      ⊎ ((room ≡ false)
          × (contents (handle_one room found x).chain ≡ contents x.chain)
          × ((handle_one room found x).prio ≢ 0))
unfolding handle_one
handle_one-contents room none x h = inl refl
handle_one-contents room (some c) x h = elim (Option-cases (put_tree_ref c x.chain)) [
  | inr (chain, e) ↦
      let (h', top) = Extends-put_tree_ref x.chain x.chain chain c h e in
      let done : handle_one room (some c) x ≡ record x { chain = chain } = ground arith in
      inl (ap (λ y. contents y.chain) done ∙ top)
  | inl e ↦ elim (Bool-cases room) [
    | inr no_room ↦
        let y = put_chunk c (set_auditable x) in
        let done : handle_one room (some c) x ≡ unrolled (mark x.chain) y = ground arith in
        let sound : Extends x.chain y.chain =
          subst (Extends x.chain) (sym (chain-set_auditable x)) h in
        let (h', back, _) = Extends-unroll_tree_refs x.chain y.chain sound in
        inr (
          no_room,
          ap (λ z. contents z.chain) done ∙ back,
          subst (λ z. z.prio ≢ 0) (sym done) (prio-set_auditable x),
        )
    | inl has_room ↦
        let (h', grown) = Extends-grow_tree_refs x.chain x.chain c h e in
        let (chain, e2) = grown_put x.chain c in
        let (h2, top) = Extends-put_tree_ref x.chain (grow_tree_refs x.chain) chain c h' e2 in
        let done : handle_one room (some c) x ≡ record x { chain = chain } = ground arith in
        inl (ap (λ y. contents y.chain) done ∙ top ∙ ap (λ t. some c ∷ t) grown)
  ]
]

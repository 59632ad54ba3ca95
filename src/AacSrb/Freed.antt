-- ===== src/AacSrb/Freed.antt =====
-- The freeing of blocks that were allocated one after the other.
use doublefetch.Base.{ℕ, ◌≡◌, ◌≤◌, ◌<◌, List, [], ◌∷◌, ◌++◌, arith, refl, ap, sym, ◌∙◌, reverse_aux}
use doublefetch.Kernel.{World, remove}
use doublefetch.AacSrb.{SrbCall, Sg, free_all}

abbrev pub ids : List Sg → List ℕ → List ℕ
ids [] base = base
ids (g ∷ gs) base = g.id ∷ ids gs base

-- The buffers were allocated one after the other, from a time on and before another.
abbrev pub Between : (low high : ℕ) → List Sg → Type 0
Between low high [] = low ≤ high
Between low high (g ∷ gs) = (g.id < high) × Between low g.id gs

pub Between-mono :
    (low high high' : ℕ) (gs : List Sg) → high ≤ high' → Between low high gs → Between low high' gs
Between-mono low high high' [] h b = omega arith
Between-mono low high high' (g ∷ gs) h (x, b) = (omega arith, b)

pub Between-lower :
    (low low' high : ℕ) (gs : List Sg) → low' ≤ low → Between low high gs → Between low' high gs
Between-lower low low' high [] h b = omega arith
Between-lower low low' high (g ∷ gs) h (x, b) = (x, Between-lower low low' g.id gs h b)

Between-le : (low high : ℕ) (gs : List Sg) → Between low high gs → low ≤ high
Between-le low high [] b = b
Between-le low high (g ∷ gs) (x, b) = omega (arith, Between-le low g.id gs b)

-- An older block can be freed from below the buffers.
pub remove-ids :
    (low high u : ℕ) (gs : List Sg) (base : List ℕ)
    → Between low high gs
    → u < low
    → remove u (ids gs (u ∷ base)) ≡ ids gs base
remove-ids low high u [] base b h = ground arith
remove-ids low high u (g ∷ gs) base (x, b) h =
    ground (arith, Between-le low g.id gs b, remove-ids low g.id u gs base b h)

remove_all : List Sg → List ℕ → List ℕ
remove_all [] base = base
remove_all (g ∷ gs) base = remove_all gs (remove g.id base)

live-free_all : (gs : List Sg) (w : World SrbCall) → (free_all gs w).1.live ≡ remove_all gs w.live
unfolding free_all remove_all
live-free_all [] w = refl
live-free_all (g ∷ gs) w = live-free_all gs (record w { live = remove g.id w.live })

ids-snoc :
    (pre : List Sg) (g : Sg) (base : List ℕ) → ids (pre ++ (g ∷ [])) base ≡ ids pre (g.id ∷ base)
ids-snoc [] g base = refl
ids-snoc (p ∷ pre) g base = ap (λ x. p.id ∷ x) (ids-snoc pre g base)

Between-snoc :
    (low high : ℕ) (pre : List Sg) (g : Sg)
    → Between low high pre
    → g.id < low
    → Between g.id high (pre ++ (g ∷ []))
Between-snoc low high [] g b h = (omega arith, omega arith)
Between-snoc low high (p ∷ pre) g (x, b) h = (x, Between-snoc low p.id pre g b h)

remove_all-reverse :
    (low mid high : ℕ) (gs pre acc : List Sg) (base : List ℕ)
    → Between low mid gs
    → Between mid high pre
    → remove_all (reverse_aux gs acc) (ids pre (ids gs base)) ≡ remove_all acc (ids pre base)
unfolding remove_all
remove_all-reverse low mid high [] pre acc base b c = refl
remove_all-reverse low mid high (g ∷ gs) pre acc base (x, b) c =
    let pre' = pre ++ (g ∷ []) in
    ap (remove_all (reverse_aux gs (g ∷ acc))) (sym (ids-snoc pre g (ids gs base)))
    ∙ remove_all-reverse low g.id high gs pre' (g ∷ acc) base b (Between-snoc mid high pre g c x)
    ∙ ap (λ y. remove_all acc (remove g.id y)) (ids-snoc pre g base)
    ∙ ap (remove_all acc) (remove-ids mid high g.id pre base c x)

pub live-free_all_buffers :
    (low high : ℕ) (gs : List Sg) (base : List ℕ) (w : World SrbCall)
    → Between low high gs
    → w.live ≡ ids gs base
    → (free_all (reverse_aux gs []) w).1.live ≡ base
unfolding remove_all
live-free_all_buffers low high gs base w b e =
    live-free_all (reverse_aux gs []) w
    ∙ ap (remove_all (reverse_aux gs [])) e
    ∙ remove_all-reverse low high high gs [] [] base b (omega arith)

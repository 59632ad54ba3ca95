-- ===== src/AuditCore/Feature.antt =====
-- `audit_set_feature`: two passes over the features, the first to refuse and the second to change.
use doublefetch.Base.{
  ℕ, ◌+◌, ◌≡◌, Bool, true, false, Option, none, some, List, [], ◌∷◌, ◌==◌, ◌&&◌, ◌||◌, not,
  if◌then◌else◌, ℤ, pos, err, eperm, arith, Bool-cases, Option-cases, inl, inr, ◌⊎◌, refl, ap, sym,
  ◌∙◌, subst,
}
use doublefetch.AuditCore.{AuditEnv, Config, Entry, FeatureBits, off}

-- The bits of a request for a feature: `mask`, `features`, `lock`
pub record FeatureRequest : Type 0 where
  pub is_asked : Bool
  pub is_on : Bool
  pub is_locked : Bool

abbrev pub is_other : Bool → Bool → Bool
is_other true b = not b
is_other false b = b

abbrev pub is_refused : FeatureBits → FeatureRequest → Bool
is_refused f q = q.is_asked && f.is_locked && is_other q.is_on f.is_on

abbrev pub granted : FeatureBits → FeatureRequest → FeatureBits
granted f q =
    if q.is_asked then record { is_on = q.is_on; is_locked = q.is_locked || f.is_locked } else f

-- The first pass: the entry of the first feature that is locked
unfoldable pub refusal : ℕ → List FeatureBits → List FeatureRequest → Option Entry
refusal i [] qs = none
refusal i (f ∷ fs) [] = none
refusal i (f ∷ fs) (q ∷ qs) =
    let rest = refusal (i + 1) fs qs in
    if is_refused f q then some (Entry.feature_change i q.is_on f.is_on false) else rest

module _ (e : AuditEnv) where
  -- `audit_log_feature_change`
  unfoldable pub log_feature_change : Entry → Config → Config
  log_feature_change entry c =
      if c.enabled == off
      then c
      else if e.has_record c.clock
      then record c { clock = c.clock + 1; log = entry ∷ c.log }
      else record c { clock = c.clock + 1 }

  -- The second pass: the features, and the log
  unfoldable pub grant :
      ℕ → List FeatureBits → List FeatureRequest → Config → List FeatureBits × Config
  unfolding log_feature_change
  grant i [] qs c = ([], c)
  grant i (f ∷ fs) [] c = (f ∷ fs, c)
  grant i (f ∷ fs) (q ∷ qs) c =
      let change = Entry.feature_change i q.is_on f.is_on true in
      let logged =
        if q.is_asked && is_other q.is_on f.is_on then log_feature_change change c else c in
      let (rest, c') = grant (i + 1) fs qs logged in (granted f q ∷ rest, c')

  unfoldable pub set_feature : List FeatureRequest → Config → ℤ × Config
  unfolding refusal grant log_feature_change
  set_feature qs c = elim (refusal 0 c.features qs) [
    | some entry ↦ (err eperm, log_feature_change entry c)
    | none ↦
        let (features, c') = grant 0 c.features qs c in (pos 0, record c' { features = features })
  ]

-- All that the request asks for, and no more
abbrev pub all_granted : List FeatureBits → List FeatureRequest → List FeatureBits
all_granted [] qs = []
all_granted (f ∷ fs) [] = f ∷ fs
all_granted (f ∷ fs) (q ∷ qs) = granted f q ∷ all_granted fs qs

-- A feature that is locked stays so, and on or off as it was.
abbrev pub KeepsLocked : List FeatureBits → List FeatureBits → Type 0
KeepsLocked [] [] = Unit
KeepsLocked [] (g ∷ gs) = ⊥
KeepsLocked (f ∷ fs) [] = ⊥
KeepsLocked (f ∷ fs) (g ∷ gs) =
    ((f.is_locked ≡ false) ⊎ ((g.is_locked ≡ true) × (g.is_on ≡ f.is_on))) × KeepsLocked fs gs

pub KeepsLocked-refl : (fs : List FeatureBits) → KeepsLocked fs fs
KeepsLocked-refl [] = tt
KeepsLocked-refl (f ∷ fs) = elim (Bool-cases f.is_locked) [
  | inl on ↦ (inr (on, refl), KeepsLocked-refl fs)
  | inr free ↦ (inl free, KeepsLocked-refl fs)
]

granted-keeps :
    (f : FeatureBits) (q : FeatureRequest)
    → is_refused f q ≡ false
    → (f.is_locked ≡ false) ⊎ (((granted f q).is_locked ≡ true) × ((granted f q).is_on ≡ f.is_on))
granted-keeps f q h = elim (Bool-cases f.is_locked) [
  | inr free ↦ inl free
  | inl on ↦ elim (Bool-cases q.is_asked) [
    | inr no_ask ↦ inr (ground arith, ground arith)
    | inl ask ↦ inr (
      ground arith,
      elim (Bool-cases q.is_on) [
        | inl a ↦ elim (Bool-cases f.is_on) [ inl b ↦ ground arith | inr b ↦ absurd (ground arith) ]
        | inr a ↦ elim (Bool-cases f.is_on) [ inl b ↦ absurd (ground arith) | inr b ↦ ground arith ]
      ],
    )
  ]
]

all_granted-keeps :
    (i : ℕ) (fs : List FeatureBits) (qs : List FeatureRequest)
    → refusal i fs qs ≡ none
    → KeepsLocked fs (all_granted fs qs)
unfolding refusal
all_granted-keeps i [] qs h = tt
all_granted-keeps i (f ∷ fs) [] h = KeepsLocked-refl (f ∷ fs)
all_granted-keeps i (f ∷ fs) (q ∷ qs) h = elim (Bool-cases (is_refused f q)) [
  | inl bad ↦ absurd (ground arith)
  | inr good ↦ (granted-keeps f q good, all_granted-keeps (i + 1) fs qs (ground arith))
]

module _ (e : AuditEnv) where
  grant-features :
      (i : ℕ) (fs : List FeatureBits) (qs : List FeatureRequest) (c : Config)
      → (grant e i fs qs c).0 ≡ all_granted fs qs
  unfolding grant
  grant-features i [] qs c = refl
  grant-features i (f ∷ fs) [] c = refl
  grant-features i (f ∷ fs) (q ∷ qs) c =
      let change = Entry.feature_change i q.is_on f.is_on true in
      let logged =
        if q.is_asked && is_other q.is_on f.is_on then log_feature_change e change c else c in
      ap (λ l. granted f q ∷ l) (grant-features (i + 1) fs qs logged)

  -- `audit_log_feature_change` changes no feature.
  log_feature_change-features :
      (x : Entry) (c : Config) → (log_feature_change e x c).features ≡ c.features
  unfolding log_feature_change
  log_feature_change-features x c = elim (Bool-cases (c.enabled == off)) [
    | inl a ↦ ground arith
    | inr a ↦ elim (Bool-cases (e.has_record c.clock)) [
      | inl b ↦ ground arith
      | inr b ↦ ground arith
    ]
  ]

  -- A request about features is granted whole, or refused whole with -EPERM; either way a locked feature stays
  -- locked, and on or off as it was.
  pub set_feature-cases :
      (qs : List FeatureRequest) (c : Config)
      → let r = set_feature e qs c in
        KeepsLocked c.features r.1.features
        × (((r.0 ≡ pos 0) × (r.1.features ≡ all_granted c.features qs))
            ⊎ ((r.0 ≡ err eperm) × (r.1.features ≡ c.features)))
  unfolding set_feature
  set_feature-cases qs c = elim (Option-cases (refusal 0 c.features qs)) [
    | inl free ↦
        let is : (set_feature e qs c).1.features ≡ all_granted c.features qs =
          (let step : (set_feature e qs c).1.features ≡ (grant e 0 c.features qs c).0 =
              ground arith in
            step)
          ∙ grant-features 0 c.features qs c in
        (
          subst (KeepsLocked c.features) (sym is) (all_granted-keeps 0 c.features qs free),
          inl (ground arith, is),
        )
    | inr (x, bad) ↦
        let is : (set_feature e qs c).1.features ≡ c.features =
          (let step : (set_feature e qs c).1 ≡ log_feature_change e x c = ground arith in
            ap (λ y. y.features) step)
          ∙ log_feature_change-features x c in
        (
          subst (KeepsLocked c.features) (sym is) (KeepsLocked-refl c.features),
          inr (ground arith, is),
        )
  ]

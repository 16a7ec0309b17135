-- ===== src/Risk/Bounds.antt =====
-- The score is a number from 0 to 100 that further signals never lower.
use recon_ai.Prelude.{
  ℕ, zero, ◌+◌, ◌*◌, ◌/◌, ◌≤◌, ◌<◌, Bool, true, false, List, [], ◌∷◌, ◌≡◌, refl, ap, ◌==◌,
  if◌then◌else◌, filter, is_empty, Bool-cases, inl, inr, arith,
}
use native.Mathlib.Nat.{le-div_iff_mul-le, div-mul-le_self}
use recon_ai.Risk.{
  AnomalyType, RiskScoringConfig, Signal, SignalContribution, max_aggregate, sum_caps, sorted_types,
  min, round_half_up, normalize_score, contribution_of, compute_contributions, is_of, sum_raw,
  breakdown_of, breakdown_from, compute_type_breakdown, sum_contributions, score_from_breakdown,
  calculate_score,
}

-- What the types add up to, each up to its cap.
abbrev capped_total : List AnomalyType → List SignalContribution → RiskScoringConfig → ℕ
capped_total [] cs config = 0
capped_total (t ∷ ts) cs config =
    min (sum_raw (filter (is_of t) cs)) (config.cap t) + capped_total ts cs config

-- A type without signals adds nothing.
sum_contributions-breakdown_from :
    (ts : List AnomalyType) (cs : List SignalContribution) (config : RiskScoringConfig)
    → sum_contributions (breakdown_from ts cs config) ≡ capped_total ts cs config
unfolding breakdown_from sum_contributions
sum_contributions-breakdown_from [] cs config = refl
sum_contributions-breakdown_from (t ∷ ts) cs config =
    let ih = sum_contributions-breakdown_from ts cs config in by_rows (filter (is_of t) cs) ih
  where
    by_rows :
        (rows : List SignalContribution)
        → sum_contributions (breakdown_from ts cs config) ≡ capped_total ts cs config
        → sum_contributions (
            if is_empty rows
            then breakdown_from ts cs config
            else breakdown_of t rows config ∷ breakdown_from ts cs config)
          ≡ min (sum_raw rows) (config.cap t) + capped_total ts cs config
    by_rows [] ih = unfold sum_raw in ground (arith, ih)
    by_rows (r ∷ rows) ih = ap (λ n. min (sum_raw (r ∷ rows)) (config.cap t) + n) ih

capped_total-cap :
    (ts : List AnomalyType) (cs : List SignalContribution) (config : RiskScoringConfig)
    → capped_total ts cs config ≤ sum_caps config.cap ts
capped_total-cap [] cs config = ground arith
capped_total-cap (t ∷ ts) cs config = let ih = capped_total-cap ts cs config in ground (arith, ih)

min_mono : (a b c : ℕ) → a ≤ b → min a c ≤ min b c
min_mono a b c h = ground (arith, h)

at_most : (a b : ℕ) → b ≤ a + b
at_most a b = omega arith

more-rows :
    (t : AnomalyType) (c : SignalContribution) (cs : List SignalContribution)
    → sum_raw (filter (is_of t) cs) ≤ sum_raw (filter (is_of t) (c ∷ cs))
unfolding sum_raw
more-rows t c cs = kept (is_of t c) c (filter (is_of t) cs)
  where
    kept :
        (b : Bool) (c : SignalContribution) (l : List SignalContribution)
        → sum_raw l ≤ sum_raw (if b then c ∷ l else l)
    kept true c l = at_most c.raw_contribution (sum_raw l)
    kept false c l = omega arith

capped_total_mono :
    (ts : List AnomalyType) (c : SignalContribution) (cs : List SignalContribution)
    (config : RiskScoringConfig)
    → capped_total ts cs config ≤ capped_total ts (c ∷ cs) config
capped_total_mono [] c cs config = ground arith
capped_total_mono (t ∷ ts) c cs config =
    let ih = capped_total_mono ts c cs config in
    let here = min_mono _ _ (config.cap t) (more-rows t c cs) in ground (arith, ih, here)

div_mono : (a b k : ℕ) → zero < k → a ≤ b → a / k ≤ b / k
div_mono a b k pos h = (le-div_iff_mul-le pos).1 (le_trans (div-mul-le_self a k) h)
  where
    le_trans : {x y z : ℕ} → x ≤ y → y ≤ z → x ≤ z
    le_trans p q = omega (arith, p, q)

min_right_mono : (c a b : ℕ) → a ≤ b → min c a ≤ min c b
min_right_mono c a b h = ground (arith, h)

round_half_up_mono : (a b d : ℕ) → (d == 0) ≡ false → a ≤ b → round_half_up a d ≤ round_half_up b d
round_half_up_mono a b d e h =
    div_mono (2 * a + d) (2 * b + d) (2 * d) (ground (arith, e)) (omega (arith, h))

scaled : (a b : ℕ) → a ≤ b → a * 100 ≤ b * 100
scaled a b h = omega (arith, h)

normalize_score_mono :
    (a b : ℕ) (config : RiskScoringConfig)
    → a ≤ b
    → normalize_score a config ≤ normalize_score b config
unfolding normalize_score
normalize_score_mono a b config h = elim (Bool-cases (max_aggregate config == 0)) [
  | inl e ↦ rw e (omega arith)
  | inr e ↦ rw e (
      min_right_mono 100 (round_half_up (a * 100) (max_aggregate config))
        (round_half_up (b * 100) (max_aggregate config))
        (round_half_up_mono (a * 100) (b * 100) (max_aggregate config) e (scaled a b h)))
]

min-bound : (c a : ℕ) → min c a ≤ c
min-bound c a = ground arith

normalize_score-bound : (a : ℕ) (config : RiskScoringConfig) → normalize_score a config ≤ 100
unfolding normalize_score
normalize_score-bound a config = elim (Bool-cases (max_aggregate config == 0)) [
  | inl e ↦ rw e (omega arith)
  | inr e ↦ rw e (min-bound 100 (round_half_up (a * 100) (max_aggregate config)))
]

-- The score is at most 100, the aggregate that it scales is at most the sum of the caps, and a further
-- signal never lowers the score.
pub calculate_score-bounds :
    (s : Signal) (signals : List Signal) (as_of : ℕ) (config : RiskScoringConfig)
    → let result = calculate_score signals as_of config in
      (result.0 ≤ 100)
      × (sum_contributions
            (compute_type_breakdown (compute_contributions signals as_of config) config)
          ≤ max_aggregate config)
      × (result.0 ≤ (calculate_score (s ∷ signals) as_of config).0)
unfolding calculate_score score_from_breakdown compute_type_breakdown compute_contributions
    max_aggregate
calculate_score-bounds s signals as_of config =
    let cs = compute_contributions signals as_of config in
    let c = contribution_of as_of config s in
    (
      normalize_score-bound _ config,
      rw (sum_contributions-breakdown_from sorted_types cs config)
          (capped_total-cap sorted_types cs config),
      normalize_score_mono _ _ config (
          rw
            (
              sum_contributions-breakdown_from sorted_types cs config,
              sum_contributions-breakdown_from sorted_types (c ∷ cs) config,
            )
            (capped_total_mono sorted_types c cs config)),
    )

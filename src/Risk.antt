-- ===== src/Risk.antt =====
-- app/risk/scoring.py and the configuration of app/risk/contracts.py. Weights, caps, multipliers and
-- contributions are whole numbers of 10^-4 units, not negative; a date is a day number. The rounding of
-- the scaled aggregate to 28 digits does not show in the whole number it is rounded to.
mod Tests
pub mod Bounds
use recon_ai.Prelude.{
  ℕ, ◌+◌, ◌-◌, ◌*◌, ◌/◌, ◌^◌, Bool, true, false, ◌&&◌, List, [], ◌∷◌, map, leb, ltb, ◌==◌,
  if◌then◌else◌, length, filter, is_empty,
}

pub data AnomalyType : Type 0 where
  duplicate_invoice price_variance quantity_variance repeated_mismatch timing_anomaly vendor_spike :
      AnomalyType

pub data AnomalySeverity : Type 0 where
  low medium high critical : AnomalySeverity

pub data RiskBand : Type 0 where
  low medium high critical : RiskBand

pub record RiskScoringConfig : Type 0 where
  pub weight : AnomalyType → ℕ
  pub cap : AnomalyType → ℕ
  pub severity : AnomalySeverity → ℕ
  pub recency_full_days : ℕ
  pub recency_high_days : ℕ
  pub recency_mid_days : ℕ
  pub recency_full_mult : ℕ
  pub recency_high_mult : ℕ
  pub recency_mid_mult : ℕ
  pub recency_old_mult : ℕ
  pub band_medium_min : ℕ
  pub band_high_min : ℕ
  pub band_critical_min : ℕ

pub record Signal : Type 0 where
  pub id : ℕ
  pub anomaly_type : AnomalyType
  pub severity : AnomalySeverity
  pub detected_at : ℕ

pub record SignalContribution : Type 0 where
  pub anomaly_type : AnomalyType
  pub severity : AnomalySeverity
  pub base_weight : ℕ
  pub severity_multiplier : ℕ
  pub recency_multiplier : ℕ
  pub raw_contribution : ℕ
  pub signal_id : ℕ

pub record TypeBreakdown : Type 0 where
  pub anomaly_type : AnomalyType
  pub contribution : ℕ
  pub uncapped_contribution : ℕ
  pub signal_count : ℕ
  pub cap : ℕ

-- The types by value, in the order of `sorted`.
abbrev pub sorted_types : List AnomalyType
sorted_types =
    AnomalyType.duplicate_invoice ∷ AnomalyType.price_variance ∷ AnomalyType.quantity_variance
    ∷ AnomalyType.repeated_mismatch ∷ AnomalyType.timing_anomaly ∷ AnomalyType.vendor_spike ∷ []

abbrev pub type_index : AnomalyType → ℕ
type_index AnomalyType.duplicate_invoice = 0
type_index AnomalyType.price_variance = 1
type_index AnomalyType.quantity_variance = 2
type_index AnomalyType.repeated_mismatch = 3
type_index AnomalyType.timing_anomaly = 4
type_index AnomalyType.vendor_spike = 5

abbrev pub sum_caps : (AnomalyType → ℕ) → List AnomalyType → ℕ
sum_caps cap [] = 0
sum_caps cap (t ∷ ts) = cap t + sum_caps cap ts

unfoldable pub max_aggregate : RiskScoringConfig → ℕ
max_aggregate config = sum_caps config.cap sorted_types

-- `max(0, (as_of - detected_at).days)`
unfoldable pub days_since : ℕ → ℕ → ℕ
days_since detected_at as_of = as_of - detected_at

unfoldable pub recency_multiplier : ℕ → RiskScoringConfig → ℕ
recency_multiplier days config =
    if leb days config.recency_full_days
    then config.recency_full_mult
    else if leb days config.recency_high_days
    then config.recency_high_mult
    else if leb days config.recency_mid_days
    then config.recency_mid_mult
    else config.recency_old_mult

unfoldable pub band_for_score : ℕ → RiskScoringConfig → RiskBand
band_for_score score config =
    if leb config.band_critical_min score
    then RiskBand.critical
    else if leb config.band_high_min score
    then RiskBand.high
    else if leb config.band_medium_min score
    then RiskBand.medium
    else RiskBand.low

abbrev pub min : ℕ → ℕ → ℕ
min a b = if leb a b then a else b

-- `n / d` rounded half up.
abbrev pub round_half_up : ℕ → ℕ → ℕ
round_half_up n d = (2 * n + d) / (2 * d)

unfoldable pub normalize_score : ℕ → RiskScoringConfig → ℕ
normalize_score aggregate config =
    let max_agg = max_aggregate config in
    if max_agg == 0 then 0 else min 100 (round_half_up (aggregate * 100) max_agg)

-- The product of three factors of 10^-4 units each, rounded to such units.
unfoldable pub contribution_of : ℕ → RiskScoringConfig → Signal → SignalContribution
contribution_of as_of config s =
    let weight = config.weight s.anomaly_type in
    let severity_mult = config.severity s.severity in
    let recency_mult = recency_multiplier (days_since s.detected_at as_of) config in
    record {
      anomaly_type = s.anomaly_type;
      severity = s.severity;
      base_weight = weight;
      severity_multiplier = severity_mult;
      recency_multiplier = recency_mult;
      raw_contribution = round_half_up (weight * severity_mult * recency_mult) (10 ^ 8);
      signal_id = s.id;
    }

unfoldable pub compute_contributions : List Signal → ℕ → RiskScoringConfig → List SignalContribution
compute_contributions signals as_of config = map (contribution_of as_of config) signals

abbrev pub is_of : AnomalyType → SignalContribution → Bool
is_of t c = type_index c.anomaly_type == type_index t

unfoldable pub sum_raw : List SignalContribution → ℕ
sum_raw [] = 0
sum_raw (c ∷ cs) = c.raw_contribution + sum_raw cs

abbrev pub breakdown_of : AnomalyType → List SignalContribution → RiskScoringConfig → TypeBreakdown
breakdown_of t rows config = record {
  anomaly_type = t;
  contribution = min (sum_raw rows) (config.cap t);
  uncapped_contribution = sum_raw rows;
  signal_count = length rows;
  cap = config.cap t;
}

-- The types that have a contribution, in order.
unfoldable pub breakdown_from :
    List AnomalyType → List SignalContribution → RiskScoringConfig → List TypeBreakdown
breakdown_from [] contributions config = []
breakdown_from (t ∷ ts) contributions config =
    let rest = breakdown_from ts contributions config in
    let rows = filter (is_of t) contributions in
    if is_empty rows then rest else breakdown_of t rows config ∷ rest

unfoldable pub compute_type_breakdown :
    List SignalContribution → RiskScoringConfig → List TypeBreakdown
compute_type_breakdown contributions config = breakdown_from sorted_types contributions config

unfoldable pub sum_contributions : List TypeBreakdown → ℕ
sum_contributions [] = 0
sum_contributions (b ∷ bs) = b.contribution + sum_contributions bs

unfoldable pub score_from_breakdown : List TypeBreakdown → RiskScoringConfig → ℕ
score_from_breakdown breakdown config = normalize_score (sum_contributions breakdown) config

abbrev pub severity_index : AnomalySeverity → ℕ
severity_index AnomalySeverity.low = 0
severity_index AnomalySeverity.medium = 1
severity_index AnomalySeverity.high = 2
severity_index AnomalySeverity.critical = 3

-- `sev_dist[s] += 1` on a defaultdict.
unfoldable pub add_severity :
    AnomalySeverity → List (AnomalySeverity × ℕ) → List (AnomalySeverity × ℕ)
add_severity s [] = (s, 1) ∷ []
add_severity s ((u, n) ∷ m) =
    let rest = add_severity s m in
    if severity_index s == severity_index u then (u, n + 1) ∷ m else (u, n) ∷ rest

unfoldable pub severity_distribution :
    List SignalContribution → List (AnomalySeverity × ℕ) → List (AnomalySeverity × ℕ)
severity_distribution [] m = m
severity_distribution (c ∷ cs) m = severity_distribution cs (add_severity c.severity m)

-- `calculate_score`: the score and its band, the contributions, the breakdown and the distribution of
-- the severities.
unfoldable pub calculate_score :
    List Signal
    → ℕ
    → RiskScoringConfig
    → ℕ × RiskBand × List SignalContribution × List TypeBreakdown × List (AnomalySeverity × ℕ)
calculate_score signals as_of config =
    let contributions = compute_contributions signals as_of config in
    let breakdown = compute_type_breakdown contributions config in
    let score = score_from_breakdown breakdown config in
    (
      score,
      band_for_score score config,
      contributions,
      breakdown,
      severity_distribution contributions [],
    )

-- ===== src/Risk/Tests.antt =====
-- The default configuration and two signals.
use recon_ai.Prelude.{ℕ, ◌≤◌, [], ◌∷◌}
use recon_ai.Risk.{
  AnomalyType, AnomalySeverity, RiskScoringConfig, Signal, max_aggregate, compute_contributions,
  compute_type_breakdown, sum_contributions, calculate_score,
}
use recon_ai.Risk.Bounds.{calculate_score-bounds}

abbrev default_weight : AnomalyType → ℕ
default_weight AnomalyType.duplicate_invoice = 250000
default_weight AnomalyType.timing_anomaly = 100000
default_weight AnomalyType.vendor_spike = 200000
default_weight AnomalyType.repeated_mismatch = 200000
default_weight _ = 150000

abbrev default_cap : AnomalyType → ℕ
default_cap AnomalyType.duplicate_invoice = 400000
default_cap AnomalyType.timing_anomaly = 200000
default_cap _ = 300000

abbrev default_severity : AnomalySeverity → ℕ
default_severity AnomalySeverity.low = 2500
default_severity AnomalySeverity.medium = 5000
default_severity AnomalySeverity.high = 7500
default_severity AnomalySeverity.critical = 10000

abbrev default_config : RiskScoringConfig
default_config = record {
  weight = default_weight;
  cap = default_cap;
  severity = default_severity;
  recency_full_days = 30;
  recency_high_days = 90;
  recency_mid_days = 180;
  recency_full_mult = 10000;
  recency_high_mult = 7500;
  recency_mid_mult = 5000;
  recency_old_mult = 2500;
  band_medium_min = 25;
  band_high_min = 50;
  band_critical_min = 75;
}

abbrev duplicate : Signal
duplicate = record {
  id = 1;
  anomaly_type = AnomalyType.duplicate_invoice;
  severity = AnomalySeverity.critical;
  detected_at = 738000;
}

calculate_score-bounds_example :
    let result = calculate_score (duplicate ∷ []) 738050 default_config in
    (result.0 ≤ 100)
    × (sum_contributions (
          compute_type_breakdown
            (compute_contributions (duplicate ∷ []) 738050 default_config)
            default_config)
        ≤ max_aggregate default_config)
    × (result.0 ≤ (calculate_score (duplicate ∷ duplicate ∷ []) 738050 default_config).0)
calculate_score-bounds_example =
    calculate_score-bounds duplicate (duplicate ∷ []) 738050 default_config

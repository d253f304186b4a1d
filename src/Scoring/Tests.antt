-- ===== src/Scoring/Tests.antt =====
-- A finding with an allocated baseline and a modelled saving.
use julius.Common.{◌≤◌, ◌≡◌, true, false, ◌&&◌, ◌||◌, min, ltb, arith}
use julius.Scoring.Evidence.{
  level, band, is_anchored_in_billing, from_baseline, from_saving, combined,
}
use julius.Scoring.Weakest.{combined-weakest}
use julius.Scoring.Confidence.{Thresholds, score_and_label, score_monotone}

combined-weakest_example :
    (level (combined "allocated" "modeled")
      ≡ min (level (from_baseline "allocated")) (level (from_saving "modeled")))
    × (band (from_baseline "allocated") ≤ band (combined "allocated" "modeled"))
    × (band (from_saving "modeled") ≤ band (combined "allocated" "modeled"))
    × (is_anchored_in_billing (combined "allocated" "modeled") ≡ (
        is_anchored_in_billing (from_baseline "allocated")
        && is_anchored_in_billing (from_saving "modeled")))
combined-weakest_example = combined-weakest "allocated" "modeled"

abbrev thresholds : Thresholds
thresholds = record { min_runs = 5; min_coverage_days = 14 }

score_monotone_example :
    ((score_and_label 3 20 false thresholds true).0
      ≤ (score_and_label 8 20 false thresholds true).0)
    × ((score_and_label 3 20 false thresholds true).0
        ≤ (score_and_label 3 20 false thresholds false).0)
    × ((score_and_label 3 20 false thresholds true).0 ≤ 68)
    × ((ltb 3 5 || ltb 20 14) ≡ true → (score_and_label 3 20 false thresholds true).1 ≡ "Baixa")
score_monotone_example =
    score_monotone 3 8 20 20 thresholds false false true (omega arith) (omega arith) (λ h. h)

-- ===== src/Scoring/Confidence.antt =====
-- `score_and_label` of julius/scoring/confidence.py, in hundredths: its values are constants with
-- two places.
use julius.Common.{
  ℕ, ◌≤◌, ◌≡◌, String, Bool, true, false, ◌||◌, min, ltb, leb, if◌then◌else◌, arith,
}

pub record Thresholds : Type 0 where
  pub min_runs : ℕ
  pub min_coverage_days : ℕ

unfoldable pub value_of : ℕ → ℕ → Bool → Thresholds → ℕ
value_of observed_runs coverage_days has_optional_metrics th =
    if ltb observed_runs th.min_runs || ltb coverage_days th.min_coverage_days
    then 45
    else if has_optional_metrics
    then 86
    else 68

unfoldable pub label_of : ℕ → String
label_of value = if leb 80 value then "Alta" else if leb 55 value then "Média" else "Baixa"

unfoldable pub score_and_label : ℕ → ℕ → Bool → Thresholds → Bool → ℕ × String
unfolding value_of label_of
score_and_label observed_runs coverage_days has_optional_metrics th from_ai =
    let base = value_of observed_runs coverage_days has_optional_metrics th in
    let value = if from_ai then min base 68 else base in (value, label_of value)

value_monotone :
    (runs runs' days days' : ℕ) (th : Thresholds) (metrics metrics' : Bool)
    → runs ≤ runs'
    → days ≤ days'
    → (metrics ≡ true → metrics' ≡ true)
    → value_of runs days metrics th ≤ value_of runs' days' metrics' th
unfolding value_of
value_monotone runs runs' days days' th metrics metrics' h k i = ground (arith, i)

value_few :
    (runs days : ℕ) (th : Thresholds) (metrics : Bool)
    → (ltb runs th.min_runs || ltb days th.min_coverage_days) ≡ true
    → value_of runs days metrics th ≡ 45
unfolding value_of
value_few runs days th metrics h = ground arith

label_low : (v : ℕ) (from_ai : Bool) → v ≡ 45 → label_of (if from_ai then min v 68 else v) ≡ "Baixa"
unfolding label_of
label_low v from_ai h = ground arith

-- A score is not lower for evidence with at least as many runs and covered days, and with the
-- optional metrics if the other evidence has them; a score from the contextual analysis is never
-- above the deterministic one for the same evidence, nor above 0.68; and too few runs or days label
-- any score "Baixa".
pub score_monotone :
    (runs runs' days days' : ℕ) (th : Thresholds) (metrics metrics' from_ai : Bool)
    → runs ≤ runs'
    → days ≤ days'
    → (metrics ≡ true → metrics' ≡ true)
    → ((score_and_label runs days metrics th from_ai).0
        ≤ (score_and_label runs' days' metrics' th from_ai).0)
      × ((score_and_label runs days metrics th from_ai).0
          ≤ (score_and_label runs days metrics th false).0)
      × ((score_and_label runs days metrics th true).0 ≤ 68)
      × ((ltb runs th.min_runs || ltb days th.min_coverage_days) ≡ true
          → (score_and_label runs days metrics th from_ai).1 ≡ "Baixa")
unfolding score_and_label
score_monotone runs runs' days days' th metrics metrics' from_ai h k i = (
  ground (arith, value_monotone runs runs' days days' th metrics metrics' h k i),
  ground arith,
  omega arith,
  λ few. label_low (value_of runs days metrics th) from_ai (value_few runs days th metrics few),
)

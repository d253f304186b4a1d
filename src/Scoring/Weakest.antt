-- ===== src/Scoring/Weakest.antt =====
-- The weakest link decides the quality of a finding, julius/scoring/evidence_quality.py.
use julius.Common.{◌≤◌, ◌≡◌, String, ◌&&◌, min, arith}
use julius.Scoring.Evidence.{
  EvidenceQuality, level, band, is_anchored_in_billing, from_baseline, from_saving, min_quality,
  combined,
}

band-antitone : (a b : EvidenceQuality) → level a ≤ level b → band b ≤ band a
unfolding band
band-antitone a b h = ground arith

min-level : (a b : EvidenceQuality) → level (min_quality a b) ≡ min (level a) (level b)
min-level a b = ground arith

min-anchored :
    (a b : EvidenceQuality)
    → is_anchored_in_billing (min_quality a b)
      ≡ (is_anchored_in_billing a && is_anchored_in_billing b)
unfolding is_anchored_in_billing
min-anchored a b = ground arith

-- The quality of a finding stands at the lower of the levels of its baseline and its saving, its
-- band is as wide as either one's or wider, and it is anchored in billing exactly if both are.
pub combined-weakest :
    (baseline saving : String)
    → (level (combined baseline saving)
        ≡ min (level (from_baseline baseline)) (level (from_saving saving)))
      × (band (from_baseline baseline) ≤ band (combined baseline saving))
      × (band (from_saving saving) ≤ band (combined baseline saving))
      × (is_anchored_in_billing (combined baseline saving) ≡ (
          is_anchored_in_billing (from_baseline baseline)
          && is_anchored_in_billing (from_saving saving)))
unfolding combined
combined-weakest baseline saving =
    let a = from_baseline baseline in
    let b = from_saving saving in
    (
      min-level a b,
      band-antitone (min_quality a b) a (omega (arith, min-level a b)),
      band-antitone (min_quality a b) b (omega (arith, min-level a b)),
      min-anchored a b,
    )

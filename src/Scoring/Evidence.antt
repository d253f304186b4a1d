-- ===== src/Scoring/Evidence.antt =====
-- julius/scoring/evidence_quality.py: one scale for the quality of evidence.
use julius.Common.{
  ℕ, String, Bool, List, [], ◌∷◌, Option, none, some, get, leb, string_eq, if◌then◌else◌,
}

pub data EvidenceQuality : Type 0 where
  modeled_rule modeled allocated_partial allocated measured realized : EvidenceQuality

-- The number of the IntEnum.
abbrev pub level : EvidenceQuality → ℕ
level modeled_rule = 0
level modeled = 1
level allocated_partial = 2
level allocated = 3
level measured = 4
level realized = 5

-- `_LABELS`
unfoldable pub label : EvidenceQuality → String
label realized = "Realizado"
label measured = "Medido"
label allocated = "Alocado"
label allocated_partial = "Alocado parcial"
label modeled = "Modelado"
label modeled_rule = "Modelado por regra"

unfoldable pub is_anchored_in_billing : EvidenceQuality → Bool
is_anchored_in_billing q = leb (level allocated_partial) (level q)

-- `_BANDS`, in hundredths
unfoldable pub band : EvidenceQuality → ℕ
band realized = 10
band measured = 15
band allocated = 20
band allocated_partial = 30
band modeled = 40
band modeled_rule = 50

-- `_BASELINE`, `_SAVING`, `_COST`
abbrev pub baselines : List (String × EvidenceQuality)
baselines =
    ("allocated", allocated)
    ∷ ("allocated_partial", allocated_partial)
    ∷ ("modeled", modeled)
    ∷ ("unavailable", modeled_rule)
    ∷ []

abbrev pub savings : List (String × EvidenceQuality)
savings =
    ("realized", realized)
    ∷ ("measured", measured)
    ∷ ("modeled_evidence", modeled)
    ∷ ("modeled", modeled)
    ∷ ("aws_recommendation", modeled)
    ∷ ("one_time_observed", measured)
    ∷ ("modeled_rule", modeled_rule)
    ∷ ("potential", modeled_rule)
    ∷ ("unavailable", modeled_rule)
    ∷ []

abbrev pub costs : List (String × EvidenceQuality)
costs = ("reconciled", allocated) ∷ ("partial", allocated_partial) ∷ ("unavailable", modeled) ∷ []

-- scale.get(value, default)
abbrev pub get_or : EvidenceQuality → Option EvidenceQuality → EvidenceQuality
get_or fallback none = fallback
get_or fallback (some q) = q

unfoldable pub from_baseline : String → EvidenceQuality
from_baseline value = get_or modeled_rule (get value baselines)

unfoldable pub from_saving : String → EvidenceQuality
from_saving value = get_or modeled_rule (get value savings)

unfoldable pub from_cost : String → EvidenceQuality
from_cost value = get_or modeled (get value costs)

-- Python's `min` of two: the first unless the second is smaller.
abbrev pub min_quality : EvidenceQuality → EvidenceQuality → EvidenceQuality
min_quality a b = if leb (level a) (level b) then a else b

unfoldable pub combined : String → String → EvidenceQuality
unfolding from_baseline from_saving
combined baseline saving = min_quality (from_baseline baseline) (from_saving saving)

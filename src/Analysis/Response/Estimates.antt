-- ===== src/Analysis/Response/Estimates.antt =====
-- What a verdict may carry besides its judgement: `_parse_ai_recommendation`,
-- `_parse_estimation_proposal` and `_parse_contextual_estimate` of
-- julius/analysis/response_validator.py.
use julius.Common.{
  ℕ, String, Bool, true, not, ◌&&◌, Option, none, some, List, [], ◌∷◌, string_eq, if◌then◌else◌,
}
use julius.Json.{pos, negsuc, Json, integer, real, Fields, empty, field, lookup}
use julius.Json.Reading.{dict?, is_scalar, is_null}
use julius.Json.Checks.{Checked, ok, raised, ◌>>=◌, ◌>>◌, known, each}
use julius.Analysis.Response.{
  Rejection, agent_output_error, overflow_error, Python, AiRecommendation, AiEstimationProposal,
  AiContextualEstimate, require, list_in, texts_in, dict_in, content_in,
}
use julius.Analysis.Response.Evidence.{parse_evidence_ref}

abbrev pub recommendation_keys : List String
recommendation_keys = "recommended_action" ∷ "why" ∷ "risks" ∷ "required_validation" ∷ []

abbrev pub proposal_keys : List String
proposal_keys = "method" ∷ "target" ∷ "evidence_refs" ∷ []

abbrev pub estimate_keys : List String
estimate_keys =
    "billing_mechanism" ∷ "reasoning" ∷ "inputs" ∷ "low" ∷ "expected" ∷ "high" ∷ "assumptions"
    ∷ "validation_plan" ∷ "documentation" ∷ "missing_evidence" ∷ []

-- isinstance(value, (str, int, float, bool)) of every value of a dict
abbrev pub are_scalars : Fields → Bool
are_scalars empty = true
are_scalars (field k v fs) = is_scalar v && are_scalars fs

unfoldable pub scalars_in : Json → Checked Rejection Fields
scalars_in v = do fs ← known agent_output_error (dict? v); require (are_scalars fs); ok fs

-- `None` where the key is missing or null.
unfoldable pub optional {ℓ} :
    {A : Type ℓ} → (Json → Checked Rejection A) → Json → Checked Rejection (Option A)
optional parse v = if is_null v then ok none else parse v >>= λ a. ok (some a)

module _ (py : Python) where
  unfoldable pub ai_recommendation : Json → Checked Rejection AiRecommendation
  ai_recommendation raw = do
    fs ← dict_in recommendation_keys raw
    action ← content_in py (lookup "recommended_action" fs)
    why ← content_in py (lookup "why" fs)
    risks ← texts_in (lookup "risks" fs)
    validation ← texts_in (lookup "required_validation" fs)
    ok (record {
      recommended_action = action;
      why = why;
      risks = risks;
      required_validation = validation;
    })

  unfoldable pub estimation_proposal : List String → Json → Checked Rejection AiEstimationProposal
  estimation_proposal known_hashes raw = do
    fs ← dict_in proposal_keys raw
    method ← content_in py (lookup "method" fs)
    target ← scalars_in (lookup "target" fs)
    refs ← list_in (lookup "evidence_refs" fs)
    parsed ← each (parse_evidence_ref known_hashes none) refs
    ok (record { method = method; target = target; evidence_refs = parsed })

  -- A number that is no bool and not negative, as a float.
  unfoldable pub amount_in : Json → Checked Rejection ℕ
  amount_in (integer (pos n)) = known overflow_error (py.float (pos n))
  amount_in (integer (negsuc n)) = raised agent_output_error
  amount_in (real x) = require (not (py.is_negative x)) >> ok x
  amount_in _ = raised agent_output_error

  unfoldable pub contextual_estimate : Json → Checked Rejection AiContextualEstimate
  contextual_estimate raw = do
    fs ← dict_in estimate_keys raw
    mechanism ← content_in py (lookup "billing_mechanism" fs)
    reasoning ← content_in py (lookup "reasoning" fs)
    inputs ← scalars_in (lookup "inputs" fs)
    low ← amount_in (lookup "low" fs)
    expected ← amount_in (lookup "expected" fs)
    high ← amount_in (lookup "high" fs)
    require (py.at_most low expected && py.at_most expected high)
    assumptions ← texts_in (lookup "assumptions" fs)
    plan ← texts_in (lookup "validation_plan" fs)
    documentation ← texts_in (lookup "documentation" fs)
    missing ← texts_in (lookup "missing_evidence" fs)
    ok (record {
      billing_mechanism = mechanism;
      reasoning = reasoning;
      inputs = inputs;
      low = low;
      expected = expected;
      high = high;
      assumptions = assumptions;
      validation_plan = plan;
      documentation = documentation;
      missing_evidence = missing;
    })

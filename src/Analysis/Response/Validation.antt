-- ===== src/Analysis/Response/Validation.antt =====
-- `validate_agent_output` of julius/analysis/response_validator.py.
use julius.Common.{String, Bool, ◌&&◌, List, [], ◌∷◌, map, all, elem, distinct, string_eq}
use julius.Json.{Json, lookup}
use julius.Json.Reading.{is_text}
use julius.Json.Checks.{Checked, ok, ◌>>=◌, ◌>>◌}
use julius.Analysis.Response.{
  Rejection, Python, ContextualRecommendation, ContextualAnalysis, require, list_in, texts_in,
  dict_in, content_in,
}
use julius.Analysis.Response.Evidence.{parse_suspected_injections, parse_uncovered_findings}
use julius.Analysis.Response.Verdicts.{Key, parse_signal_verdicts}
use julius.Analysis.Response.Recommendations.{parse_recommendations}

abbrev pub top_keys : List String
top_keys =
    "account" ∷ "scan_id" ∷ "executive_summary" ∷ "implementation_order" ∷ "recommendations"
    ∷ "signal_verdicts" ∷ "uncovered_findings" ∷ "suspected_injections" ∷ []

-- What the caller knows of the run: dicts and sets, of which only the members count.
pub record Context : Type 0 where
  pub account : String
  pub scan_id : String
  pub allowed_opportunity_ids : List String
  pub expected_signals : List (Key × String)
  pub known_artifact_hashes : List String
  pub known_rule_ids : List String

-- set(xs) <= set(ys)
abbrev pub is_within : List String → List String → Bool
is_within xs ys = all (λ x. elem x ys) xs

abbrev pub ids_of : List ContextualRecommendation → List String
ids_of rs = map (λ r. r.opportunity_id) rs

-- seen == allowed and set(order) == seen
abbrev pub covers : List String → List String → List String → Bool
covers allowed seen order =
    (is_within seen allowed && is_within allowed seen)
    && (is_within order seen && is_within seen order)

unfoldable pub validate_agent_output :
    Python → Context → Json → Checked Rejection ContextualAnalysis
validate_agent_output py c payload = do
  fs ← dict_in top_keys payload
  require (is_text c.account (lookup "account" fs) && is_text c.scan_id (lookup "scan_id" fs))
  summary ← content_in py (lookup "executive_summary" fs)
  order ← texts_in (lookup "implementation_order" fs)
  require (distinct order && is_within order c.allowed_opportunity_ids)
  raw ← list_in (lookup "recommendations" fs)
  parsed ← parse_recommendations py c.allowed_opportunity_ids [] raw
  require (covers c.allowed_opportunity_ids (ids_of parsed) order)
  verdicts ←
      parse_signal_verdicts py c.expected_signals c.known_artifact_hashes
        (lookup "signal_verdicts" fs)
  uncovered ←
      parse_uncovered_findings py c.known_artifact_hashes c.known_rule_ids
        (lookup "uncovered_findings" fs)
  injections ←
      parse_suspected_injections py c.known_artifact_hashes (lookup "suspected_injections" fs)
  ok (record {
    account = c.account;
    scan_id = c.scan_id;
    executive_summary = summary;
    implementation_order = order;
    recommendations = parsed;
    signal_verdicts = verdicts;
    uncovered_findings = uncovered;
    suspected_injections = injections;
  })

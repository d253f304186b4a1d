-- ===== src/Analysis/Response/Recommendations.antt =====
-- The recommendations that `validate_agent_output` of julius/analysis/response_validator.py reads.
use julius.Common.{
  String, Bool, false, not, ◌&&◌, ◌||◌, Option, none, some, List, [], ◌∷◌, elem, ◌==◌, string_eq,
}
use julius.Json.{Json, lookup}
use julius.Json.Reading.{is_hashable}
use julius.Json.Checks.{Checked, ok, ◌>>=◌, ◌>>◌, demand, known, each}
use julius.Analysis.Response.{
  Rejection, type_error, value_error, Url, Python, DocumentationReference, ContextualRecommendation,
  require, text_in, list_in, texts_in, dict_in, content_in, is_empty, has_content,
}

abbrev pub documentation_keys : List String
documentation_keys = "title" ∷ "url" ∷ "relevance" ∷ []

abbrev pub recommendation_keys : List String
recommendation_keys =
    "opportunity_id" ∷ "contextual_diagnosis" ∷ "recommendation" ∷ "implementation_steps"
    ∷ "validation_steps" ∷ "dependencies" ∷ "conflicts" ∷ "risks" ∷ "assumptions"
    ∷ "missing_evidence" ∷ "documentation" ∷ []

abbrev pub is_host : String → Option String → Bool
is_host name none = false
is_host name (some host) = host == name

abbrev pub is_official : Url → Bool
is_official url = url.scheme == "https" && is_host "docs.aws.amazon.com" url.hostname

-- opportunity_id not in allowed or opportunity_id in seen, of any value
unfoldable pub opportunity_in : List String → List String → Json → Checked Rejection String
opportunity_in allowed seen v = do
  demand type_error (is_hashable v)
  id ← text_in v
  require (elem id allowed && not (elem id seen))
  ok id

module _ (py : Python) where
  unfoldable pub documentation_reference : Json → Checked Rejection DocumentationReference
  documentation_reference raw = do
    fs ← dict_in documentation_keys raw
    title ← content_in py (lookup "title" fs)
    url ← content_in py (lookup "url" fs)
    relevance ← content_in py (lookup "relevance" fs)
    parsed ← known value_error (py.urlparse url)
    require (is_official parsed)
    ok (record { title = title; url = url; relevance = relevance })

  -- One round of the loop; `seen` holds the ids of the rounds before.
  unfoldable pub parse_recommendation :
      List String → List String → Json → Checked Rejection ContextualRecommendation
  parse_recommendation allowed seen raw = do
    fs ← dict_in recommendation_keys raw
    id ← opportunity_in allowed seen (lookup "opportunity_id" fs)
    diagnosis ← text_in (lookup "contextual_diagnosis" fs)
    recommendation ← text_in (lookup "recommendation" fs)
    require (has_content py diagnosis && has_content py recommendation)
    steps ← texts_in (lookup "implementation_steps" fs)
    validation ← texts_in (lookup "validation_steps" fs)
    dependencies ← texts_in (lookup "dependencies" fs)
    conflicts ← texts_in (lookup "conflicts" fs)
    risks ← texts_in (lookup "risks" fs)
    assumptions ← texts_in (lookup "assumptions" fs)
    missing ← texts_in (lookup "missing_evidence" fs)
    require (not (is_empty steps && is_empty missing))
    docs ← list_in (lookup "documentation" fs)
    documentation ← each documentation_reference docs
    require (is_empty steps || not (is_empty documentation))
    ok (record {
      opportunity_id = id;
      contextual_diagnosis = diagnosis;
      recommendation = recommendation;
      implementation_steps = steps;
      validation_steps = validation;
      dependencies = dependencies;
      conflicts = conflicts;
      risks = risks;
      documentation = documentation;
      assumptions = assumptions;
      missing_evidence = missing;
    })

  unfoldable pub parse_recommendations :
      List String → List String → List Json → Checked Rejection (List ContextualRecommendation)
  parse_recommendations allowed seen [] = ok []
  parse_recommendations allowed seen (raw ∷ rest) = do
    r ← parse_recommendation allowed seen raw
    rs ← parse_recommendations allowed (r.opportunity_id ∷ seen) rest
    ok (r ∷ rs)

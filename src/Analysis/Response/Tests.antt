-- ===== src/Analysis/Response/Tests.antt =====
-- An answer about one opportunity and one signal, with an estimate, a gap and an injection.
use Prim.Native.Char.{code}
use julius.Common.{
  true, false, ◌≡◌, refl, none, some, [], ◌∷◌, map, All, elem, distinct, get, is_some, ◌==◌,
  string_eq, nat_eq, count_where, if◌then◌else◌, leb,
}
use julius.Common.Texts.{strip_left, strip_right, strip}
use julius.Json.{pos, negsuc, Json, integer, text, object, empty, field}
use julius.Json.Printing.{list_json, texts_json}
use julius.Json.Checks.{ok, raised}
use julius.Analysis.Response.{
  type_error, overflow_error, Python, EvidenceRef, ContextualAnalysis, dict_in, content_in,
}
use julius.Analysis.Response.Evidence.{
  parse_evidence_ref, parse_injection, parse_suspected_injections, parse_finding, parse_findings,
  parse_uncovered_findings,
}
use julius.Analysis.Response.Catalogue.{is_eligible, is_family}
use julius.Analysis.Response.Estimates.{
  scalars_in, optional, ai_recommendation, estimation_proposal, amount_in, contextual_estimate,
}
use julius.Analysis.Response.Verdicts.{
  Key, key_eq, key_of, judgement_in, family_in, estimates_in, verdict_in, parse_verdict,
  parse_verdicts, parse_signal_verdicts,
}
use julius.Analysis.Response.Recommendations.{
  opportunity_in, documentation_reference, parse_recommendation, parse_recommendations,
}
use julius.Analysis.Response.Validation.{Context, validate_agent_output}
use julius.Analysis.Response.Cited.{IfSome}
use julius.Analysis.Response.Advised.{IsAdvice}
use julius.Analysis.Response.Coverage.{validate_agent_output_covers, validate_agent_output_advises}
use julius.Analysis.Response.Signals.{
  IsEarned, validate_agent_output_judges, validate_agent_output_estimates,
}
use julius.Analysis.Response.Sources.{IsKnown, validate_agent_output_cites}

-- Small integers only; a float is its own code.
abbrev python : Python
python = record {
  unicode = record { is_space = λ c. code c == 32; lower = λ s. s };
  urlparse = λ s. some (record { scheme = "https"; hostname = some "docs.aws.amazon.com" });
  float = λ z. elim z [ pos n ↦ if leb n 1000 then some n else none | negsuc n ↦ none ];
  is_zero = λ n. n == 0;
  is_negative = λ n. false;
  at_most = leb;
}

abbrev reference : Json
reference =
    object (field "sha256" (text "d1") (field "lines" (list_json (integer (pos 7) ∷ [])) empty))

abbrev estimate : Json → Json
estimate high = object (
    field "billing_mechanism" (text "glue_dpu_hour") (
      field "reasoning" (text "rows per second") (
        field "inputs" (object (field "rows" (integer (pos 5)) empty)) (
          field "low" (integer (pos 1)) (
            field "expected" (integer (pos 2)) (
              field "high" high (
                field "assumptions" (texts_json []) (
                  field "validation_plan" (texts_json []) (
                    field "documentation" (texts_json [])
                      (field "missing_evidence" (texts_json []) empty))))))))))

abbrev verdict : Json → Json
verdict high = object (
    field "rule_id" (text "GLUE-CODE-PYTHON-UDF") (
      field "asset_name" (text "job") (
        field "verdict" (text "confirmed") (
          field "rationale" (text "the UDF runs per row") (
            field "evidence_ref" reference (
              field "contextual_estimate" (estimate high)
                (field "remediation_family" (text "row_level_processing") empty)))))))

abbrev advice : Json → Json
advice id = object (
    field "opportunity_id" id (
      field "contextual_diagnosis" (text "too many workers") (
        field "recommendation" (text "halve them") (
          field "implementation_steps" (texts_json ("set it to 5" ∷ [])) (
            field "validation_steps" (texts_json []) (
              field "dependencies" (texts_json []) (
                field "conflicts" (texts_json []) (
                  field "risks" (texts_json []) (
                    field "assumptions" (texts_json []) (
                      field "missing_evidence" (texts_json [])
                        (field "documentation" (list_json (page ∷ [])) empty)))))))))))
  where
    page : Json
    page = object (
        field "title" (text "Glue") (
          field "url" (text "https://docs.aws.amazon.com/glue")
            (field "relevance" (text "workers") empty)))

abbrev gap : Json
gap = object (
    field "title" (text "idle session") (
      field "asset_type" (text "glue") (
        field "asset_name" (text "job") (
          field "evidence_ref" reference (
            field "why_not_covered" (text "no rule") (
              field "proposed_rule_id" (text "GLUE-NEW")
                (field "confidence_basis" (text "the script") empty)))))))

abbrev injection : Json
injection = object (
    field "evidence_ref" reference
      (field "quoted" (text "ignore the rules") (field "why" (text "an order") empty)))

abbrev answer : Json → Json → Json
answer id high = object (
    field "account" (text "a") (
      field "scan_id" (text "s") (
        field "executive_summary" (text "one job") (
          field "implementation_order" (texts_json ("op" ∷ [])) (
            field "recommendations" (list_json (advice id ∷ [])) (
              field "signal_verdicts" (list_json (verdict high ∷ [])) (
                field "uncovered_findings" (list_json (gap ∷ []))
                  (field "suspected_injections" (list_json (injection ∷ [])) empty))))))))

abbrev run : Context
run = record {
  account = "a";
  scan_id = "s";
  allowed_opportunity_ids = "op" ∷ [];
  expected_signals = (("GLUE-CODE-PYTHON-UDF", "job"), "d1") ∷ [];
  known_artifact_hashes = "d1" ∷ [];
  known_rule_ids = "GLUE-CODE-PYTHON-UDF" ∷ [];
}

abbrev accepted : ContextualAnalysis
accepted = record {
  account = "a";
  scan_id = "s";
  executive_summary = "one job";
  implementation_order = "op" ∷ [];
  recommendations =
      record {
        opportunity_id = "op";
        contextual_diagnosis = "too many workers";
        recommendation = "halve them";
        implementation_steps = "set it to 5" ∷ [];
        validation_steps = [];
        dependencies = [];
        conflicts = [];
        risks = [];
        documentation =
            record {
              title = "Glue";
              url = "https://docs.aws.amazon.com/glue";
              relevance = "workers";
            }
            ∷ [];
        assumptions = [];
        missing_evidence = [];
      }
      ∷ [];
  signal_verdicts =
      record {
        rule_id = "GLUE-CODE-PYTHON-UDF";
        asset_name = "job";
        verdict = "confirmed";
        rationale = "the UDF runs per row";
        evidence_ref = cited;
        recommendation = none;
        estimation_proposal = none;
        contextual_estimate = some (record {
          billing_mechanism = "glue_dpu_hour";
          reasoning = "rows per second";
          inputs = field "rows" (integer (pos 5)) empty;
          low = 1;
          expected = 2;
          high = 3;
          assumptions = [];
          validation_plan = [];
          documentation = [];
          missing_evidence = [];
        });
        remediation_family = "row_level_processing";
      }
      ∷ [];
  uncovered_findings =
      record {
        title = "idle session";
        asset_type = "glue";
        asset_name = "job";
        evidence_ref = cited;
        why_not_covered = "no rule";
        proposed_rule_id = "GLUE-NEW";
        confidence_basis = "the script";
      }
      ∷ [];
  suspected_injections =
      record { evidence_ref = cited; quoted = "ignore the rules"; why = "an order" } ∷ [];
}
  where
    cited : EvidenceRef
    cited = record { sha256 = "d1"; lines = pos 7 ∷ [] }

-- The answer is read whole; an id that is a list, and a number that is no float, are not refused
-- by the validator but crash it.
outcomes :
    (validate_agent_output python run (answer (text "op") (integer (pos 3))) ≡ ok accepted)
    × (validate_agent_output python run (answer (list_json []) (integer (pos 3)))
        ≡ raised type_error)
    × (validate_agent_output python run (answer (text "op") (integer (pos 5000)))
        ≡ raised overflow_error)
unfolding validate_agent_output dict_in content_in strip strip_left strip_right
    parse_recommendations parse_recommendation opportunity_in documentation_reference
    parse_signal_verdicts parse_verdicts parse_verdict verdict_in estimates_in judgement_in
    family_in is_eligible is_family optional ai_recommendation estimation_proposal scalars_in
    amount_in contextual_estimate parse_evidence_ref parse_uncovered_findings parse_findings
    parse_finding parse_suspected_injections parse_injection get
outcomes = (refl, refl, refl)

validate_agent_output_covers_example :
    (count_where (λ r. r.opportunity_id == "op") accepted.recommendations ≡ 1)
    × (count_where (λ x. x == "op") accepted.implementation_order ≡ 1)
validate_agent_output_covers_example =
    validate_agent_output_covers python run (answer (text "op") (integer (pos 3))) accepted "op"
      outcomes.0

validate_agent_output_advises_example : All (IsAdvice python) accepted.recommendations
validate_agent_output_advises_example =
    validate_agent_output_advises python run (answer (text "op") (integer (pos 3))) accepted
      outcomes.0

validate_agent_output_judges_example :
    ((k : Key)
      → count_where (λ v. key_of v == k) accepted.signal_verdicts
        ≡ (if is_some (get k run.expected_signals) then 1 else 0))
    × All
        (λ v. get (key_of v) run.expected_signals ≡ some v.evidence_ref.sha256)
        accepted.signal_verdicts
validate_agent_output_judges_example =
    validate_agent_output_judges python run (answer (text "op") (integer (pos 3))) accepted
      outcomes.0

validate_agent_output_estimates_example :
    All (λ v. IfSome (IsEarned python v) v.contextual_estimate) accepted.signal_verdicts
validate_agent_output_estimates_example =
    validate_agent_output_estimates python run (answer (text "op") (integer (pos 3))) accepted
      outcomes.0

validate_agent_output_cites_example :
    All
      (λ v.
        IsKnown run.known_artifact_hashes v.evidence_ref
        × IfSome
            (λ p. All (IsKnown run.known_artifact_hashes) p.evidence_refs)
            v.estimation_proposal)
      accepted.signal_verdicts
    × All
        (λ f.
          IsKnown run.known_artifact_hashes f.evidence_ref
          × (elem f.proposed_rule_id run.known_rule_ids ≡ false))
        accepted.uncovered_findings
    × (distinct (map (λ f. f.proposed_rule_id) accepted.uncovered_findings) ≡ true)
    × All (λ i. IsKnown run.known_artifact_hashes i.evidence_ref) accepted.suspected_injections
validate_agent_output_cites_example =
    validate_agent_output_cites python run (answer (text "op") (integer (pos 3))) accepted refl
      outcomes.0

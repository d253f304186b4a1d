-- ===== src/Analysis/Response.antt =====
-- The values of julius/analysis/response_validator.py and of the three classes of
-- julius/findings/investigation.py that it builds, and the checks that its parsers share. What
-- Unicode says of spaces, `urlparse` and the arithmetic of floats are parameters.
pub mod Evidence
pub mod Catalogue
pub mod Estimates
pub mod Verdicts
pub mod Recommendations
pub mod Validation
pub mod Advised
pub mod Judged
pub mod Cited
pub mod Answered
pub mod Coverage
pub mod Signals
pub mod Sources
mod Tests
use julius.Common.{
  ℕ, String, Bool, true, false, not, ◌&&◌, ◌||◌, Option, none, some, List, [], ◌∷◌, elem, all, any,
  ◌==◌, string_eq, if◌then◌else◌,
}
use julius.Common.Texts.{Unicode, is_blank, strip}
use julius.Json.{ℤ, Json, Fields, has_only}
use julius.Json.Reading.{text?, list?, dict?, texts?}
use julius.Json.Checks.{Checked, ok, ◌>>=◌, ◌>>◌, demand, known}

-- AgentOutputError, and what Python raises by itself: for the hash of a list or a dict, for the
-- float of an integer that is too large, and for a URL that `urlparse` refuses.
pub data Rejection : Type 0 where
  agent_output_error type_error overflow_error value_error : Rejection

-- The parts of `urlparse` that are read.
pub record Url : Type 0 where
  pub scheme : String
  pub hostname : Option String

pub record Python : Type 0 where
  pub unicode : Unicode
  pub urlparse : String → Option Url
  pub float : ℤ → Option ℕ
  pub is_zero : ℕ → Bool
  pub is_negative : ℕ → Bool
  pub at_most : ℕ → ℕ → Bool

pub record DocumentationReference : Type 0 where
  pub title : String
  pub url : String
  pub relevance : String

pub record ContextualRecommendation : Type 0 where
  pub opportunity_id : String
  pub contextual_diagnosis : String
  pub recommendation : String
  pub implementation_steps : List String
  pub validation_steps : List String
  pub dependencies : List String
  pub conflicts : List String
  pub risks : List String
  pub documentation : List DocumentationReference
  pub assumptions : List String
  pub missing_evidence : List String

pub record EvidenceRef : Type 0 where
  pub sha256 : String
  pub lines : List ℤ

pub record AiRecommendation : Type 0 where
  pub recommended_action : String
  pub why : String
  pub risks : List String
  pub required_validation : List String

pub record AiEstimationProposal : Type 0 where
  pub method : String
  pub target : Fields
  pub evidence_refs : List EvidenceRef

pub record AiContextualEstimate : Type 0 where
  pub billing_mechanism : String
  pub reasoning : String
  pub inputs : Fields
  pub low : ℕ
  pub expected : ℕ
  pub high : ℕ
  pub assumptions : List String
  pub validation_plan : List String
  pub documentation : List String
  pub missing_evidence : List String

pub record SignalVerdict : Type 0 where
  pub rule_id : String
  pub asset_name : String
  pub verdict : String
  pub rationale : String
  pub evidence_ref : EvidenceRef
  pub recommendation : Option AiRecommendation
  pub estimation_proposal : Option AiEstimationProposal
  pub contextual_estimate : Option AiContextualEstimate
  pub remediation_family : String

pub record UncoveredFinding : Type 0 where
  pub title : String
  pub asset_type : String
  pub asset_name : String
  pub evidence_ref : EvidenceRef
  pub why_not_covered : String
  pub proposed_rule_id : String
  pub confidence_basis : String

pub record SuspectedInjection : Type 0 where
  pub evidence_ref : EvidenceRef
  pub quoted : String
  pub why : String

pub record ContextualAnalysis : Type 0 where
  pub account : String
  pub scan_id : String
  pub executive_summary : String
  pub implementation_order : List String
  pub recommendations : List ContextualRecommendation
  pub signal_verdicts : List SignalVerdict
  pub uncovered_findings : List UncoveredFinding
  pub suspected_injections : List SuspectedInjection

abbrev pub require : Bool → Checked Rejection (Unit {0})
require = demand agent_output_error

-- isinstance(value, str)
abbrev pub text_in : Json → Checked Rejection String
text_in v = known agent_output_error (text? v)

abbrev pub list_in : Json → Checked Rejection (List Json)
list_in v = known agent_output_error (list? v)

-- isinstance(value, list) and all(isinstance(item, str) for item in value)
abbrev pub texts_in : Json → Checked Rejection (List String)
texts_in v = known agent_output_error (texts? v)

-- isinstance(raw, dict) and set(raw) == keys
unfoldable pub dict_in : List String → Json → Checked Rejection Fields
dict_in keys v = do fs ← known agent_output_error (dict? v); require (has_only keys fs); ok fs

abbrev pub is_empty {ℓ} : {A : Type ℓ} → List A → Bool
is_empty [] = true
is_empty (x ∷ xs) = false

module _ (py : Python) where
  -- value.strip()
  abbrev pub has_content : String → Bool
  has_content s = not (is_blank (strip py.unicode s))

  -- not isinstance(value, str) or not value.strip()
  unfoldable pub content_in : Json → Checked Rejection String
  content_in v = do s ← text_in v; require (has_content s); ok s

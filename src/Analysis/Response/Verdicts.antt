-- ===== src/Analysis/Response/Verdicts.antt =====
-- `_parse_signal_verdicts` of julius/analysis/response_validator.py: each signal that was sent comes
-- back judged.
use julius.Common.{
  zero, String, Bool, true, false, not, ◌&&◌, ◌||◌, Option, none, some, List, [], ◌∷◌, ◌++◌, map,
  all, elem, get, is_some, ◌==◌, Eq, string_eq, ◌≡◌, ◌↔◌, arith, eq_iff,
}
use julius.Json.{
  pos, Json, null, boolean, integer, real, text, array, object, none_left, empty, Fields, keys,
  lookup,
}
use julius.Json.Reading.{dict?, is_hashable}
use julius.Json.Checks.{Checked, ok, raised, ◌>>=◌, ◌>>◌, demand, known}
use julius.Analysis.Response.{
  Rejection, agent_output_error, type_error, Python, AiEstimationProposal, AiContextualEstimate,
  SignalVerdict, require, text_in, list_in, content_in, is_empty,
}
use julius.Analysis.Response.Evidence.{parse_evidence_ref}
use julius.Analysis.Response.Catalogue.{is_eligible, is_family}
use julius.Analysis.Response.Estimates.{
  optional, ai_recommendation, estimation_proposal, contextual_estimate,
}

-- The key of a signal: its rule and its asset.
abbrev pub Key : Type 0
Key = String × String

pub key_beq_iff : (a b : Key) → ((a.0 == b.0 && a.1 == b.1) ≡ true) ↔ (a ≡ b)
key_beq_iff (a, b) (c, d) = ground (arith, eq_iff a c, eq_iff b d)

instance abbrev pub key_eq : Eq Key
key_eq = record { beq = λ a b. a.0 == b.0 && a.1 == b.1; beq_iff = key_beq_iff }

abbrev pub key_of : SignalVerdict → Key
key_of v = (v.rule_id, v.asset_name)

abbrev pub required_keys : List String
required_keys = "rule_id" ∷ "asset_name" ∷ "verdict" ∷ "rationale" ∷ "evidence_ref" ∷ []

abbrev pub optional_keys : List String
optional_keys =
    "recommendation" ∷ "estimation_proposal" ∷ "contextual_estimate" ∷ "remediation_family" ∷ []

-- required <= keys and keys <= required | optional
abbrev pub has_verdict_keys : Fields → Bool
has_verdict_keys fs =
    all (λ k. elem k (keys fs)) required_keys
    && all (λ k. elem k (required_keys ++ optional_keys)) (keys fs)

abbrev pub judgements : List String
judgements = "confirmed" ∷ "rejected" ∷ "needs_evidence" ∷ []

-- verdict in {…}, of any value
unfoldable pub judgement_in : Json → Checked Rejection String
judgement_in v = do
  demand type_error (is_hashable v)
  s ← text_in v
  require (elem s judgements)
  ok s

abbrev pub is_absent {ℓ} : {A : Type ℓ} → Option A → Bool
is_absent none = true
is_absent (some a) = false

-- What a family that was given may be. A value that Python takes for false reads as no family.
unfoldable pub family_in : Python → Json → Checked Rejection String
family_in py null = ok ""
family_in py (boolean false) = ok ""
family_in py (boolean true) = raised agent_output_error
family_in py (integer (pos zero)) = ok ""
family_in py (integer _) = raised agent_output_error
family_in py (real x) = require (py.is_zero x) >> ok ""
family_in py (text s) = require (s == "" || is_family s) >> ok s
family_in py (array none_left) = ok ""
family_in py (array _) = raised agent_output_error
family_in py (object empty) = ok ""
family_in py (object _) = raised agent_output_error

module _ (py : Python) (expected : List (Key × String)) (known_hashes : List String) where
  -- key in seen; expected_signals and key not in expected_signals
  abbrev pub is_awaited : List Key → Key → Bool
  is_awaited seen key = not (elem key seen) && (is_empty expected || is_some (get key expected))

  -- The proposal and the range of a verdict: both need a confirmed one.
  unfoldable pub estimates_in :
      String
      → String
      → Fields
      → Checked Rejection (Option AiEstimationProposal × Option AiContextualEstimate)
  estimates_in rule verdict fs = do
    proposal ← optional (estimation_proposal py known_hashes) (lookup "estimation_proposal" fs)
    require (verdict == "confirmed" || is_absent proposal)
    estimate ← optional (contextual_estimate py) (lookup "contextual_estimate" fs)
    require (verdict == "confirmed" || is_absent estimate)
    require (is_absent estimate || is_eligible rule)
    ok (proposal, estimate)

  -- What follows the key of the signal.
  unfoldable pub verdict_in : Key → Fields → Checked Rejection SignalVerdict
  verdict_in key fs = do
    verdict ← judgement_in (lookup "verdict" fs)
    rationale ← content_in py (lookup "rationale" fs)
    recommendation ← optional (ai_recommendation py) (lookup "recommendation" fs)
    estimates ← estimates_in key.0 verdict fs
    family ← family_in py (lookup "remediation_family" fs)
    evidence ← parse_evidence_ref known_hashes (get key expected) (lookup "evidence_ref" fs)
    ok (record {
      rule_id = key.0;
      asset_name = key.1;
      verdict = verdict;
      rationale = rationale;
      evidence_ref = evidence;
      recommendation = recommendation;
      estimation_proposal = estimates.0;
      contextual_estimate = estimates.1;
      remediation_family = family;
    })

  -- One round of the loop; `seen` holds the keys of the rounds before.
  unfoldable pub parse_verdict : List Key → Json → Checked Rejection SignalVerdict
  parse_verdict seen raw = do
    fs ← known agent_output_error (dict? raw)
    require (has_verdict_keys fs)
    rule ← text_in (lookup "rule_id" fs)
    asset ← text_in (lookup "asset_name" fs)
    require (is_awaited seen (rule, asset))
    verdict_in (rule, asset) fs

  unfoldable pub parse_verdicts : List Key → List Json → Checked Rejection (List SignalVerdict)
  parse_verdicts seen [] = ok []
  parse_verdicts seen (raw ∷ rest) = do
    v ← parse_verdict seen raw
    vs ← parse_verdicts (key_of v ∷ seen) rest
    ok (v ∷ vs)

  -- seen != set(expected_signals)
  abbrev pub all_judged : List SignalVerdict → Bool
  all_judged vs =
      all (λ v. elem (key_of v) (map (λ e. e.0) expected)) vs
      && all (λ e. elem e.0 (map key_of vs)) expected

  unfoldable pub parse_signal_verdicts : Json → Checked Rejection (List SignalVerdict)
  parse_signal_verdicts raw = do
    vs ← list_in raw
    parsed ← parse_verdicts [] vs
    require (all_judged parsed)
    ok parsed

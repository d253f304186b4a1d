-- ===== src/Analysis/Response/Evidence.antt =====
-- The parts of an answer that cite an artefact: `_parse_evidence_ref`, `_parse_suspected_injections`
-- and `_parse_uncovered_findings` of julius/analysis/response_validator.py.
use julius.Common.{
  String, Bool, true, not, ◌||◌, Option, none, some, List, [], ◌∷◌, elem, ◌==◌, string_eq,
}
use julius.Common.Texts.{is_blank}
use julius.Json.{Json, lookup}
use julius.Json.Reading.{integer?, list_of?}
use julius.Json.Checks.{Checked, ok, ◌>>=◌, ◌>>◌, known, each}
use julius.Analysis.Response.{
  Rejection, agent_output_error, Python, EvidenceRef, UncoveredFinding, SuspectedInjection, require,
  text_in, list_in, dict_in, content_in, is_empty,
}

-- required_sha256 is None or digest == required_sha256
abbrev pub is_required : Option String → String → Bool
is_required none digest = true
is_required (some required) digest = digest == required

-- not digest or not known_hashes or digest in known_hashes
abbrev pub is_cited : List String → String → Bool
is_cited known_hashes digest = is_blank digest || is_empty known_hashes || elem digest known_hashes

abbrev pub evidence_keys : List String
evidence_keys = "sha256" ∷ "lines" ∷ []

unfoldable pub parse_evidence_ref :
    List String → Option String → Json → Checked Rejection EvidenceRef
parse_evidence_ref known_hashes required raw = do
  fs ← dict_in evidence_keys raw
  digest ← text_in (lookup "sha256" fs)
  lines ← known agent_output_error (list_of? integer? (lookup "lines" fs))
  require (is_required required digest)
  require (is_cited known_hashes digest)
  ok (record { sha256 = digest; lines = lines })

abbrev pub injection_keys : List String
injection_keys = "evidence_ref" ∷ "quoted" ∷ "why" ∷ []

abbrev pub finding_keys : List String
finding_keys =
    "title" ∷ "asset_type" ∷ "asset_name" ∷ "evidence_ref" ∷ "why_not_covered" ∷ "proposed_rule_id"
    ∷ "confidence_basis" ∷ []

module _ (py : Python) (known_hashes : List String) where
  unfoldable pub parse_injection : Json → Checked Rejection SuspectedInjection
  parse_injection raw = do
    fs ← dict_in injection_keys raw
    quoted ← content_in py (lookup "quoted" fs)
    why ← content_in py (lookup "why" fs)
    evidence ← parse_evidence_ref known_hashes none (lookup "evidence_ref" fs)
    ok (record { evidence_ref = evidence; quoted = quoted; why = why })

  unfoldable pub parse_suspected_injections : Json → Checked Rejection (List SuspectedInjection)
  parse_suspected_injections raw = list_in raw >>= each parse_injection

  -- One round of the loop; `seen` holds the ids of the rounds before.
  unfoldable pub parse_finding :
      List String → List String → Json → Checked Rejection UncoveredFinding
  parse_finding known_rule_ids seen raw = do
    fs ← dict_in finding_keys raw
    title ← content_in py (lookup "title" fs)
    asset_type ← content_in py (lookup "asset_type" fs)
    asset_name ← content_in py (lookup "asset_name" fs)
    why ← content_in py (lookup "why_not_covered" fs)
    proposed ← content_in py (lookup "proposed_rule_id" fs)
    basis ← content_in py (lookup "confidence_basis" fs)
    require (not (elem proposed known_rule_ids))
    require (not (elem proposed seen))
    evidence ← parse_evidence_ref known_hashes none (lookup "evidence_ref" fs)
    ok (record {
      title = title;
      asset_type = asset_type;
      asset_name = asset_name;
      evidence_ref = evidence;
      why_not_covered = why;
      proposed_rule_id = proposed;
      confidence_basis = basis;
    })

  unfoldable pub parse_findings :
      List String → List String → List Json → Checked Rejection (List UncoveredFinding)
  parse_findings known_rule_ids seen [] = ok []
  parse_findings known_rule_ids seen (raw ∷ rest) = do
    f ← parse_finding known_rule_ids seen raw
    fs ← parse_findings known_rule_ids (f.proposed_rule_id ∷ seen) rest
    ok (f ∷ fs)

  unfoldable pub parse_uncovered_findings :
      List String → Json → Checked Rejection (List UncoveredFinding)
  parse_uncovered_findings known_rule_ids raw = list_in raw >>= parse_findings known_rule_ids []

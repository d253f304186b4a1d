-- ===== src/Analysis/Response/Sources.antt =====
-- An answer that `validate_agent_output` of julius/analysis/response_validator.py accepts, and the
-- artefacts of the package.
use julius.Common.{
  String, true, false, ◌≡◌, Option, none, some, List, map, All, All-weaken, elem, distinct, arith,
  string_eq, Bool-cases, ◌⊎◌, inl, inr,
}
use julius.Common.Texts.{is_blank}
use julius.Json.{Json}
use julius.Json.Checks.{ok}
use julius.Analysis.Response.{
  Python, EvidenceRef, AiEstimationProposal, ContextualAnalysis, is_empty,
}
use julius.Analysis.Response.Verdicts.{key_eq}
use julius.Analysis.Response.Validation.{Context, validate_agent_output}
use julius.Analysis.Response.Cited.{IfSome, IsCited}
use julius.Analysis.Response.Answered.{validated-IsAnswer}

-- No digest, or that of an artefact of the package.
abbrev pub IsKnown : List String → EvidenceRef → Type 0
IsKnown hashes r = (is_blank r.sha256 ≡ true) ⊎ (elem r.sha256 hashes ≡ true)

IsKnown-of :
    (hashes : List String) (r : EvidenceRef)
    → is_empty hashes ≡ false
    → IsCited hashes r
    → IsKnown hashes r
IsKnown-of hashes r full h = elim (Bool-cases (is_blank r.sha256)) [
  | inl e ↦ inl e
  | inr e ↦ inr (ground (arith, full, e, h))
]

-- When the package holds an artefact, whatever an accepted answer cites is an artefact of it, or no
-- artefact at all: in verdicts and their proposals, in uncovered findings and in suspected
-- injections. An uncovered finding proposes a rule that is neither known nor proposed twice.
pub validate_agent_output_cites :
    (py : Python) (c : Context) (payload : Json) (a : ContextualAnalysis)
    → is_empty c.known_artifact_hashes ≡ false
    → validate_agent_output py c payload ≡ ok a
    → All
        (λ v.
          IsKnown c.known_artifact_hashes v.evidence_ref
          × IfSome
              (λ p. All (IsKnown c.known_artifact_hashes) p.evidence_refs)
              v.estimation_proposal)
        a.signal_verdicts
      × All
          (λ f.
            IsKnown c.known_artifact_hashes f.evidence_ref
            × (elem f.proposed_rule_id c.known_rule_ids ≡ false))
          a.uncovered_findings
      × (distinct (map (λ f. f.proposed_rule_id) a.uncovered_findings) ≡ true)
      × All (λ i. IsKnown c.known_artifact_hashes i.evidence_ref) a.suspected_injections
validate_agent_output_cites py c payload a full h =
    let good = validated-IsAnswer py c payload a h in
    let hashes = c.known_artifact_hashes in
    (
      All-weaken a.signal_verdicts
          (λ v x.
            (IsKnown-of hashes v.evidence_ref full x.cited, proposals v.estimation_proposal x.refs))
          good.verdicts.verdicts,
      All-weaken a.uncovered_findings (λ f x. (IsKnown-of hashes f.evidence_ref full x.0, x.1))
          good.gaps.gaps,
      good.gaps.once,
      All-weaken a.suspected_injections (λ i x. IsKnown-of hashes i.evidence_ref full x.0)
          good.injections,
    )
  where
    proposals :
        (o : Option AiEstimationProposal)
        → IfSome (λ p. All (IsCited c.known_artifact_hashes) p.evidence_refs) o
        → IfSome (λ p. All (IsKnown c.known_artifact_hashes) p.evidence_refs) o
    proposals none x = tt
    proposals (some p) x =
        All-weaken p.evidence_refs (λ r y. IsKnown-of c.known_artifact_hashes r full y) x

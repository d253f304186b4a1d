-- ===== src/Analysis/Response/Judged.antt =====
-- The verdicts of an accepted answer: whose they are, and what they may carry.
use julius.Common.{
  String, true, false, ◌&&◌, ◌||◌, ◌≡◌, refl, sym, subst, Option, List, [], ◌∷◌, map, All, elem,
  distinct, get, arith, ◌==◌, string_eq, and_both, fresh_keys, not-true,
}
use julius.Json.{Json, Fields, lookup}
use julius.Json.Reading.{dict?, is_hashable}
use julius.Json.Checks.{ok, ok-eq, known, bind-ok, demand-ok}
use julius.Analysis.Response.{
  agent_output_error, type_error, Python, AiEstimationProposal, AiContextualEstimate, SignalVerdict,
  text_in, texts_in, dict_in, content_in,
}
use julius.Analysis.Response.Evidence.{is_required, parse_evidence_ref}
use julius.Analysis.Response.Catalogue.{is_eligible}
use julius.Analysis.Response.Estimates.{
  estimate_keys, scalars_in, optional, ai_recommendation, estimation_proposal, amount_in,
  contextual_estimate,
}
use julius.Analysis.Response.Verdicts.{
  Key, key_eq, key_of, has_verdict_keys, judgements, judgement_in, is_absent, family_in, is_awaited,
  estimates_in, verdict_in, parse_verdict, parse_verdicts,
}
use julius.Analysis.Response.Cited.{
  IfSome, optional-IfSome, IsCited, parse_evidence_ref-IsCited, proposal-IsCited,
}

module _ (py : Python) where
  -- The range is in order.
  abbrev pub IsOrdered : AiContextualEstimate → Type 0
  IsOrdered e = (py.at_most e.low e.expected ≡ true) × (py.at_most e.expected e.high ≡ true)

  estimate-IsOrdered :
      (raw : Json) (e : AiContextualEstimate) → contextual_estimate py raw ≡ ok e → IsOrdered e
  unfolding contextual_estimate
  estimate-IsOrdered raw e h =
      let (fs, p0, h0) = bind-ok (dict_in estimate_keys raw) _ h in
      let (a, p1, h1) = bind-ok (content_in py (lookup "billing_mechanism" fs)) _ h0 in
      let (b, p2, h2) = bind-ok (content_in py (lookup "reasoning" fs)) _ h1 in
      let (c, p3, h3) = bind-ok (scalars_in (lookup "inputs" fs)) _ h2 in
      let (low, p4, h4) = bind-ok (amount_in py (lookup "low" fs)) _ h3 in
      let (mid, p5, h5) = bind-ok (amount_in py (lookup "expected" fs)) _ h4 in
      let (high, p6, h6) = bind-ok (amount_in py (lookup "high" fs)) _ h5 in
      let (ordered, h7) =
        demand-ok agent_output_error (py.at_most low mid && py.at_most mid high) _ h6 in
      let (d, p8, h8) = bind-ok (texts_in (lookup "assumptions" fs)) _ h7 in
      let (f, p9, h9) = bind-ok (texts_in (lookup "validation_plan" fs)) _ h8 in
      let (g, p10, h10) = bind-ok (texts_in (lookup "documentation" fs)) _ h9 in
      let (i, p11, h11) = bind-ok (texts_in (lookup "missing_evidence" fs)) _ h10 in
      subst IsOrdered (ok-eq _ e h11) (and_both _ _ ordered)

  module _ (expected : List (Key × String)) (hashes : List String) where
    -- An estimate stands only behind a confirmed verdict on a rule that takes one, in order; a
    -- proposal only behind a confirmed verdict; both the verdict and the proposal cite artefacts of
    -- the package, and the verdict the one that the signal came from.
    pub record IsVerdict (v : SignalVerdict) : Type 0 where
      pub judged : elem v.verdict judgements ≡ true
      pub proposed : (v.verdict == "confirmed" || is_absent v.estimation_proposal) ≡ true
      pub estimated : (v.verdict == "confirmed" || is_absent v.contextual_estimate) ≡ true
      pub eligible : (is_absent v.contextual_estimate || is_eligible v.rule_id) ≡ true
      pub ordered : IfSome IsOrdered v.contextual_estimate
      pub own : is_required (get (key_of v) expected) v.evidence_ref.sha256 ≡ true
      pub cited : IsCited hashes v.evidence_ref
      pub refs : IfSome (λ p. All (IsCited hashes) p.evidence_refs) v.estimation_proposal

    judgement-elem : (raw : Json) (s : String) → judgement_in raw ≡ ok s → elem s judgements ≡ true
    unfolding judgement_in
    judgement-elem raw s h =
        let (hashable, h0) = demand-ok type_error (is_hashable raw) _ h in
        let (t, p1, h1) = bind-ok (text_in raw) _ h0 in
        let (known, h2) = demand-ok agent_output_error (elem t judgements) _ h1 in
        subst (λ x. elem x judgements ≡ true) (ok-eq t s h2) known

    -- The proposal and the range that a verdict on the rule may carry.
    record AreEstimates (rule word : String)
        (e : Option AiEstimationProposal × Option AiContextualEstimate) : Type 0 where
      proposed : (word == "confirmed" || is_absent e.0) ≡ true
      estimated : (word == "confirmed" || is_absent e.1) ≡ true
      eligible : (is_absent e.1 || is_eligible rule) ≡ true
      ordered : IfSome IsOrdered e.1
      refs : IfSome (λ p. All (IsCited hashes) p.evidence_refs) e.0

    estimates_in-AreEstimates :
        (rule word : String) (fs : Fields)
        (e : Option AiEstimationProposal × Option AiContextualEstimate)
        → estimates_in py expected hashes rule word fs ≡ ok e
        → AreEstimates rule word e
    unfolding estimates_in
    estimates_in-AreEstimates rule word fs e h =
        let (proposal, p0, h0) =
          bind-ok (optional (estimation_proposal py hashes) (lookup "estimation_proposal" fs)) _
            h in
        let (proposed, h1) =
          demand-ok agent_output_error (word == "confirmed" || is_absent proposal) _ h0 in
        let (estimate, p2, h2) =
          bind-ok (optional (contextual_estimate py) (lookup "contextual_estimate" fs)) _ h1 in
        let (estimated, h3) =
          demand-ok agent_output_error (word == "confirmed" || is_absent estimate) _ h2 in
        let (eligible, h4) =
          demand-ok agent_output_error (is_absent estimate || is_eligible rule) _ h3 in
        subst (AreEstimates rule word) (ok-eq (proposal, estimate) e h4) (record {
          proposed = proposed;
          estimated = estimated;
          eligible = eligible;
          ordered =
              optional-IfSome IsOrdered (contextual_estimate py) (lookup "contextual_estimate" fs)
                estimate (estimate-IsOrdered _) p2;
          refs =
              optional-IfSome (λ p. All (IsCited hashes) p.evidence_refs)
                (estimation_proposal py hashes) (lookup "estimation_proposal" fs) proposal
                (proposal-IsCited hashes py _) p0;
        })

    verdict_in-IsVerdict :
        (key : Key) (fs : Fields) (v : SignalVerdict)
        → verdict_in py expected hashes key fs ≡ ok v
        → IsVerdict v × (key_of v ≡ key)
    unfolding verdict_in
    verdict_in-IsVerdict key fs v h =
        let (word, p0, h0) = bind-ok (judgement_in (lookup "verdict" fs)) _ h in
        let (why, p1, h1) = bind-ok (content_in py (lookup "rationale" fs)) _ h0 in
        let (advice, p2, h2) =
          bind-ok (optional (ai_recommendation py) (lookup "recommendation" fs)) _ h1 in
        let (e, p3, h3) = bind-ok (estimates_in py expected hashes key.0 word fs) _ h2 in
        let (family, p4, h4) = bind-ok (family_in py (lookup "remediation_family" fs)) _ h3 in
        let (evidence, p5, h5) =
          bind-ok (parse_evidence_ref hashes (get key expected) (lookup "evidence_ref" fs)) _ h4 in
        let (own, cited) = parse_evidence_ref-IsCited hashes (get key expected) _ evidence p5 in
        let may = estimates_in-AreEstimates key.0 word fs e p3 in
        subst (λ x. IsVerdict x × (key_of x ≡ key)) (ok-eq _ v h5)
          (
            record {
              judged = judgement-elem _ word p0;
              proposed = may.proposed;
              estimated = may.estimated;
              eligible = may.eligible;
              ordered = may.ordered;
              own = own;
              cited = cited;
              refs = may.refs;
            },
            refl,
          )

    parse_verdict-IsVerdict :
        (seen : List Key) (raw : Json) (v : SignalVerdict)
        → parse_verdict py expected hashes seen raw ≡ ok v
        → IsVerdict v × (elem (key_of v) seen ≡ false)
    unfolding parse_verdict
    parse_verdict-IsVerdict seen raw v h =
        let (fs, p0, h0) = bind-ok (known agent_output_error (dict? raw)) _ h in
        let (keyed, h1) = demand-ok agent_output_error (has_verdict_keys fs) _ h0 in
        let (rule, p2, h2) = bind-ok (text_in (lookup "rule_id" fs)) _ h1 in
        let (asset, p3, h3) = bind-ok (text_in (lookup "asset_name" fs)) _ h2 in
        let (awaited, h4) =
          demand-ok agent_output_error (is_awaited py expected hashes seen (rule, asset)) _ h3 in
        let (good, same) = verdict_in-IsVerdict (rule, asset) fs v h4 in
        (
          good,
          subst (λ k. elem k seen ≡ false) (sym same)
              (not-true (elem (rule, asset) seen) (and_both _ _ awaited).0),
        )

    -- What the whole loop read: no signal is judged twice.
    pub record AreVerdicts (seen : List Key) (vs : List SignalVerdict) : Type 0 where
      pub verdicts : All IsVerdict vs
      pub new : All (λ v. elem (key_of v) seen ≡ false) vs
      pub once : distinct (map key_of vs) ≡ true

    pub parse_verdicts-AreVerdicts :
        (seen : List Key) (raws : List Json) (vs : List SignalVerdict)
        → parse_verdicts py expected hashes seen raws ≡ ok vs
        → AreVerdicts seen vs
    unfolding parse_verdicts
    parse_verdicts-AreVerdicts seen [] vs h =
        subst (AreVerdicts seen) (ok-eq [] vs h) (record { verdicts = tt; new = tt; once = refl })
    parse_verdicts-AreVerdicts seen (raw ∷ raws) vs h =
        let (v, p0, h0) = bind-ok (parse_verdict py expected hashes seen raw) _ h in
        let (rest, p1, h1) =
          bind-ok (parse_verdicts py expected hashes (key_of v ∷ seen) raws) _ h0 in
        let (first, unseen) = parse_verdict-IsVerdict seen raw v p0 in
        let others = parse_verdicts-AreVerdicts (key_of v ∷ seen) raws rest p1 in
        let (later, new) = fresh_keys key_of (key_of v) seen rest others.new in
        subst (AreVerdicts seen) (ok-eq _ vs h1) (record {
          verdicts = (first, others.verdicts);
          new = (unseen, new);
          once = ground (arith, later, others.once);
        })

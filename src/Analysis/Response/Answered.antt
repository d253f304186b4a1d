-- ===== src/Analysis/Response/Answered.antt =====
-- What `validate_agent_output` accepts as the answer about a run.
use julius.Common.{String, true, ◌&&◌, ◌≡◌, subst, List, [], All, distinct, string_eq}
use julius.Json.{Json, lookup}
use julius.Json.Reading.{is_text}
use julius.Json.Checks.{ok, ok-eq, bind-ok, demand-ok}
use julius.Analysis.Response.{
  agent_output_error, Python, SignalVerdict, ContextualAnalysis, list_in, texts_in, dict_in,
  content_in, has_content,
}
use julius.Analysis.Response.Evidence.{parse_suspected_injections, parse_uncovered_findings}
use julius.Analysis.Response.Verdicts.{key_eq, parse_verdicts, all_judged, parse_signal_verdicts}
use julius.Analysis.Response.Recommendations.{parse_recommendations}
use julius.Analysis.Response.Validation.{
  top_keys, Context, is_within, ids_of, covers, validate_agent_output,
}
use julius.Analysis.Response.Advised.{AreRead, parse_recommendations-AreRead}
use julius.Analysis.Response.Cited.{IsCited, AreGaps, parse_findings-AreGaps, injections-IsCited}
use julius.Analysis.Response.Judged.{AreVerdicts, parse_verdicts-AreVerdicts}

module _ (py : Python) (c : Context) where
  abbrev pub hashes : List String
  hashes = c.known_artifact_hashes

  -- What each part of an accepted answer went through.
  pub record IsAnswer (a : ContextualAnalysis) : Type 0 where
    pub ordered :
        (distinct a.implementation_order
          && is_within a.implementation_order c.allowed_opportunity_ids)
        ≡ true
    pub covered :
        covers c.allowed_opportunity_ids (ids_of a.recommendations) a.implementation_order ≡ true
    pub read : AreRead py c.allowed_opportunity_ids [] a.recommendations
    pub judged : all_judged py c.expected_signals hashes a.signal_verdicts ≡ true
    pub verdicts : AreVerdicts py c.expected_signals hashes [] a.signal_verdicts
    pub gaps : AreGaps hashes py c.known_rule_ids [] a.uncovered_findings
    pub injections :
        All
          (λ i. IsCited hashes i.evidence_ref × (has_content py i.quoted ≡ true))
          a.suspected_injections

  verdicts_of :
      (raw : Json) (vs : List SignalVerdict)
      → parse_signal_verdicts py c.expected_signals hashes raw ≡ ok vs
      → (all_judged py c.expected_signals hashes vs ≡ true)
        × AreVerdicts py c.expected_signals hashes [] vs
  unfolding parse_signal_verdicts
  verdicts_of raw vs h =
      let (raws, p0, h0) = bind-ok (list_in raw) _ h in
      let (parsed, p1, h1) = bind-ok (parse_verdicts py c.expected_signals hashes [] raws) _ h0 in
      let (judged, h2) =
        demand-ok agent_output_error (all_judged py c.expected_signals hashes parsed) _ h1 in
      subst
        (λ x.
          (all_judged py c.expected_signals hashes x ≡ true)
          × AreVerdicts py c.expected_signals hashes [] x)
        (ok-eq parsed vs h2)
        (judged, parse_verdicts-AreVerdicts py c.expected_signals hashes [] raws parsed p1)

  pub validated-IsAnswer :
      (payload : Json) (a : ContextualAnalysis)
      → validate_agent_output py c payload ≡ ok a
      → IsAnswer a
  unfolding validate_agent_output parse_uncovered_findings
  validated-IsAnswer payload a h =
      let (fs, p0, h0) = bind-ok (dict_in top_keys payload) _ h in
      let (own, h1) =
        demand-ok agent_output_error
          (is_text c.account (lookup "account" fs) && is_text c.scan_id (lookup "scan_id" fs)) _
          h0 in
      let (summary, p2, h2) = bind-ok (content_in py (lookup "executive_summary" fs)) _ h1 in
      let (order, p3, h3) = bind-ok (texts_in (lookup "implementation_order" fs)) _ h2 in
      let (ordered, h4) =
        demand-ok agent_output_error (distinct order && is_within order c.allowed_opportunity_ids) _
          h3 in
      let (raw, p5, h5) = bind-ok (list_in (lookup "recommendations" fs)) _ h4 in
      let (rs, p6, h6) = bind-ok (parse_recommendations py c.allowed_opportunity_ids [] raw) _ h5 in
      let (covered, h7) =
        demand-ok agent_output_error (covers c.allowed_opportunity_ids (ids_of rs) order) _ h6 in
      let (vs, p8, h8) =
        bind-ok (parse_signal_verdicts py c.expected_signals hashes (lookup "signal_verdicts" fs)) _
          h7 in
      let (gaps, p9, h9) =
        bind-ok
          (parse_uncovered_findings py hashes c.known_rule_ids (lookup "uncovered_findings" fs)) _
          h8 in
      let (is, p10, h10) =
        bind-ok (parse_suspected_injections py hashes (lookup "suspected_injections" fs)) _ h9 in
      let (findings, p11, h11) = bind-ok (list_in (lookup "uncovered_findings" fs)) _ p9 in
      let (judged, verdicts) = verdicts_of _ vs p8 in
      subst IsAnswer (ok-eq _ a h10) (record {
        ordered = ordered;
        covered = covered;
        read = parse_recommendations-AreRead py c.allowed_opportunity_ids [] raw rs p6;
        judged = judged;
        verdicts = verdicts;
        gaps = parse_findings-AreGaps hashes py c.known_rule_ids [] findings gaps h11;
        injections = injections-IsCited hashes py _ is p10;
      })

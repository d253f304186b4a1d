-- ===== src/Analysis/Response/Advised.antt =====
-- What an accepted recommendation says, and whose it is.
use julius.Common.{
  String, true, false, not, ◌&&◌, ◌||◌, ◌≡◌, refl, subst, some, List, [], ◌∷◌, All, elem, distinct,
  arith, fresh_keys, not-true, string_eq, and_both,
}
use julius.Json.{Json, lookup}
use julius.Json.Reading.{is_hashable}
use julius.Json.Checks.{ok, ok-eq, known, each, bind-ok, demand-ok, known-ok, each-All}
use julius.Analysis.Response.{
  agent_output_error, type_error, value_error, Url, Python, DocumentationReference,
  ContextualRecommendation, text_in, list_in, texts_in, dict_in, content_in, is_empty, has_content,
}
use julius.Analysis.Response.Recommendations.{
  documentation_keys, recommendation_keys, is_official, opportunity_in, documentation_reference,
  parse_recommendation, parse_recommendations,
}
use julius.Analysis.Response.Validation.{ids_of}

module _ (py : Python) where
  -- The link leads to the official documentation.
  pub record IsOfficial (d : DocumentationReference) : Type 0 where
    pub url : Url
    pub parsed : py.urlparse d.url ≡ some url
    pub official : is_official url ≡ true

  -- A diagnosis and a recommendation that are not blank; steps or what is missing for them; and
  -- steps only with official documentation.
  pub record IsAdvice (r : ContextualRecommendation) : Type 0 where
    pub diagnosed : has_content py r.contextual_diagnosis ≡ true
    pub recommended : has_content py r.recommendation ≡ true
    pub useful : not (is_empty r.implementation_steps && is_empty r.missing_evidence) ≡ true
    pub documented : (is_empty r.implementation_steps || not (is_empty r.documentation)) ≡ true
    pub official : All IsOfficial r.documentation

  pub record IsRead (allowed seen : List String) (r : ContextualRecommendation) : Type 0 where
    pub advice : IsAdvice r
    pub own : elem r.opportunity_id allowed ≡ true
    pub new : elem r.opportunity_id seen ≡ false

  documentation-IsOfficial :
      (v : Json) (d : DocumentationReference) → documentation_reference py v ≡ ok d → IsOfficial d
  unfolding documentation_reference
  documentation-IsOfficial v d h =
      let (fs, p0, h0) = bind-ok (dict_in documentation_keys v) _ h in
      let (title, p1, h1) = bind-ok (content_in py (lookup "title" fs)) _ h0 in
      let (url, p2, h2) = bind-ok (content_in py (lookup "url" fs)) _ h1 in
      let (relevance, p3, h3) = bind-ok (content_in py (lookup "relevance" fs)) _ h2 in
      let (parsed, p4, h4) = bind-ok (known value_error (py.urlparse url)) _ h3 in
      let (official, h5) = demand-ok agent_output_error (is_official parsed) _ h4 in
      subst IsOfficial (ok-eq _ _ h5) (record {
        url = parsed;
        parsed = known-ok value_error (py.urlparse url) p4;
        official = official;
      })

  opportunity-new :
      (allowed seen : List String) (v : Json) (id : String)
      → opportunity_in allowed seen v ≡ ok id
      → (elem id allowed && not (elem id seen)) ≡ true
  unfolding opportunity_in
  opportunity-new allowed seen v id h =
      let (hashable, h0) = demand-ok type_error (is_hashable v) _ h in
      let (s, p1, h1) = bind-ok (text_in v) _ h0 in
      let (new, h2) = demand-ok agent_output_error (elem s allowed && not (elem s seen)) _ h1 in
      subst (λ x. (elem x allowed && not (elem x seen)) ≡ true) (ok-eq _ _ h2) new

  parse_recommendation-IsRead :
      (allowed seen : List String) (raw : Json) (r : ContextualRecommendation)
      → parse_recommendation py allowed seen raw ≡ ok r
      → IsRead allowed seen r
  unfolding parse_recommendation
  parse_recommendation-IsRead allowed seen raw r h =
      let (fs, p0, h0) = bind-ok (dict_in recommendation_keys raw) _ h in
      let (id, p1, h1) = bind-ok (opportunity_in allowed seen (lookup "opportunity_id" fs)) _ h0 in
      let (diagnosis, p2, h2) = bind-ok (text_in (lookup "contextual_diagnosis" fs)) _ h1 in
      let (advised, p3, h3) = bind-ok (text_in (lookup "recommendation" fs)) _ h2 in
      let (full, h4) =
        demand-ok agent_output_error (has_content py diagnosis && has_content py advised) _ h3 in
      let (steps, p5, h5) = bind-ok (texts_in (lookup "implementation_steps" fs)) _ h4 in
      let (a, p6, h6) = bind-ok (texts_in (lookup "validation_steps" fs)) _ h5 in
      let (b, p7, h7) = bind-ok (texts_in (lookup "dependencies" fs)) _ h6 in
      let (c, p8, h8) = bind-ok (texts_in (lookup "conflicts" fs)) _ h7 in
      let (d, p9, h9) = bind-ok (texts_in (lookup "risks" fs)) _ h8 in
      let (e, p10, h10) = bind-ok (texts_in (lookup "assumptions" fs)) _ h9 in
      let (missing, p11, h11) = bind-ok (texts_in (lookup "missing_evidence" fs)) _ h10 in
      let (useful, h12) =
        demand-ok agent_output_error (not (is_empty steps && is_empty missing)) _ h11 in
      let (raws, p13, h13) = bind-ok (list_in (lookup "documentation" fs)) _ h12 in
      let (docs, p14, h14) = bind-ok (each (documentation_reference py) raws) _ h13 in
      let (documented, h15) =
        demand-ok agent_output_error (is_empty steps || not (is_empty docs)) _ h14 in
      let (own, new) = and_both _ _ (opportunity-new allowed seen _ id p1) in
      subst (IsRead allowed seen) (ok-eq _ _ h15) (record {
        advice = record {
          diagnosed = (and_both _ _ full).0;
          recommended = (and_both _ _ full).1;
          useful = useful;
          documented = documented;
          official =
              each-All IsOfficial (documentation_reference py) raws documentation-IsOfficial p14;
        };
        own = own;
        new = not-true (elem id seen) new;
      })

  -- What the whole loop read: no id twice, none that was seen before, and no id that is not allowed.
  pub record AreRead (allowed seen : List String) (rs : List ContextualRecommendation)
      : Type 0 where
    pub advice : All IsAdvice rs
    pub own : All (λ r. elem r.opportunity_id allowed ≡ true) rs
    pub new : All (λ r. elem r.opportunity_id seen ≡ false) rs
    pub once : distinct (ids_of rs) ≡ true

  pub parse_recommendations-AreRead :
      (allowed seen : List String) (raws : List Json) (rs : List ContextualRecommendation)
      → parse_recommendations py allowed seen raws ≡ ok rs
      → AreRead allowed seen rs
  unfolding parse_recommendations
  parse_recommendations-AreRead allowed seen [] rs h =
      subst (AreRead allowed seen) (ok-eq [] rs h)
        (record { advice = tt; own = tt; new = tt; once = refl })
  parse_recommendations-AreRead allowed seen (raw ∷ raws) rs h =
      let (r, p0, h0) = bind-ok (parse_recommendation py allowed seen raw) _ h in
      let (rest, p1, h1) =
        bind-ok (parse_recommendations py allowed (r.opportunity_id ∷ seen) raws) _ h0 in
      let first = parse_recommendation-IsRead allowed seen raw r p0 in
      let others = parse_recommendations-AreRead allowed (r.opportunity_id ∷ seen) raws rest p1 in
      let (later, new) = fresh_keys (λ x. x.opportunity_id) r.opportunity_id seen rest others.new in
      subst (AreRead allowed seen) (ok-eq _ rs h1) (record {
        advice = (first.advice, others.advice);
        own = (first.own, others.own);
        new = (first.new, new);
        once = ground (arith, later, others.once);
      })

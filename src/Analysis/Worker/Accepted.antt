-- ===== src/Analysis/Worker/Accepted.antt =====
-- What `validate_domain_result` accepts.
use julius.Common.{
  ℕ, ◌≤◌, String, true, false, not, ◌≡◌, refl, subst, List, All, elem, length, leb, arith,
  string_eq,
}
use julius.Common.Texts.{Unicode, is_blank, strip, text_length}
use julius.Common.Stripping.{strip-strip, strip-length}
use julius.Json.{Json, lookup, has_only}
use julius.Json.Reading.{text?, list?, dict?}
use julius.Json.Checks.{known, ok, ok-eq, bind-ok, demand-ok, each, each-length, each-All}
use julius.Runs.Ledger.{Job}
use julius.Analysis.Worker.{
  invalid_result, DomainObservation, DomainResult, result_schema_version, result_fields,
  observation_fields, statuses, is_of_task, bounded, text_of, string_list, observation, status_text,
  validate_domain_result,
}

status_text-IsStatus : (v : Json) (s : String) → status_text v ≡ ok s → elem s statuses ≡ true
unfolding status_text
status_text-IsStatus v s h =
    let (t, p, h1) = bind-ok (known invalid_result (text? v)) _ h in
    let (allowed, h2) = demand-ok invalid_result (elem t statuses) _ h1 in
    subst (λ x. elem x statuses ≡ true) (ok-eq _ _ h2) allowed

within : (n k bound : ℕ) → leb n bound ≡ true → k ≡ n → k ≤ bound
within n k bound h e = ground (arith, h)

module _ (u : Unicode) where
  -- A text without spaces around it, not empty, and of at most `maximum` characters.
  pub record IsText (maximum : ℕ) (s : String) : Type 0 where
    pub stripped : strip u s ≡ s
    pub full : is_blank s ≡ false
    pub short : text_length s ≤ maximum

  pub record AreTexts (items maximum : ℕ) (ss : List String) : Type 0 where
    pub few : length ss ≤ items
    pub texts : All (IsText maximum) ss

  pub record IsObservation (o : DomainObservation) : Type 0 where
    pub subject : IsText 512 o.subject_id
    pub diagnosis : IsText 8000 o.diagnosis
    pub steps : AreTexts 30 2000 o.implementation_steps
    pub risks : AreTexts 30 2000 o.risks
    pub refs : AreTexts 30 2000 o.evidence_refs

  -- A result of this job by this provider, within the bounds of the contract.
  pub record IsResult (task : Job) (provider : String) (r : DomainResult) : Type 0 where
    pub schema : r.schema_version ≡ result_schema_version
    pub account : r.account_id ≡ task.account_id
    pub scan : r.scan_id ≡ task.scan_id
    pub domain : r.domain ≡ task.domain
    pub context : r.context_hash ≡ task.context_hash
    pub provider_name : r.provider ≡ provider
    pub status : elem r.status statuses ≡ true
    pub summary : IsText 8000 r.summary
    pub few : length r.observations ≤ 100
    pub observations : All IsObservation r.observations
    pub injections : AreTexts 100 2000 r.suspected_injections

  bounded-IsText : (m : ℕ) (s t : String) → bounded u m s ≡ ok t → IsText m t
  unfolding bounded
  bounded-IsText m s t h =
      let (full, h1) = demand-ok invalid_result (not (is_blank (strip u s))) _ h in
      let (short, h2) = demand-ok invalid_result (leb (text_length s) m) _ h1 in
      subst (IsText m) (ok-eq _ _ h2) (record {
        stripped = strip-strip u s;
        full = ground (arith, full);
        short = ground (arith, short, strip-length u s);
      })

  text_of-IsText : (m : ℕ) (v : Json) (t : String) → text_of u m v ≡ ok t → IsText m t
  unfolding text_of
  text_of-IsText m v t h =
      let (s, p, h1) = bind-ok (known invalid_result (text? v)) (bounded u m) h in
      bounded-IsText m s t h1

  string_list-AreTexts :
      (items m : ℕ) (v : Json) (ss : List String)
      → string_list u items m v ≡ ok ss
      → AreTexts items m ss
  unfolding string_list
  string_list-AreTexts items m v ss h =
      let (vs, p, h1) = bind-ok (known invalid_result (list? v)) _ h in
      let (few, h2) = demand-ok invalid_result (leb (length vs) items) _ h1 in
      record {
        few = within _ _ items few (each-length (text_of u m) vs h2);
        texts = each-All (IsText m) (text_of u m) vs (λ x y e. text_of-IsText m x y e) h2;
      }

  observation-IsObservation :
      (v : Json) (o : DomainObservation) → observation u v ≡ ok o → IsObservation o
  unfolding observation
  observation-IsObservation v o h =
      let (fs, p0, h0) = bind-ok (known invalid_result (dict? v)) _ h in
      let (only, h1) = demand-ok invalid_result (has_only observation_fields fs) _ h0 in
      let (a, p1, h2) = bind-ok (text_of u 512 (lookup "subject_id" fs)) _ h1 in
      let (b, p2, h3) = bind-ok (text_of u 8000 (lookup "diagnosis" fs)) _ h2 in
      let (c, p3, h4) = bind-ok (string_list u 30 2000 (lookup "implementation_steps" fs)) _ h3 in
      let (d, p4, h5) = bind-ok (string_list u 30 2000 (lookup "risks" fs)) _ h4 in
      let (e, p5, h6) = bind-ok (string_list u 30 2000 (lookup "evidence_refs" fs)) _ h5 in
      subst IsObservation (ok-eq _ _ h6) (record {
        subject = text_of-IsText 512 _ a p1;
        diagnosis = text_of-IsText 8000 _ b p2;
        steps = string_list-AreTexts 30 2000 _ c p3;
        risks = string_list-AreTexts 30 2000 _ d p4;
        refs = string_list-AreTexts 30 2000 _ e p5;
      })

-- What the validation returns belongs to the reserved job and to the provider that was asked, has
-- one of the two statuses, and keeps to every bound of the contract: at most 100 observations and
-- 100 suspected injections, lists of at most 30 texts, and texts that are not blank, have no space
-- around them and are at most 512, 2000 or 8000 characters long.
pub validate_domain_result-IsResult :
    (u : Unicode) (task : Job) (provider : String) (payload : Json) (r : DomainResult)
    → validate_domain_result u task provider payload ≡ ok r
    → IsResult u task provider r
unfolding validate_domain_result
validate_domain_result-IsResult u task provider payload r h =
    let (fs, p0, h0) = bind-ok (known invalid_result (dict? payload)) _ h in
    let (only, h1) = demand-ok invalid_result (has_only result_fields fs) _ h0 in
    let (own, h2) = demand-ok invalid_result (is_of_task task provider fs) _ h1 in
    let (st, p3, h3) = bind-ok (status_text (lookup "status" fs)) _ h2 in
    let (summary, p4, h4) = bind-ok (text_of u 8000 (lookup "summary" fs)) _ h3 in
    let (raw, p5, h5) = bind-ok (known invalid_result (list? (lookup "observations" fs))) _ h4 in
    let (few, h6) = demand-ok invalid_result (leb (length raw) 100) _ h5 in
    let (os, p7, h7) = bind-ok (each (observation u) raw) _ h6 in
    let (is, p8, h8) = bind-ok (string_list u 100 2000 (lookup "suspected_injections" fs)) _ h7 in
    subst (IsResult u task provider) (ok-eq _ _ h8) (record {
      schema = refl;
      account = refl;
      scan = refl;
      domain = refl;
      context = refl;
      provider_name = refl;
      status = status_text-IsStatus _ st p3;
      summary = text_of-IsText u 8000 _ summary p4;
      few = within _ _ 100 few (each-length (observation u) raw p7);
      observations =
          each-All (IsObservation u) (observation u) raw (observation-IsObservation u) p7;
      injections = string_list-AreTexts u 100 2000 _ is p8;
    })

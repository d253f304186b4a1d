-- ===== src/Analysis/Worker/RoundTrip.antt =====
-- `as_payload` and `validate_domain_result`: the file that the worker writes is the one that
-- `merge_results` reads.
use julius.Common.{
  ℕ, ◌≤◌, String, true, ◌≡◌, refl, sym, ap, subst, List, [], ◌∷◌, map, All-weaken, length, leb,
  arith, string_eq, beq_self,
}
use julius.Common.Texts.{Unicode}
use julius.Json.{Json, text, values}
use julius.Json.Printing.{items_of, texts_json}
use julius.Json.Checks.{ok, each-map}
use julius.Runs.Ledger.{Job}
use julius.Analysis.Worker.{
  DomainObservation, DomainResult, result_schema_version, bounded, text_of, string_list,
  observation, observation_payload, is_of_task, status_text, validate_domain_result, as_payload,
}
use julius.Analysis.Worker.Accepted.{
  IsText, AreTexts, IsObservation, IsResult, validate_domain_result-IsResult,
}

values-items_of : (vs : List Json) → values (items_of vs) ≡ vs
values-items_of [] = refl
values-items_of (v ∷ vs) = ap (λ ws. v ∷ ws) (values-items_of vs)

length-map : {A B : Type 0} (f : A → B) (xs : List A) → length (map f xs) ≡ length xs
length-map f [] = refl
length-map f (x ∷ xs) = omega (arith, length-map f xs)

le-leb : (n k : ℕ) → n ≤ k → leb n k ≡ true
le-leb n k h = ground (arith, h)

module _ (u : Unicode) where
  text_of-text : (m : ℕ) (s : String) → IsText u m s → text_of u m (text s) ≡ ok s
  unfolding text_of bounded
  text_of-text m s h = simp (h.stripped, h.full, le-leb _ _ h.short)

  string_list-texts_json :
      (items m : ℕ) (ss : List String)
      → AreTexts u items m ss
      → string_list u items m (texts_json ss) ≡ ok ss
  unfolding string_list
  string_list-texts_json items m ss h = simp (
    values-items_of (map text ss),
    length-map text ss,
    le-leb _ _ h.few,
    each-map (text_of u m) text ss (All-weaken ss (text_of-text m) h.texts),
  )

  observation-payload :
      (o : DomainObservation) → IsObservation u o → observation u (observation_payload o) ≡ ok o
  unfolding observation
  observation-payload o h = simp (
    text_of-text 512 o.subject_id h.subject,
    text_of-text 8000 o.diagnosis h.diagnosis,
    string_list-texts_json 30 2000 o.implementation_steps h.steps,
    string_list-texts_json 30 2000 o.risks h.risks,
    string_list-texts_json 30 2000 o.evidence_refs h.refs,
  )

  -- The six fields that the job fixes.
  abbrev of_job : Job → String → DomainResult → DomainResult
  of_job task provider r = record r {
    schema_version = result_schema_version;
    account_id = task.account_id;
    scan_id = task.scan_id;
    domain = task.domain;
    context_hash = task.context_hash;
    provider = provider;
  }

  of_job-IsResult :
      (task : Job) (provider : String) (r : DomainResult)
      → IsResult u task provider r
      → r ≡ of_job task provider r
  of_job-IsResult task provider r h =
      cc (h.schema, h.account, h.scan, h.domain, h.context, h.provider_name)

  validate-of_job :
      (task : Job) (provider : String) (r : DomainResult)
      → IsResult u task provider r
      → validate_domain_result u task provider (as_payload (of_job task provider r))
        ≡ ok (of_job task provider r)
  unfolding validate_domain_result as_payload is_of_task status_text
  validate-of_job task provider r h = simp (
    beq_self task.account_id,
    beq_self task.scan_id,
    beq_self task.domain,
    beq_self task.context_hash,
    beq_self provider,
    h.status,
    text_of-text 8000 r.summary h.summary,
    values-items_of (map observation_payload r.observations),
    length-map observation_payload r.observations,
    le-leb _ _ h.few,
    each-map (observation u) observation_payload r.observations
        (All-weaken r.observations observation-payload h.observations),
    string_list-texts_json 100 2000 r.suspected_injections h.injections,
  )

-- A result that was accepted for a job is accepted again, and unchanged, when it is read back from
-- the payload that is written of it.
pub validate_domain_result-as_payload :
    (u : Unicode) (task : Job) (provider : String) (payload : Json) (r : DomainResult)
    → validate_domain_result u task provider payload ≡ ok r
    → validate_domain_result u task provider (as_payload r) ≡ ok r
validate_domain_result-as_payload u task provider payload r h =
    let accepted = validate_domain_result-IsResult u task provider payload r h in
    let same = of_job-IsResult u task provider r accepted in
    subst (λ x. validate_domain_result u task provider (as_payload x) ≡ ok x) (sym same)
      (validate-of_job u task provider r accepted)

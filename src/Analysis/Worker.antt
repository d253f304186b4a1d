-- ===== src/Analysis/Worker.antt =====
-- The result of one domain in julius/analysis/domain_worker.py: its record, its validation and its
-- payload. The tables of Unicode that `str.strip` reads are a parameter. An exception keeps the
-- class that `process_next` tells apart, and a missing answer its path; messages are left out.
pub mod Processing
pub mod Accepted
pub mod RoundTrip
pub mod Settles
pub mod Merging
pub mod Refusals
pub mod Inbox
mod Tests
use julius.Common.{
  ℕ, String, Bool, true, false, not, ◌&&◌, Option, none, some, List, [], ◌∷◌, map, elem, length,
  leb, all, ◌==◌, string_eq, if◌then◌else◌,
}
use julius.Common.Texts.{Unicode, is_blank, strip, text_length}
use julius.Json.{Json, text, object, Fields, empty, field, lookup, has_only}
use julius.Json.Reading.{text?, list?, dict?, is_text}
use julius.Json.Printing.{list_json, texts_json}
use julius.Json.Checks.{Checked, ok, raised, ◌>>=◌, ◌>>◌, demand, known, each}
use julius.Runs.Ledger.{Job}

-- ObsoleteTaskError, ResultNotReadyError, DomainResultError; FileNotFoundError, KeyError, TypeError
-- and ValueError; ProviderExecutionError; every other exception.
pub data Failure : Type 0 where
  obsolete_task : Failure
  result_not_ready : String → Failure
  invalid_result invalid_checkpoint provider_error worker_error : Failure

pub record DomainObservation : Type 0 where
  pub subject_id : String
  pub diagnosis : String
  pub implementation_steps : List String
  pub risks : List String
  pub evidence_refs : List String

pub record DomainResult : Type 0 where
  pub schema_version : String
  pub account_id : String
  pub scan_id : String
  pub domain : String
  pub context_hash : String
  pub provider : String
  pub status : String
  pub summary : String
  pub observations : List DomainObservation
  pub suspected_injections : List String

abbrev pub result_schema_version : String
result_schema_version = "1.0"

abbrev pub result_fields : List String
result_fields =
    "schema_version" ∷ "account_id" ∷ "scan_id" ∷ "domain" ∷ "context_hash" ∷ "provider" ∷ "status"
    ∷ "summary" ∷ "observations" ∷ "suspected_injections" ∷ []

abbrev pub observation_fields : List String
observation_fields =
    "subject_id" ∷ "diagnosis" ∷ "implementation_steps" ∷ "risks" ∷ "evidence_refs" ∷ []

abbrev pub statuses : List String
statuses = "enriched" ∷ "needs_evidence" ∷ []

-- The six fields that the reserved job fixes.
unfoldable pub is_of_task : Job → String → Fields → Bool
is_of_task task provider fs =
    is_text result_schema_version (lookup "schema_version" fs)
    && is_text task.account_id (lookup "account_id" fs)
    && is_text task.scan_id (lookup "scan_id" fs)
    && is_text task.domain (lookup "domain" fs)
    && is_text task.context_hash (lookup "context_hash" fs)
    && is_text provider (lookup "provider" fs)

unfoldable pub status_text : Json → Checked Failure String
status_text v = do s ← known invalid_result (text? v); demand invalid_result (elem s statuses); ok s

module _ (u : Unicode) where
  -- value.strip() behind the test that it is a text, not blank and bounded
  unfoldable pub bounded : ℕ → String → Checked Failure String
  bounded maximum s = do
    demand invalid_result (not (is_blank (strip u s)))
    demand invalid_result (leb (text_length s) maximum)
    ok (strip u s)

  unfoldable pub text_of : ℕ → Json → Checked Failure String
  text_of maximum v = known invalid_result (text? v) >>= bounded maximum

  unfoldable pub string_list : ℕ → ℕ → Json → Checked Failure (List String)
  string_list maximum_items maximum_text v = do
    vs ← known invalid_result (list? v)
    demand invalid_result (leb (length vs) maximum_items)
    each (text_of maximum_text) vs

  unfoldable pub observation : Json → Checked Failure DomainObservation
  observation v = do
    fs ← known invalid_result (dict? v)
    demand invalid_result (has_only observation_fields fs)
    subject ← text_of 512 (lookup "subject_id" fs)
    diagnosis ← text_of 8000 (lookup "diagnosis" fs)
    steps ← string_list 30 2000 (lookup "implementation_steps" fs)
    risks ← string_list 30 2000 (lookup "risks" fs)
    refs ← string_list 30 2000 (lookup "evidence_refs" fs)
    ok (record {
      subject_id = subject;
      diagnosis = diagnosis;
      implementation_steps = steps;
      risks = risks;
      evidence_refs = refs;
    })

  unfoldable pub validate_domain_result : Job → String → Json → Checked Failure DomainResult
  validate_domain_result task provider payload = do
    fs ← known invalid_result (dict? payload)
    demand invalid_result (has_only result_fields fs)
    demand invalid_result (is_of_task task provider fs)
    status ← status_text (lookup "status" fs)
    summary ← text_of 8000 (lookup "summary" fs)
    raw ← known invalid_result (list? (lookup "observations" fs))
    demand invalid_result (leb (length raw) 100)
    observations ← each observation raw
    injections ← string_list 100 2000 (lookup "suspected_injections" fs)
    ok (record {
      schema_version = result_schema_version;
      account_id = task.account_id;
      scan_id = task.scan_id;
      domain = task.domain;
      context_hash = task.context_hash;
      provider = provider;
      status = status;
      summary = summary;
      observations = observations;
      suspected_injections = injections;
    })

-- `asdict` of an observation
abbrev pub observation_payload : DomainObservation → Json
observation_payload o = object (
    field "subject_id" (text o.subject_id) (
      field "diagnosis" (text o.diagnosis) (
        field "implementation_steps" (texts_json o.implementation_steps) (
          field "risks" (texts_json o.risks)
            (field "evidence_refs" (texts_json o.evidence_refs) empty)))))

unfoldable pub as_payload : DomainResult → Json
as_payload r = object (
    field "schema_version" (text r.schema_version) (
      field "account_id" (text r.account_id) (
        field "scan_id" (text r.scan_id) (
          field "domain" (text r.domain) (
            field "context_hash" (text r.context_hash) (
              field "provider" (text r.provider) (
                field "status" (text r.status) (
                  field "summary" (text r.summary) (
                    field "observations" (list_json (map observation_payload r.observations)) (
                      field "suspected_injections" (texts_json r.suspected_injections)
                        empty))))))))))

-- ===== src/Analysis/Worker/Tests.antt =====
-- One run of the worker on concrete data: a job of one domain, its checkpoint and two providers.
mod Waiting
use Prim.Native.Char.{code}
use julius.Common.{
  String, true, false, ◌≡◌, refl, none, some, [], ◌∷◌, ◌==◌, string_eq, nat_eq, if◌then◌else◌, All,
  length, any, ◌≢◌, get, find?, select, sort, insert,
}
use julius.Common.Texts.{Unicode, strip_left, strip_right, strip}
use julius.Json.{Json, text, object, empty, field}
use julius.Json.Printing.{list_json, texts_json}
use julius.Json.Checks.{ok}
use julius.Runs.Status.{ai_pending, pending, completed}
use julius.Runs.Ledger.{Run, Job, Store}
use julius.Runs.Queue.{claimed, first_pending, ◌⊕◌}
use julius.Runs.Reading.{contextual_results, verified_checkpoint, task_for_context, first_match}
use julius.Analysis.Worker.{
  DomainResult, validate_domain_result, as_payload, bounded, text_of, string_list, observation,
  is_of_task, status_text,
}
use julius.Analysis.Worker.Processing.{Files, answers, fails, Provider, Platform, process_next}
use julius.Analysis.Worker.Accepted.{IsResult, validate_domain_result-IsResult}
use julius.Analysis.Worker.RoundTrip.{validate_domain_result-as_payload}
use julius.Analysis.Worker.Settles.{IsSettled, process_next_settles}
use julius.Analysis.Worker.Merging.{
  Merged, merge_results, merge_entry, IsCurrent, merge_results-IsCurrent,
}

abbrev unicode : Unicode
unicode = record { is_space = λ c. code c == 32; lower = λ s. s }

abbrev glue_job : Job
glue_job = record {
  task_id = "t";
  account_id = "a";
  scan_id = "s";
  domain = "glue";
  status = pending;
  context_hash = "h:checkpoint";
  payload_path = "/glue.json";
  attempts = 0;
  error_category = "";
  created_at = 1;
  updated_at = 1;
}

abbrev glue_observation : Json
glue_observation = object (
    field "subject_id" (text "job-1") (
      field "diagnosis" (text " oversized ") (
        field "implementation_steps" (texts_json ("halve the workers" ∷ [])) (
          field "risks" (texts_json [])
            (field "evidence_refs" (texts_json ("h:checkpoint" ∷ [])) empty)))))

abbrev glue_answer : String → Json
glue_answer status = object (
    field "schema_version" (text "1.0") (
      field "account_id" (text "a") (
        field "scan_id" (text "s") (
          field "domain" (text "glue") (
            field "context_hash" (text "h:checkpoint") (
              field "provider" (text "file") (
                field "status" (text status) (
                  field "summary" (text "one job") (
                    field "observations" (list_json (glue_observation ∷ []))
                      (field "suspected_injections" (texts_json []) empty))))))))))

abbrev glue_result : DomainResult
glue_result = record {
  schema_version = "1.0";
  account_id = "a";
  scan_id = "s";
  domain = "glue";
  context_hash = "h:checkpoint";
  provider = "file";
  status = "enriched";
  summary = "one job";
  observations =
      record {
        subject_id = "job-1";
        diagnosis = "oversized";
        implementation_steps = "halve the workers" ∷ [];
        risks = [];
        evidence_refs = "h:checkpoint" ∷ [];
      }
      ∷ [];
  suspected_injections = [];
}

validated : validate_domain_result unicode glue_job "file" (glue_answer "enriched") ≡ ok glue_result
unfolding validate_domain_result is_of_task status_text text_of bounded string_list observation
    strip strip_left strip_right
validated = refl

validate_domain_result-IsResult_example : IsResult unicode glue_job "file" glue_result
validate_domain_result-IsResult_example =
    validate_domain_result-IsResult unicode glue_job "file" (glue_answer "enriched") glue_result
      validated

validate_domain_result-as_payload_example :
    validate_domain_result unicode glue_job "file" (as_payload glue_result) ≡ ok glue_result
validate_domain_result-as_payload_example =
    validate_domain_result-as_payload unicode glue_job "file" (glue_answer "enriched") glue_result
      validated

abbrev glue_checkpoint : Json
glue_checkpoint = object (
    field "account" (object (field "id" (text "a") empty))
      (field "scan_id" (text "s") (field "domain" (text "glue") empty)))

abbrev platform : Platform
platform = record {
  unicode = unicode;
  sha256 = λ s. "h:" ⊕ s;
  loads = λ s.
      if s == "checkpoint"
      then some glue_checkpoint
      else if s == "result"
      then some (as_payload glue_result)
      else none;
  dumps = λ v. "result";
  join = λ a b c d. a ⊕ "/" ⊕ b ⊕ "/" ⊕ c ⊕ "/" ⊕ d;
  resolve = λ s. s;
  is_writable = λ s. true;
}

abbrev inbox : Provider
inbox = record { name = "file"; analyze = λ v j. answers (glue_answer "enriched") }

abbrev broken : Provider
broken = record { name = "file"; analyze = λ v j. fails }

abbrev glue_run : Run
glue_run = record {
  account_id = "a";
  scan_id = "s";
  status = ai_pending;
  deterministic_path = "";
  created_at = 0;
  updated_at = 0;
}

abbrev waiting : Store
waiting = record {
  runs = glue_run ∷ [];
  checkpoints =
      record {
        account_id = "a";
        scan_id = "s";
        domain = "glue";
        status = "ready";
        payload_path = "/glue.json";
        payload_hash = "h:checkpoint";
        sources = [];
        created_at = 0;
      }
      ∷ [];
  jobs = glue_job ∷ [];
  results = [];
  events = [];
  max_pending_ai_jobs = 20;
}

abbrev disk : Files
disk = ("/glue.json", "checkpoint") ∷ []

-- A provider that fails still leaves a settled job.
process_next_settles_example :
    IsSettled
      (claimed 5 glue_job)
      (process_next platform (λ a b. false) broken "/out" 5 disk waiting)
unfolding first_pending find?
process_next_settles_example =
    process_next_settles platform (λ a b. false) broken "/out" 5 disk waiting glue_job glue_run refl
      refl refl

-- The store after the job was completed, with its result.
abbrev finished : Store
finished = record waiting {
  jobs = record glue_job { status = completed } ∷ [];
  results =
      record {
        task_id = "t";
        account_id = "a";
        scan_id = "s";
        domain = "glue";
        context_hash = "h:checkpoint";
        provider = "file";
        status = "enriched";
        result_path = "/out/glue.json";
        result_hash = "h:result";
        created_at = 5;
      }
      ∷ [];
}

abbrev disk_after : Files
disk_after = ("/out/glue.json", "result") ∷ disk

abbrev document : Merged
document = record {
  account_id = "a";
  scan_id = "s";
  status = "enriched";
  results = glue_result ∷ [];
}

merged : merge_results platform disk_after finished "a" "s" (λ a b. false) ≡ ok document
unfolding merge_results merge_entry contextual_results verified_checkpoint task_for_context
    validate_domain_result is_of_task status_text text_of bounded string_list observation strip
    strip_left strip_right as_payload get find? select sort insert first_match
merged = refl

merge_results-IsCurrent_example :
    All (IsCurrent platform disk_after finished "a" "s") document.results
    × (length document.results ≡ length (contextual_results (λ a b. false) "a" "s" finished))
    × (document.status ≡ "enriched"
        → (document.results ≢ [])
          × (any (λ x. x.status == "needs_evidence") document.results ≡ false))
merge_results-IsCurrent_example =
    merge_results-IsCurrent platform disk_after finished "a" "s" (λ a b. false) document merged

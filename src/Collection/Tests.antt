-- ===== src/Collection/Tests.antt =====
-- The domain of Athena, whose two sources complete, is persisted and resumed.
use julius.Common.{
  ◌%◌, ◌&&◌, ◌+◌, ◌≤◌, ◌<◌, String, Bool, true, false, ◌≡◌, refl, none, some, List, [], ◌∷◌, All,
  all, any, get, put, find?, select, sort, insert, count_where, ◌==◌, string_eq, nat_eq,
  if◌then◌else◌,
}
use julius.Json.{Json, null, text, object, empty, field}
use julius.Json.Checks.{ok}
use julius.Runs.Status.{deterministic_published, run_transitions}
use julius.Runs.Ledger
use julius.Runs.Ledger.{Run, Checkpoint, Store, checkpoint, upsert_checkpoint, is_checkpoint}
use julius.Runs.Queue.{◌⊕◌, enqueue_ai, enqueue_task, task_id_of, announce}
use julius.Runs.Reading.{found, checkpoints, verified_checkpoint, first_match}
use julius.Collection.Domains.{domain_sources, checkpoint_status}
use julius.Collection.Writer.{
  Package, opened, Completion, is_complete, frozen_sources, close, close_complete, source_completed,
  complete_all,
}
use julius.Collection.Persisting.{
  Archive, Files, write_file, package_path, row_of, enqueue, register, persist,
}
use julius.Collection.Resuming.{
  Account, Reader, Resumption, dict_or_empty, is_whole, compatible, resume_row, copy_fields,
  apply_domain, resume_rows, resume_ready_domains,
}
use julius.Collection.Window.{
  AnalysisWindow, trailing, capped, overlap, IsWindow, trailing-IsWindow, capped-IsWindow, contains,
  count_moments, is_running_at, overlap-contains,
}
use julius.Collection.Closing.{complete_all_closes}
use julius.Collection.Persisted.{digest_in, persist-verified_checkpoint}
use julius.Collection.Resumed.{IsResumable, resume_ready_domains-IsResumable}

abbrev in_order : String → String → Bool
in_order a b = false

abbrev ended : String → Completion
ended name = record {
  source = name;
  entries = record { source = name; status = "ok"; details = "" } ∷ [];
  dataset = λ d. d;
}

abbrev events : List Completion
events = ended "Athena Queries" ∷ ended "Amazon S3" ∷ ended "Athena Provisioned Capacity" ∷ []

abbrev athena : Package
athena = record {
  domain = "athena";
  status = "ready";
  sources = ("Athena Queries", "ok") ∷ ("Athena Provisioned Capacity", "ok") ∷ [];
  collection_health =
      record { source = "Athena Queries"; status = "ok"; details = "" }
      ∷ record { source = "Athena Provisioned Capacity"; status = "ok"; details = "" }
      ∷ [];
  payload = "athena";
}

closes : (complete_all in_order domain_sources events opened).packages ≡ athena ∷ []
unfolding complete_all source_completed close_complete close frozen_sources is_complete
    checkpoint_status put get sort insert find?
closes = refl

complete_all_closes_example :
    All
      (λ r.
        count_where
          (λ p. p.domain == r.0)
          (complete_all in_order domain_sources events opened).packages
        ≡ (if all (λ n. any (λ c. c.source == n) events) r.1 then 1 else 0))
      domain_sources
complete_all_closes_example =
    complete_all_closes in_order domain_sources events refl
      (refl, (refl, (refl, (refl, (refl, (refl, tt))))))

abbrev archive : Archive
archive = record {
  account_id = "a";
  scan_id = "s";
  enqueues = true;
  sha256 = λ s. "h:" ⊕ s;
  dumps = λ p. p.domain;
  path_of = λ name. "/" ⊕ name;
  temporary = λ path. path ⊕ ".tmp";
  is_writable = λ path. true;
}

abbrev store : Store
store = record {
  runs =
      record {
        account_id = "a";
        scan_id = "s";
        status = deterministic_published;
        deterministic_path = "";
        created_at = 0;
        updated_at = 0;
      }
      ∷ [];
  checkpoints = [];
  jobs = [];
  results = [];
  events = [];
  max_pending_ai_jobs = 20;
}

abbrev no_files : Files
no_files = []

abbrev persisted : Store
persisted = (persist archive (λ s. s) 3 athena no_files store).2

abbrev files : Files
files = (persist archive (λ s. s) 3 athena no_files store).1

returned : persist archive (λ s. s) 3 athena no_files store ≡ (none, files, persisted)
unfolding persist register enqueue write_file get checkpoint Ledger.modify enqueue_ai enqueue_task
    task_id_of find? announce Ledger.◌>>=◌ Ledger.run_status Ledger.transition_to Ledger.move_run
    run_transitions count_where
returned = refl

persist-verified_checkpoint_example :
    (verified_checkpoint (digest_in archive files) "a" "s" "athena" persisted
      ≡ found (row_of archive (λ s. s) 3 athena))
    × (get (package_path archive (λ s. s) 3 athena) files ≡ some "athena")
persist-verified_checkpoint_example =
    persist-verified_checkpoint archive (λ s. s) 3 athena no_files files store persisted returned

abbrev kept : Store
kept = record store { checkpoints = row_of archive (λ s. s) 3 athena ∷ [] }

abbrev kept_files : Files
kept_files = ("/athena-h:athena.json", "athena") ∷ []

abbrev envelope : Json
envelope = object (
    field "checkpoint_schema_version" (text "2.0") (
      field "scan_id" (text "s") (
        field "domain" (text "athena") (
          field "collection_fingerprint" (text "f") (
            field "account"
              (object (field "id" (text "a") (field "region" (text "sa-east-1") empty)))
              (field "window"
                (object (field "start" (text "2024-01-01") (field "end" (text "2024-01-31") empty)))
                empty))))))

abbrev reader : Reader
reader = record {
  digest = digest_in archive kept_files;
  read_text = λ path. get path kept_files;
  loads = λ s. if s == "athena" then some envelope else none;
  is_zero = λ n. n == 0;
  load = λ a v. some (record { fields = []; collection_health = [] });
}

abbrev account : Account
account = record {
  account_id = "a";
  region = "sa-east-1";
  window_start = "2024-01-01";
  window_end = "2024-01-31";
  fields = [];
}

abbrev resumption : Resumption
resumption = record {
  account = record account {
    fields =
        ("athena_queries", null)
        ∷ ("athena_capacity_reservations", null)
        ∷ ("athena_coverage", null)
        ∷ ("athena_actor_usage", null)
        ∷ [];
  };
  resumed = "Athena Queries" ∷ "Athena Provisioned Capacity" ∷ [];
  health = [];
}

resumes : resume_ready_domains reader "s" "f" kept in_order account ≡ ok resumption
unfolding resume_ready_domains resume_rows resume_row compatible is_whole dict_or_empty apply_domain
    copy_fields checkpoints verified_checkpoint first_match select sort insert find? get put
resumes = refl

resume_ready_domains-IsResumable_example :
    All (IsResumable reader account "s" "f" kept) resumption.resumed
resume_ready_domains-IsResumable_example =
    resume_ready_domains-IsResumable reader "s" "f" kept in_order account resumption resumes

abbrev one_day : AnalysisWindow
one_day = record { start = 86400000000; end = 172800000000; days = 1 }

abbrev two_days : AnalysisWindow
two_days = record { start = 0; end = 172800000000; days = 2 }

abbrev first_day : AnalysisWindow
first_day = record { start = 0; end = 86400000000; days = 1 }

last_midnight : trailing 1 172800000005 ≡ some one_day
unfolding trailing
last_midnight = refl

trailing-IsWindow_example :
    IsWindow one_day
    × (one_day.days ≡ 1)
    × (one_day.end % 86400000000 ≡ 0)
    × (one_day.end ≤ 172800000005)
    × (172800000005 < one_day.end + 86400000000)
trailing-IsWindow_example = trailing-IsWindow 1 172800000005 one_day last_midnight

two_days-IsWindow : IsWindow two_days
two_days-IsWindow = record { whole = refl }

shortened : capped (some 1) two_days ≡ some one_day
unfolding capped
shortened = refl

capped-IsWindow_example :
    IsWindow one_day
    × (one_day.end ≡ two_days.end)
    × (two_days.start ≤ one_day.start)
    × (one_day.days ≡ 1)
capped-IsWindow_example = capped-IsWindow (some 1) two_days one_day two_days-IsWindow shortened

-- An execution that still runs.
overlap-contains_example :
    overlap (some 86399999999) none first_day
    ≡ count_moments
        (λ t. contains (some t) first_day && is_running_at (some 86399999999) none t)
        86400000000
overlap-contains_example = overlap-contains (some 86399999999) none first_day

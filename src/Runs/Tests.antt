-- ===== src/Runs/Tests.antt =====
-- The ledger of runs on a small account: two scans, and what the theorems say of it.
use julius.Common.{
  ◌↔◌, ◌+◌, ℕ, String, ◌≡◌, refl, Bool, some, List, [], ◌∷◌, Evolves, arith, ltb, ◌==◌, string_eq,
  find?, count_where, ◌≤◌, if◌then◌else◌, Option, none,
}
use julius.Runs.Status.{run_status?, RunStatus, enriched, ai_pending, TaskStatus, pending, running}
use julius.Runs.Ledger.{
  Run, Job, Store, ok, err, diverging_result, find_run, find_task, pure, transition, ◌>>=◌,
  run_status, modify, Checkpoint, checkpoint,
}
use julius.Runs.Queue.{Request, queued_jobs, enqueue_ai, claimed}
use julius.Runs.Contextual.{Outcome, record_contextual_result}
use julius.Runs.Commands.{Command, transition_of, claim_of, complete_of, execute_all}
use julius.Runs.Keys.{Distinct}
use julius.Runs.Evolution.{RunStep}
use julius.Runs.Terminal.{execute_all_follows_table, execute_all_keeps_final}
use julius.Runs.Tasks.{JobStep, tasks_follow_table}
use julius.Runs.Enqueueing.{enqueue_ai_bound, enqueue_ai_idempotent}
use julius.Runs.Reading.{found, verified_checkpoint, queue_stats}
use julius.Runs.Lookup.{verified_checkpoint-checkpoint, queue_stats-length}
use julius.Runs.Results.{record_contextual_result_once}

abbrev digest : String → String
digest text = text

abbrev rank : String → ℕ
rank s = if s == "t1" then 0 else 1

abbrev precedes : String → String → Bool
precedes a b = ltb (rank a) (rank b)

abbrev run_at : String → RunStatus → ℕ → Run
run_at scan st at = record {
  account_id = "a";
  scan_id = scan;
  status = st;
  deterministic_path = "p";
  created_at = at;
  updated_at = at;
}

abbrev job_at : String → TaskStatus → ℕ → Job
job_at task st at = record {
  task_id = task;
  account_id = "a";
  scan_id = "s2";
  domain = "glue";
  status = st;
  context_hash = "h";
  payload_path = "p";
  attempts = 0;
  error_category = "";
  created_at = at;
  updated_at = at;
}

abbrev two_runs : Store
two_runs = record {
  runs = run_at "s1" enriched 1 ∷ run_at "s2" ai_pending 2 ∷ [];
  checkpoints = [];
  jobs = job_at "t1" pending 3 ∷ job_at "t2" running 2 ∷ [];
  results = [];
  events = [];
  max_pending_ai_jobs = 4;
}

abbrev calls : List Command
calls = transition_of "a" "s1" "ai_pending" 5 ∷ claim_of 6 ∷ complete_of "t2" 7 ∷ []

two_runs-Distinct : Distinct two_runs.runs
unfolding find?
two_runs-Distinct = (refl, (refl, tt))

execute_all_follows_table_example :
    Distinct (execute_all digest precedes calls two_runs).runs
    × Evolves RunStep
        (find_run "a" "s2" two_runs)
        (find_run "a" "s2" (execute_all digest precedes calls two_runs))
execute_all_follows_table_example =
    execute_all_follows_table digest precedes "a" "s2" calls two_runs two_runs-Distinct

find_s1 : find_run "a" "s1" two_runs ≡ some (run_at "s1" enriched 1)
unfolding find?
find_s1 = refl

-- The run is asked to be cancelled.
execute_all_keeps_final_example :
    let after = execute_all digest precedes calls two_runs in
    (r : Run) × (find_run "a" "s1" after ≡ some r)
    × (r.status ≡ enriched)
    × ((transition "a" "s1" "cancelled" 9 after).1 ≡ after)
    × (((transition "a" "s1" "cancelled" 9 after).0 ≡ ok tt)
        ↔ (run_status? "cancelled" ≡ some enriched))
execute_all_keeps_final_example =
    execute_all_keeps_final digest precedes "a" "s1" "cancelled" 9 calls two_runs
      (run_at "s1" enriched 1) two_runs-Distinct find_s1 refl

tasks_follow_table_example :
    Evolves JobStep
      (find_task "t1" two_runs)
      (find_task "t1" (execute_all digest precedes calls two_runs))
tasks_follow_table_example = tasks_follow_table digest precedes "t1" calls two_runs

abbrev after_claim : Store
after_claim = record two_runs {
  jobs = claimed 6 (job_at "t1" pending 3) ∷ job_at "t2" running 2 ∷ [];
}

abbrev request : Request
request = record {
  account_id = "a";
  scan_id = "s2";
  domain = "s3";
  context_hash = "h";
  payload_path = "p";
}

within : queued_jobs two_runs ≤ two_runs.max_pending_ai_jobs
unfolding count_where
within = omega arith

enqueue_ai_bound_example :
    (queued_jobs (enqueue_ai digest request 8 two_runs).1 ≤ 4)
    × ((enqueue_ai digest request 8 two_runs).1.max_pending_ai_jobs ≡ 4)
enqueue_ai_bound_example = enqueue_ai_bound digest request 8 two_runs within

abbrev after_enqueue : Store
after_enqueue = (enqueue_ai digest request 8 two_runs).1

enqueues : enqueue_ai digest request 8 two_runs ≡ (ok "a|s2|s3|h", after_enqueue)
unfolding enqueue_ai find? count_where pure ◌>>=◌ run_status
enqueues = refl

enqueue_ai_idempotent_example :
    enqueue_ai digest request 9 after_enqueue ≡ (ok "a|s2|s3|h", after_enqueue)
enqueue_ai_idempotent_example =
    enqueue_ai_idempotent digest request 8 9 two_runs after_enqueue "a|s2|s3|h" enqueues refl

abbrev outcome : String → Outcome
outcome hash = record { provider = "p"; status = "enriched"; result_path = "r"; result_hash = hash }

abbrev after_result : Store
after_result = (record_contextual_result "t2" (outcome "h1") 9 two_runs).1

records : record_contextual_result "t2" (outcome "h1") 9 two_runs ≡ (ok tt, after_result)
unfolding record_contextual_result find? pure modify
records = refl

record_contextual_result_once_example :
    record_contextual_result "t2" (outcome "h2") 10 after_result
    ≡ (err (diverging_result "t2"), after_result)
record_contextual_result_once_example =
    record_contextual_result_once "t2" (outcome "h1") (outcome "h2") 9 10 two_runs after_result
      records

abbrev written : Checkpoint
written = record {
  account_id = "a";
  scan_id = "s2";
  domain = "glue";
  status = "ready";
  payload_path = "p";
  payload_hash = "h";
  sources = [];
  created_at = 4;
}

abbrev after_checkpoint : Store
after_checkpoint = record two_runs { checkpoints = written ∷ [] }

writes : checkpoint written two_runs ≡ (ok tt, after_checkpoint)
unfolding checkpoint modify
writes = refl

abbrev files : String → Option String
files path = if path == "p" then some "h" else none

verified_checkpoint-checkpoint_example :
    verified_checkpoint files "a" "s2" "glue" after_checkpoint ≡ found written
verified_checkpoint-checkpoint_example =
    verified_checkpoint-checkpoint files written two_runs after_checkpoint writes

queue_stats-length_example :
    let q = queue_stats 9 two_runs in
    q.pending_jobs + q.running_jobs + q.failed_jobs + q.completed_jobs + q.superseded_jobs ≡ 2
queue_stats-length_example = queue_stats-length 9 two_runs

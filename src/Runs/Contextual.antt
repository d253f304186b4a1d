-- ===== src/Runs/Contextual.antt =====
-- The end of a contextual job in julius/state/run_store.py: its completion, its stored result, and
-- the retirement of the contextual phase of older runs.
use julius.Common.{
  ℕ, String, Bool, true, false, not, ◌&&◌, ◌||◌, Option, none, some, List, [], ◌∷◌, ◌++◌, map, elem,
  length, any, select, ◌==◌, string_eq, nat_eq, if◌then◌else◌, find?, update_where, count_where,
  ltb,
}
use julius.Runs.Status.{
  RunStatus, deterministic_published, ai_pending, ai_partial, ai_failed, enriched, TaskStatus,
  pending, running, failed, completed, run_status_eq, task_status_eq,
}
use julius.Runs.Ledger.{
  unknown_run, unknown_task, task_not_reserved, diverging_result, invalid_contextual_status, Run,
  Job, ContextualResult, Store, Action, ◌>>=◌, ◌>>◌, pure, raise, gets, modify, find_task, find_run,
  open_jobs, transition_to, run_status,
}
use julius.Runs.Queue.{is_running, transition_task_to}

abbrev pub cross_done : String → String → Job → Bool
cross_done account scan j =
    j.account_id == account
    && j.scan_id == scan
    && j.domain == "cross_service"
    && j.status == completed

-- current in {"ai_pending", "ai_partial"}
abbrev pub in_analysis : RunStatus → Bool
in_analysis ai_pending = true
in_analysis ai_partial = true
in_analysis _ = false

-- The run advances when its last open job is done.
unfoldable pub finish_run : String → String → ℕ → Action (Unit {0})
finish_run account scan now = do
  waiting ← gets (open_jobs account scan)
  cross ← gets (λ s. any (cross_done account scan) s.jobs)
  if waiting == 0
      then (do
        st ← run_status account scan
        if in_analysis st
            then transition_to account scan (if cross then enriched else ai_partial) now
            else pure tt)
      else pure tt

unfoldable pub complete_row : String → ℕ → Option Job → Action (Unit {0})
complete_row task now none = raise (unknown_task task)
complete_row task now (some row) = do
  transition_task_to task completed "" now
  finish_run row.account_id row.scan_id now

unfoldable pub complete_ai : String → ℕ → Action (Unit {0})
unfolding complete_row finish_run
complete_ai task now s = complete_row task now (find_task task s) s

-- What a caller gives `record_contextual_result` besides the task.
pub record Outcome : Type 0 where
  pub provider : String
  pub status : String
  pub result_path : String
  pub result_hash : String

abbrev pub is_result : String → ContextualResult → Bool
is_result task r = r.task_id == task

abbrev pub find_result : String → Store → Option ContextualResult
find_result task s = find? (is_result task) s.results

abbrev pub same_outcome : Outcome → ContextualResult → Bool
same_outcome o r =
    r.provider == o.provider
    && r.status == o.status
    && r.result_path == o.result_path
    && r.result_hash == o.result_hash

abbrev pub new_result : String → Outcome → ℕ → Job → ContextualResult
new_result task o now row = record {
  task_id = task;
  account_id = row.account_id;
  scan_id = row.scan_id;
  domain = row.domain;
  context_hash = row.context_hash;
  provider = o.provider;
  status = o.status;
  result_path = o.result_path;
  result_hash = o.result_hash;
  created_at = now;
}

unfoldable pub store_result :
    String → Outcome → ℕ → Job → Option ContextualResult → Action (Unit {0})
store_result task o now row (some existing) =
    if same_outcome o existing then pure tt else raise (diverging_result task)
store_result task o now row none =
    modify (λ s. record s { results = s.results ++ new_result task o now row ∷ [] })

unfoldable pub result_row : String → Outcome → ℕ → Option Job → Action (Unit {0})
result_row task o now none s = raise (unknown_task task) s
result_row task o now (some row) s =
    if is_running row.status
    then store_result task o now row (find_result task s) s
    else raise (task_not_reserved task) s

unfoldable pub record_contextual_result : String → Outcome → ℕ → Action (Unit {0})
unfolding result_row store_result
record_contextual_result task o now s =
    if elem o.status ("enriched" ∷ "needs_evidence" ∷ [])
    then result_row task o now (find_task task s) s
    else raise (invalid_contextual_status o.status) s

-- status IN ('deterministic_published', 'ai_pending', 'ai_partial', 'ai_failed')
abbrev pub is_eligible : RunStatus → Bool
is_eligible deterministic_published = true
is_eligible ai_pending = true
is_eligible ai_partial = true
is_eligible ai_failed = true
is_eligible _ = false

-- status IN ('pending', 'running', 'failed')
abbrev pub is_unfinished : TaskStatus → Bool
is_unfinished pending = true
is_unfinished running = true
is_unfinished failed = true
is_unfinished _ = false

abbrev pub retired_job : ℕ → Job → Job
retired_job now j = record j {
  status = TaskStatus.superseded;
  error_category = "newer_scan";
  updated_at = now;
}

abbrev pub retired_run : ℕ → Run → Run
retired_run now r = record r { status = RunStatus.superseded; updated_at = now }

abbrev pub job_of : String → List String → Job → Bool
job_of account scans j = j.account_id == account && elem j.scan_id scans && is_unfinished j.status

abbrev pub run_of : String → List String → Run → Bool
run_of account scans r = r.account_id == account && elem r.scan_id scans

-- The three writes of the transaction.
unfoldable pub retire : String → List String → ℕ → Action (ℕ × ℕ)
retire account [] now s = pure (0, 0) s
retire account (scan ∷ more) now s =
    let scans = scan ∷ more in
    pure (length scans, count_where (job_of account scans) s.jobs)
      (record s {
        jobs = update_where (job_of account scans) (retired_job now) s.jobs;
        runs = update_where (run_of account scans) (retired_run now) s.runs;
      })

module _ (precedes : String → String → Bool) where
  -- The rows of `older`: eligible runs of the account that the kept run follows.
  unfoldable pub is_older : Run → Run → Bool
  is_older keep r =
      r.account_id == keep.account_id
      && not (r.scan_id == keep.scan_id)
      && (ltb r.created_at keep.created_at
          || (r.created_at == keep.created_at && precedes r.scan_id keep.scan_id))
      && is_eligible r.status

  abbrev pub older_scans : Run → Store → List String
  older_scans keep s = map (λ r. r.scan_id) (select (is_older keep) s.runs)

  unfoldable pub supersede_row : String → String → ℕ → Option Run → Action (ℕ × ℕ)
  supersede_row account keep_scan now none s = raise (unknown_run account keep_scan) s
  supersede_row account keep_scan now (some keep) s = retire account (older_scans keep s) now s

  unfoldable pub supersede_older_context : String → String → ℕ → Action (ℕ × ℕ)
  unfolding supersede_row retire is_older
  supersede_older_context account keep_scan now s =
      supersede_row account keep_scan now (find_run account keep_scan s) s

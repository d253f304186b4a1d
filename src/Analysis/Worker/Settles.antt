-- ===== src/Analysis/Worker/Settles.antt =====
-- `process_next`: the job that it reserves is settled, whatever happens on the way.
use julius.Common.{
  ℕ, String, ◌≡◌, refl, sym, ap, ◌∙◌, subst, Bool, false, Option, some, arith, ◌==◌, string_eq,
  find?,
}
use julius.Json.Checks.{Checked, ok, raised}
use julius.Runs.Status.{
  TaskStatus, pending, running, failed, completed, task_status_eq, task_transitions, task_status?,
}
use julius.Runs.Ledger
use julius.Runs.Ledger.{
  Run, Job, Store, Result, find_task, find_run, is_task, is_run, pure, continue, ◌>>=◌,
}
use julius.Runs.Queue.{first_pending, claimed, claim, claim_next, moved, transition_task}
use julius.Runs.Contextual.{Outcome, complete_ai}
use julius.Runs.Ending.{
  rewritten, find-rewritten, transition_task_to-running, complete_ai-running,
  record_result-SameQueue, find-claimed,
}
use julius.Analysis.Worker.{
  Failure, obsolete_task, result_not_ready, invalid_result, invalid_checkpoint, provider_error,
  worker_error,
}
use julius.Analysis.Worker.Processing.{
  Files, Provider, completed_outcome, Platform, WorkerOutcome, Return, ended, failed_outcome,
  settle, conclude, deliver, finish, process_claimed, process_next,
}

-- The call returned an outcome for the job, and the job's row says the same: not reserved any more.
pub record IsSettled (task : Job) (answer : Return (Option WorkerOutcome)) : Type 0 where
  pub outcome : WorkerOutcome
  pub returned : answer.0 ≡ Ledger.ok (some outcome)
  pub same_task : outcome.task_id ≡ task.task_id
  pub row : Job
  pub row_found : find_task task.task_id answer.1 ≡ some row
  pub same_status : task_status? outcome.status ≡ some row.status
  pub same_category : outcome.error_category ≡ row.error_category
  pub not_reserved : (row.status == running) ≡ false
  pub attempt : row.attempts ≡ task.attempts

-- The status of a job that an exception ends.
abbrev pub ending : Failure → TaskStatus
ending obsolete_task = TaskStatus.superseded
ending (result_not_ready path) = pending
ending _ = failed

pub settle-eq :
    (task : String) (e : Failure) (now : ℕ) (row : Job) (files : Files) (s : Store)
    → find_task task s ≡ some row
    → row.status ≡ running
    → settle task e now files s ≡ (
      Ledger.ok (some (failed_outcome task e)),
      rewritten task (ending e) (ended e).1 now row s,
      files,
    )
unfolding settle transition_task task_status? task_transitions
settle-eq task obsolete_task now row files s h r =
    simp (transition_task_to-running task TaskStatus.superseded "" now row s h r refl)
settle-eq task (result_not_ready path) now row files s h r =
    simp (transition_task_to-running task pending "result_not_ready" now row s h r refl)
settle-eq task invalid_result now row files s h r =
    simp (transition_task_to-running task failed "invalid_result" now row s h r refl)
settle-eq task invalid_checkpoint now row files s h r =
    simp (transition_task_to-running task failed "invalid_checkpoint" now row s h r refl)
settle-eq task provider_error now row files s h r =
    simp (transition_task_to-running task failed "provider_error" now row s h r refl)
settle-eq task worker_error now row files s h r =
    simp (transition_task_to-running task failed "worker_error" now row s h r refl)

ending-status : (e : Failure) → task_status? (ended e).0 ≡ some (ending e)
unfolding task_status?
ending-status obsolete_task = refl
ending-status (result_not_ready path) = refl
ending-status invalid_result = refl
ending-status invalid_checkpoint = refl
ending-status provider_error = refl
ending-status worker_error = refl

ending_leaves : (e : Failure) → (ending e == running) ≡ false
ending_leaves e = ground (arith)

module _ (task : Job) (now : ℕ) (known : task.status ≡ running) where
  settle-IsSettled :
      (e : Failure) (files : Files) (s : Store)
      → find_task task.task_id s ≡ some task
      → IsSettled task (settle task.task_id e now files s)
  settle-IsSettled e files s h =
      subst (IsSettled task) (sym (settle-eq task.task_id e now task files s h known)) (record {
        outcome = failed_outcome task.task_id e;
        returned = refl;
        same_task = refl;
        row = moved (ending e) (ended e).1 now task.attempts task;
        row_found = find-rewritten task.task_id (ending e) (ended e).1 now task s h;
        same_status = ending-status e;
        same_category = refl;
        not_reserved = ending_leaves e;
        attempt = ground (arith, ending_leaves e);
      })

  -- `complete_ai`, behind a result that was stored, or an error that the store raised.
  conclude-IsSettled :
      (path : String) (run : Run) (files : Files) (r : Result (Unit {0})) (s : Store)
      → find_task task.task_id s ≡ some task
      → find_run task.account_id task.scan_id s ≡ some run
      → IsSettled task
          (conclude task.task_id path now files (continue r (λ _. complete_ai task.task_id now) s))
  unfolding conclude task_status?
  conclude-IsSettled path run files (Ledger.err e) s h k =
      settle-IsSettled invalid_checkpoint files s h
  conclude-IsSettled path run files (Ledger.ok _) s h k =
      let (returns, row) = complete_ai-running task.task_id now task run s h known k in
      let same : complete_ai task.task_id now s
          ≡ (Ledger.ok tt, (complete_ai task.task_id now s).1) =
        ap (λ r. (r, (complete_ai task.task_id now s).1)) returns in
      subst (λ a. IsSettled task (conclude task.task_id path now files a)) (sym same)
        (record {
          outcome = completed_outcome task.task_id path;
          returned = refl;
          same_task = refl;
          row = moved completed "" now task.attempts task;
          row_found = row;
          same_status = refl;
          same_category = refl;
          not_reserved = refl;
          attempt = omega arith;
        })

  finish-IsSettled :
      (run : Run) (files : Files) (s : Store) (o : Checked Failure (Outcome × Files))
      → find_task task.task_id s ≡ some task
      → find_run task.account_id task.scan_id s ≡ some run
      → IsSettled task (finish task now files s o)
  unfolding finish deliver ◌>>=◌
  finish-IsSettled run files s (raised e) h k = settle-IsSettled e files s h
  finish-IsSettled run files s (ok (o, files')) h k =
      let (jobs, runs) = record_result-SameQueue task.task_id o now s in
      conclude-IsSettled o.result_path run files' _ _ (ap (find? (is_task task.task_id)) jobs ∙ h)
        (ap (find? (is_run task.account_id task.scan_id)) runs ∙ k)

-- When the queue's next job has its row in the table and its run is known, a call of the worker
-- returns an outcome for that job, whatever the provider, the files and the disk do, and leaves the
-- job's row, with one attempt more, in the status and with the error category that the outcome
-- tells: completed, pending again, superseded or failed, and never reserved.
pub process_next_settles :
    (p : Platform) (precedes : String → String → Bool) (provider : Provider) (root : String)
    (now : ℕ) (files : Files) (s : Store) (j : Job) (run : Run)
    → first_pending precedes s.jobs ≡ some j
    → find_task j.task_id s ≡ some j
    → find_run j.account_id j.scan_id s ≡ some run
    → IsSettled (claimed now j) (process_next p precedes provider root now files s)
unfolding process_next process_claimed claim_next claim pure
process_next_settles p precedes provider root now files s j run first h k =
    let reserved = (claim precedes now (some j) s).1 in
    let same : claim_next precedes now s ≡ (Ledger.ok (some (claimed now j)), reserved) =
      rw (claim_next, first, claim) in
    subst (λ a. IsSettled (claimed now j) (process_claimed p precedes provider root now files a))
      (sym same)
      (finish-IsSettled (claimed now j) now refl run files reserved _
        (find-claimed precedes now s j first h) k)

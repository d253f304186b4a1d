-- ===== src/Runs/Tasks/Moves.antt =====
-- Each method of the ledger moves a job along `_TASK_TRANSITIONS` only.
use julius.Common.{
  ℕ, String, ◌≡◌, refl, Bool, true, Option, none, some, List, [], ◌∷◌, ◌++◌, arith, ◌==◌, string_eq,
  elem, leb, Chain-one, if◌then◌else◌, ◌+◌, ◌≤◌, Bool-cases, Option-cases, inl, inr, eq_of_beq,
  and_both, find?_holds, update_where, Evolves-append, ◌&&◌,
}
use julius.Runs.Status.{
  TaskStatus, pending, running, task_status_eq, task_transitions, task_allows, run_status?,
  task_status?, RunStatus, run_status_eq,
}
use julius.Runs.Ledger.{
  Run, Job, Store, ContextualResult, is_task, find_task, find_run, create_run, insert_run, move_run,
  transition_to, transition, publish_deterministic, run_status, pure, raise, modify, ◌>>=◌,
}
use julius.Runs.Queue.{
  Request, queued_jobs, new_job, announce, enqueue_task, is_pending, is_running, claimed, claim,
  requeue_running, moved, move_task, transition_task_to, transition_task,
}
use julius.Runs.Contextual.{
  finish_run, complete_row, Outcome, store_result, result_row, record_contextual_result,
  find_result, is_unfinished, job_of, retire, older_scans, supersede_row,
}
use julius.Runs.Preserves.{Preserves-modify, Preserves-raise, Preserves-branch, preserves_rules}
use julius.Runs.Tasks.Rows.{JobStep, JobStep-refl, Held, Held-refl, update_jobs-Held, jobs, Holds}

-- Runs are another table.
module _ (t' : String) where
  create_row-Held :
      (r : Run) (s : Store) (o : Option Run)
      → find_run r.account_id r.scan_id s ≡ o
      → Held t' s (insert_run r s)
  unfolding insert_run
  create_row-Held r s none e = rw (insert_run, e) (Held-refl t' s)
  create_row-Held r s (some x) e = rw (insert_run, e) (Held-refl t' s)

  pub create_run-Holds : (a k st path : String) (now : ℕ) → Holds t' (create_run a k st path now)
  unfolding create_run
  create_run-Holds a k st path now = elim (Option-cases (run_status? st)) [
    | inl e ↦ rw (create_run, e) (Preserves-raise (jobs t') _)
    | inr (x, e) ↦
        rw (create_run, e)
          (Preserves-modify (jobs t') _ (λ s. create_row-Held _ s (find_run a k s) refl))
  ]

  runs-Holds : (f : Store → List Run) → Holds t' (modify (λ s. record s { runs = f s }))
  runs-Holds f = Preserves-modify (jobs t') _ (λ s. Held-refl t' s)

  move_run-Holds :
      (a k : String) (st : RunStatus) (now : ℕ) (o : Option Run) → Holds t' (move_run a k st now o)
  unfolding move_run
  move_run-Holds a k st now none = search preserves_rules
  move_run-Holds a k st now (some row) = search (preserves_rules, runs-Holds)

  transition_to-Holds :
      (a k : String) (st : RunStatus) (now : ℕ) → Holds t' (transition_to a k st now)
  unfolding transition_to
  transition_to-Holds a k st now = record {
    leaves = λ s. (move_run-Holds a k st now (find_run a k s)).leaves s;
  }

  pub transition-Holds : (a k st : String) (now : ℕ) → Holds t' (transition a k st now)
  unfolding transition
  transition-Holds a k st now = elim (Option-cases (run_status? st)) [
    | inl e ↦ rw (transition, e) (Preserves-raise (jobs t') _)
    | inr (x, e) ↦ rw (transition, e) (transition_to-Holds a k x now)
  ]

  pub publish-Holds : (a k path : String) (now : ℕ) → Holds t' (publish_deterministic a k path now)
  unfolding publish_deterministic
  publish-Holds a k path now = search (preserves_rules, runs-Holds, transition_to-Holds) depth 8

  run_status-Holds : (a k : String) → Holds t' (run_status a k)
  unfolding run_status
  run_status-Holds a k = record { leaves = Held-refl t' }

  announce-Holds : (task : String) (r : Request) (now : ℕ) → Holds t' (announce task r now)
  unfolding announce
  announce-Holds task r now =
      search (preserves_rules, run_status-Holds, transition_to-Holds) depth 8

  pub enqueue_task-Held :
      (task : String) (r : Request) (now : ℕ) (o : Option Job) (s : Store)
      → Held t' s (enqueue_task task r now o s).1
  unfolding enqueue_task ◌>>=◌
  enqueue_task-Held task r now (some j) s = Held-refl t' s
  enqueue_task-Held task r now none s =
      Preserves-branch (jobs t') (leb s.max_pending_ai_jobs (queued_jobs s)) _ _ s (Held-refl t' s)
        ((jobs t').chain s queued (announce task r now queued).1
          (Evolves-append JobStep (is_task t') s.jobs (new_job task r now ∷ []) JobStep-refl)
          ((announce-Holds task r now).leaves queued))
    where
      queued : Store
      queued = record s { jobs = s.jobs ++ new_job task r now ∷ [] }

-- A row that only changes its status, its attempts and its bookkeeping.
step_of :
    (j : Job) (st : TaskStatus) (n : ℕ) (category : String) (now : ℕ)
    → task_allows j.status st ≡ true
    → j.attempts ≤ n
    → JobStep j
        (record j { status = st; attempts = n; error_category = category; updated_at = now })
step_of j st n category now allowed more = record {
  path = Chain-one task_allows j.status st allowed;
  attempts = more;
  account = refl;
  scan = refl;
  domain = refl;
  context = refl;
  payload = refl;
}

pending-running : (st : TaskStatus) → is_pending st ≡ true → task_allows st running ≡ true
unfolding task_transitions
pending-running st h = ground arith

running-pending : (st : TaskStatus) → is_running st ≡ true → task_allows st pending ≡ true
unfolding task_transitions
running-pending st h = ground arith

unfinished-superseded :
    (st : TaskStatus) → is_unfinished st ≡ true → task_allows st TaskStatus.superseded ≡ true
unfolding task_transitions
unfinished-superseded st h = ground arith

module _ (t' : String) where
  pub claim-Held :
      (precedes : String → String → Bool) (now : ℕ) (o : Option Job) (s : Store)
      → Held t' s (claim precedes now o s).1
  unfolding claim pure
  claim-Held precedes now none s = Held-refl t' s
  claim-Held precedes now (some j) s =
      update_jobs-Held t' _ (claimed now) s (λ k. refl)
        λ k h q.
          step_of k running (k.attempts + 1) "" now
            (pending-running k.status (and_both (k.task_id == j.task_id) (is_pending k.status) q).1)
            (omega arith)

  pub requeue-Held :
      (category : String) (now : ℕ) (s : Store) → Held t' s (requeue_running category now s).1
  unfolding requeue_running pure
  requeue-Held category now s =
      update_jobs-Held t' _ _ s (λ k. refl)
        λ k h q.
          step_of k pending k.attempts category now (running-pending k.status q) (omega arith)

  -- The row that was read is the row that is written.
  same_job :
      (task : String) (s : Store) (j row : Job)
      → find_task t' s ≡ some j
      → is_task task j ≡ true
      → find_task task s ≡ some row
      → j ≡ row
  same_job task s j row h q e =
      cc (eq_of_beq j.task_id task q, eq_of_beq j.task_id t' (find?_holds (is_task t') s.jobs h))

  moved-Held :
      (task : String) (st : TaskStatus) (category : String) (now : ℕ) (s : Store) (row : Job)
      → find_task task s ≡ some row
      → task_allows row.status st ≡ true
      → Held t' s (record s {
        jobs = update_where (is_task task) (moved st category now row.attempts) s.jobs;
      })
  moved-Held task st category now s row e allowed =
      update_jobs-Held t' (is_task task) (moved st category now row.attempts) s (λ k. refl)
        λ k h q. rw (same_job task s k row h q e) (
          step_of row st (row.attempts + (if is_running st then 1 else 0)) category now allowed
            (omega arith))

  move_task-Held :
      (task : String) (st : TaskStatus) (category : String) (now : ℕ) (s : Store) (o : Option Job)
      → find_task task s ≡ o
      → Held t' s (move_task task st category now o s).1
  unfolding move_task ◌>>=◌
  move_task-Held task st category now s none e = Held-refl t' s
  move_task-Held task st category now s (some row) e = elim (Bool-cases (st == row.status)) [
    | inl t ↦ rw t (Held-refl t' s)
    | inr t ↦ elim (Bool-cases (elem st (task_transitions row.status))) [
      | inl g ↦ rw (t, g) (moved-Held task st category now s row e g)
      | inr g ↦ rw (t, g) (Held-refl t' s)
    ]
  ]

  transition_task_to-Holds :
      (task : String) (st : TaskStatus) (category : String) (now : ℕ)
      → Holds t' (transition_task_to task st category now)
  unfolding transition_task_to
  transition_task_to-Holds task st category now = record {
    leaves = λ s. move_task-Held task st category now s (find_task task s) refl;
  }

  pub transition_task-Holds :
      (task st category : String) (now : ℕ) → Holds t' (transition_task task st category now)
  unfolding transition_task
  transition_task-Holds task st category now = elim (Option-cases (task_status? st)) [
    | inl e ↦ rw (transition_task, e) (Preserves-raise (jobs t') _)
    | inr (x, e) ↦ rw (transition_task, e) (transition_task_to-Holds task x category now)
  ]

  finish_run-Holds : (a k : String) (now : ℕ) → Holds t' (finish_run a k now)
  unfolding finish_run
  finish_run-Holds a k now =
      search (preserves_rules, run_status-Holds, transition_to-Holds) depth 10

  pub complete_row-Holds :
      (task : String) (now : ℕ) (o : Option Job) → Holds t' (complete_row task now o)
  unfolding complete_row
  complete_row-Holds task now none = search preserves_rules
  complete_row-Holds task now (some row) =
      search (preserves_rules, transition_task_to-Holds, finish_run-Holds)

  results-Holds :
      (f : Store → List ContextualResult) → Holds t' (modify (λ s. record s { results = f s }))
  results-Holds f = Preserves-modify (jobs t') _ (λ s. Held-refl t' s)

  store_result-Holds :
      (task : String) (o : Outcome) (now : ℕ) (row : Job) (r : Option ContextualResult)
      → Holds t' (store_result task o now row r)
  unfolding store_result
  store_result-Holds task o now row none = search (preserves_rules, results-Holds)
  store_result-Holds task o now row (some r) = search preserves_rules

  result_row-Held :
      (task : String) (o : Outcome) (now : ℕ) (j : Option Job) (s : Store)
      → Held t' s (result_row task o now j s).1
  unfolding result_row raise
  result_row-Held task o now none s = Held-refl t' s
  result_row-Held task o now (some row) s =
      Preserves-branch (jobs t') (is_running row.status) _ _ s
        ((store_result-Holds task o now row (find_result task s)).leaves s) (Held-refl t' s)

  pub record_result-Held :
      (task : String) (o : Outcome) (now : ℕ) (s : Store)
      → Held t' s (record_contextual_result task o now s).1
  unfolding record_contextual_result raise
  record_result-Held task o now s =
      Preserves-branch (jobs t') (elem o.status ("enriched" ∷ "needs_evidence" ∷ [])) _ _ s
        (result_row-Held task o now (find_task task s) s) (Held-refl t' s)

  retire-Held :
      (account : String) (scans : List String) (now : ℕ) (s : Store)
      → Held t' s (retire account scans now s).1
  unfolding retire pure
  retire-Held account [] now s = Held-refl t' s
  retire-Held account (scan ∷ more) now s =
      update_jobs-Held t' (job_of account (scan ∷ more)) _ s (λ k. refl)
        λ k h q.
          step_of k TaskStatus.superseded k.attempts "newer_scan" now
            (unfinished-superseded k.status
              (and_both (k.account_id == account && elem k.scan_id (scan ∷ more))
                (is_unfinished k.status) q).1)
            (omega arith)

  pub supersede_row-Held :
      (precedes : String → String → Bool) (account keep_scan : String) (now : ℕ) (s : Store)
      (o : Option Run)
      → Held t' s (supersede_row precedes account keep_scan now o s).1
  unfolding supersede_row raise
  supersede_row-Held precedes account keep_scan now s none = Held-refl t' s
  supersede_row-Held precedes account keep_scan now s (some keep) =
      retire-Held account (older_scans precedes keep s) now s

-- ===== src/Runs/Methods.antt =====
-- Each method of the ledger moves a run along `_RUN_TRANSITIONS` only; `Retirement` has the last one.
use julius.Common.{
  stay, ℕ, String, refl, Bool, Option, none, some, List, [], ◌∷◌, ◌++◌, string_eq, nat_eq, elem,
  Option-cases, inl, inr, leb,
}
use julius.Runs.Status.{run_status_eq, run_status?, task_status?, task_status_eq, TaskStatus}
use julius.Runs.Ledger.{
  Job, Store, ◌>>=◌, pure, raise, ContextualResult, modify, is_run, find_run, create_run, set_path,
  transition, run_status, publish_deterministic, find_task,
}
use julius.Runs.Queue.{
  Request, queued_jobs, new_job, announce, enqueue_task, claim, is_running, move_task,
  transition_task_to, transition_task,
}
use julius.Runs.Contextual.{
  finish_run, complete_row, Outcome, store_result, result_row, record_contextual_result,
  find_result,
}
use julius.Runs.Preserves.{Preserves-raise, Preserves-modify, Preserves-branch, preserves_rules}
use julius.Runs.Evolution.{
  runs, Kept, Kept-refl, transition_to-Respects, update_runs-Kept, insert_run-Kept, Respects,
}

module _ (a' k' : String) where
  pub create_run-Respects :
      (a k st path : String) (now : ℕ) → Respects a' k' (create_run a k st path now)
  unfolding create_run
  create_run-Respects a k st path now = elim (Option-cases (run_status? st)) [
    | inl e ↦ rw (create_run, e) (Preserves-raise (runs a' k') _)
    | inr (x, e) ↦
        rw (create_run, e)
          (Preserves-modify (runs a' k') _ (λ s. insert_run-Kept a' k' _ s (find_run a k s) refl))
  ]

  pub transition-Respects : (a k st : String) (now : ℕ) → Respects a' k' (transition a k st now)
  unfolding transition
  transition-Respects a k st now = elim (Option-cases (run_status? st)) [
    | inl e ↦ rw (transition, e) (Preserves-raise (runs a' k') _)
    | inr (x, e) ↦ rw (transition, e) (transition_to-Respects a' k' a k x now)
  ]

  set_path-Respects :
      (a k path : String) (now : ℕ) → Respects a' k' (modify (set_path a k path now))
  unfolding set_path
  set_path-Respects a k path now = Preserves-modify (runs a' k') _ λ s.
      update_runs-Kept a' k' (is_run a k) _ s (record { account = λ r. refl; scan = λ r. refl })
        (λ _ r h q. stay r.status)

  pub publish-Respects :
      (a k path : String) (now : ℕ) → Respects a' k' (publish_deterministic a k path now)
  unfolding publish_deterministic
  publish-Respects a k path now =
      search (preserves_rules, set_path-Respects, transition_to-Respects) depth 8

  run_status-Respects : (a k : String) → Respects a' k' (run_status a k)
  unfolding run_status
  run_status-Respects a k = record { leaves = Kept-refl a' k' }

  announce-Respects : (task : String) (r : Request) (now : ℕ) → Respects a' k' (announce task r now)
  unfolding announce
  announce-Respects task r now =
      search (preserves_rules, run_status-Respects, transition_to-Respects) depth 8

  pub enqueue_task-Kept :
      (task : String) (r : Request) (now : ℕ) (o : Option Job) (s : Store)
      → Kept a' k' s (enqueue_task task r now o s).1
  unfolding enqueue_task ◌>>=◌
  enqueue_task-Kept task r now (some j) s = Kept-refl a' k' s
  enqueue_task-Kept task r now none s =
      Preserves-branch (runs a' k') (leb s.max_pending_ai_jobs (queued_jobs s)) _ _ s
        (Kept-refl a' k' s)
        ((announce-Respects task r now).leaves
          (record s { jobs = s.jobs ++ new_job task r now ∷ [] }))

  pub claim-Kept :
      (precedes : String → String → Bool) (now : ℕ) (o : Option Job) (s : Store)
      → Kept a' k' s (claim precedes now o s).1
  unfolding claim pure
  claim-Kept precedes now none s = Kept-refl a' k' s
  claim-Kept precedes now (some j) s = Kept-refl a' k' s

  pub jobs-Respects :
      (f : Store → List Job) → Respects a' k' (modify (λ s. record s { jobs = f s }))
  jobs-Respects f = Preserves-modify (runs a' k') _ (λ s. Kept-refl a' k' s)

  move_task-Respects :
      (task : String) (st : TaskStatus) (category : String) (now : ℕ) (o : Option Job)
      → Respects a' k' (move_task task st category now o)
  unfolding move_task
  move_task-Respects task st category now none = search preserves_rules
  move_task-Respects task st category now (some row) = search (preserves_rules, jobs-Respects)

  transition_task_to-Respects :
      (task : String) (st : TaskStatus) (category : String) (now : ℕ)
      → Respects a' k' (transition_task_to task st category now)
  unfolding transition_task_to
  transition_task_to-Respects task st category now = record {
    leaves = λ s. (move_task-Respects task st category now (find_task task s)).leaves s;
  }

  pub transition_task-Respects :
      (task st category : String) (now : ℕ) → Respects a' k' (transition_task task st category now)
  unfolding transition_task
  transition_task-Respects task st category now = elim (Option-cases (task_status? st)) [
    | inl e ↦ rw (transition_task, e) (Preserves-raise (runs a' k') _)
    | inr (x, e) ↦ rw (transition_task, e) (transition_task_to-Respects task x category now)
  ]

  finish_run-Respects : (a k : String) (now : ℕ) → Respects a' k' (finish_run a k now)
  unfolding finish_run
  finish_run-Respects a k now =
      search (preserves_rules, run_status-Respects, transition_to-Respects) depth 10

  pub complete_row-Respects :
      (task : String) (now : ℕ) (o : Option Job) → Respects a' k' (complete_row task now o)
  unfolding complete_row
  complete_row-Respects task now none = search preserves_rules
  complete_row-Respects task now (some row) =
      search (preserves_rules, transition_task_to-Respects, finish_run-Respects)

  results-Respects :
      (f : Store → List ContextualResult)
      → Respects a' k' (modify (λ s. record s { results = f s }))
  results-Respects f = Preserves-modify (runs a' k') _ (λ s. Kept-refl a' k' s)

  store_result-Respects :
      (task : String) (o : Outcome) (now : ℕ) (row : Job) (r : Option ContextualResult)
      → Respects a' k' (store_result task o now row r)
  unfolding store_result
  store_result-Respects task o now row none = search (preserves_rules, results-Respects)
  store_result-Respects task o now row (some r) = search preserves_rules

  result_row-Kept :
      (task : String) (o : Outcome) (now : ℕ) (j : Option Job) (s : Store)
      → Kept a' k' s (result_row task o now j s).1
  unfolding result_row raise
  result_row-Kept task o now none s = Kept-refl a' k' s
  result_row-Kept task o now (some row) s =
      Preserves-branch (runs a' k') (is_running row.status) _ _ s
        ((store_result-Respects task o now row (find_result task s)).leaves s) (Kept-refl a' k' s)

  pub record_result-Kept :
      (task : String) (o : Outcome) (now : ℕ) (s : Store)
      → Kept a' k' s (record_contextual_result task o now s).1
  unfolding record_contextual_result raise
  record_result-Kept task o now s =
      Preserves-branch (runs a' k') (elem o.status ("enriched" ∷ "needs_evidence" ∷ [])) _ _ s
        (result_row-Kept task o now (find_task task s) s) (Kept-refl a' k' s)

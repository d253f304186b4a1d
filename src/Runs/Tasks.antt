-- ===== src/Runs/Tasks.antt =====
-- What any sequence of calls of the ledger's methods leaves of a contextual job.
mod Rows
mod Moves
pub use Rows.{JobStep}
use julius.Common.{
  ℕ, String, ◌≡◌, subst, Bool, Option, some, List, [], ◌∷◌, Evolves, elem, string_eq, ◌≤◌,
  Chain-final,
}
use julius.Runs.Status.{TaskPath}
use julius.Runs.Ledger.{
  Job, Store, find_task, find_run, checkpoint, create_run, transition, publish_deterministic,
}
use julius.Runs.Queue.{enqueue_ai, claim_next, requeue_running, first_pending, task_id_of}
use julius.Runs.Contextual.{complete_ai, record_contextual_result, supersede_older_context}
use julius.Runs.Commands.{
  Command, create_run_of, transition_of, checkpoint_of, publish_of, enqueue_of, claim_of,
  requeue_of, transition_task_of, complete_of, result_of, supersede_of, execute, execute_all,
}
use julius.Runs.Preserves.{Preserves-modify, Preserves-raise, Preserves-if}
use Rows.{jobs, Held, Held-refl, Held-trans}
use Moves.{
  create_run-Holds, transition-Holds, publish-Holds, enqueue_task-Held, claim-Held, requeue-Held,
  transition_task-Holds, complete_row-Holds, record_result-Held, supersede_row-Held,
}

module _ (digest : String → String) (precedes : String → String → Bool) (t' : String) where
  execute-Held : (c : Command) (s : Store) → Held t' s (execute digest precedes c s)
  unfolding execute enqueue_ai claim_next complete_ai checkpoint supersede_older_context
  execute-Held (create_run_of a k st path now) s = (create_run-Holds t' a k st path now).leaves s
  execute-Held (transition_of a k st now) s = (transition-Holds t' a k st now).leaves s
  execute-Held (checkpoint_of c) s =
      (Preserves-if (jobs t') (elem c.status ("ready" ∷ "partial" ∷ "unavailable" ∷ [])) _ _
          (Preserves-modify (jobs t') _ (λ t. Held-refl t' t)) (Preserves-raise (jobs t') _)).leaves
        s
  execute-Held (publish_of a k path now) s = (publish-Holds t' a k path now).leaves s
  execute-Held (enqueue_of r now) s =
      enqueue_task-Held t' (task_id_of digest r) r now (find_task (task_id_of digest r) s) s
  execute-Held (claim_of now) s = claim-Held t' precedes now (first_pending precedes s.jobs) s
  execute-Held (requeue_of category now) s = requeue-Held t' category now s
  execute-Held (transition_task_of task st category now) s =
      (transition_task-Holds t' task st category now).leaves s
  execute-Held (complete_of task now) s =
      (complete_row-Holds t' task now (find_task task s)).leaves s
  execute-Held (result_of task o now) s = record_result-Held t' task o now s
  execute-Held (supersede_of a keep now) s =
      supersede_row-Held t' precedes a keep now s (find_run a keep s)

-- Whatever calls of the writing methods follow, in whatever order and whether each of them returns
-- or raises: a job stays in the table under its id, keeps its account, scan, domain, context hash
-- and payload, is never credited with fewer attempts, and its status got to where it is by moves
-- of `_TASK_TRANSITIONS` alone.
pub tasks_follow_table :
    (digest : String → String) (precedes : String → String → Bool) (task : String)
    (commands : List Command) (s : Store)
    → Evolves JobStep (find_task task s) (find_task task (execute_all digest precedes commands s))
unfolding execute_all
tasks_follow_table digest precedes task [] s = Held-refl task s
tasks_follow_table digest precedes task (c ∷ cs) s =
    Held-trans task s (execute digest precedes c s)
      (execute_all digest precedes cs (execute digest precedes c s))
      (execute-Held digest precedes task c s)
      (tasks_follow_table digest precedes task cs (execute digest precedes c s))

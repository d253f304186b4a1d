-- ===== src/Runs/Commands.antt =====
-- One command for each method of `RunStore` that writes, and what it leaves in the tables.
use julius.Common.{ℕ, String, Bool, List, [], ◌∷◌}
use julius.Runs.Ledger.{
  Checkpoint, Store, create_run, transition, checkpoint, publish_deterministic,
}
use julius.Runs.Queue.{Request, enqueue_ai, claim_next, requeue_running, transition_task}
use julius.Runs.Contextual.{Outcome, complete_ai, record_contextual_result, supersede_older_context}

pub data Command : Type 0 where
  create_run_of : String → String → String → String → ℕ → Command
  transition_of : String → String → String → ℕ → Command
  checkpoint_of : Checkpoint → Command
  publish_of : String → String → String → ℕ → Command
  enqueue_of : Request → ℕ → Command
  claim_of : ℕ → Command
  requeue_of : String → ℕ → Command
  transition_task_of : String → String → String → ℕ → Command
  complete_of : String → ℕ → Command
  result_of : String → Outcome → ℕ → Command
  supersede_of : String → String → ℕ → Command

module _ (digest : String → String) (precedes : String → String → Bool) where
  -- The tables behind the call, whether it returned or raised.
  unfoldable pub execute : Command → Store → Store
  execute (create_run_of a k st path now) s = (create_run a k st path now s).1
  execute (transition_of a k st now) s = (transition a k st now s).1
  execute (checkpoint_of c) s = (checkpoint c s).1
  execute (publish_of a k path now) s = (publish_deterministic a k path now s).1
  execute (enqueue_of r now) s = (enqueue_ai digest r now s).1
  execute (claim_of now) s = (claim_next precedes now s).1
  execute (requeue_of category now) s = (requeue_running category now s).1
  execute (transition_task_of task st category now) s = (transition_task task st category now s).1
  execute (complete_of task now) s = (complete_ai task now s).1
  execute (result_of task o now) s = (record_contextual_result task o now s).1
  execute (supersede_of a keep now) s = (supersede_older_context precedes a keep now s).1

  unfoldable pub execute_all : List Command → Store → Store
  execute_all [] s = s
  execute_all (c ∷ cs) s = execute_all cs (execute c s)

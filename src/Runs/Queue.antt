-- ===== src/Runs/Queue.antt =====
-- The queue of contextual jobs of julius/state/run_store.py. The digest of a task's context
-- (`hashlib`) and the order of texts in an ORDER BY (DuckDB) are parameters.
use Prim.Native.String.{◌++◌ as str_append}
use julius.Common.{
  ℕ, ◌+◌, String, Bool, true, false, ◌&&◌, ◌||◌, Option, none, some, List, [], ◌∷◌, ◌++◌, elem, leb,
  ◌==◌, string_eq, nat_eq, if◌then◌else◌, update_where, count_where, ltb,
}
use julius.Runs.Status.{
  deterministic_published, ai_pending, TaskStatus, pending, running, task_transitions, task_status?,
  run_status_eq, task_status_eq,
}
use julius.Runs.Ledger.{
  unknown_task, invalid_task_status, invalid_task_transition, Job, QueueEvent, Store, Action, ◌>>=◌,
  ◌>>◌, pure, raise, modify, is_task, find_task, transition_to, run_status,
}

infixr 65 ◌⊕◌
abbrev pub ◌⊕◌ : String → String → String
s ⊕ t = str_append s t

-- status IN ('pending', 'running')
abbrev pub is_queued : TaskStatus → Bool
is_queued pending = true
is_queued running = true
is_queued _ = false

abbrev pub is_pending : TaskStatus → Bool
is_pending pending = true
is_pending _ = false

abbrev pub is_running : TaskStatus → Bool
is_running running = true
is_running _ = false

abbrev pub queued_jobs : Store → ℕ
queued_jobs s = count_where (λ j. is_queued j.status) s.jobs

-- What a caller gives `enqueue_ai`.
pub record Request : Type 0 where
  pub account_id : String
  pub scan_id : String
  pub domain : String
  pub context_hash : String
  pub payload_path : String

abbrev pub new_job : String → Request → ℕ → Job
new_job task r now = record {
  task_id = task;
  account_id = r.account_id;
  scan_id = r.scan_id;
  domain = r.domain;
  status = pending;
  context_hash = r.context_hash;
  payload_path = r.payload_path;
  attempts = 0;
  error_category = "";
  created_at = now;
  updated_at = now;
}

abbrev pub queue_full : String → Request → ℕ → QueueEvent
queue_full task r now = record {
  task_id = task;
  account_id = r.account_id;
  scan_id = r.scan_id;
  domain = r.domain;
  created_at = now;
}

-- What follows the insertion: the run leaves `deterministic_published`.
unfoldable pub announce : String → Request → ℕ → Action String
announce task r now = do
  st ← run_status r.account_id r.scan_id
  if st == deterministic_published
      then transition_to r.account_id r.scan_id ai_pending now
      else pure tt
  pure task

-- `enqueue_ai` behind the computed task id
unfoldable pub enqueue_task : String → Request → ℕ → Option Job → Action String
unfolding announce
enqueue_task task r now (some existing) s = (pure existing.task_id) s
enqueue_task task r now none s =
    if leb s.max_pending_ai_jobs (queued_jobs s)
    then (pure "") (record s { events = s.events ++ queue_full task r now ∷ [] })
    else announce task r now (record s { jobs = s.jobs ++ new_job task r now ∷ [] })

module _ (digest : String → String) where
  unfoldable pub task_id_of : Request → String
  task_id_of r = digest (r.account_id ⊕ "|" ⊕ r.scan_id ⊕ "|" ⊕ r.domain ⊕ "|" ⊕ r.context_hash)

  unfoldable pub enqueue_ai : Request → ℕ → Action String
  unfolding task_id_of enqueue_task
  enqueue_ai r now s = enqueue_task (task_id_of r) r now (find_task (task_id_of r) s) s

abbrev pub claimed : ℕ → Job → Job
claimed now j = record j {
  status = running;
  attempts = j.attempts + 1;
  error_category = "";
  updated_at = now;
}

module _ (precedes : String → String → Bool) where
  -- ORDER BY created_at, task_id
  unfoldable pub earlier : Job → Job → Bool
  earlier j k =
      ltb j.created_at k.created_at
      || (j.created_at == k.created_at && precedes j.task_id k.task_id)

  abbrev pub sooner : Job → Option Job → Job
  sooner j none = j
  sooner j (some k) = if earlier k j then k else j

  -- SELECT … WHERE status='pending' ORDER BY created_at, task_id LIMIT 1
  unfoldable pub first_pending : List Job → Option Job
  first_pending [] = none
  first_pending (j ∷ js) =
      let rest = first_pending js in if is_pending j.status then some (sooner j rest) else rest

  unfoldable pub claim : ℕ → Option Job → Action (Option Job)
  claim now none s = (pure none) s
  claim now (some j) s = (pure (some (claimed now j))) (record s {
    jobs = update_where (λ k. k.task_id == j.task_id && is_pending k.status) (claimed now) s.jobs;
  })

  unfoldable pub claim_next : ℕ → Action (Option Job)
  unfolding first_pending claim
  claim_next now s = claim now (first_pending s.jobs) s

unfoldable pub requeue_running : String → ℕ → Action ℕ
requeue_running category now s = (pure (count_where (λ j. is_running j.status) s.jobs)) (record s {
  jobs =
      update_where (λ j. is_running j.status)
        (λ j. record j { status = pending; error_category = category; updated_at = now }) s.jobs;
})

-- UPDATE ai_jobs SET status=?, attempts=?, error_category=?, updated_at=?; `attempts` is that of
-- the row that was read.
abbrev pub moved : TaskStatus → String → ℕ → ℕ → Job → Job
moved st category now attempts j = record j {
  status = st;
  attempts = attempts + (if is_running st then 1 else 0);
  error_category = category;
  updated_at = now;
}

unfoldable pub move_task : String → TaskStatus → String → ℕ → Option Job → Action (Unit {0})
move_task task st category now none = raise (unknown_task task)
move_task task st category now (some row) =
    if st == row.status
    then pure tt
    else if elem st (task_transitions row.status)
    then modify (λ s. record s {
      jobs = update_where (is_task task) (moved st category now row.attempts) s.jobs;
    })
    else raise (invalid_task_transition row.status st)

unfoldable pub transition_task_to : String → TaskStatus → String → ℕ → Action (Unit {0})
unfolding move_task
transition_task_to task st category now s = move_task task st category now (find_task task s) s

unfoldable pub transition_task : String → String → String → ℕ → Action (Unit {0})
unfolding transition_task_to task_status?
transition_task task status category now = elim (task_status? status) [
  | none ↦ raise (invalid_task_status status)
  | some st ↦ transition_task_to task st category now
]

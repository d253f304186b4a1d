-- ===== src/Runs/Ledger.antt =====
-- The tables of julius/state/run_store.py, and its methods on runs and checkpoints. A method reads
-- and writes the tables; what it wrote before it raised stays written. `now` is the clock's answer.
use julius.Common.{
  ℕ, String, Bool, true, false, ◌&&◌, Option, none, some, List, [], ◌∷◌, ◌++◌, elem, ◌==◌,
  string_eq, nat_eq, if◌then◌else◌, find?, update_where, count_where,
}
use julius.Runs.Status.{
  RunStatus, deterministic_published, ai_pending, TaskStatus, completed, run_transitions,
  run_status?, run_status_eq, task_status_eq,
}

pub data Error : Type 0 where
  invalid_run_status invalid_task_status invalid_checkpoint_status : String → Error
  invalid_contextual_status : String → Error
  unknown_run : String → String → Error
  unknown_task : String → Error
  invalid_run_transition : RunStatus → RunStatus → Error
  invalid_task_transition : TaskStatus → TaskStatus → Error
  task_not_reserved diverging_result : String → Error

pub data Result {ℓ} (A : Type ℓ) : Type ℓ where
  ok : A → Result A
  err : Error → Result A

-- A row of `pipeline_runs`.
pub record Run : Type 0 where
  pub account_id : String
  pub scan_id : String
  pub status : RunStatus
  pub deterministic_path : String
  pub created_at : ℕ
  pub updated_at : ℕ

-- A row of `domain_checkpoints`. Its sources are a dict in the order of its keys, as the checkpoint
-- writer builds it: json.dumps(…, sort_keys=True) and json.loads give that dict back.
pub record Checkpoint : Type 0 where
  pub account_id : String
  pub scan_id : String
  pub domain : String
  pub status : String
  pub payload_path : String
  pub payload_hash : String
  pub sources : List (String × String)
  pub created_at : ℕ

-- A row of `ai_jobs`.
pub record Job : Type 0 where
  pub task_id : String
  pub account_id : String
  pub scan_id : String
  pub domain : String
  pub status : TaskStatus
  pub context_hash : String
  pub payload_path : String
  pub attempts : ℕ
  pub error_category : String
  pub created_at : ℕ
  pub updated_at : ℕ

-- A row of `contextual_results`.
pub record ContextualResult : Type 0 where
  pub task_id : String
  pub account_id : String
  pub scan_id : String
  pub domain : String
  pub context_hash : String
  pub provider : String
  pub status : String
  pub result_path : String
  pub result_hash : String
  pub created_at : ℕ

-- A `queue_full` row of `ai_queue_events`.
pub record QueueEvent : Type 0 where
  pub task_id : String
  pub account_id : String
  pub scan_id : String
  pub domain : String
  pub created_at : ℕ

pub record Store : Type 0 where
  pub runs : List Run
  pub checkpoints : List Checkpoint
  pub jobs : List Job
  pub results : List ContextualResult
  pub events : List QueueEvent
  pub max_pending_ai_jobs : ℕ

abbrev pub Action : Type 0 → Type 0
Action A = Store → Result A × Store

abbrev pub continue : {A B : Type 0} → Result A → (A → Action B) → Action B
continue (ok a) f s = f a s
continue (err e) f s = (err e, s)

unfoldable pub pure : {A : Type 0} → A → Action A
pure a s = (ok a, s)

unfoldable pub raise : {A : Type 0} → Error → Action A
raise e s = (err e, s)

unfoldable pub gets : {A : Type 0} → (Store → A) → Action A
gets f s = (ok (f s), s)

unfoldable pub modify : (Store → Store) → Action (Unit {0})
modify f s = (ok tt, f s)

infixl 5 ◌>>=◌ ◌>>◌
-- To unfold this is to unfold the actions below too.
unfoldable pub ◌>>=◌ : {A B : Type 0} → Action A → (A → Action B) → Action B
unfolding pure raise gets modify
◌>>=◌ m f s = let (r, s') = m s in continue r f s'

abbrev pub ◌>>◌ : {B : Type 0} → Action (Unit {0}) → Action B → Action B
m >> n = m >>= λ _. n

-- WHERE account_id=? AND scan_id=?
abbrev pub is_run : String → String → Run → Bool
is_run account scan r = r.account_id == account && r.scan_id == scan

abbrev pub find_run : String → String → Store → Option Run
find_run account scan s = find? (is_run account scan) s.runs

abbrev pub is_task : String → Job → Bool
is_task task j = j.task_id == task

abbrev pub find_task : String → Store → Option Job
find_task task s = find? (is_task task) s.jobs

-- INSERT … ON CONFLICT (account_id, scan_id) DO NOTHING
unfoldable pub insert_run : Run → Store → Store
insert_run r s = elim (find_run r.account_id r.scan_id s) [
  | none ↦ record s { runs = s.runs ++ r ∷ [] }
  | some _ ↦ s
]

unfoldable pub create_run : String → String → String → String → ℕ → Action (Unit {0})
unfolding insert_run run_status?
create_run account scan status path now = elim (run_status? status) [
  | none ↦ raise (invalid_run_status status)
  | some st ↦ modify (
      insert_run (record {
        account_id = account;
        scan_id = scan;
        status = st;
        deterministic_path = path;
        created_at = now;
        updated_at = now;
      }))
]

-- UPDATE pipeline_runs SET status=?, updated_at=? WHERE account_id=? AND scan_id=?
unfoldable pub set_run_status : String → String → RunStatus → ℕ → Store → Store
set_run_status account scan st now s = record s {
  runs =
      update_where (is_run account scan) (λ r. record r { status = st; updated_at = now }) s.runs;
}

-- The part of `transition` behind the row that it found.
unfoldable pub move_run : String → String → RunStatus → ℕ → Option Run → Action (Unit {0})
unfolding set_run_status
move_run account scan st now none = raise (unknown_run account scan)
move_run account scan st now (some row) =
    if st == row.status
    then pure tt
    else if elem st (run_transitions row.status)
    then modify (set_run_status account scan st now)
    else raise (invalid_run_transition row.status st)

-- `transition` behind `_require_run_status`
unfoldable pub transition_to : String → String → RunStatus → ℕ → Action (Unit {0})
unfolding move_run
transition_to account scan st now s = move_run account scan st now (find_run account scan s) s

unfoldable pub transition : String → String → String → ℕ → Action (Unit {0})
unfolding transition_to run_status?
transition account scan status now = elim (run_status? status) [
  | none ↦ raise (invalid_run_status status)
  | some st ↦ transition_to account scan st now
]

abbrev pub status_of : String → String → Option Run → Result RunStatus
status_of account scan none = err (unknown_run account scan)
status_of account scan (some r) = ok r.status

unfoldable pub run_status : String → String → Action RunStatus
run_status account scan s = (status_of account scan (find_run account scan s), s)

unfoldable pub is_checkpoint : Checkpoint → Checkpoint → Bool
is_checkpoint c d = d.account_id == c.account_id && d.scan_id == c.scan_id && d.domain == c.domain

-- INSERT … ON CONFLICT (account_id, scan_id, domain) DO UPDATE: a row is written over whole.
unfoldable pub upsert_checkpoint : Checkpoint → List Checkpoint → List Checkpoint
unfolding is_checkpoint
upsert_checkpoint c [] = c ∷ []
upsert_checkpoint c (d ∷ ds) = if is_checkpoint c d then c ∷ ds else d ∷ upsert_checkpoint c ds

unfoldable pub checkpoint : Checkpoint → Action (Unit {0})
unfolding upsert_checkpoint
checkpoint c =
    if elem c.status ("ready" ∷ "partial" ∷ "unavailable" ∷ [])
    then modify (λ s. record s { checkpoints = upsert_checkpoint c s.checkpoints })
    else raise (invalid_checkpoint_status c.status)

-- status NOT IN ('completed', 'superseded')
abbrev pub is_open : TaskStatus → Bool
is_open completed = false
is_open TaskStatus.superseded = false
is_open _ = true

abbrev pub open_jobs : String → String → Store → ℕ
open_jobs account scan s =
    count_where (λ j. j.account_id == account && j.scan_id == scan && is_open j.status) s.jobs

unfoldable pub set_path : String → String → String → ℕ → Store → Store
set_path account scan path now s = record s {
  runs =
      update_where (is_run account scan)
        (λ r. record r { deterministic_path = path; updated_at = now }) s.runs;
}

unfoldable pub publish_deterministic : String → String → String → ℕ → Action (Unit {0})
unfolding set_path transition_to
publish_deterministic account scan path now = do
  modify (set_path account scan path now)
  transition_to account scan deterministic_published now
  waiting ← gets (open_jobs account scan)
  if waiting == 0 then pure tt else transition_to account scan ai_pending now

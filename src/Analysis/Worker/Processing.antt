-- ===== src/Analysis/Worker/Processing.antt =====
-- `process_next` of julius/analysis/domain_worker.py. The digest of bytes (`hashlib`), JSON's text
-- (`json`), the join of paths (`pathlib`), the provider and a disk that may refuse a write are
-- parameters. A file is a path with its text; what else the disk holds is no part of this.
use Prim.Native.String.{String}
use julius.Common.{
  ℕ, Bool, false, ◌&&◌, Option, none, some, List, get, put, remove, ◌==◌, string_eq,
}
use julius.Common.Texts.{Unicode, prefix}
use julius.Json.{Json, lookup}
use julius.Json.Reading.{dict?, is_text}
use julius.Json.Checks.{Checked, ok, raised, ◌>>=◌, ◌>>◌, demand, known}
use julius.Runs.Ledger
use julius.Runs.Ledger.{Checkpoint, Job, Store, Result, ◌>>=◌ as after}
use julius.Runs.Queue.{claim_next, transition_task, ◌⊕◌}
use julius.Runs.Contextual.{Outcome, record_contextual_result, complete_ai}
use julius.Runs.Reading.{Answer, found, missing, verified_checkpoint}
use julius.Analysis.Worker.{
  Failure, obsolete_task, result_not_ready, invalid_result, invalid_checkpoint, provider_error,
  worker_error, DomainResult, validate_domain_result, as_payload,
}

abbrev pub Files : Type 0
Files = List (String × String)

-- What `provider.analyze` does: an answer, ResultNotReadyError, DomainResultError, or any other
-- exception.
pub data Reply : Type 0 where
  answers : Json → Reply
  not_ready : String → Reply
  refuses fails : Reply

pub record Provider : Type 0 where
  pub name : String
  pub analyze : Json → Job → Reply

pub record Platform : Type 0 where
  pub unicode : Unicode
  pub sha256 : String → String
  pub loads : String → Option Json
  pub dumps : Json → String
  -- Path(root) / account / scan / name
  pub join : String → String → String → String → String
  pub resolve : String → String
  pub is_writable : String → Bool

module _ (p : Platform) where
  -- `file_sha256` of a file that exists
  abbrev pub file_sha256 : Files → String → Option String
  file_sha256 files path = elim (get path files) [ none ↦ none | some s ↦ some (p.sha256 s) ]

  -- An unknown checkpoint raises KeyError and a corrupted one ValueError.
  abbrev pub checkpoint_of : Answer Checkpoint → Checked Failure Checkpoint
  checkpoint_of (found c) = ok c
  checkpoint_of (missing e) = raised invalid_checkpoint

  unfoldable pub require_current_task : Job → Checkpoint → Checked Failure (Unit {0})
  require_current_task task c = do
    demand obsolete_task (task.context_hash == c.payload_hash)
    demand obsolete_task (p.resolve task.payload_path == p.resolve c.payload_path)

  -- isinstance(account, dict) and account.get("id") == task.account_id
  abbrev pub is_account : Job → Json → Bool
  is_account task v = elim (dict? v) [
    | none ↦ false
    | some fs ↦ is_text task.account_id (lookup "id" fs)
  ]

  unfoldable pub validate_checkpoint_envelope : Json → Job → Checked Failure (Unit {0})
  validate_checkpoint_envelope payload task = do
    fs ← known invalid_result (dict? payload)
    demand invalid_result (is_account task (lookup "account" fs))
    demand invalid_result
        (is_text task.scan_id (lookup "scan_id" fs) && is_text task.domain (lookup "domain" fs))

  -- The checkpoint's payload, up to the call of the provider.
  unfoldable pub checkpoint_payload : Job → Files → Store → Checked Failure Json
  checkpoint_payload task files s = do
    c ←
        checkpoint_of
          (verified_checkpoint (file_sha256 files) task.account_id task.scan_id task.domain s)
    require_current_task task c
    content ← known invalid_checkpoint (get c.payload_path files)
    payload ← known invalid_checkpoint (p.loads content)
    validate_checkpoint_envelope payload task
    ok payload

  -- The inner `try` around the provider.
  abbrev pub answer_of : Reply → Checked Failure Json
  answer_of (answers raw) = ok raw
  answer_of (not_ready path) = raised (result_not_ready path)
  answer_of refuses = raised invalid_result
  answer_of fails = raised provider_error

  unfoldable pub write_immutable : String → String → Files → Checked Failure Files
  write_immutable path payload files = elim (get path files) [
    | some held ↦ demand invalid_result (held == payload) >> ok files
    | none ↦
        demand worker_error (p.is_writable path)
        >> ok (put path payload (remove (path ⊕ ".tmp") files))
  ]

  abbrev pub result_path : String → Job → String → String
  result_path root task digest =
      p.join root task.account_id task.scan_id (task.domain ⊕ "-" ⊕ prefix 16 digest ⊕ ".json")

  -- What `record_contextual_result` is called with.
  abbrev pub outcome_of : String → Job → DomainResult → Outcome
  outcome_of root task r =
      let digest = p.sha256 (p.dumps (as_payload r)) in
      record {
        provider = r.provider;
        status = r.status;
        result_path = result_path root task digest;
        result_hash = digest;
      }

  -- From the reserved job to its result's file.
  unfoldable pub publish :
      Provider → String → Job → Files → Store → Checked Failure (Outcome × Files)
  publish provider root task files s = do
    payload ← checkpoint_payload task files s
    raw ← answer_of (provider.analyze payload task)
    result ← validate_domain_result p.unicode task provider.name raw
    let o = outcome_of root task result
    files' ← write_immutable o.result_path (p.dumps (as_payload result)) files
    ok (o, files')

pub record WorkerOutcome : Type 0 where
  pub task_id : String
  pub status : String
  pub result_path : String
  pub error_category : String

-- The status that each `except` gives the job, and the error's category.
abbrev pub ended : Failure → String × String
ended obsolete_task = ("superseded", "")
ended (result_not_ready path) = ("pending", "result_not_ready")
ended invalid_result = ("failed", "invalid_result")
ended invalid_checkpoint = ("failed", "invalid_checkpoint")
ended provider_error = ("failed", "provider_error")
ended worker_error = ("failed", "worker_error")

abbrev pub awaited : Failure → String
awaited (result_not_ready path) = path
awaited _ = ""

abbrev pub failed_outcome : String → Failure → WorkerOutcome
failed_outcome task e = record {
  task_id = task;
  status = (ended e).0;
  result_path = awaited e;
  error_category = (ended e).1;
}

abbrev pub completed_outcome : String → String → WorkerOutcome
completed_outcome task path = record {
  task_id = task;
  status = "completed";
  result_path = path;
  error_category = "";
}

-- A value that is returned, or an exception that leaves `process_next`.
abbrev pub Return : Type 0 → Type 0
Return A = Result A × Store × Files

abbrev pub returning : {A B : Type 0} → B → Result A → Result B
returning b (Ledger.ok a) = Ledger.ok b
returning b (Ledger.err e) = Ledger.err e

-- The `except` clauses.
unfoldable pub settle : String → Failure → ℕ → Files → Store → Return (Option WorkerOutcome)
settle task e now files s =
    let (r, s') = transition_task task (ended e).0 (ended e).1 now s in
    (returning (some (failed_outcome task e)) r, s', files)

-- `complete_ai`, behind the stored result
unfoldable pub conclude :
    String → String → ℕ → Files → Result (Unit {0}) × Store → Return (Option WorkerOutcome)
conclude task path now files (Ledger.ok _, s) =
    (Ledger.ok (some (completed_outcome task path)), s, files)
conclude task path now files (Ledger.err e, s) = settle task invalid_checkpoint now files s

-- The store's errors are KeyError and ValueError.
unfoldable pub deliver : Job → ℕ → Outcome → Files → Store → Return (Option WorkerOutcome)
deliver task now o files s =
    conclude task.task_id o.result_path now files
      (after (record_contextual_result task.task_id o now) (λ _. complete_ai task.task_id now) s)

unfoldable pub finish :
    Job → ℕ → Files → Store → Checked Failure (Outcome × Files) → Return (Option WorkerOutcome)
finish task now files s (raised e) = settle task.task_id e now files s
finish task now files s (ok (o, files')) = deliver task now o files' s

module _ (p : Platform) (precedes : String → String → Bool) where
  unfoldable pub process_claimed :
      Provider → String → ℕ → Files → Result (Option Job) × Store → Return (Option WorkerOutcome)
  process_claimed provider root now files (Ledger.err e, s) = (Ledger.err e, s, files)
  process_claimed provider root now files (Ledger.ok none, s) = (Ledger.ok none, s, files)
  process_claimed provider root now files (Ledger.ok (some task), s) =
      finish task now files s (publish p provider root task files s)

  unfoldable pub process_next :
      Provider → String → ℕ → Files → Store → Return (Option WorkerOutcome)
  process_next provider root now files s =
      process_claimed provider root now files (claim_next precedes now s)

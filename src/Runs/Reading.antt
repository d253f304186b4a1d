-- ===== src/Runs/Reading.antt =====
-- The methods of julius/state/run_store.py that only read. The order of texts in an ORDER BY and
-- the digest of a file (`file_sha256`, `none` where there is no file) are parameters.
use julius.Common.{
  ℕ, ◌-◌, String, Bool, false, ◌&&◌, ◌||◌, Option, none, some, List, [], ◌∷◌, select, sort, length,
  find?, count_where, min, ◌==◌, string_eq, nat_eq, if◌then◌else◌,
}
use julius.Runs.Status.{TaskStatus, pending, running, failed, completed, task_status_eq}
use julius.Runs.Ledger.{Checkpoint, Job, ContextualResult, Store}
use julius.Runs.Queue.{earlier}

pub data ReadError : Type 0 where
  unknown_checkpoint corrupted_checkpoint : String → String → String → ReadError
  unknown_context : String → String → String → String → ReadError

pub data Answer {ℓ} (A : Type ℓ) : Type ℓ where
  found : A → Answer A
  missing : ReadError → Answer A

abbrev pub of_run : String → String → Checkpoint → Bool
of_run account scan c = c.account_id == account && c.scan_id == scan

-- SELECT … WHERE account_id=? AND scan_id=? ORDER BY domain
unfoldable pub checkpoints : (String → String → Bool) → String → String → Store → List Checkpoint
checkpoints precedes account scan s =
    sort (λ c d. precedes c.domain d.domain) (select (of_run account scan) s.checkpoints)

-- `matches[0]`: rows of one domain stay in the table's order when they are sorted by domain.
unfoldable pub first_match : String → String → String → Store → Option Checkpoint
first_match account scan domain s =
    find? (λ c. c.domain == domain) (select (of_run account scan) s.checkpoints)

-- file_sha256(path) != checkpoint.payload_hash, for a file that exists
abbrev pub is_intact : (String → Option String) → Checkpoint → Bool
is_intact digest c = elim (digest c.payload_path) [ none ↦ false | some h ↦ h == c.payload_hash ]

unfoldable pub verified_checkpoint :
    (String → Option String) → String → String → String → Store → Answer Checkpoint
unfolding first_match
verified_checkpoint digest account scan domain s = elim (first_match account scan domain s) [
  | none ↦ missing (unknown_checkpoint account scan domain)
  | some c ↦
      if is_intact digest c then found c else missing (corrupted_checkpoint account scan domain)
]

abbrev pub in_status : TaskStatus → Job → Bool
in_status st j = j.status == st

unfoldable pub tasks : (String → String → Bool) → TaskStatus → Store → List Job
tasks precedes st s = sort (earlier precedes) (select (in_status st) s.jobs)

unfoldable pub task_for_context : String → String → String → String → Store → Answer Job
task_for_context account scan domain hash s =
    elim (find?
      (λ j.
        j.account_id == account
        && j.scan_id == scan
        && j.domain == domain
        && j.context_hash == hash)
      s.jobs) [ none ↦ missing (unknown_context account scan domain hash) | some j ↦ found j ]

unfoldable pub contextual_results :
    (String → String → Bool) → String → String → Store → List ContextualResult
contextual_results precedes account scan s =
    sort
      (λ r q. precedes r.domain q.domain || (r.domain == q.domain && precedes r.task_id q.task_id))
      (select (λ r. r.account_id == account && r.scan_id == scan) s.results)

pub record AiQueueStats : Type 0 where
  pub pending_jobs : ℕ
  pub running_jobs : ℕ
  pub failed_jobs : ℕ
  pub completed_jobs : ℕ
  pub superseded_jobs : ℕ
  pub rejected : ℕ
  pub oldest_pending_ms : ℕ

abbrev pub older_of : ℕ → Option ℕ → ℕ
older_of at none = at
older_of at (some other) = min at other

-- SELECT min(created_at) FROM ai_jobs WHERE status='pending'
unfoldable pub oldest_pending : List Job → Option ℕ
oldest_pending [] = none
oldest_pending (j ∷ js) =
    let rest = oldest_pending js in
    if in_status pending j then some (older_of j.created_at rest) else rest

unfoldable pub queue_stats : ℕ → Store → AiQueueStats
unfolding oldest_pending
queue_stats now s = record {
  pending_jobs = count_where (in_status pending) s.jobs;
  running_jobs = count_where (in_status running) s.jobs;
  failed_jobs = count_where (in_status failed) s.jobs;
  completed_jobs = count_where (in_status completed) s.jobs;
  superseded_jobs = count_where (in_status TaskStatus.superseded) s.jobs;
  rejected = length s.events;
  oldest_pending_ms = elim (oldest_pending s.jobs) [ none ↦ 0 | some at ↦ now - at ];
}

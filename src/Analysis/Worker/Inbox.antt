-- ===== src/Analysis/Worker/Inbox.antt =====
-- `InboxDomainProvider` of julius/analysis/domain_worker.py, and the worker with it while the answer
-- is not there.
use julius.Common.{
  ℕ, suc, ◌+◌, String, Bool, false, ◌≡◌, refl, sym, ap, ◌∙◌, subst, Option, none, some, get,
  string_eq, arith,
}
use julius.Json.{Json}
use julius.Json.Checks.{Checked, ok, raised, Only}
use julius.Runs.Status.{TaskStatus, pending, failed}
use julius.Runs.Ledger
use julius.Runs.Ledger.{Job, Store, Checkpoint, Result, find_task, pure}
use julius.Runs.Queue.{◌⊕◌, first_pending, claimed, claim, claim_next, moved, is_running}
use julius.Runs.Ending.{find-rewritten, find-claimed}
use julius.Common.Texts.{prefix}
use julius.Analysis.Worker.{
  Failure, obsolete_task, result_not_ready, invalid_result, invalid_checkpoint, provider_error,
  worker_error,
}
use julius.Analysis.Worker.Processing.{
  Files, Reply, answers, not_ready, refuses, Provider, Platform, WorkerOutcome, Return, ended,
  awaited, checkpoint_payload, publish, settle, finish, process_claimed, process_next,
}
use julius.Analysis.Worker.Refusals.{IsRefusal, checkpoint_payload-Only}
use julius.Analysis.Worker.Settles.{ending, settle-eq}

module _ (p : Platform) (inbox : String) where
  unfoldable pub expected_path : Job → String
  expected_path task =
      p.join inbox task.account_id task.scan_id
        (task.domain ⊕ "-" ⊕ prefix 16 task.context_hash ⊕ ".json")

  -- json.loads, where JSONDecodeError becomes DomainResultError
  abbrev pub parsed : Option Json → Reply
  parsed none = refuses
  parsed (some v) = answers v

  abbrev pub reply_of : String → Option String → Reply
  reply_of path none = not_ready path
  reply_of path (some content) = parsed (p.loads content)

  -- The provider reads its own files, here those of the worker.
  unfoldable pub inbox_provider : String → Files → Provider
  inbox_provider name files = record {
    name = name;
    analyze = λ checkpoint task. reply_of (expected_path task) (get (expected_path task) files);
  }

module _ (j : Job) (now : ℕ) (files : Files) (answer : Return (Option WorkerOutcome)) where
  -- The outcome that a call returned, the row that it left, with one attempt more, and the files,
  -- as they were.
  abbrev pub Told : String → String → String → TaskStatus → Type 0
  Told status path category row_status =
      (answer.0
        ≡ Ledger.ok (
            some (record {
              task_id = j.task_id;
              status = status;
              result_path = path;
              error_category = category;
            })))
      × (find_task j.task_id answer.1
          ≡ some (record j {
            status = row_status;
            attempts = suc j.attempts;
            error_category = category;
            updated_at = now;
          }))
      × (answer.2 ≡ files)

  -- What a call tells while there is no answer, from what the checks of the checkpoint returned
  -- or raised.
  abbrev pub Unanswered : String → Checked Failure Json → Type 0
  Unanswered path (ok payload) = Told "pending" path "result_not_ready" pending
  Unanswered path (raised obsolete_task) = Told "superseded" "" "" TaskStatus.superseded
  Unanswered path (raised invalid_result) = Told "failed" "" "invalid_result" failed
  Unanswered path (raised invalid_checkpoint) = Told "failed" "" "invalid_checkpoint" failed
  Unanswered path (raised _) = ⊥

-- The error that ends a call while there is no answer.
abbrev stop_of : String → Checked Failure Json → Failure
stop_of path (ok payload) = result_not_ready path
stop_of path (raised e) = e

publish-stops :
    (p : Platform) (inbox name root : String) (task : Job) (files : Files) (s : Store)
    → get (expected_path p inbox task) files ≡ none
    → publish p (inbox_provider p inbox name files) root task files s
      ≡ raised (stop_of (expected_path p inbox task) (checkpoint_payload p task files s))
unfolding publish inbox_provider
publish-stops p inbox name root task files s absent =
    by_checks (checkpoint_payload p task files s) refl
  where
    by_checks :
        (c : Checked Failure Json)
        → checkpoint_payload p task files s ≡ c
        → publish p (inbox_provider p inbox name files) root task files s
          ≡ raised (stop_of (expected_path p inbox task) c)
    by_checks (ok payload) h = rw (publish, h, absent)
    by_checks (raised e) h = rw (publish, h)

spelled :
    (st : TaskStatus) (category : String) (now : ℕ) (j : Job)
    → is_running st ≡ false
    → moved st category now (j.attempts + 1) (claimed now j) ≡ record j {
      status = st;
      attempts = suc j.attempts;
      error_category = category;
      updated_at = now;
    }
spelled st category now j h = rw h (
    ap
      (λ (n : ℕ). record j {
        status = st;
        attempts = n;
        error_category = category;
        updated_at = now;
      })
      (omega arith))

settle-Unanswered :
    (path : String) (now : ℕ) (j : Job) (files : Files) (s : Store) (c : Checked Failure Json)
    → find_task j.task_id s ≡ some (claimed now j)
    → Only IsRefusal c
    → Unanswered j now files (settle j.task_id (stop_of path c) now files s) path c
settle-Unanswered path now j files s c h o = by_case c o
  where
    told :
        (e : Failure)
        → is_running (ending e) ≡ false
        → Told j now files
            (settle j.task_id e now files s)
            (ended e).0
            (awaited e)
            (ended e).1
            (ending e)
    told e out =
        subst (λ a. Told j now files a (ended e).0 (awaited e) (ended e).1 (ending e))
          (sym (settle-eq j.task_id e now (claimed now j) files s h refl))
          (
            refl,
            find-rewritten j.task_id (ending e) (ended e).1 now (claimed now j) s h
                ∙ ap some (spelled (ending e) (ended e).1 now j out),
            refl,
          )

    by_case :
        (c : Checked Failure Json)
        → Only IsRefusal c
        → Unanswered j now files (settle j.task_id (stop_of path c) now files s) path c
    by_case (ok payload) o = told (result_not_ready path) refl
    by_case (raised obsolete_task) o = told obsolete_task refl
    by_case (raised (result_not_ready q)) o = absurd o
    by_case (raised invalid_result) o = told invalid_result refl
    by_case (raised invalid_checkpoint) o = told invalid_checkpoint refl
    by_case (raised provider_error) o = absurd o
    by_case (raised worker_error) o = absurd o

-- When the queue's next job has its row in the table and its answer is not in the inbox, a call of
-- the worker returns an outcome for the job and leaves the files as they are. If the job's checkpoint
-- passes the checks, the job is pending again with the category "result_not_ready", and the outcome
-- tells the path that it waits for; if the job is obsolete, it is superseded; and if its checkpoint
-- is not valid, it is failed with the category of what is not valid, and no path is told. In each
-- case the row has one attempt more, and is otherwise as it was.
pub process_next_waits :
    (p : Platform) (precedes : String → String → Bool) (inbox name root : String) (now : ℕ)
    (files : Files) (s : Store) (j : Job)
    → first_pending precedes s.jobs ≡ some j
    → find_task j.task_id s ≡ some j
    → get (expected_path p inbox (claimed now j)) files ≡ none
    → Unanswered j now files
        (process_next p precedes (inbox_provider p inbox name files) root now files s)
        (expected_path p inbox j)
        (checkpoint_payload p (claimed now j) files (claim precedes now (some j) s).1)
unfolding process_next process_claimed claim_next claim pure finish expected_path
process_next_waits p precedes inbox name root now files s j first h absent =
    let provider = inbox_provider p inbox name files in
    let task = claimed now j in
    let path = expected_path p inbox task in
    let reserved = (claim precedes now (some j) s).1 in
    let checks = checkpoint_payload p task files reserved in
    let claims : claim_next precedes now s ≡ (Ledger.ok (some task), reserved) =
      rw (claim_next, first, claim) in
    let stops = publish-stops p inbox name root task files reserved absent in
    let same : process_next p precedes provider root now files s
        ≡ settle j.task_id (stop_of path checks) now files reserved =
      ap (process_claimed p precedes provider root now files) claims
      ∙ ap (finish task now files reserved) stops in
    subst (λ a. Unanswered j now files a path checks) (sym same)
      (settle-Unanswered path now j files reserved checks (find-claimed precedes now s j first h)
        (checkpoint_payload-Only p task files reserved))

-- ===== src/Runs/Ending.antt =====
-- A reserved job that ends, in julius/state/run_store.py: the move always goes through, and what
-- follows a completion does too, where the job's run is known.
use julius.Common.{
  ℕ, String, ◌≡◌, refl, ap, ◌∙◌, Bool, true, false, ◌&&◌, ◌||◌, Option, none, some, List, [], ◌∷◌,
  arith, ◌==◌, string_eq, nat_eq, Bool-cases, Option-cases, inl, inr, beq_self, elem, any,
  if◌then◌else◌, find?, find?_holds, find?-update_where, update_where,
}
use julius.Runs.Status.{
  RunStatus, enriched, ai_partial, run_status_eq, TaskStatus, running, completed, task_status_eq,
  task_transitions, run_transitions,
}
use julius.Runs.Ledger.{
  Run, Job, Store, ContextualResult, Result, ok, is_task, find_task, find_run, open_jobs, pure,
  raise, gets, modify, ◌>>=◌, transition_to, move_run, run_status, set_run_status,
}
use julius.Runs.Queue.{
  is_pending, is_running, claimed, first_pending, claim, moved, move_task, transition_task_to,
}
use julius.Runs.Contextual.{
  cross_done, in_analysis, finish_run, complete_row, complete_ai, Outcome, store_result, result_row,
  record_contextual_result, find_result, same_outcome,
}

-- The jobs after the row of a reserved task was written.
abbrev pub rewritten : String → TaskStatus → String → ℕ → Job → Store → Store
rewritten task st category now row s = record s {
  jobs = update_where (is_task task) (moved st category now row.attempts) s.jobs;
}

pub find-rewritten :
    (task : String) (st : TaskStatus) (category : String) (now : ℕ) (row : Job) (s : Store)
    → find_task task s ≡ some row
    → find_task task (rewritten task st category now row s)
      ≡ some (moved st category now row.attempts row)
find-rewritten task st category now row s e = rw (
  find?-update_where (is_task task) (is_task task) (moved st category now row.attempts) s.jobs
      (λ k. refl),
  e,
  find?_holds (is_task task) s.jobs e,
)

leaves_running :
    (st : TaskStatus) → elem st (task_transitions running) ≡ true → (st == running) ≡ false
unfolding task_transitions
leaves_running st h = ground (arith, h)

pub transition_task_to-running :
    (task : String) (st : TaskStatus) (category : String) (now : ℕ) (row : Job) (s : Store)
    → find_task task s ≡ some row
    → row.status ≡ running
    → elem st (task_transitions running) ≡ true
    → transition_task_to task st category now s ≡ (ok tt, rewritten task st category now row s)
unfolding transition_task_to move_task modify
transition_task_to-running task st category now row s e r allowed =
    rw (transition_task_to, e, move_task, r, leaves_running st allowed, allowed)

-- The answer and the jobs of an action that always returns and leaves the jobs alone.
abbrev pub Passes : Result (Unit {0}) × Store → Store → Type 0
Passes (r, t) s = (r ≡ ok tt) × (t.jobs ≡ s.jobs)

move_run-Passes :
    (account scan : String) (st : RunStatus) (now : ℕ) (row : Run) (s : Store)
    → (st == row.status) || elem st (run_transitions row.status) ≡ true
    → Passes (move_run account scan st now (some row) s) s
unfolding move_run pure modify set_run_status
move_run-Passes account scan st now row s h = elim (Bool-cases (st == row.status)) [
  | inl e ↦ rw e (refl, refl)
  | inr e ↦
      let allowed : elem st (run_transitions row.status) ≡ true = ground (arith, e, h) in
      rw (e, allowed) (refl, refl)
]

in_analysis_ends :
    (cross : Bool) (now : RunStatus)
    → in_analysis now ≡ true
    → ((if cross then enriched else ai_partial) == now)
        || elem (if cross then enriched else ai_partial) (run_transitions now)
      ≡ true
unfolding run_transitions
in_analysis_ends cross now h = ground (arith, h)

module _ (account scan : String) (now : ℕ) (run : Run) where
  -- The last step of `complete_ai`, on what the run's row says.
  advance-Passes :
      (cross : Bool) (s : Store)
      → find_run account scan s ≡ some run
      → in_analysis run.status ≡ true
      → Passes (transition_to account scan (if cross then enriched else ai_partial) now s) s
  unfolding transition_to
  advance-Passes cross s e h =
      rw (transition_to, e)
        (move_run-Passes account scan _ now run s (in_analysis_ends cross run.status h))

  finish_run-Passes :
      (s : Store) → find_run account scan s ≡ some run → Passes (finish_run account scan now s) s
  unfolding finish_run ◌>>=◌ gets run_status pure
  finish_run-Passes s e = elim (Bool-cases (open_jobs account scan s == 0)) [
    | inr t ↦ rw t (refl, refl)
    | inl t ↦ elim (Bool-cases (in_analysis run.status)) [
      | inr u ↦ rw (t, e, u) (refl, refl)
      | inl u ↦ rw (t, e, u) (advance-Passes (any (cross_done account scan) s.jobs) s e u)
    ]
  ]

-- A reserved job is completed, and its row says so.
pub complete_ai-running :
    (task : String) (now : ℕ) (row : Job) (run : Run) (s : Store)
    → find_task task s ≡ some row
    → row.status ≡ running
    → find_run row.account_id row.scan_id s ≡ some run
    → ((complete_ai task now s).0 ≡ ok tt)
      × (find_task task (complete_ai task now s).1 ≡ some (moved completed "" now row.attempts row))
unfolding complete_ai complete_row ◌>>=◌ task_transitions
complete_ai-running task now row run s e r known =
    let done = rewritten task completed "" now row s in
    let (returns, kept) = finish_run-Passes row.account_id row.scan_id now run done known in
    rw
      (
        complete_ai,
        e,
        complete_row,
        transition_task_to-running task completed "" now row s e r refl,
      )
      (returns, ap (find? (is_task task)) kept ∙ find-rewritten task completed "" now row s e)

-- Storing a result, or refusing to, touches neither the jobs nor the runs.
abbrev SameQueue : Store → Store → Type 0
SameQueue t s = (t.jobs ≡ s.jobs) × (t.runs ≡ s.runs)

store_result-SameQueue :
    (task : String) (o : Outcome) (now : ℕ) (row : Job) (r : Option ContextualResult) (s : Store)
    → SameQueue (store_result task o now row r s).1 s
unfolding store_result pure raise modify
store_result-SameQueue task o now row none s = (refl, refl)
store_result-SameQueue task o now row (some x) s = elim (Bool-cases (same_outcome o x)) [
  | inl e ↦ rw e (refl, refl)
  | inr e ↦ rw e (refl, refl)
]

result_row-SameQueue :
    (task : String) (o : Outcome) (now : ℕ) (j : Option Job) (s : Store)
    → SameQueue (result_row task o now j s).1 s
unfolding result_row raise
result_row-SameQueue task o now none s = (refl, refl)
result_row-SameQueue task o now (some row) s = elim (Bool-cases (is_running row.status)) [
  | inl e ↦ rw e (store_result-SameQueue task o now row (find_result task s) s)
  | inr e ↦ rw e (refl, refl)
]

pub record_result-SameQueue :
    (task : String) (o : Outcome) (now : ℕ) (s : Store)
    → SameQueue (record_contextual_result task o now s).1 s
unfolding record_contextual_result raise
record_result-SameQueue task o now s =
    elim (Bool-cases (elem o.status ("enriched" ∷ "needs_evidence" ∷ []))) [
      | inl e ↦ rw e (result_row-SameQueue task o now (find_task task s) s)
      | inr e ↦ rw e (refl, refl)
    ]

-- The job at the head of the queue, reserved.
first_pending-pending :
    (precedes : String → String → Bool) (js : List Job) (j : Job)
    → first_pending precedes js ≡ some j
    → is_pending j.status ≡ true
unfolding first_pending
first_pending-pending precedes [] j h = cc
first_pending-pending precedes (x ∷ xs) j h = elim (Option-cases (first_pending precedes xs)) [
  | inl e ↦ ground (arith, e)
  | inr (k, e) ↦ ground (arith, e, first_pending-pending precedes xs k e)
]

pub find-claimed :
    (precedes : String → String → Bool) (now : ℕ) (s : Store) (j : Job)
    → first_pending precedes s.jobs ≡ some j
    → find_task j.task_id s ≡ some j
    → find_task j.task_id (claim precedes now (some j) s).1 ≡ some (claimed now j)
unfolding claim pure
find-claimed precedes now s j first h = rw (
  find?-update_where (is_task j.task_id) (λ k. k.task_id == j.task_id && is_pending k.status)
      (claimed now) s.jobs (λ k. refl),
  h,
  beq_self j.task_id,
  first_pending-pending precedes s.jobs j first,
)

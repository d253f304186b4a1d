-- ===== src/Runs/Terminal.antt =====
-- What any sequence of calls of the ledger's methods leaves of a run.
use julius.Common.{
  ℕ, sym, ap, ◌∙◌, true, beq_self, ◌↔◌, ◌==◌, Option-cases, Bool-cases, inl, inr, eq_of_beq, arith,
  Chain-final, string_eq, String, ◌≡◌, refl, subst, Bool, Option, none, some, List, [], ◌∷◌,
  Evolves, elem,
}
use julius.Runs.Status.{
  RunStatus, created, collecting, collection_partial, deterministic_ready, deterministic_published,
  ai_pending, ai_partial, ai_failed, enriched, cancelled, run_status?, run_transitions, run_allows,
  run_final, run_status_eq,
}
use julius.Runs.Ledger.{
  Run, Store, find_run, checkpoint, pure, ok, raise, move_run, transition_to, transition, Result,
  err, invalid_run_status, invalid_run_transition,
}
use julius.Runs.Queue.{enqueue_ai, claim_next, requeue_running, first_pending, task_id_of}
use julius.Runs.Ledger.{find_task}
use julius.Runs.Contextual.{complete_ai}
use julius.Runs.Commands.{
  Command, create_run_of, transition_of, checkpoint_of, publish_of, enqueue_of, claim_of,
  requeue_of, transition_task_of, complete_of, result_of, supersede_of, execute, execute_all,
}
use julius.Runs.Keys.{Distinct}
use julius.Runs.Preserves.{Preserves-raise, Preserves-modify, Preserves-if}
use julius.Runs.Evolution.{runs, RunStep, Kept, Kept-refl, Kept-trans}
use julius.Runs.Methods.{
  create_run-Respects, transition-Respects, publish-Respects, enqueue_task-Kept, claim-Kept,
  transition_task-Respects, complete_row-Respects, record_result-Kept,
}
use julius.Runs.Retirement.{supersede-Kept}

module _ (digest : String → String) (precedes : String → String → Bool) (a' k' : String) where
  execute-Kept : (c : Command) (s : Store) → Kept a' k' s (execute digest precedes c s)
  unfolding execute enqueue_ai claim_next requeue_running complete_ai checkpoint
  execute-Kept (create_run_of a k st path now) s =
      (create_run-Respects a' k' a k st path now).leaves s
  execute-Kept (transition_of a k st now) s = (transition-Respects a' k' a k st now).leaves s
  execute-Kept (checkpoint_of c) s =
      (Preserves-if (runs a' k') (elem c.status ("ready" ∷ "partial" ∷ "unavailable" ∷ [])) _ _
          (Preserves-modify (runs a' k') _ (λ t. Kept-refl a' k' t))
          (Preserves-raise (runs a' k') _)).leaves
        s
  execute-Kept (publish_of a k path now) s = (publish-Respects a' k' a k path now).leaves s
  execute-Kept (enqueue_of r now) s =
      enqueue_task-Kept a' k' (task_id_of digest r) r now (find_task (task_id_of digest r) s) s
  execute-Kept (claim_of now) s = claim-Kept a' k' precedes now (first_pending precedes s.jobs) s
  execute-Kept (requeue_of category now) s = unfold pure in Kept-refl a' k' s
  execute-Kept (transition_task_of task st category now) s =
      (transition_task-Respects a' k' task st category now).leaves s
  execute-Kept (complete_of task now) s =
      (complete_row-Respects a' k' task now (find_task task s)).leaves s
  execute-Kept (result_of task o now) s = record_result-Kept a' k' task o now s
  execute-Kept (supersede_of a keep now) s = supersede-Kept precedes a' k' a keep now s

  execute_all-Kept :
      (cs : List Command) (s : Store) → Kept a' k' s (execute_all digest precedes cs s)
  unfolding execute_all
  execute_all-Kept [] s = Kept-refl a' k' s
  execute_all-Kept (c ∷ cs) s =
      Kept-trans a' k' s (execute digest precedes c s)
        (execute_all digest precedes cs (execute digest precedes c s)) (execute-Kept c s)
        (execute_all-Kept cs (execute digest precedes c s))

-- Whatever calls of the writing methods follow, in whatever order and whether each of them returns
-- or raises: from a run table whose key is unique, the key stays unique, the run under any key
-- stays in the table, and its status got to where it is by moves of `_RUN_TRANSITIONS` alone.
pub execute_all_follows_table :
    (digest : String → String) (precedes : String → String → Bool) (account scan : String)
    (commands : List Command) (s : Store)
    → Distinct s.runs
    → Distinct (execute_all digest precedes commands s).runs
      × Evolves RunStep
          (find_run account scan s)
          (find_run account scan (execute_all digest precedes commands s))
execute_all_follows_table digest precedes account scan commands s =
    execute_all-Kept digest precedes account scan commands s

-- The statuses that a run does not leave.
abbrev pub final_statuses : List RunStatus
final_statuses = enriched ∷ cancelled ∷ RunStatus.superseded ∷ []

final-transitions : (st : RunStatus) → elem st final_statuses ≡ true → run_transitions st ≡ []
unfolding run_transitions
final-transitions enriched h = refl
final-transitions cancelled h = refl
final-transitions RunStatus.superseded h = refl
final-transitions created h = cc h
final-transitions collecting h = cc h
final-transitions collection_partial h = cc h
final-transitions deterministic_ready h = cc h
final-transitions deterministic_published h = cc h
final-transitions ai_pending h = cc h
final-transitions ai_partial h = cc h
final-transitions ai_failed h = cc h

same_status :
    (o : Option Run) (r : Run)
    → Evolves RunStep (some r) o
    → run_transitions r.status ≡ []
    → (r' : Run) × (o ≡ some r') × (r'.status ≡ r.status)
same_status none r e f = absurd e
same_status (some r') r e f =
    (r', refl, Chain-final run_allows r.status r'.status e (λ d. run_final r.status d f))

-- A call of `transition` on a run whose status has no moves.
refused :
    (account scan to : String) (now : ℕ) (r : Run) (s : Store)
    → find_run account scan s ≡ some r
    → run_transitions r.status ≡ []
    → ((transition account scan to now s).1 ≡ s)
      × (((transition account scan to now s).0 ≡ ok tt) ↔ (run_status? to ≡ some r.status))
unfolding transition transition_to move_run pure raise
refused account scan to now r s h f = elim (Option-cases (run_status? to)) [
  | inl e ↦
      let same : transition account scan to now s ≡ (err (invalid_run_status to), s) =
        rw (transition, e, raise) in
      subst Refuses (sym same)
        (refl, (λ k. absurd (ground (arith, k)), λ k. absurd (ground (arith, k, e))))
  | inr (st, e) ↦ elim (Bool-cases (st == r.status)) [
    | inl t ↦
        let same : transition account scan to now s ≡ (ok tt, s) =
          rw (transition, e, transition_to, h, move_run, t, pure) in
        subst Refuses (sym same) (refl, (λ k. e ∙ ap some (eq_of_beq st r.status t), λ k. refl))
    | inr t ↦
        let same : transition account scan to now s
            ≡ (err (invalid_run_transition r.status st), s) =
          rw (transition, e, transition_to, h, move_run, t, f, raise) in
        subst Refuses (sym same) (
          refl,
          (
            λ k. absurd (ground (arith, k)),
            λ k.
                let known : ◌≡◌ {A = Option RunStatus} (some st) (some r.status) = sym e ∙ k in
                let equal : st ≡ r.status = ground (arith, known) in
                absurd (ground (arith, t, equal, beq_self st)),
          ),
        )
  ]
]
  where
    Refuses : Result (Unit {0}) × Store → Type 0
    Refuses a = (a.1 ≡ s) × ((a.0 ≡ ok tt) ↔ (run_status? to ≡ some r.status))

-- An enriched, cancelled or superseded run keeps its status under every sequence of calls; and a
-- `transition` of it then leaves the tables as they are, whatever status it asks for, and raises
-- unless that is the status that the run has.
pub execute_all_keeps_final :
    (digest : String → String) (precedes : String → String → Bool) (account scan to : String)
    (now : ℕ) (commands : List Command) (s : Store) (r : Run)
    → Distinct s.runs
    → find_run account scan s ≡ some r
    → elem r.status final_statuses ≡ true
    → let t = execute_all digest precedes commands s in
      (r' : Run) × (find_run account scan t ≡ some r')
      × (r'.status ≡ r.status)
      × ((transition account scan to now t).1 ≡ t)
      × (((transition account scan to now t).0 ≡ ok tt) ↔ (run_status? to ≡ some r.status))
execute_all_keeps_final digest precedes account scan to now commands s r d h f =
    let t = execute_all digest precedes commands s in
    let ended = final-transitions r.status f in
    let (r', found, same) =
      same_status (find_run account scan t) r
        (subst (λ o. Evolves RunStep o (find_run account scan t)) h
          (execute_all-Kept digest precedes account scan commands s d).1)
        ended in
    let (left, allowed) =
      refused account scan to now r' t found
        (subst (λ st. run_transitions st ≡ []) (sym same) ended) in
    (
      r',
      found,
      same,
      left,
      subst (λ st. ((transition account scan to now t).0 ≡ ok tt) ↔ (run_status? to ≡ some st)) same
          allowed,
    )

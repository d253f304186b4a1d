-- ===== src/Runs/Enqueueing.antt =====
-- `enqueue_ai`: one job for each context, and a bounded queue.
use julius.Common.{
  ℕ, ◌+◌, ◌≤◌, String, ◌≡◌, refl, ap, ◌∙◌, subst, false, Option, none, some, List, [], ◌∷◌, ◌++◌,
  arith, ◌==◌, string_eq, nat_eq, Bool-cases, inl, inr, eq_iff, leb, find?, find?-append,
  count_where, count_where-append, beq_self,
}
use julius.Runs.Status.{RunStatus, run_status_eq}
use julius.Runs.Ledger.{
  Run, Job, Store, Result, ok, pure, modify, is_task, find_task, find_run, transition_to, move_run,
  run_status,
}
use julius.Runs.Queue.{
  Request, queued_jobs, is_queued, new_job, announce, enqueue_task, task_id_of, enqueue_ai,
}
use julius.Runs.Preserves.{Discipline, Preserves, Preserves-modify, preserves_rules, >>=-eq-ok}

-- The tables of jobs and of checkpoints and the bound stay as they are.
abbrev same_jobs : Discipline
same_jobs = record {
  Keeps = λ s t.
      (t.jobs ≡ s.jobs)
      × (t.max_pending_ai_jobs ≡ s.max_pending_ai_jobs)
      × (t.checkpoints ≡ s.checkpoints);
  same = λ s. (refl, refl, refl);
  chain = λ s t u h k. (k.0 ∙ h.0, k.1 ∙ h.1, k.2 ∙ h.2);
}

runs_only : (f : Store → List Run) → Preserves same_jobs (modify (λ s. record s { runs = f s }))
runs_only f = Preserves-modify same_jobs _ (λ s. (refl, refl, refl))

move_run_only :
    (a k : String) (st : RunStatus) (now : ℕ) (o : Option Run)
    → Preserves same_jobs (move_run a k st now o)
unfolding move_run
move_run_only a k st now none = search preserves_rules
move_run_only a k st now (some row) = search (preserves_rules, runs_only)

transition_to_only :
    (a k : String) (st : RunStatus) (now : ℕ) → Preserves same_jobs (transition_to a k st now)
unfolding transition_to
transition_to_only a k st now = record {
  leaves = λ s. (move_run_only a k st now (find_run a k s)).leaves s;
}

run_status_only : (a k : String) → Preserves same_jobs (run_status a k)
unfolding run_status
run_status_only a k = record { leaves = λ s. (refl, refl, refl) }

announce_only : (task : String) (r : Request) (now : ℕ) → Preserves same_jobs (announce task r now)
unfolding announce
announce_only task r now = search (preserves_rules, run_status_only, transition_to_only) depth 8

queued-new_job :
    (s : Store) (task : String) (r : Request) (now : ℕ)
    → count_where (λ j. is_queued j.status) (s.jobs ++ new_job task r now ∷ []) ≡ queued_jobs s + 1
unfolding count_where
queued-new_job s task r now = rw count_where-append

enqueue_task-bound :
    (task : String) (r : Request) (now : ℕ) (o : Option Job) (s : Store)
    → queued_jobs s ≤ s.max_pending_ai_jobs
    → queued_jobs (enqueue_task task r now o s).1 ≤ s.max_pending_ai_jobs
unfolding enqueue_task pure
enqueue_task-bound task r now (some j) s h = h
enqueue_task-bound task r now none s h =
    elim (Bool-cases (leb s.max_pending_ai_jobs (queued_jobs s))) [
      | inl e ↦ rw e h
      | inr e ↦
          rw
            (
              e,
              ((announce_only task r now).leaves
                  (record s { jobs = s.jobs ++ new_job task r now ∷ [] })).0,
            )
            (ground (arith, queued-new_job s task r now))
    ]

enqueue_task-max :
    (task : String) (r : Request) (now : ℕ) (o : Option Job) (s : Store)
    → (enqueue_task task r now o s).1.max_pending_ai_jobs ≡ s.max_pending_ai_jobs
unfolding enqueue_task pure
enqueue_task-max task r now (some j) s = refl
enqueue_task-max task r now none s = elim (Bool-cases (leb s.max_pending_ai_jobs (queued_jobs s))) [
  | inl e ↦ rw e
  | inr e ↦
      rw e
        ((announce_only task r now).leaves
          (record s { jobs = s.jobs ++ new_job task r now ∷ [] })).1
]

-- No call of `enqueue_ai`, whatever it answers or raises, takes the pending and running jobs past
-- the bound of the ledger, which it leaves as it is.
pub enqueue_ai_bound :
    (digest : String → String) (r : Request) (now : ℕ) (s : Store)
    → queued_jobs s ≤ s.max_pending_ai_jobs
    → (queued_jobs (enqueue_ai digest r now s).1 ≤ s.max_pending_ai_jobs)
      × ((enqueue_ai digest r now s).1.max_pending_ai_jobs ≡ s.max_pending_ai_jobs)
unfolding enqueue_ai
enqueue_ai_bound digest r now s h =
    let task = task_id_of digest r in
    (
      enqueue_task-bound task r now (find_task task s) s h,
      enqueue_task-max task r now (find_task task s) s,
    )

announce-answer :
    (task : String) (r : Request) (now : ℕ) (s t : Store) (answer : String)
    → announce task r now s ≡ (ok answer, t)
    → answer ≡ task
unfolding announce pure
announce-answer task r now s t answer h =
    let (st, e, k) = >>=-eq-ok (run_status r.account_id r.scan_id) _ s t answer h in
    let (u, e', k') =
      >>=-eq-ok _ (λ (_ : Unit {0}). pure task) (run_status r.account_id r.scan_id s).1 t answer
        k in
    ground arith

find_new_job :
    (task : String) (r : Request) (now : ℕ) (s t : Store)
    → find_task task s ≡ none
    → t.jobs ≡ s.jobs ++ new_job task r now ∷ []
    → find_task task t ≡ some (new_job task r now)
unfolding find?
find_new_job task r now s t e h =
    rw (h, find?-append (is_task task) s.jobs (new_job task r now ∷ []), e, beq_self task)

enqueue_task-again :
    (task : String) (r : Request) (now later : ℕ) (o : Option Job) (s t : Store) (answer : String)
    → find_task task s ≡ o
    → enqueue_task task r now o s ≡ (ok answer, t)
    → (answer == "") ≡ false
    → enqueue_task task r later (find_task task t) t ≡ (ok answer, t)
unfolding enqueue_task pure
enqueue_task-again task r now later (some j) s t answer e h given =
    let same : s ≡ t = ap (λ (p : Result String × Store). p.1) h in
    let found : find_task task t ≡ some j = subst (λ u. find_task task u ≡ some j) same e in
    rw found (ground arith)
enqueue_task-again task r now later none s t answer e h given =
    elim (Bool-cases (leb s.max_pending_ai_jobs (queued_jobs s))) [
      | inl full ↦ absurd (ground (arith, full, eq_iff answer ""))
      | inr room ↦
          let queued : Store = record s { jobs = s.jobs ++ new_job task r now ∷ [] } in
          let after : announce task r now queued ≡ (ok answer, t) = ground (arith, h, room) in
          let kept = ((announce_only task r now).leaves queued).0 in
          let grown : t.jobs ≡ s.jobs ++ new_job task r now ∷ [] =
            cc (ap (λ (p : Result String × Store). p.1.jobs) after, kept) in
          rw (find_new_job task r now s t e grown, announce-answer task r now queued t answer after)
    ]

-- A context is queued once: after a call that was not turned away by the full queue, the same call
-- answers the same task id and changes nothing.
pub enqueue_ai_idempotent :
    (digest : String → String) (r : Request) (now later : ℕ) (s t : Store) (task : String)
    → enqueue_ai digest r now s ≡ (ok task, t)
    → (task == "") ≡ false
    → enqueue_ai digest r later t ≡ (ok task, t)
unfolding enqueue_ai
enqueue_ai_idempotent digest r now later s t task h given =
    enqueue_task-again (task_id_of digest r) r now later (find_task (task_id_of digest r) s) s t
      task refl h given

enqueue_task-checkpoints :
    (task : String) (r : Request) (now : ℕ) (o : Option Job) (s : Store)
    → (enqueue_task task r now o s).1.checkpoints ≡ s.checkpoints
unfolding enqueue_task pure
enqueue_task-checkpoints task r now (some j) s = refl
enqueue_task-checkpoints task r now none s =
    elim (Bool-cases (leb s.max_pending_ai_jobs (queued_jobs s))) [
      | inl e ↦ rw e
      | inr e ↦
          rw e
            ((announce_only task r now).leaves
              (record s { jobs = s.jobs ++ new_job task r now ∷ [] })).2
    ]

pub enqueue_ai-checkpoints :
    (digest : String → String) (r : Request) (now : ℕ) (s : Store)
    → (enqueue_ai digest r now s).1.checkpoints ≡ s.checkpoints
unfolding enqueue_ai
enqueue_ai-checkpoints digest r now s =
    enqueue_task-checkpoints (task_id_of digest r) r now (find_task (task_id_of digest r) s) s

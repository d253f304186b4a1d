-- ===== src/Runs/Lookup.antt =====
-- What the reading methods of the ledger find of what the writing ones left.
use julius.Common.{
  ℕ, ◌+◌, String, ◌≡◌, refl, subst, Option, some, List, [], ◌∷◌, select, length, find?, count_where,
  elem, ◌==◌, string_eq, if◌then◌else◌, Bool-cases, inl, inr, arith, eq_iff,
}
use julius.Runs.Status.{TaskStatus, pending, running, failed, completed, task_status_eq}
use julius.Runs.Ledger.{
  Checkpoint, Job, Store, ok, is_checkpoint, upsert_checkpoint, checkpoint, modify, raise,
}
use julius.Runs.Reading.{
  found, missing, corrupted_checkpoint, of_run, first_match, is_intact, verified_checkpoint,
  in_status, queue_stats,
}

found_upserted :
    (c : Checkpoint) (cs : List Checkpoint)
    → find?
        (λ d. d.domain == c.domain)
        (select (of_run c.account_id c.scan_id) (upsert_checkpoint c cs))
      ≡ some c
unfolding find? select upsert_checkpoint is_checkpoint
found_upserted c [] =
    ground (
      arith,
      eq_iff c.account_id c.account_id,
      eq_iff c.scan_id c.scan_id,
      eq_iff c.domain c.domain,
    )
found_upserted c (d ∷ ds) = ground (
  arith,
  eq_iff c.account_id c.account_id,
  eq_iff c.scan_id c.scan_id,
  eq_iff c.domain c.domain,
  found_upserted c ds,
)

-- A checkpoint that a call wrote is the one that is read back for its run and domain, as long as
-- its file has the digest that was written with it; with another file, or none, reading raises the
-- error of a corrupted checkpoint, never another row.
pub verified_checkpoint-checkpoint :
    (digest : String → Option String) (c : Checkpoint) (s t : Store)
    → checkpoint c s ≡ (ok tt, t)
    → verified_checkpoint digest c.account_id c.scan_id c.domain t ≡ (
        if is_intact digest c
        then found c
        else missing (corrupted_checkpoint c.account_id c.scan_id c.domain))
unfolding verified_checkpoint checkpoint modify raise first_match
verified_checkpoint-checkpoint digest c s t h =
    elim (Bool-cases (elem c.status ("ready" ∷ "partial" ∷ "unavailable" ∷ []))) [
      | inl e ↦
          let same : record s { checkpoints = upsert_checkpoint c s.checkpoints } ≡ t =
            ground (arith, e) in
          subst
            (λ u. verified_checkpoint digest c.account_id c.scan_id c.domain u ≡ (
              if is_intact digest c
              then found c
              else missing (corrupted_checkpoint c.account_id c.scan_id c.domain)))
            same (rw (verified_checkpoint, first_match, found_upserted c s.checkpoints))
      | inr e ↦ absurd (ground (arith, e))
    ]

statuses_cover :
    (js : List Job)
    → count_where (in_status pending) js
        + count_where (in_status running) js
        + count_where (in_status failed) js
        + count_where (in_status completed) js
        + count_where (in_status TaskStatus.superseded) js
      ≡ length js
unfolding count_where
statuses_cover [] = refl
statuses_cover (j ∷ js) = ground (arith, statuses_cover js)

-- The figures of the queue count every job of the table exactly once, whatever its status.
pub queue_stats-length :
    (now : ℕ) (s : Store)
    → let q = queue_stats now s in
      q.pending_jobs + q.running_jobs + q.failed_jobs + q.completed_jobs + q.superseded_jobs
      ≡ length s.jobs
unfolding queue_stats
queue_stats-length now s = statuses_cover s.jobs

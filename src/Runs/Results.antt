-- ===== src/Runs/Results.antt =====
-- `record_contextual_result`: a stored result is never replaced.
use julius.Common.{
  ℕ, String, ◌≡◌, refl, ap, subst, Bool, true, ◌&&◌, Option, none, some, [], ◌∷◌, arith, ◌==◌,
  string_eq, Bool-cases, inl, inr, eq_iff, beq_self, elem, if◌then◌else◌, find?, find?-append,
}
use julius.Runs.Ledger.{
  Job, Store, Result, ok, err, ContextualResult, diverging_result, invalid_contextual_status,
  find_task, pure, raise, modify,
}
use julius.Runs.Queue.{is_running}
use julius.Runs.Contextual.{
  Outcome, is_result, find_result, same_outcome, new_result, store_result, result_row,
  record_contextual_result,
}

abbrev pub outcome_of : ContextualResult → Outcome
outcome_of x = record {
  provider = x.provider;
  status = x.status;
  result_path = x.result_path;
  result_hash = x.result_hash;
}

-- The comparison of two tuples of four texts.
abbrev pub agrees : Outcome → Outcome → Bool
agrees o o' =
    o'.provider == o.provider
    && o'.status == o.status
    && o'.result_path == o.result_path
    && o'.result_hash == o.result_hash

agrees-eq : (o o' : Outcome) → agrees o o' ≡ true → o' ≡ o
agrees-eq o o' h = ground (
  arith,
  eq_iff o'.provider o.provider,
  eq_iff o'.status o.status,
  eq_iff o'.result_path o.result_path,
  eq_iff o'.result_hash o.result_hash,
)

-- What a call that returned has left.
record IsStored (task : String) (o : Outcome) (t : Store) : Type 0 where
  row : Job
  task_row : find_task task t ≡ some row
  reserved : is_running row.status ≡ true
  entry : ContextualResult
  found : find_result task t ≡ some entry
  outcome : outcome_of entry ≡ o

store_result-IsStored :
    (task : String) (o : Outcome) (now : ℕ) (row : Job) (s t : Store) (r : Option ContextualResult)
    → find_task task s ≡ some row
    → is_running row.status ≡ true
    → find_result task s ≡ r
    → store_result task o now row r s ≡ (ok tt, t)
    → IsStored task o t
unfolding store_result pure raise modify find?
store_result-IsStored task o now row s t none e p f h =
    subst (IsStored task o) (ap (λ (x : Result (Unit {0}) × Store). x.1) h) (record {
      row = row;
      task_row = e;
      reserved = p;
      entry = new_result task o now row;
      found = rw (
        find?-append (is_result task) s.results (new_result task o now row ∷ []),
        f,
        beq_self task,
      );
      outcome = refl;
    })
store_result-IsStored task o now row s t (some x) e p f h = elim (Bool-cases (same_outcome o x)) [
  | inl same ↦
      let kept : s ≡ t = ground (arith, same) in
      subst (IsStored task o) kept (record {
        row = row;
        task_row = e;
        reserved = p;
        entry = x;
        found = f;
        outcome = agrees-eq o (outcome_of x) same;
      })
  | inr other ↦ absurd (ground (arith, other))
]

result_row-IsStored :
    (task : String) (o : Outcome) (now : ℕ) (s t : Store) (j : Option Job)
    → find_task task s ≡ j
    → result_row task o now j s ≡ (ok tt, t)
    → IsStored task o t
unfolding result_row raise
result_row-IsStored task o now s t none e h = absurd (ground arith)
result_row-IsStored task o now s t (some row) e h = elim (Bool-cases (is_running row.status)) [
  | inl p ↦
      store_result-IsStored task o now row s t (find_result task s) e p refl (ground (arith, p))
  | inr p ↦ absurd (ground (arith, p))
]

record_result-IsStored :
    (task : String) (o : Outcome) (now : ℕ) (s t : Store)
    → record_contextual_result task o now s ≡ (ok tt, t)
    → IsStored task o t
unfolding record_contextual_result raise
record_result-IsStored task o now s t h =
    elim (Bool-cases (elem o.status ("enriched" ∷ "needs_evidence" ∷ []))) [
      | inl p ↦ result_row-IsStored task o now s t (find_task task s) refl (rw p at h)
      | inr p ↦ absurd (ground (arith, p))
    ]

entry_again :
    (task : String) (o' : Outcome) (later : ℕ) (row : Job) (t : Store) (entry : ContextualResult)
    → store_result task o' later row (some entry) t
      ≡ ((if agrees o' (outcome_of entry) then ok tt else err (diverging_result task)), t)
unfolding store_result pure raise
entry_again task o' later row t entry = elim (Bool-cases (same_outcome o' entry)) [
  | inl p ↦ rw p
  | inr p ↦ rw p
]

row_again :
    (task : String) (o o' : Outcome) (later : ℕ) (t : Store)
    → IsStored task o t
    → result_row task o' later (find_task task t) t
      ≡ ((if agrees o' o then ok tt else err (diverging_result task)), t)
unfolding result_row
row_again task o o' later t r =
    rw (r.task_row, r.reserved, r.found)
      (subst
        (λ x.
          store_result task o' later r.row (some r.entry) t
          ≡ ((if agrees o' x then ok tt else err (diverging_result task)), t))
        r.outcome (entry_again task o' later r.row t r.entry))

-- Once a call has recorded an outcome for a task, a later call for the task that is still reserved
-- changes nothing: it returns if its outcome is the recorded one, and otherwise raises, with an
-- error that tells an unknown status from an outcome that diverges.
pub record_contextual_result_once :
    (task : String) (o o' : Outcome) (now later : ℕ) (s t : Store)
    → record_contextual_result task o now s ≡ (ok tt, t)
    → record_contextual_result task o' later t ≡ (
      (if elem o'.status ("enriched" ∷ "needs_evidence" ∷ [])
          then (if agrees o' o then ok tt else err (diverging_result task))
          else err (invalid_contextual_status o'.status)),
      t,
    )
unfolding record_contextual_result raise
record_contextual_result_once task o o' now later s t h =
    elim (Bool-cases (elem o'.status ("enriched" ∷ "needs_evidence" ∷ []))) [
      | inl p ↦ rw p (row_again task o o' later t (record_result-IsStored task o now s t h))
      | inr p ↦ rw p
    ]

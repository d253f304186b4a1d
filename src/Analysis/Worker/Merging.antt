-- ===== src/Analysis/Worker/Merging.antt =====
-- `merge_results` of julius/analysis/domain_worker.py, and what it lets into the document. The order
-- of texts in an ORDER BY is a parameter.
use julius.Common.{
  String, Bool, false, ◌≡◌, subst, none, some, List, [], ◌∷◌, All, length, any, get, arith, ◌==◌,
  string_eq, eq_of_beq, Bool-cases, inl, inr, ◌≢◌, if◌then◌else◌,
}
use julius.Json.Checks.{
  Checked, ok, ok-eq, raised, ◌>>=◌, ◌>>◌, demand, known, each, bind-ok, demand-ok, each-All,
  each-length,
}
use julius.Runs.Status.{completed, task_status_eq}
use julius.Runs.Ledger.{Checkpoint, Job, ContextualResult, Store}
use julius.Runs.Reading.{
  Answer, found, missing, verified_checkpoint, task_for_context, contextual_results,
}
use julius.Analysis.Worker.{
  Failure, invalid_result, invalid_checkpoint, DomainResult, validate_domain_result,
}
use julius.Analysis.Worker.Accepted.{IsResult, validate_domain_result-IsResult}
use julius.Analysis.Worker.Processing.{Files, Platform, file_sha256, checkpoint_of}

-- The document before `json.dumps`; its schema version is "1.0".
pub record Merged : Type 0 where
  pub account_id : String
  pub scan_id : String
  pub status : String
  pub results : List DomainResult

-- A missing job raises KeyError.
abbrev pub task_of : Answer Job → Checked Failure Job
task_of (found j) = ok j
task_of (missing e) = raised invalid_checkpoint

-- not path.is_file() or file_sha256(path) != entry.result_hash
abbrev pub is_recorded : Platform → Files → ContextualResult → Bool
is_recorded p files entry = elim (file_sha256 p files entry.result_path) [
  | none ↦ false
  | some h ↦ h == entry.result_hash
]

-- "needs_evidence" if not merged or "needs_evidence" in statuses else "enriched"
abbrev pub merged_status : List DomainResult → String
merged_status [] = "needs_evidence"
merged_status (r ∷ rs) =
    if any (λ x. x.status == "needs_evidence") (r ∷ rs) then "needs_evidence" else "enriched"

module _ (p : Platform) (files : Files) (s : Store) (account scan : String) where
  unfoldable pub merge_entry : ContextualResult → Checked Failure DomainResult
  merge_entry entry = do
    c ← checkpoint_of p (verified_checkpoint (file_sha256 p files) account scan entry.domain s)
    demand invalid_result (c.payload_hash == entry.context_hash)
    demand invalid_result (is_recorded p files entry)
    task ← task_of (task_for_context account scan entry.domain entry.context_hash s)
    demand invalid_result (task.status == completed)
    content ← known invalid_checkpoint (get entry.result_path files)
    payload ← known invalid_checkpoint (p.loads content)
    validate_domain_result p.unicode task entry.provider payload

  unfoldable pub merge_results : (String → String → Bool) → Checked Failure Merged
  merge_results precedes = do
    merged ← each merge_entry (contextual_results precedes account scan s)
    ok (record {
      account_id = account;
      scan_id = scan;
      status = merged_status merged;
      results = merged;
    })

  -- A result that may stand in the document: its job is completed, and the checkpoint that the job
  -- read is still the run's, with its file intact.
  pub record IsCurrent (r : DomainResult) : Type 0 where
    pub task : Job
    pub done : task.status ≡ completed
    pub provider : String
    pub result : IsResult p.unicode task provider r
    pub checkpoint : Checkpoint
    pub domain : String
    pub intact : verified_checkpoint (file_sha256 p files) account scan domain s ≡ found checkpoint
    pub job : task_for_context account scan domain checkpoint.payload_hash s ≡ found task

  checkpoint_of-ok :
      (a : Answer Checkpoint) (c : Checkpoint) → checkpoint_of p a ≡ ok c → a ≡ found c
  checkpoint_of-ok (found d) c h = ground (arith, h)
  checkpoint_of-ok (missing e) c h = absurd (ground (arith, h))

  task_of-ok : (a : Answer Job) (j : Job) → task_of a ≡ ok j → a ≡ found j
  task_of-ok (found d) j h = ground (arith, h)
  task_of-ok (missing e) j h = absurd (ground (arith, h))

  merge_entry-IsCurrent :
      (entry : ContextualResult) (r : DomainResult) → merge_entry entry ≡ ok r → IsCurrent r
  unfolding merge_entry
  merge_entry-IsCurrent entry r h =
      let read = verified_checkpoint (file_sha256 p files) account scan entry.domain s in
      let asked = task_for_context account scan entry.domain entry.context_hash s in
      let (c, p0, h0) = bind-ok (checkpoint_of p read) _ h in
      let (fresh, h1) = demand-ok invalid_result (c.payload_hash == entry.context_hash) _ h0 in
      let (recorded, h2) = demand-ok invalid_result (is_recorded p files entry) _ h1 in
      let (task, p3, h3) = bind-ok (task_of asked) _ h2 in
      let (done, h4) = demand-ok invalid_result (task.status == completed) _ h3 in
      let (content, p5, h5) =
        bind-ok (known invalid_checkpoint (get entry.result_path files)) _ h4 in
      let (payload, p6, h6) = bind-ok (known invalid_checkpoint (p.loads content)) _ h5 in
      record {
        task = task;
        done = eq_of_beq task.status completed done;
        provider = entry.provider;
        result = validate_domain_result-IsResult p.unicode task entry.provider payload r h6;
        checkpoint = c;
        domain = entry.domain;
        intact = checkpoint_of-ok read c p0;
        job = rw (eq_of_beq c.payload_hash entry.context_hash fresh) (task_of-ok asked task p3);
      }

different : {A : Type 0} (h : ◌≡◌ {A = String} "needs_evidence" "enriched") → A
different h = cc

enriched_only :
    (rs : List DomainResult)
    → merged_status rs ≡ "enriched"
    → (rs ≢ []) × (any (λ x. x.status == "needs_evidence") rs ≡ false)
enriched_only [] h = different h
enriched_only (r ∷ rs) h = elim (Bool-cases (any (λ x. x.status == "needs_evidence") (r ∷ rs))) [
  | inl e ↦ different (rw e at h)
  | inr e ↦ ((λ q. cc), e)
]

-- A document is only made of results of completed jobs, each within the contract of its job and
-- about a checkpoint that is still the run's and intact, one for every result that the store holds
-- of the run: a stale or unfinished one makes the whole call fail. It is called enriched only when
-- it holds a result and all of them are.
pub merge_results-IsCurrent :
    (p : Platform) (files : Files) (s : Store) (account scan : String)
    (precedes : String → String → Bool) (m : Merged)
    → merge_results p files s account scan precedes ≡ ok m
    → All (IsCurrent p files s account scan) m.results
      × (length m.results ≡ length (contextual_results precedes account scan s))
      × (m.status ≡ "enriched"
          → (m.results ≢ []) × (any (λ x. x.status == "needs_evidence") m.results ≡ false))
unfolding merge_results
merge_results-IsCurrent p files s account scan precedes m h =
    let entries = contextual_results precedes account scan s in
    let one = merge_entry p files s account scan in
    let (merged, p0, h0) = bind-ok (each one entries) _ h in
    subst
      (λ (x : Merged).
        All (IsCurrent p files s account scan) x.results
        × (length x.results ≡ length entries)
        × (x.status ≡ "enriched"
            → (x.results ≢ []) × (any (λ y. y.status == "needs_evidence") x.results ≡ false)))
      (ok-eq _ _ h0)
      (
        each-All (IsCurrent p files s account scan) one entries
            (merge_entry-IsCurrent p files s account scan) p0,
        each-length one entries p0,
        enriched_only merged,
      )

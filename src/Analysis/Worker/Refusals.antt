-- ===== src/Analysis/Worker/Refusals.antt =====
-- What `checkpoint_payload` of `process_next` raises, julius/analysis/domain_worker.py.
use julius.Common.{Bool, true, false, get, string_eq, ◌==◌, ◌&&◌}
use julius.Json.{Json, lookup}
use julius.Json.Reading.{dict?, is_text}
use julius.Json.Checks.{ok, demand, Only, bind-Only, then-Only, demand-Only, known, known-Only}
use julius.Runs.Ledger.{Job, Store, Checkpoint}
use julius.Runs.Reading.{Answer, found, missing, verified_checkpoint}
use julius.Analysis.Worker.{Failure, obsolete_task, invalid_result, invalid_checkpoint}
use julius.Analysis.Worker.Processing.{
  Files, Platform, file_sha256, checkpoint_of, require_current_task, validate_checkpoint_envelope,
  checkpoint_payload, is_account,
}

-- What the checks of a checkpoint raise, before the provider is asked.
abbrev pub IsRefusal : Failure → Type 0
IsRefusal obsolete_task = Unit
IsRefusal invalid_result = Unit
IsRefusal invalid_checkpoint = Unit
IsRefusal _ = ⊥

demand-IsRefusal : (e : Failure) (b : Bool) → IsRefusal e → Only IsRefusal (demand e b)
demand-IsRefusal e true h = tt
demand-IsRefusal e false h = h

validate_checkpoint_envelope-Only :
    (p : Platform) (task : Job) (payload : Json)
    → Only IsRefusal (validate_checkpoint_envelope p payload task)
unfolding validate_checkpoint_envelope
validate_checkpoint_envelope-Only p task payload =
    bind-Only IsRefusal (known invalid_result (dict? payload)) _
      (known-Only IsRefusal invalid_result (dict? payload) tt)
      (λ fs. demand-Only IsRefusal invalid_result (is_account p task (lookup "account" fs)) _ tt (
        demand-IsRefusal invalid_result
          (is_text task.scan_id (lookup "scan_id" fs) && is_text task.domain (lookup "domain" fs))
          tt))

pub checkpoint_payload-Only :
    (p : Platform) (task : Job) (files : Files) (s : Store)
    → Only IsRefusal (checkpoint_payload p task files s)
unfolding checkpoint_payload require_current_task
checkpoint_payload-Only p task files s =
    bind-Only IsRefusal
      (checkpoint_of p
        (verified_checkpoint (file_sha256 p files) task.account_id task.scan_id task.domain s))
      _
      (found_only
        (verified_checkpoint (file_sha256 p files) task.account_id task.scan_id task.domain s))
      (λ c.
        then-Only IsRefusal (require_current_task p task c) _
          (demand-Only IsRefusal obsolete_task (task.context_hash == c.payload_hash) _ tt (
            demand-IsRefusal obsolete_task (p.resolve task.payload_path == p.resolve c.payload_path)
              tt))
          (bind-Only IsRefusal (known invalid_checkpoint (get c.payload_path files)) _
            (known-Only IsRefusal invalid_checkpoint (get c.payload_path files) tt)
            (λ content.
              bind-Only IsRefusal (known invalid_checkpoint (p.loads content)) _
                (known-Only IsRefusal invalid_checkpoint (p.loads content) tt)
                (λ payload.
                  then-Only IsRefusal (validate_checkpoint_envelope p payload task) (ok payload)
                    (validate_checkpoint_envelope-Only p task payload) tt))))
  where
    found_only : (a : Answer Checkpoint) → Only IsRefusal (checkpoint_of p a)
    found_only (found c) = tt
    found_only (missing e) = tt

-- ===== src/Analysis/Worker/Tests/Waiting.antt =====
-- The worker with an inbox that is still empty.
use julius.Common.{false, ◌≡◌, refl, some, none, get, find?, select, string_eq}
use julius.Json.Checks.{ok}
use julius.Runs.Ledger
use julius.Runs.Ledger.{find_task}
use julius.Runs.Queue.{claimed, claim, first_pending}
use julius.Runs.Reading.{verified_checkpoint, first_match}
use julius.Analysis.Worker.Processing.{
  checkpoint_payload, require_current_task, validate_checkpoint_envelope, process_next,
}
use julius.Analysis.Worker.Inbox.{inbox_provider, expected_path, Unanswered, process_next_waits}
use julius.Analysis.Worker.Tests.{platform, glue_job, glue_checkpoint, waiting, disk}

nothing_there : get (expected_path platform "/in" (claimed 5 glue_job)) disk ≡ none
unfolding get expected_path
nothing_there = refl

-- The checkpoint passes the checks: the job waits.
waits :
    checkpoint_payload platform
      (claimed 5 glue_job)
      disk
      (claim (λ a b. false) 5 (some glue_job) waiting).1
    ≡ ok glue_checkpoint
unfolding checkpoint_payload require_current_task validate_checkpoint_envelope verified_checkpoint
    first_match claim get find? select Ledger.pure
waits = refl

process_next_waits_example :
    Unanswered glue_job 5 disk
      (process_next platform
        (λ a b. false)
        (inbox_provider platform "/in" "file" disk)
        "/out"
        5
        disk
        waiting)
      (expected_path platform "/in" glue_job)
      (checkpoint_payload platform
        (claimed 5 glue_job)
        disk
        (claim (λ a b. false) 5 (some glue_job) waiting).1)
unfolding first_pending find?
process_next_waits_example =
    process_next_waits platform (λ a b. false) "/in" "file" "/out" 5 disk waiting glue_job refl refl
      nothing_there

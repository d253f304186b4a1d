-- ===== src/Lib.antt =====
-- Julius: a model of the parts of the program that keep its decisions, and what holds of them.
--
-- Julius scans AWS accounts for savings. A scan collects sources (collection), makes findings and
-- opportunities of them, reconciles them with a backlog (state, findings), asks a contextual
-- analysis about signals, and sends a report (reporting/delivery). These parts are modelled:
--
-- - Runs: julius/state/run_store.py, the resumable ledger of runs. Runs/Status has the two
--   transition tables; Runs/Ledger the tables of the database as lists of rows and the methods on
--   runs and checkpoints (create_run, transition, run_status, checkpoint, publish_deterministic);
--   Runs/Queue the methods on jobs (enqueue_ai, claim_next, requeue_running, transition_task);
--   Runs/Contextual complete_ai, record_contextual_result and supersede_older_context;
--   Runs/Commands one command for each method that writes; Runs/Reading the methods that read. A
--   method is a function of the tables that returns or raises, and keeps what it wrote before it
--   raised. Calls follow one another: what two threads interleave between the lock's sections is
--   not modelled. Times are numbers that the caller gives.
-- - Scheduler: julius/collection/scheduler.py. Scheduler/Sources has what it reads of a Source and
--   the order of release (_downstream_counts), Scheduler/Validation _validate, Scheduler/Loop the
--   loop of _run_parallel over an environment that chooses which sources finish and which raise
--   (and the pool's refusal of no threads),
--   Scheduler/Spec the steps that the loop may take, Scheduler/Limiter _AdaptiveLimiter. The loop
--   and _validate recurse on fuel, the number of sources: a round of _validate takes at least one
--   source away, and a round of the loop settles at least one if the environment reports one.
--   Where the fuel ends too early the outcome says so. Scheduler/Kahn has what _validate makes
--   certain of, Scheduler/Progress, Scheduler/Books and Scheduler/Advancing the books of a
--   round.
-- - Backlog: julius/state/store.py (reconcile, transition, status_for) in Backlog/Store and
--   Backlog/Reconcile, and julius/findings/lifecycle.py in Backlog/Lifecycle. The file is the dict
--   that it holds; amounts are floats and a parameter.
-- - Delivery: julius/reporting/delivery. Delivery/Messages has models.py and the settings of
--   config.py, Delivery/Policy policy.py, Delivery/Service service.py and send_log.py: the log's file
--   may be missing or not readable, and each call is told whether it can write it.
-- - Signals: julius/state/signal_ledger.py, in Signals/Ledger.
-- - Scoring: julius/scoring/evidence_quality.py in Scoring/Evidence, and score_and_label of
--   julius/scoring/confidence.py in Scoring/Confidence, both in hundredths.
-- - Collection: julius/collection/checkpoints.py. Collection/Domains has the two tables of domains,
--   Collection/Writer DomainCheckpointWriter.source_completed and _close, Collection/Persisting
--   _persist and wait on the tables of Runs, with files as paths and texts, Collection/Resuming
--   resume_ready_domains with _compatible_checkpoint and _apply_domain. The account is its fields by
--   name; what the loader makes of a dataset is a parameter. The single thread that persists is
--   taken after the calls that fill its queue, which it does not share state with.
--   Collection/Window has AnalysisWindow of julius/collection/window.py over microseconds: trailing,
--   capped, contains and overlap_seconds, but no calendar months.
-- - Analysis/Worker: julius/analysis/domain_worker.py. Analysis/Worker has the result of a domain, its
--   validation and as_payload; Analysis/Worker/Processing process_next on the tables of Runs, with
--   the provider, the digest, JSON's text and paths as parameters; Analysis/Worker/Inbox the
--   provider that reads an inbox; Analysis/Worker/Merging
--   merge_results up to json.dumps. One number is the time of all the store's calls of a run of the
--   worker, and nothing else changes the files or the tables in between.
-- - Analysis/Response: julius/analysis/response_validator.py. Analysis/Response has its dataclasses and
--   those of julius/findings/investigation.py; the modules below it the parsers, each with the code's
--   order of checks, Analysis/Response/Validation validate_agent_output, and
--   Analysis/Response/Catalogue the keys of two tables of julius/knowledge. Errors keep their class
--   and lose their message.
-- - Json: what json.loads returns, and checks that raise. No function of Julius; a dict is a list of
--   fields of which the first with a key counts, and a float is its bits.
-- - Common: shared tests, lists, tables, dicts and chains of moves; Common/Texts the methods of
--   Python's texts, over the tables of Unicode as parameters.
--
-- The remaining modules hold lemmas and theorems; the Tests hold small concrete data.
--
-- Not modelled: the database, files, clocks, threads and the network, of which the models keep
-- what the code reads and writes; the collectors, rules, prices and float formulas; the rendering
-- of reports and the command line; the calendar months of window.py and the health recorder; of
-- scheduler.py the serial path, the callback, the measurements of the recorder and the telemetry.
pub mod Common
pub mod Json
pub mod Analysis
pub mod Collection
pub mod Runs
pub mod Scheduler
pub mod Delivery
pub mod Backlog
pub mod Signals
pub mod Scoring

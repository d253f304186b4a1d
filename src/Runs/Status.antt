-- ===== src/Runs/Status.antt =====
-- The two status machines of julius/state/run_store.py: `_RUN_TRANSITIONS` and `_TASK_TRANSITIONS`.
-- A text that is no key of the table is refused by the program wherever one comes in, so a row
-- stores one of the constructors.
use julius.Common.{
  Bool, false, Chain, ℕ, String, ◌≡◌, ◌↔◌, true, Option, none, some, List, [], ◌∷◌, arith, elem, Eq,
  ◌==◌, string_eq, nat_beq, if◌then◌else◌,
}

pub data RunStatus : Type 0 where
  created collecting collection_partial deterministic_ready deterministic_published : RunStatus
  ai_pending ai_partial ai_failed enriched cancelled superseded : RunStatus

pub data TaskStatus : Type 0 where
  pending running failed completed superseded : TaskStatus

-- `_RUN_TRANSITIONS`
unfoldable pub run_transitions : RunStatus → List RunStatus
run_transitions created = collecting ∷ deterministic_published ∷ cancelled ∷ []
run_transitions collecting = collection_partial ∷ deterministic_ready ∷ cancelled ∷ []
run_transitions collection_partial = deterministic_ready ∷ cancelled ∷ []
run_transitions deterministic_ready = deterministic_published ∷ cancelled ∷ []
run_transitions deterministic_published =
    ai_pending ∷ enriched ∷ ai_failed ∷ RunStatus.superseded ∷ []
run_transitions ai_pending = ai_partial ∷ enriched ∷ ai_failed ∷ RunStatus.superseded ∷ []
run_transitions ai_partial = enriched ∷ ai_failed ∷ RunStatus.superseded ∷ []
run_transitions ai_failed = ai_pending ∷ RunStatus.superseded ∷ []
run_transitions enriched = []
run_transitions cancelled = []
run_transitions RunStatus.superseded = []

-- `_TASK_TRANSITIONS`
unfoldable pub task_transitions : TaskStatus → List TaskStatus
task_transitions pending = running ∷ TaskStatus.superseded ∷ []
task_transitions running = completed ∷ failed ∷ pending ∷ TaskStatus.superseded ∷ []
task_transitions failed = pending ∷ TaskStatus.superseded ∷ []
task_transitions completed = []
task_transitions TaskStatus.superseded = []

abbrev pub run_code : RunStatus → ℕ
run_code created = 0
run_code collecting = 1
run_code collection_partial = 2
run_code deterministic_ready = 3
run_code deterministic_published = 4
run_code ai_pending = 5
run_code ai_partial = 6
run_code ai_failed = 7
run_code enriched = 8
run_code cancelled = 9
run_code RunStatus.superseded = 10

abbrev pub task_code : TaskStatus → ℕ
task_code pending = 0
task_code running = 1
task_code failed = 2
task_code completed = 3
task_code TaskStatus.superseded = 4

pub run_beq_iff : (a b : RunStatus) → (nat_beq (run_code a) (run_code b) ≡ true) ↔ (a ≡ b)
run_beq_iff a b = ground arith

pub task_beq_iff : (a b : TaskStatus) → (nat_beq (task_code a) (task_code b) ≡ true) ↔ (a ≡ b)
task_beq_iff a b = ground arith

instance abbrev pub run_status_eq : Eq RunStatus
run_status_eq = record { beq = λ a b. nat_beq (run_code a) (run_code b); beq_iff = run_beq_iff }

instance abbrev pub task_status_eq : Eq TaskStatus
task_status_eq = record { beq = λ a b. nat_beq (task_code a) (task_code b); beq_iff = task_beq_iff }

-- `status in _RUN_TRANSITIONS`, the test of `_require_run_status`
unfoldable pub run_status? : String → Option RunStatus
run_status? s =
    if s == "created"
    then some created
    else if s == "collecting"
    then some collecting
    else if s == "collection_partial"
    then some collection_partial
    else if s == "deterministic_ready"
    then some deterministic_ready
    else if s == "deterministic_published"
    then some deterministic_published
    else if s == "ai_pending"
    then some ai_pending
    else if s == "ai_partial"
    then some ai_partial
    else if s == "ai_failed"
    then some ai_failed
    else if s == "enriched"
    then some enriched
    else if s == "cancelled"
    then some cancelled
    else if s == "superseded"
    then some RunStatus.superseded
    else none

-- `status not in _TASK_TRANSITIONS`
unfoldable pub task_status? : String → Option TaskStatus
task_status? s =
    if s == "pending"
    then some pending
    else if s == "running"
    then some running
    else if s == "failed"
    then some failed
    else if s == "completed"
    then some completed
    else if s == "superseded"
    then some TaskStatus.superseded
    else none

-- `status in _RUN_TRANSITIONS[current]`, `status in _TASK_TRANSITIONS[current]`
abbrev pub run_allows : RunStatus → RunStatus → Bool
run_allows current status = elem status (run_transitions current)

abbrev pub task_allows : TaskStatus → TaskStatus → Bool
task_allows current status = elem status (task_transitions current)

abbrev pub RunPath : RunStatus → RunStatus → Type 0
RunPath = Chain run_allows

abbrev pub TaskPath : TaskStatus → TaskStatus → Type 0
TaskPath = Chain task_allows

pub run_final : (a d : RunStatus) → run_transitions a ≡ [] → run_allows a d ≡ false
run_final a d f = rw f

-- ===== src/Scheduler/Loop.antt =====
-- `_run_parallel` of julius/collection/scheduler.py. Which futures a `wait` reports and which
-- sources raise `RequiredCollectionError` is the environment's choice.
use julius.Common.{
  min, nat_eq, sort, ℕ, zero, suc, String, Bool, true, false, not, ◌&&◌, Option, none, some, List,
  [], ◌∷◌, ◌++◌, elem, select, length, leb, ltb, ◌==◌, string_eq, find?, if◌then◌else◌,
}
use julius.Scheduler.Sources.{Source, names, subset, released_before, applied_before}

pub record State : Type 0 where
  pub pending : List Source
  pub running : List Source
  pub completed : List String

pub data Outcome : Type 0 where
  finished : State → Outcome
  raised : Source → State → Outcome
  blocked : State → Outcome
  out_of_rounds : State → Outcome

pub record Environment : Type 0 where
  pub raises : Source → Bool
  pub reports : State → Source → Bool

abbrev pub without : String → List Source → List Source
without n = select (λ s. not (s.name == n))

-- pool.submit(…); running[future] = source; pending.pop(source.name)
abbrev pub submit : Source → State → State
submit s st = record st { pending = without s.name st.pending; running = st.running ++ s ∷ [] }

-- entries[…] = apply_result(result); completed.add(source.name)
abbrev pub settle : Source → State → State
settle s st = record st {
  running = without s.name st.running;
  completed = st.completed ++ s.name ∷ [];
}

-- for source in ready: …
unfoldable pub submit_ready : ℕ → List Source → State → State
submit_ready workers [] st = st
submit_ready workers (s ∷ rest) st =
    let more = submit_ready workers rest (if s.parallel_safe then submit s st else st) in
    if leb workers (length st.running) then st else more

-- for future in sorted(done, …): …
unfoldable pub settle_all : (Source → Bool) → List Source → State → Outcome
settle_all raises [] st = finished st
settle_all raises (s ∷ rest) st =
    let more = settle_all raises rest (settle s st) in
    if raises s then raised s (record st { running = without s.name st.running }) else more

-- An unsafe source runs on the coordinating thread.
abbrev pub run_alone : (Source → Bool) → Source → State → Outcome
run_alone raises u st =
    let st' = record st { pending = without u.name st.pending } in
    if raises u
    then raised u st'
    else finished (record st' { completed = st'.completed ++ u.name ∷ [] })

abbrev pub is_empty : List Source → Bool
is_empty [] = true
is_empty (x ∷ xs) = false

module _ (sources : List Source) (workers : ℕ) (env : Environment) where
  unfoldable pub ready : State → List Source
  ready st =
      sort (released_before sources)
        (select (λ s. elem s.name (names st.pending) && subset s.depends_on st.completed) sources)

  -- sorted(done, key=…)
  unfoldable pub done : State → List Source
  done st = sort (applied_before sources) (select (env.reports st) st.running)

  -- The rest of the loop's body, from `unsafe = next(…)` on.
  unfoldable pub after_submission : State → Option Source → Bool → Outcome
  unfolding settle_all
  after_submission st (some u) scheduled =
      if is_empty st.running then run_alone env.raises u st else settle_all env.raises (done st) st
  after_submission st none scheduled =
      if is_empty st.running
      then if not (is_empty st.pending) && not scheduled then blocked st else finished st
      else settle_all env.raises (done st) st

  -- One round of `while pending or running`.
  unfoldable pub round : State → Outcome
  unfolding submit_ready ready after_submission
  round st =
      let st' = submit_ready workers (ready st) st in
      after_submission st' (find? (λ s. not s.parallel_safe) (ready st))
        (ltb (length st.running) (length st'.running))

  -- Every round settles a source, so that their number is fuel enough.
  unfoldable pub rounds : ℕ → State → Outcome
  unfolding round
  rounds zero st =
      if is_empty st.pending && is_empty st.running then finished st else out_of_rounds st
  rounds (suc fuel) st =
      let next : Outcome = elim (round st) [ finished st' ↦ rounds fuel st' | stop ↦ stop ] in
      if is_empty st.pending && is_empty st.running then finished st else next

-- A call of `_run_parallel`: ValueError from ThreadPoolExecutor for a pool without threads, or
-- what the loop comes to.
pub data Call : Type 0 where
  no_threads : Call
  ran : Outcome → Call

unfoldable pub run_parallel : List Source → ℕ → Environment → List String → Call
unfolding rounds
run_parallel sources workers env resumed =
    if min workers (length sources) == 0
    then no_threads
    else ran (
        rounds sources workers env (length sources) (record {
          pending = select (λ s. not (elem s.name resumed)) sources;
          running = [];
          completed = resumed;
        }))

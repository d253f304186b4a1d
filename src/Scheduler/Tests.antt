-- ===== src/Scheduler/Tests.antt =====
-- The scheduler and a limiter on three sources of the collection.
use julius.Common.{
  ◌+◌, ◌*◌, ◌≤◌, ◌≡◌, refl, Bool, true, false, not, List, [], ◌∷◌, String, select, elem, string_eq,
  max, arith, any, all, ◌&&◌,
}
use julius.Scheduler.Sources.{Source}
use julius.Scheduler.Loop.{Environment, run_parallel, ran, State, finished, is_empty}
use julius.Scheduler.Kahn.{is_applied}
use julius.Scheduler.Advancing.{Answers}
use julius.Scheduler.Completes.{run_parallel-Complete}
use julius.Scheduler.Validation.{valid, validate}
use julius.Scheduler.Refines.{Runs, run_parallel-Steps}
use julius.Scheduler.Limiter.{
  Limiter, limiter, acquire, release, reduced, enter, leave, Steps, here, next, InBounds,
  limiter-InBounds, release_adapts,
}

abbrev source : String → List String → Bool → Source
source n deps safe = record {
  name = n;
  depends_on = deps;
  services = "s3" ∷ [];
  parallel_safe = safe;
}

abbrev three_sources : List Source
three_sources =
    source "costs" [] true ∷ source "jobs" [] false ∷ source "runs" ("jobs" ∷ []) true ∷ []

abbrev all_report : Environment
all_report = record { raises = λ s. false; reports = λ st s. true }

three_sources-valid : validate three_sources ≡ valid
unfolding validate select
three_sources-valid = refl

run_parallel-Steps_example :
    Runs three_sources 2
      (record {
        pending = select (λ s. not (elem s.name ("costs" ∷ []))) three_sources;
        running = [];
        completed = "costs" ∷ [];
      })
      (run_parallel three_sources 2 all_report ("costs" ∷ []))
run_parallel-Steps_example =
    run_parallel-Steps three_sources 2 all_report ("costs" ∷ []) three_sources-valid

abbrev one_inside : Limiter
one_inside = acquire (limiter 4)

throttled_once : Steps (limiter 4) (release true one_inside)
unfolding limiter acquire release
throttled_once = next one_inside (enter (limiter 4) refl) (
    next (release true one_inside) (leave one_inside true (omega arith))
      (here (release true one_inside)))

limiter-InBounds_example : InBounds (max 1 4) (release true one_inside)
limiter-InBounds_example = limiter-InBounds 4 (release true one_inside) throttled_once

release_adapts_example :
    (true ≡ true
      → 2 ≤ one_inside.limit
      → ((release true one_inside).limit * 2 ≤ one_inside.limit) × (reduced true one_inside ≡ true))
    × (true ≡ false
        → (one_inside.limit ≤ (release true one_inside).limit)
          × ((release true one_inside).limit ≤ one_inside.limit + 1)
          × (reduced true one_inside ≡ false))
release_adapts_example = release_adapts true one_inside

all_report-Answers : Answers all_report
all_report-Answers = record { quiet = λ s. refl; reports = λ st busy. some_reports st.running busy }
  where
    some_reports : (xs : List Source) → is_empty xs ≡ false → any (λ s. true) xs ≡ true
    some_reports [] h = cc
    some_reports (x ∷ xs) h = refl

run_parallel-Complete_example :
    (t : State) × (run_parallel three_sources 2 all_report ("costs" ∷ []) ≡ ran (finished t))
    × ((is_empty t.pending && is_empty t.running) ≡ true)
    × (all (is_applied t.completed) three_sources ≡ true)
run_parallel-Complete_example =
    run_parallel-Complete three_sources 2 all_report ("costs" ∷ []) all_report-Answers (omega arith)
      refl three_sources-valid

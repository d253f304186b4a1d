-- ===== src/Scheduler/Validation.antt =====
-- `_validate` of julius/collection/scheduler.py.
use julius.Common.{
  ℕ, zero, suc, String, Bool, true, not, ◌&&◌, List, [], ◌∷◌, ◌++◌, elem, all, any, select, length,
  string_eq, if◌then◌else◌,
}
use julius.Scheduler.Sources.{Source, names, subset}

pub data Invalid : Type 0 where
  duplicated unknown_dependency cycle out_of_rounds : Invalid

pub data Verdict : Type 0 where
  valid : Verdict
  invalid : Invalid → Verdict

-- len(names) == len(set(names))
unfoldable pub no_duplicates : List String → Bool
no_duplicates [] = true
no_duplicates (n ∷ ns) = not (elem n ns) && no_duplicates ns

abbrev pub ready_in : List String → Source → Bool
ready_in resolved s = subset s.depends_on resolved

-- `while remaining`: the sources whose dependencies are resolved leave together. One round takes at
-- least one of them, so that the number of sources is fuel enough.
unfoldable pub resolve : ℕ → List Source → List String → Verdict
resolve fuel [] resolved = valid
resolve zero (s ∷ rest) resolved = invalid out_of_rounds
resolve (suc fuel) (s ∷ rest) resolved =
    let remaining = s ∷ rest in
    let next =
      resolve fuel (select (λ t. not (ready_in resolved t)) remaining)
        (resolved ++ names (select (ready_in resolved) remaining)) in
    if any (ready_in resolved) remaining then next else invalid cycle

unfoldable pub validate : List Source → Verdict
unfolding resolve no_duplicates
validate sources =
    if no_duplicates (names sources)
    then if all (λ s. subset s.depends_on (names sources)) sources
      then resolve (length sources) sources []
      else invalid unknown_dependency
    else invalid duplicated

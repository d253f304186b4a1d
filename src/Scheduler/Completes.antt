-- ===== src/Scheduler/Completes.antt =====
-- The loop of `_run_parallel` of julius/collection/scheduler.py comes to its end.
use julius.Common.{
  min, ap, ◌==◌, nat_eq, ℕ, zero, suc, ◌≤◌, String, ◌≡◌, refl, true, false, not, ◌&&◌, List, [],
  ◌∷◌, elem, all, select, length, count_where, string_eq, Bool-cases, inl, inr, arith, eq_iff, All,
}
use julius.Scheduler.Sources.{Source, names}
use julius.Scheduler.Validation.{valid, validate}
use julius.Scheduler.Loop.{
  State, Outcome, finished, raised, blocked, out_of_rounds, Environment, is_empty, round, rounds,
  run_parallel, ran,
}
use julius.Scheduler.Names.{All-names}
use julius.Scheduler.Kahn.{is_applied}
use julius.Scheduler.Progress.{left, left-less, Inv}
use julius.Scheduler.Advancing.{Answers, Advances, unapplied, round-Advances}

module _ (sources : List Source) (workers : ℕ) (env : Environment) where
  -- A run that returns with nothing waiting or in flight, and every source applied.
  abbrev Complete : Outcome → Type 0
  Complete (finished t) =
      ((is_empty t.pending && is_empty t.running) ≡ true)
      × (all (is_applied t.completed) sources ≡ true)
  Complete (raised s t) = ⊥
  Complete (blocked t) = ⊥
  Complete (out_of_rounds t) = ⊥

  all_placed :
      (st : State)
      → Inv sources st
      → (is_empty st.pending && is_empty st.running) ≡ true
      → all (is_applied st.completed) sources ≡ true
  all_placed st i h = go sources (All-names sources)
    where
      nowhere : (m : String) (xs : List Source) → is_empty xs ≡ true → elem m (names xs) ≡ false
      nowhere m [] e = refl
      nowhere m (x ∷ xs) e = cc

      go :
          (xs : List Source)
          → All (λ s. elem s.name (names sources) ≡ true) xs
          → all (is_applied st.completed) xs ≡ true
      go [] a = refl
      go (s ∷ xs) (m, a) =
          ground
            (arith, i s.name, m, h, nowhere s.name st.pending, nowhere s.name st.running, go xs a)

  go_on :
      (fuel : ℕ) (before : ℕ) (o : Outcome)
      → before ≤ suc fuel
      → ((t : State)
          → Inv sources t
          → left sources t.completed ≤ fuel
          → Complete (rounds sources workers env fuel t))
      → Advances sources workers env before o
      → Complete (elim o [ finished st' ↦ rounds sources workers env fuel st' | stop ↦ stop ])
  go_on fuel before (finished t) b ih (i, l) = ih t i (omega (arith, b, l))
  go_on fuel before (raised s t) b ih a = absurd a
  go_on fuel before (blocked t) b ih a = absurd a
  go_on fuel before (out_of_rounds t) b ih a = absurd a

  rounds-Complete :
      Answers env
      → 1 ≤ workers
      → validate sources ≡ valid
      → (fuel : ℕ) (st : State) → Inv sources st
      → left sources st.completed ≤ fuel
      → Complete (rounds sources workers env fuel st)
  unfolding rounds
  rounds-Complete answers w v zero st i l =
      elim (Bool-cases (is_empty st.pending && is_empty st.running)) [
        | inl e ↦ simp e (refl, all_placed st i e)
        | inr e ↦
            let (n, known, out) = unapplied sources workers env st i e in
            absurd (omega (arith, l, left-less sources st.completed n known out))
      ]
  rounds-Complete answers w v (suc fuel) st i l =
      elim (Bool-cases (is_empty st.pending && is_empty st.running)) [
        | inl e ↦ simp e (refl, all_placed st i e)
        | inr e ↦ simp e (
            go_on fuel (left sources st.completed) (round sources workers env st) l
              (rounds-Complete answers w v fuel)
              (round-Advances sources workers env answers w v st i e))
      ]

left-length :
    (sources : List Source) (completed : List String) → left sources completed ≤ length sources
unfolding left count_where
left-length [] completed = omega arith
left-length (s ∷ rest) completed = ground (arith, left-length rest completed)

waiting :
    (n : String) (resumed : List String) (sources : List Source)
    → elem n (names (select (λ s. not (elem s.name resumed)) sources))
      ≡ (elem n (names sources) && not (elem n resumed))
unfolding select
waiting n resumed [] = refl
waiting n resumed (s ∷ rest) = ground (arith, eq_iff s.name n, waiting n resumed rest)

-- With at least one worker and one source, and an environment in which no source raises and every wait on sources
-- in flight reports one of them, a run over a list of sources that `_validate` accepts is never
-- blocked and needs no more rounds than there are sources: it returns, with nothing waiting or in
-- flight and every source applied, those that were resumed included.
pub run_parallel-Complete :
    (sources : List Source) (workers : ℕ) (env : Environment) (resumed : List String)
    → Answers env
    → 1 ≤ workers
    → is_empty sources ≡ false
    → validate sources ≡ valid
    → (t : State) × (run_parallel sources workers env resumed ≡ ran (finished t))
      × ((is_empty t.pending && is_empty t.running) ≡ true)
      × (all (is_applied t.completed) sources ≡ true)
unfolding run_parallel
run_parallel-Complete sources workers env resumed answers w some_source v =
    let start : State = record {
      pending = select (λ s. not (elem s.name resumed)) sources;
      running = [];
      completed = resumed;
    } in
    let (t, goes, end, placed) = returned (rounds sources workers env (length sources) start) (
      rounds-Complete sources workers env answers w v (length sources) start
        (λ n. ground (arith, waiting n resumed sources)) (left-length sources resumed)) in
    (t, rw (has_threads sources some_source) (ap ran goes), end, placed)
  where
    has_threads : (xs : List Source) → is_empty xs ≡ false → (min workers (length xs) == 0) ≡ false
    has_threads [] h = absurd (ground (arith, h))
    has_threads (x ∷ xs) h = ground (arith, w)

    returned :
        (o : Outcome)
        → Complete sources workers env o
        → (t : State) × (o ≡ finished t)
          × ((is_empty t.pending && is_empty t.running) ≡ true)
          × (all (is_applied t.completed) sources ≡ true)
    returned (finished t) (e, a) = (t, refl, e, a)
    returned (raised s t) h = absurd h
    returned (blocked t) h = absurd h
    returned (out_of_rounds t) h = absurd h

-- ===== src/Scheduler/Refines.antt =====
-- The loop of `_run_parallel` keeps the promise of `Spec`, whatever the environment chooses.
use julius.Common.{
  IsIn, All-IsIn, min, false, ◌==◌, nat_eq, ℕ, zero, suc, String, ◌≡◌, refl, sym, subst, Bool, true,
  not, ◌&&◌, Option, none, some, List, [], ◌∷◌, elem, length, string_eq, All, All-select, select,
  find?, arith, Bool-cases, inl, inr, and_both,
}
use julius.Scheduler.Sources.{Source, names, subset, released_before, applied_before}
use julius.Scheduler.Loop.{
  State, Outcome, finished, raised, blocked, out_of_rounds, Environment, submit_ready, settle_all,
  run_alone, is_empty, ready, done, after_submission, round, rounds, run_parallel, Call, no_threads,
  ran,
}
use julius.Scheduler.Validation.{valid, validate, no_duplicates}
use julius.Scheduler.Names.{
  All-names, All-sort, Unique-of_no_duplicates, Unique-select, Unique-sort, IsIn-named,
}
use julius.Scheduler.Batches.{settle_all-Settled, Settled-Reaches}
use julius.Scheduler.Books.{Books, Steps-Books}
use julius.Scheduler.Submission.{
  IsReady, submit_ready-Steps, submit_ready-completed, submit_ready-idle,
}
use julius.Scheduler.Spec.{Unique, MayRunAlone, alone, here, next, Reaches, Reaches-trans}

pub All-find? :
    (P : Source → Type 0) (p : Source → Bool) (xs : List Source) {a : Source}
    → All P xs
    → find? p xs ≡ some a
    → P a
unfolding find?
All-find? P p [] h e = absurd (ground arith)
All-find? P p (x ∷ xs) {a} (q, h) e = elim (Bool-cases (p x)) [
  | inl t ↦ let same : x ≡ a = ground (arith, t) in subst P same q
  | inr t ↦ All-find? P p xs h (ground (arith, t))
]

find?-holds : (p : Source → Bool) (xs : List Source) {a : Source} → find? p xs ≡ some a → p a ≡ true
unfolding find?
find?-holds p [] e = absurd (ground (arith, e))
find?-holds p (x ∷ xs) {a} e = elim (Bool-cases (p x)) [
  | inl t ↦ let same : x ≡ a = ground (arith, t, e) in subst (λ y. p y ≡ true) same t
  | inr t ↦ find?-holds p xs (ground (arith, t, e))
]

pub empty-nil : (xs : List Source) → is_empty xs ≡ true → xs ≡ []
empty-nil [] h = refl
empty-nil (x ∷ xs) h = cc

module _ (sources : List Source) (workers : ℕ) (env : Environment) where
  pub ready-IsReady :
      (st : State) → All (IsReady st.pending st.completed) (ready sources workers env st)
  unfolding ready
  ready-IsReady st = All-sort (IsReady st.pending st.completed) (released_before sources) _ (
      All-select {P = λ s. elem s.name (names sources) ≡ true} _ sources
        (λ s _ h. and_both (elem s.name (names st.pending)) (subset s.depends_on st.completed) h)
        (All-names sources))

  pub ready-Unique : (st : State) → Unique sources → Unique (ready sources workers env st)
  unfolding ready
  ready-Unique st u = Unique-sort (released_before sources) _ (Unique-select _ sources u)

  pub done-running :
      (st : State) → All (λ s. elem s.name (names st.running) ≡ true) (done sources workers env st)
  unfolding done
  done-running st =
      All-sort (λ s. elem s.name (names st.running) ≡ true) (applied_before sources) _
        (All-select {P = λ s. elem s.name (names st.running) ≡ true} _ st.running (λ s h _. h)
          (All-names st.running))

  abbrev Known : State → Type 0
  Known = Books sources

  ready-IsIn :
      Unique sources
      → (st : State) → Known st
      → All (λ s. IsIn s st.pending) (ready sources workers env st)
  unfolding ready
  ready-IsIn u st k =
      All-sort (λ s. IsIn s st.pending) (released_before sources) _
        (All-select {P = λ s. IsIn s sources} _ sources
          (λ s i h.
            IsIn-named sources s st.pending u i k.known
              (and_both (elem s.name (names st.pending)) (subset s.depends_on st.completed) h).0)
          (All-IsIn sources))

  done-IsIn : (st : State) → All (λ s. IsIn s st.running) (done sources workers env st)
  unfolding done
  done-IsIn st =
      All-sort (λ s. IsIn s st.running) (applied_before sources) _
        (All-select {P = λ s. IsIn s st.running} _ st.running (λ s h _. h) (All-IsIn st.running))

  done-Unique : (st : State) → Unique st.running → Unique (done sources workers env st)
  unfolding done
  done-Unique st u = Unique-sort (applied_before sources) _ (Unique-select _ st.running u)

  report-Reaches :
      (st : State)
      → Known st
      → Reaches workers st (settle_all env.raises (done sources workers env st) st)
  report-Reaches st k =
      Settled-Reaches workers (done sources workers env st) st _ (done-IsIn st)
        (done-Unique st k.flying)
        (settle_all-Settled workers env.raises (done sources workers env st) st)

  run_alone-Reaches :
      (u : Source) (st : State) → MayRunAlone u st → Reaches workers st (run_alone env.raises u st)
  run_alone-Reaches u st m = elim (Bool-cases (env.raises u)) [
    | inl t ↦ simp t (st, here st, inl (m, refl))
    | inr t ↦ simp t (next _ (alone u st m) (here _))
  ]

  after_submission-Reaches :
      (st : State) (o : Option Source) (scheduled : Bool)
      → Known st
      → ((u : Source) → o ≡ some u → is_empty st.running ≡ true → MayRunAlone u st)
      → Reaches workers st (after_submission sources workers env st o scheduled)
  unfolding after_submission
  after_submission-Reaches st (some u) scheduled k r = elim (Bool-cases (is_empty st.running)) [
    | inl e ↦ simp e (run_alone-Reaches u st (r u refl e))
    | inr e ↦ simp e (report-Reaches st k)
  ]
  after_submission-Reaches st none scheduled k r = elim (Bool-cases (is_empty st.running)) [
    | inl e ↦ elim (Bool-cases (not (is_empty st.pending) && not scheduled)) [
      | inl b ↦ simp (e, b) (here st)
      | inr b ↦ simp (e, b) (here st)
    ]
    | inr e ↦ simp e (report-Reaches st k)
  ]

  -- The first ready source that is not parallel-safe, where the submission left nothing in flight.
  unsafe-MayRunAlone :
      Unique sources
      → (st : State) → Known st
      → (u : Source) → find? (λ s. not s.parallel_safe) (ready sources workers env st) ≡ some u
      → is_empty (submit_ready workers (ready sources workers env st) st).running ≡ true
      → MayRunAlone u (submit_ready workers (ready sources workers env st) st)
  unsafe-MayRunAlone unique st k u e idle =
      let rs = ready sources workers env st in
      let unsafe : u.parallel_safe ≡ false =
        ground (arith, find?-holds (λ s. not s.parallel_safe) rs e) in
      let waits =
        All-find? (λ s. IsIn s st.pending) (λ s. not s.parallel_safe) rs (ready-IsIn unique st k)
          e in
      let can =
        All-find? (IsReady st.pending st.completed) (λ s. not s.parallel_safe) rs (ready-IsReady st)
          e in
      (
        subst (IsIn u) (sym (submit_ready-idle workers rs st idle)) waits,
        subst (λ c. subset u.depends_on c ≡ true) (sym (submit_ready-completed workers rs st))
            can.1,
        unsafe,
        empty-nil (submit_ready workers rs st).running idle,
      )

  round-Reaches :
      Unique sources → (st : State) → Known st → Reaches workers st (round sources workers env st)
  unfolding round
  round-Reaches unique st k =
      let rs = ready sources workers env st in
      let steps =
        submit_ready-Steps workers rs st (ready-Unique st unique) (ready-IsReady st)
          (ready-IsIn unique st k) in
      let st' = submit_ready workers rs st in
      Reaches-trans workers st st' _ steps (
        after_submission-Reaches st' _ _ (Steps-Books sources workers st st' steps k)
          (unsafe-MayRunAlone unique st k))

  continue-Reaches :
      (fuel : ℕ) (st : State) (o : Outcome)
      → Known st
      → ((t : State) → Known t → Reaches workers t (rounds sources workers env fuel t))
      → Reaches workers st o
      → Reaches workers st
          (elim o [ finished st' ↦ rounds sources workers env fuel st' | stop ↦ stop ])
  continue-Reaches fuel st (finished t) k ih h =
      Reaches-trans workers st t _ h (ih t (Steps-Books sources workers st t h k))
  continue-Reaches fuel st (raised s t) k ih h = h
  continue-Reaches fuel st (blocked t) k ih h = h
  continue-Reaches fuel st (out_of_rounds t) k ih h = h

  rounds-Reaches :
      Unique sources
      → (fuel : ℕ) (st : State) → Known st
      → Reaches workers st (rounds sources workers env fuel st)
  unfolding rounds
  rounds-Reaches unique zero st k = elim (Bool-cases (is_empty st.pending && is_empty st.running)) [
    | inl e ↦ simp e (here st)
    | inr e ↦ simp e (here st)
  ]
  rounds-Reaches unique (suc fuel) st k =
      elim (Bool-cases (is_empty st.pending && is_empty st.running)) [
        | inl e ↦ simp e (here st)
        | inr e ↦ simp e (
            continue-Reaches fuel st (round sources workers env st) k (rounds-Reaches unique fuel)
              (round-Reaches unique st k))
      ]

pub valid-Unique : (sources : List Source) → validate sources ≡ valid → Unique sources
unfolding validate
valid-Unique sources h =
    Unique-of_no_duplicates sources (elim (Bool-cases (no_duplicates (names sources))) [
      | inl e ↦ e
      | inr e ↦ absurd (ground (arith, e))
    ])

-- Where a call gets to from a state.
abbrev pub Runs : List Source → ℕ → State → Call → Type 0
Runs sources workers st no_threads = min workers (length sources) ≡ 0
Runs sources workers st (ran o) = Reaches workers st o

-- For a list of sources that `_validate` accepts: whichever sources the environment lets finish
-- first or raise, a run of the scheduler goes by the steps of its promise alone, from its start to
-- the state that it returns or stops in. One of the sources that wait starts or runs only when its
-- dependencies are applied: with nothing in flight if it is not parallel-safe, and otherwise with
-- fewer sources in flight than workers; and only what is in flight is applied, once. A source that raises
-- was in flight, or due to run alone, behind such steps. A pool without threads is refused only where
-- there is no worker or no source.
pub run_parallel-Steps :
    (sources : List Source) (workers : ℕ) (env : Environment) (resumed : List String)
    → validate sources ≡ valid
    → Runs sources workers
        (record {
          pending = select (λ s. not (elem s.name resumed)) sources;
          running = [];
          completed = resumed;
        })
        (run_parallel sources workers env resumed)
unfolding run_parallel
run_parallel-Steps sources workers env resumed h =
    elim (Bool-cases (min workers (length sources) == 0)) [
      | inl e ↦ simp e (ground (arith, e))
      | inr e ↦ simp e (
          rounds-Reaches sources workers env (valid-Unique sources h) (length sources) _ (record {
            known = All-select {P = λ s. IsIn s sources} _ sources (λ s i _. i) (All-IsIn sources);
            waiting = Unique-select _ sources (valid-Unique sources h);
            flying = tt;
            apart =
                All-select {P = λ s. IsIn s sources} _ sources (λ s _ _. refl) (All-IsIn sources);
          }))
    ]

-- ===== src/Scheduler/Advancing.antt =====
-- Every round of `_run_parallel` of julius/collection/scheduler.py leaves fewer sources.
use julius.Common.{
  ℕ, ◌≤◌, ◌<◌, String, ◌≡◌, refl, sym, subst, Bool, true, false, not, ◌&&◌, Option, none, some,
  List, [], ◌∷◌, elem, any, all, length, leb, find?, string_eq, Bool-cases, inl, inr, arith, eq_iff,
  All, All-weaken,
}
use julius.Scheduler.Sources.{Source, names, released_before, applied_before}
use julius.Scheduler.Validation.{valid, validate, resolve}
use julius.Scheduler.Loop.{
  State, Outcome, finished, raised, blocked, out_of_rounds, Environment, submit, settle,
  submit_ready, settle_all, run_alone, is_empty, ready, done, after_submission, round,
}
use julius.Scheduler.Spec.{Unique, settle_many}
use julius.Scheduler.Names.{All-names, All-other}
use julius.Scheduler.Kahn.{is_applied, is_next, resolve-progress}
use julius.Scheduler.Progress.{
  left, left-less, Inv, submit-Inv, Takes, settle_many-Inv, settle_many-left, alone-Inv,
  settle_all-finished, is_empty-select, is_empty-sort,
}
use julius.Scheduler.Submission.{
  IsReady, IsReady-without, is_empty-append, submit_ready-completed, submit_ready-idle,
  submit_ready-busy,
}
use julius.Scheduler.Refines.{ready-IsReady, ready-Unique, done-running, valid-Unique, All-find?}

-- What an environment is assumed to do: no source raises, and a `wait` on sources in flight
-- reports one of them.
pub record Answers (env : Environment) : Type 0 where
  pub quiet : (s : Source) → env.raises s ≡ false
  pub reports : (st : State) → is_empty st.running ≡ false → any (env.reports st) st.running ≡ true

any_mono :
    (p q : Source → Bool) (xs : List Source)
    → All (λ s. p s ≡ true → q s ≡ true) xs
    → any p xs ≡ true
    → any q xs ≡ true
any_mono p q [] a h = h
any_mono p q (x ∷ xs) (i, a) h = ground (arith, i, any_mono p q xs a)

not_all-any :
    (applied : List String) (xs : List Source) (n : String)
    → elem n (names xs) ≡ true
    → elem n applied ≡ false
    → all (is_applied applied) xs ≡ false
not_all-any applied [] n m h = cc
not_all-any applied (x ∷ xs) n m h = ground (arith, eq_iff x.name n, not_all-any applied xs n)

module _ (sources : List Source) (workers : ℕ) where
  submit_ready-Inv :
      (rs : List Source) (st : State)
      → Unique rs
      → All (IsReady st.pending st.completed) rs
      → Inv sources st
      → Inv sources (submit_ready workers rs st)
  unfolding submit_ready
  submit_ready-Inv [] st u a i = i
  submit_ready-Inv (s ∷ rest) st (new, u) ((w, p), a) i =
      elim (Bool-cases (leb workers (length st.running))) [
        | inl full ↦ simp full i
        | inr room ↦ elim (Bool-cases s.parallel_safe) [
          | inl safe ↦
              simp (room, safe)
                (submit_ready-Inv rest (submit s st) u
                  (IsReady-without s.name st.pending st.completed rest (All-other s.name rest new)
                    a)
                  (submit-Inv sources s st w i))
          | inr unsafe ↦ simp (room, unsafe) (submit_ready-Inv rest st u a i)
        ]
      ]

  -- Where nothing is in flight, a round submits a source or meets one that is not parallel-safe.
  submits :
      (rs : List Source) (st : State)
      → 1 ≤ workers
      → is_empty rs ≡ false
      → is_empty st.running ≡ true
      → find? (λ s. not s.parallel_safe) rs ≡ none
      → is_empty (submit_ready workers rs st).running ≡ false
  unfolding submit_ready find?
  submits [] st w e idle f = cc
  submits (s ∷ rest) st w e idle f = elim (Bool-cases s.parallel_safe) [
    | inl safe ↦
        let room : leb workers (length st.running) ≡ false = has_room st.running idle in
        simp (room, safe)
          (submit_ready-busy workers rest (submit s st) (is_empty-append s st.running))
    | inr unsafe ↦ absurd (ground (arith, unsafe))
  ]
    where
      has_room : (xs : List Source) → is_empty xs ≡ true → leb workers (length xs) ≡ false
      has_room [] h = ground arith
      has_room (x ∷ xs) h = cc

module _ (sources : List Source) (workers : ℕ) (env : Environment) where
  -- A round that returns with the books in order and fewer sources left.
  abbrev pub Advances : ℕ → Outcome → Type 0
  Advances before (finished t) = Inv sources t × (left sources t.completed < before)
  Advances before (raised s t) = ⊥
  Advances before (blocked t) = ⊥
  Advances before (out_of_rounds t) = ⊥

  settle_many-less :
      (batch : List Source) (st : State)
      → Inv sources st
      → is_empty batch ≡ false
      → All (λ s. elem s.name (names st.running) ≡ true) batch
      → left sources (settle_many batch st).completed < left sources st.completed
  settle_many-less [] st i e a = cc
  settle_many-less (s ∷ rest) st i e (m, a) =
      let (out, known) = (i s.name).2 m in
      omega (
        arith,
        left-less sources st.completed s.name known out,
        settle_many-left sources rest (settle s st),
      )

  done-nonempty :
      Answers env
      → (st : State) → is_empty st.running ≡ false
      → is_empty (done sources workers env st) ≡ false
  unfolding done
  done-nonempty answers st busy =
      is_empty-sort (applied_before sources) _
        (is_empty-select (env.reports st) st.running (answers.reports st busy))

  report-Advances :
      Answers env
      → (st : State) → Inv sources st
      → is_empty st.running ≡ false
      → Advances
          (left sources st.completed)
          (settle_all env.raises (done sources workers env st) st)
  report-Advances answers st i busy =
      let batch = done sources workers env st in
      let flying = done-running sources workers env st in
      let taken : All (Takes sources st) batch =
        All-weaken batch (λ s m. ground (arith, i s.name)) flying in
      subst (Advances (left sources st.completed))
        (sym (settle_all-finished sources env.raises batch st answers.quiet))
        (
          settle_many-Inv sources batch st taken i,
          settle_many-less batch st i (done-nonempty answers st busy) flying,
        )

  alone-Advances :
      Answers env
      → (u : Source) (st : State) → Inv sources st
      → elem u.name (names st.pending) ≡ true
      → Advances (left sources st.completed) (run_alone env.raises u st)
  alone-Advances answers u st i w =
      let (out, _, known) = (i u.name).1 w in
      simp (answers.quiet u)
        (alone-Inv sources u st w i, left-less sources st.completed u.name known out)

  -- A name that waits or is in flight is not applied.
  pub unapplied :
      (st : State)
      → Inv sources st
      → (is_empty st.pending && is_empty st.running) ≡ false
      → (n : String) × (elem n (names sources) ≡ true) × (elem n st.completed ≡ false)
  unapplied st i h = go st.pending st.running refl refl
    where
      go :
          (ps rs : List Source)
          → st.pending ≡ ps
          → st.running ≡ rs
          → (n : String) × (elem n (names sources) ≡ true) × (elem n st.completed ≡ false)
      go [] [] e f = absurd (ground (arith, h, e, f))
      go (p ∷ ps) rs e f =
          let here_it : elem p.name (names st.pending) ≡ true =
            rw e (ground (arith, eq_iff p.name p.name)) in
          let (out, _, known) = (i p.name).1 here_it in (p.name, known, out)
      go [] (r ∷ rs) e f =
          let here_it : elem r.name (names st.running) ≡ true =
            rw f (ground (arith, eq_iff r.name r.name)) in
          let (out, known) = (i r.name).2 here_it in (r.name, known, out)

  ready-nonempty :
      validate sources ≡ valid
      → (st : State) → Inv sources st
      → is_empty st.running ≡ true
      → (is_empty st.pending && is_empty st.running) ≡ false
      → is_empty (ready sources workers env st) ≡ false
  unfolding ready validate
  ready-nonempty v st i idle h =
      let (n, known, out) = unapplied st i h in
      let goes : resolve (length sources) sources [] ≡ valid = ground (arith, v) in
      elim (resolve-progress st.completed (length sources) sources [] goes refl) [
        | inl e ↦ absurd (ground (arith, e, not_all-any st.completed sources n known out))
        | inr e ↦ is_empty-sort (released_before sources) _ (
            is_empty-select _ sources (
              any_mono (is_next st.completed) _ sources
                (All-weaken sources
                  (λ s m k. ground (arith, i s.name, k, m, nothing_runs s.name st.running idle))
                  (All-names sources))
                e))
      ]
    where
      nothing_runs :
          (m : String) (xs : List Source) → is_empty xs ≡ true → elem m (names xs) ≡ false
      nothing_runs m [] e = refl
      nothing_runs m (x ∷ xs) e = cc

  after_submission-Advances :
      Answers env
      → (st : State) (o : Option Source) (scheduled : Bool) → Inv sources st
      → ((u : Source)
          → o ≡ some u
          → is_empty st.running ≡ true
          → elem u.name (names st.pending) ≡ true)
      → (o ≡ none → is_empty st.running ≡ false)
      → Advances (left sources st.completed) (after_submission sources workers env st o scheduled)
  unfolding after_submission
  after_submission-Advances answers st (some u) scheduled i r n =
      elim (Bool-cases (is_empty st.running)) [
        | inl e ↦ simp e (alone-Advances answers u st i (r u refl e))
        | inr e ↦ simp e (report-Advances answers st i e)
      ]
  after_submission-Advances answers st none scheduled i r n =
      let e = n refl in simp e (report-Advances answers st i e)

  pub round-Advances :
      Answers env
      → 1 ≤ workers
      → validate sources ≡ valid
      → (st : State) → Inv sources st
      → (is_empty st.pending && is_empty st.running) ≡ false
      → Advances (left sources st.completed) (round sources workers env st)
  unfolding round
  round-Advances answers w v st i h =
      let rs = ready sources workers env st in
      let st' = submit_ready workers rs st in
      let can = ready-IsReady sources workers env st in
      let same = submit_ready-completed workers rs st in
      subst (λ c. Advances (left sources c) (round sources workers env st)) same
        (after_submission-Advances answers st' (find? (λ s. not s.parallel_safe) rs) _
          (submit_ready-Inv sources workers rs st
            (ready-Unique sources workers env st (valid-Unique sources v)) can i)
          (λ u e idle.
            subst (λ p. elem u.name (names p) ≡ true) (sym (submit_ready-idle workers rs st idle))
              (All-find? (IsReady st.pending st.completed) (λ s. not s.parallel_safe) rs can e).0)
          (λ e. elim (Bool-cases (is_empty st.running)) [
            | inl idle ↦ submits sources workers rs st w (ready-nonempty v st i idle h) idle e
            | inr busy ↦ submit_ready-busy workers rs st busy
          ]))

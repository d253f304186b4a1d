-- ===== src/Scheduler/Batches.antt =====
-- What `_run_parallel` applies of a wait, and where a source of it raises.
use julius.Common.{
  ◌||◌, eq_iff, IsIn, ◌==◌, nat_eq, ℕ, String, ◌≡◌, refl, sym, ap, subst, Bool, List, [], ◌∷◌, ◌++◌,
  elem, string_eq, All, arith, Bool-cases, inl, inr,
}
use julius.Scheduler.Sources.{Source, names}
use julius.Scheduler.Loop.{
  State, Outcome, finished, raised, blocked, out_of_rounds, settle, settle_all, without,
}
use julius.Scheduler.Spec.{Unique, report, Steps, here, next, Reaches, settle_many}

module _ (workers : ℕ) where
  -- What a batch leaves, if a source of it raises too.
  abbrev pub Settled : List Source → State → Outcome → Type 0
  Settled batch st (finished t) = t ≡ settle_many batch st
  Settled batch st (raised s t) =
      (before : List Source) × (after : List Source) × (batch ≡ before ++ s ∷ after)
      × (t ≡ record (settle_many before st) {
        running = without s.name (settle_many before st).running;
      })
  Settled batch st (blocked t) = ⊥
  Settled batch st (out_of_rounds t) = ⊥

  Settled-cons :
      (s : Source) (rest : List Source) (st : State) (o : Outcome)
      → Settled rest (settle s st) o
      → Settled (s ∷ rest) st o
  Settled-cons s rest st (finished t) h = h
  Settled-cons s rest st (raised x t) (before, after, e, f) =
      (s ∷ before, after, ap (λ (l : List Source). s ∷ l) e, f)
  Settled-cons s rest st (blocked t) h = h
  Settled-cons s rest st (out_of_rounds t) h = h

  pub settle_all-Settled :
      (raises : Source → Bool) (batch : List Source) (st : State)
      → Settled batch st (settle_all raises batch st)
  unfolding settle_all
  settle_all-Settled raises [] st = refl
  settle_all-Settled raises (s ∷ rest) st = elim (Bool-cases (raises s)) [
    | inl e ↦ simp e ([], rest, refl, refl)
    | inr e ↦ simp e (
        Settled-cons s rest st (settle_all raises rest (settle s st))
          (settle_all-Settled raises rest (settle s st)))
  ]

  All-prefix : (P : Source → Type 0) (xs ys : List Source) → All P (xs ++ ys) → All P xs
  All-prefix P [] ys h = tt
  All-prefix P (x ∷ xs) ys (p, h) = (p, All-prefix P xs ys h)

  All-middle :
      (P : Source → Type 0) (xs : List Source) {x : Source} (ys : List Source)
      → All P (xs ++ x ∷ ys)
      → P x
  All-middle P [] ys (p, h) = p
  All-middle P (x ∷ xs) ys (p, h) = All-middle P xs ys h

  Unique-middle :
      (xs : List Source) (s : Source) (ys : List Source) → Unique (xs ++ s ∷ ys) → Unique (s ∷ xs)
  Unique-middle [] s ys u = (refl, tt)
  Unique-middle (x ∷ xs) s ys (f, u) =
      let (g, v) = Unique-middle xs s ys u in
      (
        ground
            (arith, f, g, names-middle x.name xs s ys, eq_iff x.name s.name, eq_iff s.name x.name),
        (ground (arith, f, names-middle x.name xs s ys), v),
      )
    where
      names-middle :
          (n : String) (xs : List Source) (s : Source) (ys : List Source)
          → elem n (names (xs ++ s ∷ ys)) ≡ (elem n (names xs) || s.name == n || elem n (names ys))
      names-middle n [] s ys = ground arith
      names-middle n (x ∷ xs) s ys = ground (arith, names-middle n xs s ys)

  pub Settled-Reaches :
      (batch : List Source) (st : State) (o : Outcome)
      → All (λ s. IsIn s st.running) batch
      → Unique batch
      → Settled batch st o
      → Reaches workers st o
  Settled-Reaches batch st (finished t) a u h =
      subst (Steps workers st) (sym h) (next (settle_many batch st) (report batch st a u) (here _))
  Settled-Reaches batch st (raised s t) a u (before, after, e, f) =
      let all = subst (All (λ x. IsIn x st.running)) e a in
      (
        st,
        here st,
        inr (
          before,
          All-middle (λ x. IsIn x st.running) before after all,
          All-prefix (λ x. IsIn x st.running) before (s ∷ after) all,
          Unique-middle before s after (subst Unique e u),
          f,
        ),
      )
  Settled-Reaches batch st (blocked t) a u h = absurd h
  Settled-Reaches batch st (out_of_rounds t) a u h = absurd h

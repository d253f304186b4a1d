-- ===== src/Scheduler/Spec.antt =====
-- What the scheduler promises, with no order of release and no loop: a source that waits starts only
-- behind its dependencies, one that is not parallel-safe only while nothing is in flight, and never
-- more sources are in flight than there are workers; and where a source raises, it did so in flight,
-- or in a run alone that was due.
use julius.Common.{
  String, elem, select, ℕ, ◌<◌, ◌≡◌, ◌⊎◌, IsIn, true, false, not, ◌==◌, List, [], ◌∷◌, ◌++◌, length,
  string_eq, All,
}
use julius.Scheduler.Sources.{Source, names, subset}
use julius.Scheduler.Loop.{State, Outcome, finished, raised, blocked, out_of_rounds}

-- The sources but the one with a name.
abbrev pub others : String → List Source → List Source
others n = select (λ x. not (x.name == n))

-- A source that waited is in flight.
abbrev pub started : Source → State → State
started s st = record {
  pending = others s.name st.pending;
  running = st.running ++ s ∷ [];
  completed = st.completed;
}

-- A source that was in flight is applied.
abbrev pub applied : Source → State → State
applied s st = record {
  pending = st.pending;
  running = others s.name st.running;
  completed = st.completed ++ s.name ∷ [];
}

-- A wait reports sources in flight; they are applied one after the other.
abbrev pub settle_many : List Source → State → State
settle_many [] st = st
settle_many (s ∷ rest) st = settle_many rest (applied s st)

-- No two sources have the same name.
abbrev pub Unique : List Source → Type 0
Unique [] = Unit
Unique (x ∷ xs) = (elem x.name (names xs) ≡ false) × Unique xs

-- A source that waits, behind its dependencies, while nothing is in flight.
abbrev pub MayRunAlone : Source → State → Type 0
MayRunAlone s st =
    IsIn s st.pending
    × (subset s.depends_on st.completed ≡ true)
    × (s.parallel_safe ≡ false)
    × (st.running ≡ [])

pub data Step (workers : ℕ) : State → State → Type 0 where
  start :
      (s : Source) (st : State)
      → IsIn s st.pending
      → subset s.depends_on st.completed ≡ true
      → s.parallel_safe ≡ true
      → length st.running < workers
      → Step workers st (started s st)
  report :
      (batch : List Source) (st : State)
      → All (λ s. IsIn s st.running) batch
      → Unique batch
      → Step workers st (settle_many batch st)
  alone :
      (s : Source) (st : State)
      → MayRunAlone s st
      → Step workers st (record st {
        pending = others s.name st.pending;
        completed = st.completed ++ s.name ∷ [];
      })

pub data Steps (workers : ℕ) : State → State → Type 0 where
  here : (st : State) → Steps workers st st
  next : {st u : State} (t : State) → Step workers st t → Steps workers t u → Steps workers st u

pub Steps-trans :
    (workers : ℕ) (a b c : State) → Steps workers a b → Steps workers b c → Steps workers a c
Steps-trans workers a b c (here _) q = q
Steps-trans workers a b c (next d s p) q = next d s (Steps-trans workers d b c p q)

-- What `raised s t` shows, from the last state that steps alone lead to: a run of `s` alone was due,
-- and `s` does not wait any more; or a wait reported `s`, which was in flight, behind the sources that
-- were applied, and `s` is not in flight any more.
abbrev pub RaisesIn : State → Source → State → Type 0
RaisesIn u s t =
    (MayRunAlone s u × (t ≡ record u { pending = others s.name u.pending }))
    ⊎ ((before : List Source) × IsIn s u.running
        × All (λ x. IsIn x u.running) before
        × Unique (s ∷ before)
        × (t ≡ record (settle_many before u) {
          running = others s.name (settle_many before u).running;
        }))

abbrev pub Reaches : ℕ → State → Outcome → Type 0
Reaches workers st (finished t) = Steps workers st t
Reaches workers st (raised s t) = (u : State) × Steps workers st u × RaisesIn u s t
Reaches workers st (blocked t) = Steps workers st t
Reaches workers st (out_of_rounds t) = Steps workers st t

pub Reaches-trans :
    (workers : ℕ) (a b : State) (o : Outcome)
    → Steps workers a b
    → Reaches workers b o
    → Reaches workers a o
Reaches-trans workers a b (finished t) p q = Steps-trans workers a b t p q
Reaches-trans workers a b (raised s t) p (u, q, e) = (u, Steps-trans workers a b u p q, e)
Reaches-trans workers a b (blocked t) p q = Steps-trans workers a b t p q
Reaches-trans workers a b (out_of_rounds t) p q = Steps-trans workers a b t p q

-- ===== src/Scheduler/Books.antt =====
-- What the steps of the scheduler keep of its books, from the sources that the call has: those that
-- wait are sources of the call, and no name waits or is in flight twice.
use julius.Common.{
  ℕ, ◌≡◌, false, not, ◌==◌, List, [], ◌∷◌, ◌++◌, elem, string_eq, All, All-select, All-weaken, IsIn,
  All-in, arith, eq_iff,
}
use julius.Scheduler.Sources.{Source, names}
use julius.Scheduler.Loop.{State}
use julius.Scheduler.Names.{Unique-select, elem-select}
use julius.Scheduler.Progress.{names-append}
use julius.Scheduler.Spec.{
  Step, Steps, start, report, alone, here, next, Unique, started, applied, settle_many,
}

pub record Books (sources : List Source) (st : State) : Type 0 where
  pub known : All (λ s. IsIn s sources) st.pending
  pub waiting : Unique st.pending
  pub flying : Unique st.running
  pub apart : All (λ s. elem s.name (names st.running) ≡ false) st.pending

Unique-append :
    (s : Source) (xs : List Source)
    → Unique xs
    → elem s.name (names xs) ≡ false
    → Unique (xs ++ s ∷ [])
Unique-append s [] u f = (ground arith, tt)
Unique-append s (x ∷ xs) (g, u) f = (
  ground (arith, g, f, names-append x.name s xs, eq_iff s.name x.name, eq_iff x.name s.name),
  Unique-append s xs u (ground (arith, f)),
)

module _ (sources : List Source) where
  started-Books :
      (s : Source) (st : State)
      → IsIn s st.pending
      → Books sources st
      → Books sources (started s st)
  started-Books s st i b = record {
    known = All-select {P = λ x. IsIn x sources} _ st.pending (λ x k _. k) b.known;
    waiting = Unique-select _ st.pending b.waiting;
    flying =
        Unique-append s st.running b.flying
          (All-in (λ x. elem x.name (names st.running) ≡ false) st.pending s b.apart i);
    apart =
        All-select {P = λ x. elem x.name (names st.running) ≡ false} _ st.pending
          (λ x f other. ground (
            arith,
            f,
            other,
            names-append x.name s st.running,
            eq_iff s.name x.name,
            eq_iff x.name s.name,
          ))
          b.apart;
  }

  applied-Books : (s : Source) (st : State) → Books sources st → Books sources (applied s st)
  applied-Books s st b = record {
    known = b.known;
    waiting = b.waiting;
    flying = Unique-select _ st.running b.flying;
    apart =
        All-weaken st.pending (λ x f. elem-select (λ y. not (y.name == s.name)) x.name st.running f)
          b.apart;
  }

  settle_many-Books :
      (batch : List Source) (st : State) → Books sources st → Books sources (settle_many batch st)
  settle_many-Books [] st b = b
  settle_many-Books (s ∷ rest) st b = settle_many-Books rest (applied s st) (applied-Books s st b)

  Step-Books : (workers : ℕ) (st u : State) → Step workers st u → Books sources st → Books sources u
  Step-Books workers st u (start s _ i d safe room) b = started-Books s st i b
  Step-Books workers st u (report batch _ m d) b = settle_many-Books batch st b
  Step-Books workers st u (alone s _ due) b = record {
    known = All-select {P = λ x. IsIn x sources} _ st.pending (λ x k _. k) b.known;
    waiting = Unique-select _ st.pending b.waiting;
    flying = b.flying;
    apart =
        All-select {P = λ x. elem x.name (names st.running) ≡ false} _ st.pending (λ x f _. f)
          b.apart;
  }

  pub Steps-Books :
      (workers : ℕ) (st u : State) → Steps workers st u → Books sources st → Books sources u
  Steps-Books workers st u (here _) b = b
  Steps-Books workers st u (next d s p) b = Steps-Books workers d u p (Step-Books workers st d s b)

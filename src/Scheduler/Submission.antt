-- ===== src/Scheduler/Submission.antt =====
-- What one round submits, `for source in ready` of julius/collection/scheduler.py.
use julius.Common.{
  IsIn, IsIn-select, not, eq_iff, ℕ, String, ◌≡◌, refl, true, false, List, [], ◌∷◌, ◌++◌, elem,
  length, leb, string_eq, ◌==◌, All, arith, Bool-cases, inl, inr,
}
use julius.Scheduler.Sources.{Source, names, subset}
use julius.Scheduler.Loop.{State, without, submit, submit_ready, is_empty}
use julius.Scheduler.Spec.{Unique, start, Steps, here, next}
use julius.Scheduler.Names.{elem-without, All-other}

-- A source that waits and whose dependencies are applied.
abbrev pub IsReady : List Source → List String → Source → Type 0
IsReady waiting completed s =
    (elem s.name (names waiting) ≡ true) × (subset s.depends_on completed ≡ true)

pub IsReady-without :
    (n : String) (waiting : List Source) (completed : List String) (rs : List Source)
    → All (λ s. (n == s.name) ≡ false) rs
    → All (IsReady waiting completed) rs
    → All (IsReady (without n waiting) completed) rs
IsReady-without n waiting completed [] o a = tt
IsReady-without n waiting completed (s ∷ rs) (o, os) ((p, q), a) = (
  (ground (arith, elem-without n s.name waiting), q),
  IsReady-without n waiting completed rs os a,
)

IsIn-without :
    (n : String) (waiting rs : List Source)
    → All (λ s. (n == s.name) ≡ false) rs
    → All (λ s. IsIn s waiting) rs
    → All (λ s. IsIn s (without n waiting)) rs
IsIn-without n waiting [] o a = tt
IsIn-without n waiting (s ∷ rs) (o, os) (i, a) = (
  IsIn-select (λ x. not (x.name == n)) waiting s i
      (ground (arith, o, eq_iff n s.name, eq_iff s.name n)),
  IsIn-without n waiting rs os a,
)

pub is_empty-append : (x : Source) (xs : List Source) → is_empty (xs ++ x ∷ []) ≡ false
is_empty-append x [] = refl
is_empty-append x (y ∷ ys) = refl

module _ (workers : ℕ) where
  pub submit_ready-Steps :
      (rs : List Source) (st : State)
      → Unique rs
      → All (IsReady st.pending st.completed) rs
      → All (λ s. IsIn s st.pending) rs
      → Steps workers st (submit_ready workers rs st)
  unfolding submit_ready
  submit_ready-Steps [] st u a m = here st
  submit_ready-Steps (s ∷ rest) st (new, u) ((w, p), a) (i, m) =
      elim (Bool-cases (leb workers (length st.running))) [
        | inl full ↦ simp full (here st)
        | inr room ↦ elim (Bool-cases s.parallel_safe) [
          | inl safe ↦
              let others = All-other s.name rest new in
              simp (room, safe)
                (next (submit s st) (start s st i p safe (ground arith)) (
                  submit_ready-Steps rest (submit s st) u
                    (IsReady-without s.name st.pending st.completed rest others a)
                    (IsIn-without s.name st.pending rest others m)))
          | inr unsafe ↦ simp (room, unsafe) (submit_ready-Steps rest st u a m)
        ]
      ]

  pub submit_ready-completed :
      (rs : List Source) (st : State) → (submit_ready workers rs st).completed ≡ st.completed
  unfolding submit_ready
  submit_ready-completed [] st = refl
  submit_ready-completed (s ∷ rest) st =
      ground (arith, submit_ready-completed rest (submit s st), submit_ready-completed rest st)

  pub submit_ready-busy :
      (rs : List Source) (st : State)
      → is_empty st.running ≡ false
      → is_empty (submit_ready workers rs st).running ≡ false
  unfolding submit_ready
  submit_ready-busy [] st h = h
  submit_ready-busy (s ∷ rest) st h = ground (
    arith,
    submit_ready-busy rest (submit s st) (is_empty-append s st.running),
    submit_ready-busy rest st,
  )

  -- A round that leaves nothing in flight has submitted nothing.
  pub submit_ready-idle :
      (rs : List Source) (st : State)
      → is_empty (submit_ready workers rs st).running ≡ true
      → (submit_ready workers rs st).pending ≡ st.pending
  unfolding submit_ready
  submit_ready-idle [] st h = refl
  submit_ready-idle (s ∷ rest) st h = ground (
    arith,
    submit_ready-busy rest (submit s st) (is_empty-append s st.running),
    submit_ready-idle rest st,
  )

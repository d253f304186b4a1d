-- ===== src/Scheduler/Progress.antt =====
-- The bookkeeping of `_run_parallel` of julius/collection/scheduler.py: where the name of a source
-- stands, and how many sources are left.
use julius.Common.{
  ℕ, ◌≤◌, ◌<◌, String, ◌≡◌, refl, Bool, true, false, not, ◌||◌, List, [], ◌∷◌, ◌++◌, elem, any,
  select, sort, insert, count_where, string_eq, ◌==◌, arith, eq_iff, All,
}
use julius.Scheduler.Sources.{Source, names}
use julius.Scheduler.Loop.{State, finished, without, submit, settle, settle_all, is_empty}
use julius.Scheduler.Spec.{settle_many}
use julius.Scheduler.Names.{elem-without}

pub elem-append : (n m : String) (xs : List String) → elem n (xs ++ m ∷ []) ≡ (elem n xs || m == n)
elem-append n m [] = ground arith
elem-append n m (x ∷ xs) = ground (arith, elem-append n m xs)

pub names-append :
    (n : String) (s : Source) (xs : List Source)
    → elem n (names (xs ++ s ∷ [])) ≡ (elem n (names xs) || s.name == n)
names-append n s [] = ground arith
names-append n s (x ∷ xs) = ground (arith, names-append n s xs)

pub is_empty-select :
    (p : Source → Bool) (xs : List Source) → any p xs ≡ true → is_empty (select p xs) ≡ false
unfolding select
is_empty-select p [] h = cc
is_empty-select p (x ∷ xs) h = ground (arith, is_empty-select p xs)

is_empty-insert :
    (before : Source → Source → Bool) (x : Source) (ys : List Source)
    → is_empty (insert before x ys) ≡ false
unfolding insert
is_empty-insert before x [] = refl
is_empty-insert before x (y ∷ ys) = ground arith

pub is_empty-sort :
    (before : Source → Source → Bool) (xs : List Source)
    → is_empty xs ≡ false
    → is_empty (sort before xs) ≡ false
unfolding sort
is_empty-sort before [] h = h
is_empty-sort before (x ∷ xs) h = is_empty-insert before x (sort before xs)

-- The sources that are not applied yet.
unfoldable pub left : List Source → List String → ℕ
left sources completed = count_where (λ s. not (elem s.name completed)) sources

pub left-more :
    (sources : List Source) (completed : List String) (n : String)
    → left sources (completed ++ n ∷ []) ≤ left sources completed
unfolding left count_where
left-more [] completed n = omega arith
left-more (s ∷ rest) completed n =
    ground (arith, elem-append s.name n completed, left-more rest completed n)

pub left-less :
    (sources : List Source) (completed : List String) (n : String)
    → elem n (names sources) ≡ true
    → elem n completed ≡ false
    → left sources (completed ++ n ∷ []) < left sources completed
unfolding left count_where
left-less [] completed n m h = absurd (ground (arith, m))
left-less (s ∷ rest) completed n m h = ground (
  arith,
  eq_iff s.name n,
  eq_iff n s.name,
  elem-append s.name n completed,
  left-more rest completed n,
  left-less rest completed n,
)

module _ (sources : List Source) where
  -- A source is applied, waits or is in flight, and only one of these.
  abbrev pub Placed : State → String → Type 0
  Placed st n =
      (elem n (names sources) ≡ true
        → (elem n st.completed || elem n (names st.pending) || elem n (names st.running)) ≡ true)
      × (elem n (names st.pending) ≡ true
          → (elem n st.completed ≡ false)
            × (elem n (names st.running) ≡ false)
            × (elem n (names sources) ≡ true))
      × (elem n (names st.running) ≡ true
          → (elem n st.completed ≡ false) × (elem n (names sources) ≡ true))

  abbrev pub Inv : State → Type 0
  Inv st = (n : String) → Placed st n

  pub submit-Inv :
      (s : Source) (st : State) → elem s.name (names st.pending) ≡ true → Inv st → Inv (submit s st)
  submit-Inv s st w i n =
      ground
        (arith, i n, eq_iff s.name n, elem-without s.name n st.pending, names-append n s st.running)

  -- A source that is applied next: it is no waiting one.
  abbrev pub Takes : State → Source → Type 0
  Takes st s = (elem s.name (names st.pending) ≡ false) × (elem s.name (names sources) ≡ true)

  settle-Inv : (s : Source) (st : State) → Takes st s → Inv st → Inv (settle s st)
  settle-Inv s st (w, m) i n = ground (
    arith,
    i n,
    eq_iff s.name n,
    elem-append n s.name st.completed,
    elem-without s.name n st.running,
  )

  pub settle_many-Inv :
      (batch : List Source) (st : State)
      → All (Takes st) batch
      → Inv st
      → Inv (settle_many batch st)
  settle_many-Inv [] st a i = i
  settle_many-Inv (s ∷ rest) st (t, a) i =
      settle_many-Inv rest (settle s st) a (settle-Inv s st t i)

  pub settle_many-left :
      (batch : List Source) (st : State)
      → left sources (settle_many batch st).completed ≤ left sources st.completed
  settle_many-left [] st = omega arith
  settle_many-left (s ∷ rest) st =
      omega (arith, left-more sources st.completed s.name, settle_many-left rest (settle s st))

  pub alone-Inv :
      (u : Source) (st : State)
      → elem u.name (names st.pending) ≡ true
      → Inv st
      → Inv (record st {
        pending = without u.name st.pending;
        completed = st.completed ++ u.name ∷ [];
      })
  alone-Inv u st w i n = ground (
    arith,
    i n,
    i u.name,
    eq_iff u.name n,
    elem-without u.name n st.pending,
    elem-append n u.name st.completed,
  )

  pub settle_all-finished :
      (raises : Source → Bool) (batch : List Source) (st : State)
      → ((s : Source) → raises s ≡ false)
      → settle_all raises batch st ≡ finished (settle_many batch st)
  unfolding settle_all
  settle_all-finished raises [] st h = refl
  settle_all-finished raises (s ∷ rest) st h =
      rw (h s) (settle_all-finished raises rest (settle s st) h)

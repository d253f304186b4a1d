-- ===== src/Runs/Evolution.antt =====
-- Every change of a run's status, by whatever method of the ledger, is a chain of moves of
-- `_RUN_TRANSITIONS`.
use julius.Common.{
  stay, Chain-trans, Chain-one, ℕ, String, ◌≡◌, refl, Bool, true, Option, none, some, [], ◌∷◌, ◌==◌,
  string_eq, elem, Bool-cases, inl, inr, and_both, eq_of_beq, find?_holds, update_where, Evolves,
  Evolves-refl, Evolves-trans, Evolves-update_where, Evolves-append,
}
use julius.Runs.Status.{RunStatus, run_status_eq, run_transitions, RunPath, run_allows}
use julius.Runs.Preserves.{Discipline, Preserves}
use julius.Runs.Keys.{Distinct, KeepsKey, is_run-keeps, Distinct-update_where, Distinct-append}
use julius.Runs.Ledger.{
  Run, Store, Action, insert_run, is_run, find_run, move_run, transition_to, ◌>>=◌,
}

abbrev pub RunStep : Run → Run → Type 0
RunStep a b = RunPath a.status b.status

pub RunStep-refl : (a : Run) → RunStep a a
RunStep-refl a = stay a.status

pub RunStep-trans : (a b c : Run) → RunStep a b → RunStep b c → RunStep a c
RunStep-trans a b c = Chain-trans run_allows a.status b.status c.status

-- A row found under one key that also has another key is the row of that key.
pub same_row :
    (a a' k k' : String) (s : Store) (r row : Run)
    → find_run a' k' s ≡ some r
    → is_run a k r ≡ true
    → find_run a k s ≡ some row
    → r ≡ row
same_row a a' k k' s r row h t g =
    let (x, y) = and_both (r.account_id == a) (r.scan_id == k) t in
    let (x', y') =
      and_both (r.account_id == a') (r.scan_id == k') (find?_holds (is_run a' k') s.runs h) in
    cc (
      eq_of_beq r.account_id a x,
      eq_of_beq r.scan_id k y,
      eq_of_beq r.account_id a' x',
      eq_of_beq r.scan_id k' y',
    )

module _ (a' k' : String) where
  -- The tables keep their key, and the run under (a', k') evolves.
  abbrev pub Kept : Store → Store → Type 0
  Kept s t =
      Distinct s.runs → Distinct t.runs × Evolves RunStep (find_run a' k' s) (find_run a' k' t)

  pub Kept-refl : (s : Store) → Kept s s
  Kept-refl s d = (d, Evolves-refl RunStep RunStep-refl (find_run a' k' s))

  pub Kept-trans : (s t u : Store) → Kept s t → Kept t u → Kept s u
  Kept-trans s t u h k d =
      let (d', e) = h d in
      let (d'', e') = k d' in
      (
        d'',
        Evolves-trans RunStep RunStep-trans (find_run a' k' s) (find_run a' k' t) (find_run a' k' u)
            e e',
      )

  pub update_runs-Kept :
      (q : Run → Bool) (f : Run → Run) (s : Store)
      → KeepsKey f
      → (Distinct s.runs → (r : Run) → find_run a' k' s ≡ some r → q r ≡ true → RunStep r (f r))
      → Kept s (record s { runs = update_where q f s.runs })
  update_runs-Kept q f s keeps step d = (
    Distinct-update_where keeps q s.runs d,
    Evolves-update_where RunStep (is_run a' k') q f s.runs RunStep-refl (is_run-keeps keeps a' k')
        (step d),
  )

  pub insert_run-Kept :
      (r : Run) (s : Store) (o : Option Run)
      → find_run r.account_id r.scan_id s ≡ o
      → Kept s (insert_run r s)
  unfolding insert_run
  insert_run-Kept r s none e =
      rw (insert_run, e)
        λ d. (
          Distinct-append s.runs r d e,
          Evolves-append RunStep (is_run a' k') s.runs (r ∷ []) RunStep-refl,
        )
  insert_run-Kept r s (some x) e = rw (insert_run, e) (Kept-refl s)

-- The discipline of the run under (a', k').
abbrev pub runs : String → String → Discipline
runs a' k' = record { Keeps = Kept a' k'; same = Kept-refl a' k'; chain = Kept-trans a' k' }

abbrev pub Respects : String → String → {A : Type 0} → Action A → Type 0
Respects a' k' m = Preserves (runs a' k') m

module _ (a' k' : String) where
  pub move_run-Respects :
      (a k : String) (st : RunStatus) (now : ℕ) (s : Store) (o : Option Run)
      → find_run a k s ≡ o
      → Kept a' k' s (move_run a k st now o s).1
  unfolding move_run ◌>>=◌
  move_run-Respects a k st now s none e = Kept-refl a' k' s
  move_run-Respects a k st now s (some row) e = elim (Bool-cases (st == row.status)) [
    | inl t ↦ rw t (Kept-refl a' k' s)
    | inr t ↦ elim (Bool-cases (elem st (run_transitions row.status))) [
      | inl g ↦
          rw (t, g)
            (update_runs-Kept a' k' (is_run a k) _ s
              (record { account = λ r. refl; scan = λ r. refl })
              (λ _ r h q.
                rw (same_row a a' k k' s r row h q e) (Chain-one run_allows row.status st g)))
      | inr g ↦ rw (t, g) (Kept-refl a' k' s)
    ]
  ]

  pub transition_to-Respects :
      (a k : String) (st : RunStatus) (now : ℕ) → Respects a' k' (transition_to a k st now)
  unfolding transition_to
  transition_to-Respects a k st now = record {
    leaves = λ s. move_run-Respects a k st now s (find_run a k s) refl;
  }

-- ===== src/Runs/Retirement.antt =====
-- `supersede_older_context` touches only runs in their contextual phase.
use julius.Common.{
  Chain-one, ℕ, String, ◌≡◌, refl, subst, Bool, true, false, Option, none, some, List, [], ◌∷◌, map,
  arith, ◌==◌, string_eq, elem, Bool-cases, inl, inr, and_both, eq_of_beq, eq_iff, find?,
  find?_holds, select,
}
use julius.Runs.Status.{RunStatus, run_transitions, run_allows, run_status_eq}
use julius.Runs.Ledger.{Run, Store, is_run, find_run, raise, pure}
use julius.Runs.Keys.{Distinct}
use julius.Runs.Contextual.{
  is_eligible, is_older, older_scans, run_of, retire, supersede_row, supersede_older_context,
}
use julius.Runs.Evolution.{Kept, Kept-refl, update_runs-Kept}

-- Every eligible state may be superseded.
eligible-move :
    (st : RunStatus) → is_eligible st ≡ true → elem RunStatus.superseded (run_transitions st) ≡ true
unfolding run_transitions
eligible-move st h = ground arith

module _ (precedes : String → String → Bool) (keep : Run) where
  abbrev scans_in : List Run → List String
  scans_in rs = map (λ r. r.scan_id) (select (is_older precedes keep) rs)

  older_facts :
      (r : Run)
      → is_older precedes keep r ≡ true
      → (r.account_id ≡ keep.account_id) × (is_eligible r.status ≡ true)
  unfolding is_older
  older_facts r h = ground (arith, eq_iff r.account_id keep.account_id)

  -- Where no row has the key, no selected row has its scan.
  not_selected :
      (rs : List Run) (k : String)
      → find? (is_run keep.account_id k) rs ≡ none
      → elem k (scans_in rs) ≡ false
  unfolding find? select
  not_selected [] k h = refl
  not_selected (r ∷ rs) k h = elim (Bool-cases (is_older precedes keep r)) [
    | inl t ↦
        let (same, _) = older_facts r t in
        rw t (ground (arith, eq_iff r.account_id keep.account_id, not_selected rs k, h))
    | inr t ↦ rw t (ground (arith, not_selected rs k, h))
  ]

  -- A row found by its key whose scan is selected is itself eligible.
  selected_eligible :
      (rs : List Run) (k : String) (r : Run)
      → Distinct rs
      → find? (is_run keep.account_id k) rs ≡ some r
      → elem k (scans_in rs) ≡ true
      → is_eligible r.status ≡ true
  unfolding find? select
  selected_eligible [] k r d h g = cc
  selected_eligible (x ∷ xs) k r (fresh, d) h g = elim (Bool-cases (is_older precedes keep x)) [
    | inl t ↦
        let (same, eligible) = older_facts x t in
        ground (arith, eq_iff x.account_id keep.account_id, selected_eligible xs k r d)
    | inr t ↦ elim (Bool-cases (is_run keep.account_id k x)) [
      | inl e ↦
          let (a, b) = and_both (x.account_id == keep.account_id) (x.scan_id == k) e in
          let a' = eq_of_beq x.account_id keep.account_id a in
          let b' = eq_of_beq x.scan_id k b in
          let gone : find? (is_run keep.account_id k) xs ≡ none = rw (← a', ← b') fresh in
          ground (arith, not_selected xs k gone)
      | inr e ↦ ground (arith, selected_eligible xs k r d)
    ]
  ]

  retire-Kept :
      (a' k' : String) (now : ℕ) (s : Store) (scans : List String)
      → scans ≡ older_scans precedes keep s
      → Kept a' k' s (retire keep.account_id scans now s).1
  unfolding retire pure
  retire-Kept a' k' now s [] e = Kept-refl a' k' s
  retire-Kept a' k' now s (scan ∷ more) e =
      update_runs-Kept a' k' (run_of keep.account_id (scan ∷ more)) _ s
        (record { account = λ r. refl; scan = λ r. refl })
        λ d r h q.
          let (a, b) =
            and_both (r.account_id == keep.account_id) (elem r.scan_id (scan ∷ more)) q in
          let (x, y) =
            and_both (r.account_id == a') (r.scan_id == k') (find?_holds (is_run a' k') s.runs h) in
          let account = eq_of_beq r.account_id keep.account_id a in
          let found : find? (is_run keep.account_id r.scan_id) s.runs ≡ some r =
            cc (account, eq_of_beq r.account_id a' x, eq_of_beq r.scan_id k' y) in
          let eligible =
            selected_eligible s.runs r.scan_id r d found
              (subst (λ l. elem r.scan_id l ≡ true) e b) in
          Chain-one run_allows r.status RunStatus.superseded (eligible-move r.status eligible)

module _ (precedes : String → String → Bool) (a' k' : String) where
  supersede_row-Kept :
      (account keep_scan : String) (now : ℕ) (s : Store) (o : Option Run)
      → find_run account keep_scan s ≡ o
      → Kept a' k' s (supersede_row precedes account keep_scan now o s).1
  unfolding supersede_row raise
  supersede_row-Kept account keep_scan now s none e = Kept-refl a' k' s
  supersede_row-Kept account keep_scan now s (some keep) e =
      let (x, y) =
        and_both (keep.account_id == account) (keep.scan_id == keep_scan)
          (find?_holds (is_run account keep_scan) s.runs e) in
      rw (← eq_of_beq keep.account_id account x)
        (retire-Kept precedes keep a' k' now s (older_scans precedes keep s) refl)

  pub supersede-Kept :
      (account keep_scan : String) (now : ℕ) (s : Store)
      → Kept a' k' s (supersede_older_context precedes account keep_scan now s).1
  unfolding supersede_older_context
  supersede-Kept account keep_scan now s =
      supersede_row-Kept account keep_scan now s (find_run account keep_scan s) refl

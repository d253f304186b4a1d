-- ===== src/Runs/Keys.antt =====
-- PRIMARY KEY (account_id, scan_id) of `pipeline_runs`, kept by INSERT and UPDATE.
use julius.Common.{
  String, ◌≡◌, refl, Bool, none, List, [], ◌∷◌, ◌++◌, arith, string_eq, Bool-cases, inl, inr, find?,
  find?-append, find?-update_where, update_where, eq_iff,
}
use julius.Runs.Ledger.{Run, is_run}

-- No two rows have one key.
abbrev pub Distinct : List Run → Type 0
Distinct [] = Unit
Distinct (r ∷ rs) = (find? (is_run r.account_id r.scan_id) rs ≡ none) × Distinct rs

-- An update that leaves the key alone.
pub record KeepsKey (f : Run → Run) : Type 0 where
  pub account : (r : Run) → (f r).account_id ≡ r.account_id
  pub scan : (r : Run) → (f r).scan_id ≡ r.scan_id

module _ {f : Run → Run} (keeps : KeepsKey f) where
  pub is_run-keeps : (a k : String) (r : Run) → is_run a k (f r) ≡ is_run a k r
  is_run-keeps a k r = rw (keeps.account r, keeps.scan r)

  find?-none-update :
      (q : Run → Bool) (a k : String) (rs : List Run)
      → find? (is_run a k) rs ≡ none
      → find? (is_run a k) (update_where q f rs) ≡ none
  find?-none-update q a k rs h = rw (find?-update_where (is_run a k) q f rs (is_run-keeps a k), h)

  pub Distinct-update_where :
      (q : Run → Bool) (rs : List Run) → Distinct rs → Distinct (update_where q f rs)
  unfolding update_where
  Distinct-update_where q [] d = tt
  Distinct-update_where q (r ∷ rs) (fresh, d) = elim (Bool-cases (q r)) [
    | inl t ↦ rw t (
      rw (keeps.account r, keeps.scan r) (find?-none-update q r.account_id r.scan_id rs fresh),
      Distinct-update_where q rs d,
    )
    | inr t ↦
        rw t (find?-none-update q r.account_id r.scan_id rs fresh, Distinct-update_where q rs d)
  ]

pub Distinct-append :
    (rs : List Run) (r : Run)
    → Distinct rs
    → find? (is_run r.account_id r.scan_id) rs ≡ none
    → Distinct (rs ++ r ∷ [])
unfolding find?
Distinct-append [] r d h = (refl, tt)
Distinct-append (x ∷ xs) r (fresh, d) h = (
  rw (find?-append (is_run x.account_id x.scan_id) xs (r ∷ []), fresh)
      (ground (arith, same_key, h)),
  Distinct-append xs r d (ground (arith, h)),
)
  where
    same_key : is_run x.account_id x.scan_id r ≡ is_run r.account_id r.scan_id x
    same_key = ground (
      arith,
      eq_iff r.account_id x.account_id,
      eq_iff x.account_id r.account_id,
      eq_iff r.scan_id x.scan_id,
      eq_iff x.scan_id r.scan_id,
    )

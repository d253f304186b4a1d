-- ===== src/Scheduler/Kahn.antt =====
-- What `_validate` of julius/collection/scheduler.py makes certain of: whatever was applied so far,
-- either everything was, or some source is left whose dependencies were.
use julius.Common.{
  ℕ, zero, suc, String, ◌≡◌, refl, ◌⊎◌, inl, inr, Bool, true, not, ◌&&◌, List, [], ◌∷◌, ◌++◌, elem,
  all, any, select, string_eq, arith, eq_iff,
}
use julius.Scheduler.Sources.{Source, names, subset}
use julius.Scheduler.Validation.{valid, ready_in, resolve}

pub subset-elem :
    (x : String) (xs ys : List String) → elem x xs ≡ true → subset xs ys ≡ true → elem x ys ≡ true
subset-elem x [] ys m h = absurd (ground (arith, m))
subset-elem x (y ∷ xs) ys m h = ground (arith, eq_iff y x, subset-elem x xs ys)

pub subset_trans :
    (xs ys zs : List String) → subset xs ys ≡ true → subset ys zs ≡ true → subset xs zs ≡ true
subset_trans [] ys zs h k = refl
subset_trans (x ∷ xs) ys zs h k = ground (arith, subset-elem x ys zs, subset_trans xs ys zs)

pub any-select :
    (q p : Source → Bool) (xs : List Source) → any q (select p xs) ≡ true → any q xs ≡ true
unfolding select
any-select q p [] h = h
any-select q p (x ∷ xs) h = ground (arith, any-select q p xs)

module _ (applied : List String) where
  abbrev pub is_applied : Source → Bool
  is_applied s = elem s.name applied

  -- A source that is left, and could go next.
  abbrev pub is_next : Source → Bool
  is_next s = not (elem s.name applied) && subset s.depends_on applied

  round_applied :
      (resolved : List String) (xs : List Source)
      → subset resolved applied ≡ true
      → (all is_applied (select (ready_in resolved) xs) ≡ true) ⊎ (any is_next xs ≡ true)
  unfolding select
  round_applied resolved [] h = inl refl
  round_applied resolved (x ∷ xs) h =
      ground (arith, subset_trans x.depends_on resolved applied, round_applied resolved xs h)

  all-both :
      (resolved : List String) (xs : List Source)
      → all is_applied (select (ready_in resolved) xs) ≡ true
      → all is_applied (select (λ t. not (ready_in resolved t)) xs) ≡ true
      → all is_applied xs ≡ true
  unfolding select
  all-both resolved [] h k = refl
  all-both resolved (x ∷ xs) h k = ground (arith, all-both resolved xs)

  subset-names : (xs : List Source) → all is_applied xs ≡ true → subset (names xs) applied ≡ true
  subset-names [] h = refl
  subset-names (x ∷ xs) h = ground (arith, subset-names xs)

  subset-append :
      (xs ys : List String)
      → subset xs applied ≡ true
      → subset ys applied ≡ true
      → subset (xs ++ ys) applied ≡ true
  subset-append [] ys h k = k
  subset-append (x ∷ xs) ys h k = ground (arith, subset-append xs ys)

  pub resolve-progress :
      (fuel : ℕ) (remaining : List Source) (resolved : List String)
      → resolve fuel remaining resolved ≡ valid
      → subset resolved applied ≡ true
      → (all is_applied remaining ≡ true) ⊎ (any is_next remaining ≡ true)
  unfolding resolve
  resolve-progress fuel [] resolved h k = inl refl
  resolve-progress zero (s ∷ rest) resolved h k = absurd (ground (arith, h))
  resolve-progress (suc fuel) (s ∷ rest) resolved h k =
      let remaining = s ∷ rest in
      let taken = select (ready_in resolved) remaining in
      let left = select (λ t. not (ready_in resolved t)) remaining in
      elim (round_applied resolved remaining k) [
        | inr e ↦ inr e
        | inl e ↦
            let more = subset-append resolved (names taken) k (subset-names taken e) in
            let goes : resolve fuel left (resolved ++ names taken) ≡ valid = ground (arith, h) in
            elim (resolve-progress fuel left (resolved ++ names taken) goes more) [
              | inl f ↦ inl (all-both resolved remaining e f)
              | inr f ↦ inr (any-select is_next (λ t. not (ready_in resolved t)) remaining f)
            ]
      ]

-- ===== src/Runs/Preserves.antt =====
-- What an action of the ledger leaves of the tables, whether it returned or raised: a relation of
-- the tables before and after that is closed under composition, and one rule for each way to build
-- an action.
use julius.Common.{Bool, true, false, if◌then◌else◌, ◌≡◌, refl, arith}
use julius.Runs.Ledger.{
  Error, Store, Result, ok, err, Action, continue, ◌>>=◌, pure, raise, gets, modify,
}

pub record Discipline : Type 1 where
  pub Keeps : Store → Store → Type 0
  pub same : (s : Store) → Keeps s s
  pub chain : (s t u : Store) → Keeps s t → Keeps t u → Keeps s u

pub record Preserves (d : Discipline) {A : Type 0} (m : Action A) : Type 0 where
  pub leaves : (s : Store) → d.Keeps s (m s).1

module _ (d : Discipline) where
  pub Preserves-pure : {A : Type 0} (a : A) → Preserves d (pure a)
  unfolding pure
  Preserves-pure a = record { leaves = d.same }

  pub Preserves-raise : {A : Type 0} (e : Error) → Preserves d (raise {A = A} e)
  unfolding raise
  Preserves-raise e = record { leaves = d.same }

  pub Preserves-gets : {A : Type 0} (f : Store → A) → Preserves d (gets f)
  unfolding gets
  Preserves-gets f = record { leaves = d.same }

  pub Preserves-modify :
      (f : Store → Store) → ((s : Store) → d.Keeps s (f s)) → Preserves d (modify f)
  unfolding modify
  Preserves-modify f h = record { leaves = h }

  Preserves-continue :
      {A B : Type 0} (r : Result A) (f : A → Action B) (s t : Store)
      → d.Keeps s t
      → ((a : A) → Preserves d (f a))
      → d.Keeps s (continue r f t).1
  Preserves-continue (ok a) f s t h k = d.chain s t (f a t).1 h ((k a).leaves t)
  Preserves-continue (err e) f s t h k = h

  pub Preserves-bind :
      {A B : Type 0} (m : Action A) (f : A → Action B)
      → Preserves d m
      → ((a : A) → Preserves d (f a))
      → Preserves d (m >>= f)
  unfolding ◌>>=◌
  Preserves-bind m f h k = record {
    leaves = λ s. Preserves-continue (m s).0 f s (m s).1 (h.leaves s) k;
  }

  pub Preserves-if :
      {A : Type 0} (b : Bool) (m n : Action A)
      → Preserves d m
      → Preserves d n
      → Preserves d (if b then m else n)
  Preserves-if true m n h k = h
  Preserves-if false m n h k = k

  pub Preserves-branch :
      {A : Type 0} (b : Bool) (x y : Result A × Store) (s : Store)
      → d.Keeps s x.1
      → d.Keeps s y.1
      → d.Keeps s (if b then x else y).1
  Preserves-branch true x y s h k = h
  Preserves-branch false x y s h k = k

pub ruleset preserves_rules =
    (Preserves-pure, Preserves-raise, Preserves-gets, Preserves-bind, Preserves-if)

continue-eq-ok :
    {A B : Type 0} (r : Result A) (f : A → Action B) (s t : Store) (b : B)
    → continue r f s ≡ (ok b, t)
    → (a : A) × (r ≡ ok a) × (f a s ≡ (ok b, t))
continue-eq-ok (ok a) f s t b h = (a, refl, h)
continue-eq-ok (err e) f s t b h = absurd (ground arith)

-- A chain that returned: both parts returned.
pub >>=-eq-ok :
    {A B : Type 0} (m : Action A) (f : A → Action B) (s t : Store) (b : B)
    → (m >>= f) s ≡ (ok b, t)
    → (a : A) × (m s ≡ (ok a, (m s).1)) × (f a (m s).1 ≡ (ok b, t))
unfolding ◌>>=◌
>>=-eq-ok m f s t b h =
    let (a, e, k) = continue-eq-ok (m s).0 f (m s).1 t b h in (a, ground (arith, e), k)

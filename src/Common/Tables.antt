-- ===== src/Common/Tables.antt =====
-- Tables as lists of rows: SELECT of one row, UPDATE … WHERE, count(*), and Python's dict.
use Prim.Native.Nat.{ℕ, ◌+◌}
use mathlib.Core.Path.{◌≡◌, refl}
use mathlib.Core.Bool.{Bool, true}
use mathlib.Core.Logic.{inl, inr}
use mathlib.Core.Option
use mathlib.Core.Option.{Option, none, some}
use mathlib.Core.List.{List, [], ◌∷◌, ◌++◌}
use native.Mathlib.Omega.{arith}
use julius.Common.Tests.{Eq, ◌==◌, if◌then◌else◌, Bool-cases}

module _ {ℓ} {A : Type ℓ} where
  unfoldable pub find? : (A → Bool) → List A → Option A
  find? p [] = none
  find? p (x ∷ xs) = if p x then some x else find? p xs

  unfoldable pub update_where : (A → Bool) → (A → A) → List A → List A
  update_where q f [] = []
  update_where q f (x ∷ xs) = (if q x then f x else x) ∷ update_where q f xs

  unfoldable pub count_where : (A → Bool) → List A → ℕ
  count_where p [] = 0
  count_where p (x ∷ xs) = (if p x then 1 else 0) + count_where p xs

  pub count_where-append :
      (p : A → Bool) (xs ys : List A)
      → count_where p (xs ++ ys) ≡ count_where p xs + count_where p ys
  unfolding count_where
  count_where-append p [] ys = omega arith
  count_where-append p (x ∷ xs) ys = omega (arith, count_where-append p xs ys)

  pub find?_holds : (p : A → Bool) (xs : List A) {a : A} → find? p xs ≡ some a → p a ≡ true
  unfolding find?
  find?_holds p [] h = ground arith
  find?_holds p (x ∷ xs) {a} h = ground (arith, find?_holds p xs {a = a})

  pub find?-append :
      (p : A → Bool) (xs ys : List A)
      → find? p (xs ++ ys) ≡ elim (find? p xs) [ none ↦ find? p ys | some a ↦ some a ]
  unfolding find?
  find?-append p [] ys = refl
  find?-append p (x ∷ xs) ys = ground (arith, find?-append p xs ys)

  -- An update that leaves the searched columns alone changes the row found, and no other row.
  pub find?-update_where :
      (p q : A → Bool) (f : A → A) (xs : List A)
      → ((a : A) → p (f a) ≡ p a)
      → find? p (update_where q f xs) ≡ Option.map (λ a. if q a then f a else a) (find? p xs)
  unfolding find? update_where
  find?-update_where p q f [] same = refl
  find?-update_where p q f (x ∷ xs) same = ground (arith, same x, find?-update_where p q f xs same)

-- A dict keeps each key once, in the order of its first insertion.
module _ {ℓ κ} {K : Type ℓ} {V : Type κ} ⦃e : Eq K⦄ where
  unfoldable pub get : K → List (K × V) → Option V
  get k [] = none
  get k ((j, v) ∷ m) = if j == k then some v else get k m

  unfoldable pub put : K → V → List (K × V) → List (K × V)
  put k v [] = (k, v) ∷ []
  put k v ((j, w) ∷ m) = if j == k then (j, v) ∷ m else (j, w) ∷ put k v m

  unfoldable pub remove : K → List (K × V) → List (K × V)
  remove k [] = []
  remove k ((j, w) ∷ m) = if j == k then remove k m else (j, w) ∷ remove k m

  pub get-put :
      (k j : K) (v : V) (m : List (K × V))
      → get j (put k v m) ≡ (if k == j then some v else get j m)
  unfolding get put
  get-put k j v [] = refl
  get-put k j v ((i, w) ∷ m) =
      ground (arith, e.beq_iff k j, e.beq_iff i k, e.beq_iff i j, get-put k j v m)

  pub get-remove :
      (k j : K) (m : List (K × V)) → get j (remove k m) ≡ (if k == j then none else get j m)
  unfolding get remove
  get-remove k j [] = ground arith
  get-remove k j ((i, w) ∷ m) =
      ground (arith, e.beq_iff k j, e.beq_iff i k, e.beq_iff i j, get-remove k j m)

-- What may have become of the row under a key: a row stays, and changes only along `R`.
module _ {ℓ} {A : Type ℓ} (R : A → A → Type 0) where
  abbrev pub Evolves : Option A → Option A → Type 0
  Evolves none o = Unit
  Evolves (some a) none = ⊥
  Evolves (some a) (some b) = R a b

  pub Evolves-refl : ((a : A) → R a a) → (o : Option A) → Evolves o o
  Evolves-refl same none = tt
  Evolves-refl same (some a) = same a

  pub Evolves-trans :
      ((a b c : A) → R a b → R b c → R a c)
      → (x y z : Option A) → Evolves x y
      → Evolves y z
      → Evolves x z
  Evolves-trans tr none y z h k = tt
  Evolves-trans tr (some a) none z h k = absurd h
  Evolves-trans tr (some a) (some b) none h k = absurd k
  Evolves-trans tr (some a) (some b) (some c) h k = tr a b c h k

  Evolves-map :
      (q : A → Bool) (f : A → A) (o : Option A)
      → ((a : A) → R a a)
      → ((a : A) → o ≡ some a → q a ≡ true → R a (f a))
      → Evolves o (Option.map (λ a. if q a then f a else a) o)
  Evolves-map q f none same step = tt
  Evolves-map q f (some a) same step = elim (Bool-cases (q a)) [
    | inl t ↦ rw t (step a refl t)
    | inr t ↦ rw t (same a)
  ]

  pub Evolves-update_where :
      (p q : A → Bool) (f : A → A) (xs : List A)
      → ((a : A) → R a a)
      → ((a : A) → p (f a) ≡ p a)
      → ((a : A) → find? p xs ≡ some a → q a ≡ true → R a (f a))
      → Evolves (find? p xs) (find? p (update_where q f xs))
  Evolves-update_where p q f xs same keeps step =
      rw (find?-update_where p q f xs keeps) (Evolves-map q f (find? p xs) same step)

  pub Evolves-append :
      (p : A → Bool) (xs ys : List A)
      → ((a : A) → R a a)
      → Evolves (find? p xs) (find? p (xs ++ ys))
  Evolves-append p xs ys same = rw find?-append (go (find? p xs))
    where
      go : (o : Option A) → Evolves o (elim o [ none ↦ find? p ys | some a ↦ some a ])
      go none = tt
      go (some a) = same a

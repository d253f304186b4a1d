-- ===== src/Common/Lists.antt =====
-- Lists measured by native numbers, and the program's `any`, `all` and `in`.
use Prim.Native.Nat.{ℕ, suc, ◌+◌, ◌≤◌}
use mathlib.Core.Path.{◌≡◌, refl, sym, subst}
use mathlib.Core.Bool.{Bool, true, false, not, ◌&&◌, ◌||◌}
use mathlib.Core.List.{List, [], ◌∷◌, ◌++◌}
use native.Mathlib.Omega.{arith}
use julius.Common.Tests.{Eq, ◌==◌, if◌then◌else◌, Bool-cases, eq_of_beq}
use mathlib.Core.Logic.{◌⊎◌, inl, inr}

module _ {ℓ} {A : Type ℓ} where
  abbrev pub length : List A → ℕ
  length [] = 0
  length (x ∷ xs) = suc (length xs)

  pub length-append : (xs ys : List A) → length (xs ++ ys) ≡ length xs + length ys
  length-append [] ys = omega arith
  length-append (x ∷ xs) ys = omega (arith, length-append xs ys)

  abbrev pub any : (A → Bool) → List A → Bool
  any p [] = false
  any p (x ∷ xs) = p x || any p xs

  abbrev pub all : (A → Bool) → List A → Bool
  all p [] = true
  all p (x ∷ xs) = p x && all p xs

  -- A comprehension with a test.
  unfoldable pub select : (A → Bool) → List A → List A
  select p [] = []
  select p (x ∷ xs) = if p x then x ∷ select p xs else select p xs

  pub length-select : (p : A → Bool) (xs : List A) → length (select p xs) ≤ length xs
  unfolding select
  length-select p [] = omega arith
  length-select p (x ∷ xs) = ground (arith, length-select p xs)

-- `x in xs`
abbrev pub elem {ℓ} : {A : Type ℓ} ⦃e : Eq A⦄ → A → List A → Bool
elem a xs = any (λ x. x == a) xs

-- What every value of a list satisfies, as nested pairs.
abbrev pub All {ℓ κ} : {A : Type ℓ} → (A → Type κ) → List A → Type κ
All P [] = Unit
All P (x ∷ xs) = P x × All P xs

-- A value that is one of a list's.
abbrev pub IsIn : {A : Type 0} → A → List A → Type 0
IsIn a [] = ⊥
IsIn a (x ∷ xs) = (a ≡ x) ⊎ IsIn a xs

pub All-IsIn : {A : Type 0} (xs : List A) → All (λ a. IsIn a xs) xs
All-IsIn {A = A} xs = go xs (λ a i. i)
  where
    go : (ys : List A) → ((a : A) → IsIn a ys → IsIn a xs) → All (λ a. IsIn a xs) ys
    go [] f = tt
    go (y ∷ ys) f = (f y (inl refl), go ys (λ a i. f a (inr i)))

-- What holds of each of a list's values holds of one that is in it.
pub All-in : {A : Type 0} (P : A → Type 0) (xs : List A) (a : A) → All P xs → IsIn a xs → P a
All-in P (x ∷ xs) a (p, h) (inl e) = subst P (sym e) p
All-in P (x ∷ xs) a (p, h) (inr i) = All-in P xs a h i
All-in P [] a h i = absurd i

pub IsIn-select :
    {A : Type 0} (p : A → Bool) (xs : List A) (a : A)
    → IsIn a xs
    → p a ≡ true
    → IsIn a (select p xs)
unfolding select
IsIn-select p (x ∷ xs) a (inl e) h =
    let t : p x ≡ true = subst (λ y. p y ≡ true) e h in simp t (inl e)
IsIn-select p (x ∷ xs) a (inr i) h = elim (Bool-cases (p x)) [
  | inl t ↦ simp t (inr (IsIn-select p xs a i h))
  | inr t ↦ simp t (IsIn-select p xs a i h)
]
IsIn-select p [] a i h = absurd i

module _ {ℓ} {A : Type ℓ} {P Q : A → Type 0} where
  pub All-weaken : (xs : List A) → ((a : A) → P a → Q a) → All P xs → All Q xs
  All-weaken [] f h = tt
  All-weaken (x ∷ xs) f (p, h) = (f x p, All-weaken xs f h)

  pub All-select :
      (p : A → Bool) (xs : List A)
      → ((a : A) → P a → p a ≡ true → Q a)
      → All P xs
      → All Q (select p xs)
  unfolding select
  All-select p [] f h = tt
  All-select p (x ∷ xs) f (q, h) = elim (Bool-cases (p x)) [
    | inl e ↦ simp e (f x q e, All-select p xs f h)
    | inr e ↦ simp e (All-select p xs f h)
  ]

-- What holds of each of a list's values holds of a value that is in it.
pub All-elem :
    {A : Type 0} ⦃e : Eq A⦄ (P : A → Type 0) (xs : List A) (a : A)
    → All P xs
    → elem a xs ≡ true
    → P a
All-elem P [] a h m = absurd (ground (arith, m))
All-elem P (x ∷ xs) a (p, h) m = elim (Bool-cases (x == a)) [
  | inl t ↦ subst P (eq_of_beq x a t) p
  | inr t ↦ All-elem P xs a h (ground (arith, t))
]

module _ {ℓ} {A : Type ℓ} (P : A → Type 0) where
  pub All-append : (xs ys : List A) → All P xs → All P ys → All P (xs ++ ys)
  All-append [] ys h k = k
  All-append (x ∷ xs) ys (p, h) k = (p, All-append xs ys h k)

-- A stable insertion sort; `before x y` says that the key of `x` is strictly smaller.
module _ {A : Type 0} (before : A → A → Bool) where
  unfoldable pub insert : A → List A → List A
  insert x [] = x ∷ []
  insert x (y ∷ ys) = if before y x then y ∷ insert x ys else x ∷ y ∷ ys

  unfoldable pub sort : List A → List A
  unfolding insert
  sort [] = []
  sort (x ∷ xs) = insert x (sort xs)

-- len(xs) == len(set(xs))
abbrev pub distinct {ℓ} : {A : Type ℓ} ⦃e : Eq A⦄ → List A → Bool
distinct [] = true
distinct (x ∷ xs) = not (elem x xs) && distinct xs

-- ===== src/Scheduler/Names.antt =====
-- Names of sources: membership and uniqueness, under the selections and sorts of the scheduler.
use julius.Common.{
  IsIn, ap, sym, ◌∙◌, insert, sort, String, ◌≡◌, refl, Bool, true, false, not, ◌&&◌, ◌||◌, List, [],
  ◌∷◌, elem, string_eq, ◌==◌, All, All-weaken, select, arith, Bool-cases, inl, inr, eq_iff,
}
use julius.Scheduler.Sources.{Source, names}
use julius.Scheduler.Validation.{no_duplicates}
use julius.Scheduler.Loop.{without}
use julius.Scheduler.Spec.{Unique}

pub All-names : (xs : List Source) → All (λ s. elem s.name (names xs) ≡ true) xs
All-names [] = tt
All-names (x ∷ xs) =
    (ground (arith, eq_iff x.name x.name), All-weaken xs (λ s h. ground arith) (All-names xs))

-- A property of names, at a name of the list.
pub All-at :
    (Q : String → Bool) (b : Bool) (xs : List Source) (n : String)
    → All (λ s. Q s.name ≡ b) xs
    → elem n (names xs) ≡ true
    → Q n ≡ b
All-at Q b [] n h e = cc
All-at Q b (x ∷ xs) n (q, h) e = elim (Bool-cases (x.name == n)) [
  | inl t ↦ cc ((eq_iff x.name n).0 t)
  | inr t ↦ All-at Q b xs n h (ground (arith, t))
]

pub elem-select :
    (p : Source → Bool) (n : String) (xs : List Source)
    → elem n (names xs) ≡ false
    → elem n (names (select p xs)) ≡ false
unfolding select
elem-select p n [] h = refl
elem-select p n (x ∷ xs) h = ground (arith, elem-select p n xs)

pub elem-without :
    (n m : String) (xs : List Source)
    → elem m (names (without n xs)) ≡ (not (n == m) && elem m (names xs))
unfolding select
elem-without n m [] = ground arith
elem-without n m (x ∷ xs) =
    ground (arith, eq_iff x.name n, eq_iff x.name m, eq_iff n m, elem-without n m xs)

elem-insert :
    (before : Source → Source → Bool) (x : Source) (n : String) (ys : List Source)
    → elem n (names (insert before x ys)) ≡ (x.name == n || elem n (names ys))
unfolding insert
elem-insert before x n [] = refl
elem-insert before x n (y ∷ ys) = ground (arith, elem-insert before x n ys)

pub elem-sort :
    (before : Source → Source → Bool) (n : String) (xs : List Source)
    → elem n (names (sort before xs)) ≡ elem n (names xs)
unfolding sort
elem-sort before n [] = refl
elem-sort before n (x ∷ xs) =
    ground (arith, elem-insert before x n (sort before xs), elem-sort before n xs)

pub Unique-of_no_duplicates : (xs : List Source) → no_duplicates (names xs) ≡ true → Unique xs
unfolding no_duplicates
Unique-of_no_duplicates [] h = tt
Unique-of_no_duplicates (x ∷ xs) h = (ground arith, Unique-of_no_duplicates xs (ground arith))

pub Unique-select : (p : Source → Bool) (xs : List Source) → Unique xs → Unique (select p xs)
unfolding select
Unique-select p [] u = tt
Unique-select p (x ∷ xs) (f, u) = elim (Bool-cases (p x)) [
  | inl e ↦ simp e (elem-select p x.name xs f, Unique-select p xs u)
  | inr e ↦ simp e (Unique-select p xs u)
]

Unique-insert :
    (before : Source → Source → Bool) (x : Source) (ys : List Source)
    → elem x.name (names ys) ≡ false
    → Unique ys
    → Unique (insert before x ys)
unfolding insert
Unique-insert before x [] f u = (refl, tt)
Unique-insert before x (y ∷ ys) f (g, u) = elim (Bool-cases (before y x)) [
  | inl e ↦ simp e (
    ground (arith, elem-insert before x y.name ys, eq_iff x.name y.name, eq_iff y.name x.name),
    Unique-insert before x ys (ground arith) u,
  )
  | inr e ↦ simp e (f, (g, u))
]

pub Unique-sort :
    (before : Source → Source → Bool) (xs : List Source) → Unique xs → Unique (sort before xs)
unfolding sort
Unique-sort before [] u = tt
Unique-sort before (x ∷ xs) (f, u) =
    Unique-insert before x (sort before xs) (ground (arith, elem-sort before x.name xs))
      (Unique-sort before xs u)

-- Every source of a list satisfies P where every source of the list that it was made from does.
module _ (P : Source → Type 0) where
  pub All-insert :
      (before : Source → Source → Bool) (x : Source) (ys : List Source)
      → P x
      → All P ys
      → All P (insert before x ys)
  unfolding insert
  All-insert before x [] p a = (p, tt)
  All-insert before x (y ∷ ys) p (q, a) = elim (Bool-cases (before y x)) [
    | inl e ↦ rw e (q, All-insert before x ys p a)
    | inr e ↦ rw e (p, (q, a))
  ]

  pub All-sort :
      (before : Source → Source → Bool) (xs : List Source) → All P xs → All P (sort before xs)
  unfolding sort
  All-sort before [] a = tt
  All-sort before (x ∷ xs) (p, a) = All-insert before x (sort before xs) p (All-sort before xs a)

-- No source of a list has a name that is none of its names.
pub All-other :
    (n : String) (xs : List Source)
    → elem n (names xs) ≡ false
    → All (λ s. (n == s.name) ≡ false) xs
All-other n [] h = tt
All-other n (x ∷ xs) h =
    (ground (arith, eq_iff x.name n, eq_iff n x.name), All-other n xs (ground arith))

pub elem-IsIn : (b : Source) (xs : List Source) → IsIn b xs → elem b.name (names xs) ≡ true
elem-IsIn b [] i = absurd i
elem-IsIn b (x ∷ xs) (inl e) = ground (arith, eq_iff x.name b.name, ap (λ (s : Source). s.name) e)
elem-IsIn b (x ∷ xs) (inr i) = ground (arith, elem-IsIn b xs i)

-- Sources of one list with the same name are the same.
same_source :
    (xs : List Source) (a b : Source) → Unique xs → IsIn a xs → IsIn b xs → a.name ≡ b.name → a ≡ b
same_source [] a b u i k e = absurd i
same_source (x ∷ xs) a b (f, u) (inl p) (inl q) e = p ∙ sym q
same_source (x ∷ xs) a b (f, u) (inl p) (inr k) e =
    let there = elem-IsIn b xs k in
    absurd (ground (arith, f, there, e, ap (λ (s : Source). s.name) p))
same_source (x ∷ xs) a b (f, u) (inr i) (inl q) e =
    let there = elem-IsIn a xs i in
    absurd (ground (arith, f, there, e, ap (λ (s : Source). s.name) q))
same_source (x ∷ xs) a b (f, u) (inr i) (inr k) e = same_source xs a b u i k e

-- A source whose name is among those of some of the sources is one of them.
pub IsIn-named :
    (sources : List Source) (s : Source) (ps : List Source)
    → Unique sources
    → IsIn s sources
    → All (λ p. IsIn p sources) ps
    → elem s.name (names ps) ≡ true
    → IsIn s ps
IsIn-named sources s [] u i a h = absurd (ground (arith, h))
IsIn-named sources s (p ∷ ps) u i (k, a) h = elim (Bool-cases (p.name == s.name)) [
  | inl t ↦ inl (same_source sources s p u i k (sym ((eq_iff p.name s.name).0 t)))
  | inr t ↦ inr (IsIn-named sources s ps u i a (ground (arith, h, t)))
]

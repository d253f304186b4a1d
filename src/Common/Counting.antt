-- ===== src/Common/Counting.antt =====
-- How often a value stands in a list without duplicates.
use Prim.Native.Nat.{◌+◌}
use mathlib.Core.Path.{◌≡◌, refl, subst, ap}
use mathlib.Core.Bool.{Bool, true, false, not, ◌&&◌}
use mathlib.Core.Logic.{inl, inr}
use mathlib.Core.List.{List, [], ◌∷◌, map}
use native.Mathlib.Omega.{arith}
use julius.Common.Tests.{Eq, ◌==◌, if◌then◌else◌, Bool-cases, eq_of_beq, and_both, is_some}
use julius.Common.Lists.{All, elem, distinct, all}
use julius.Common.Tables.{count_where, get}

pub not-true : (b : Bool) → not b ≡ true → b ≡ false
not-true b h = ground (arith, h)

-- Tests that imply one another.
pub same_test : (b d : Bool) → (b ≡ true → d ≡ true) → (d ≡ true → b ≡ true) → b ≡ d
same_test b d h k = ground (arith, h, k)

module _ {ℓ} {A : Type ℓ} ⦃e : Eq A⦄ where
  count_absent : (a : A) (xs : List A) → elem a xs ≡ false → count_where (λ x. x == a) xs ≡ 0
  unfolding count_where
  count_absent a [] h = refl
  count_absent a (x ∷ xs) h = ground (arith, count_absent a xs)

  pub count-distinct :
      (a : A) (xs : List A)
      → distinct xs ≡ true
      → count_where (λ x. x == a) xs ≡ (if elem a xs then 1 else 0)
  unfolding count_where
  count-distinct a [] h = refl
  count-distinct a (x ∷ xs) h = elim (Bool-cases (x == a)) [
    | inl t ↦
        let gone : elem a xs ≡ false =
          subst (λ z. elem z xs ≡ false) (eq_of_beq x a t) (not-true _ (and_both _ _ h).0) in
        ground (arith, t, count_absent a xs gone)
    | inr t ↦ ground (arith, t, h, count-distinct a xs)
  ]

  pub elem-all :
      (a : A) (xs ys : List A)
      → all (λ x. elem x ys) xs ≡ true
      → elem a xs ≡ true
      → elem a ys ≡ true
  elem-all a [] ys h m = cc
  elem-all a (x ∷ xs) ys h m = elim (Bool-cases (x == a)) [
    | inl t ↦ subst (λ z. elem z ys ≡ true) (eq_of_beq x a t) (and_both _ _ h).0
    | inr t ↦ elem-all a xs ys (ground (arith, h)) (ground (arith, t, m))
  ]

-- A loop that remembers the keys that it saw: what is new behind one more key is new without it,
-- and that key does not come again.
module _ {A B : Type 0} ⦃e : Eq B⦄ (key : A → B) where
  pub fresh_keys :
      (x : B) (seen : List B) (ys : List A)
      → All (λ y. elem (key y) (x ∷ seen) ≡ false) ys
      → (elem x (map key ys) ≡ false) × All (λ y. elem (key y) seen ≡ false) ys
  fresh_keys x seen [] h = (refl, tt)
  fresh_keys x seen (y ∷ ys) (h, hs) =
      let (later, others) = fresh_keys x seen ys hs in
      (
        ground (arith, h, later, e.beq_iff x (key y), e.beq_iff (key y) x),
        (ground (arith, h), others),
      )

  pub count-map :
      (b : B) (ys : List A)
      → count_where (λ x. x == b) (map key ys) ≡ count_where (λ y. key y == b) ys
  unfolding count_where
  count-map b [] = refl
  count-map b (y ∷ ys) = ap (λ n. (if key y == b then 1 else 0) + n) (count-map b ys)

  pub all-map : (q : B → Bool) (ys : List A) → all q (map key ys) ≡ all (λ y. q (key y)) ys
  all-map q [] = refl
  all-map q (y ∷ ys) = ap (λ b. q (key y) && b) (all-map q ys)

-- The keys of a dict.
module _ {K V : Type 0} ⦃e : Eq K⦄ where
  pub get-elem : (k : K) (m : List (K × V)) → elem k (map (λ x. x.0) m) ≡ is_some (get k m)
  unfolding get
  get-elem k [] = refl
  get-elem k ((j, v) ∷ m) = elim (Bool-cases (j == k)) [
    | inl t ↦ rw (get, t)
    | inr t ↦ rw (get, t) (get-elem k m)
  ]

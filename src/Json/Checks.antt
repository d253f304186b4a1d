-- ===== src/Json/Checks.antt =====
-- Checks that return a value or raise `E`, and what follows from one that returned.
use julius.Common.{
  Bool, true, false, ◌≡◌, refl, subst, Option, none, some, List, [], ◌∷◌, map, arith, length, All,
}

pub data Checked {ℓ} (E : Type 0) (A : Type ℓ) : Type ℓ where
  ok : A → Checked E A
  raised : E → Checked E A

pub ok-eq : {E : Type 0} {A : Type 0} (a b : A) → ◌≡◌ {A = Checked E A} (ok a) (ok b) → a ≡ b
ok-eq a b h = ground (arith, h)

-- An error, if one is raised, satisfies `P`.
abbrev pub Only {ℓ} : {E : Type 0} {A : Type ℓ} → (E → Type 0) → Checked E A → Type 0
Only P (ok a) = Unit
Only P (raised e) = P e

module _ {ℓ κ} {E : Type 0} {A : Type ℓ} {B : Type κ} where
  infixl 5 ◌>>=◌
  abbrev pub ◌>>=◌ : Checked E A → (A → Checked E B) → Checked E B
  ok a >>= f = f a
  raised e >>= f = raised e

  pub bind-ok :
      (m : Checked E A) (f : A → Checked E B) {b : B}
      → m >>= f ≡ ok b
      → (a : A) × (m ≡ ok a) × (f a ≡ ok b)
  bind-ok (ok a) f h = (a, refl, h)
  bind-ok (raised e) f h = absurd (ground (arith, h))

  pub bind-Only :
      (P : E → Type 0) (m : Checked E A) (f : A → Checked E B)
      → Only P m
      → ((a : A) → Only P (f a))
      → Only P (m >>= f)
  bind-Only P (ok a) f h k = k a
  bind-Only P (raised e) f h k = h

-- if not test: raise e
abbrev pub demand : {E : Type 0} → E → Bool → Checked E (Unit {0})
demand e true = ok tt
demand e false = raised e

module _ {ℓ} {E : Type 0} {A : Type ℓ} where
  infixl 5 ◌>>◌
  -- The next check runs once this one has passed.
  abbrev pub ◌>>◌ : Checked E (Unit {0}) → Checked E A → Checked E A
  ok _ >> m = m
  raised e >> m = raised e

  pub then-ok :
      (c : Checked E (Unit {0})) (m : Checked E A) {a : A}
      → c >> m ≡ ok a
      → (c ≡ ok tt) × (m ≡ ok a)
  then-ok (ok tt) m h = (refl, h)
  then-ok (raised e) m h = absurd (ground (arith, h))

  pub demand-Only :
      (P : E → Type 0) (e : E) (b : Bool) (m : Checked E A)
      → P e
      → Only P m
      → Only P (demand e b >> m)
  demand-Only P e true m h k = k
  demand-Only P e false m h k = h

  pub then-Only :
      (P : E → Type 0) (c : Checked E (Unit {0})) (m : Checked E A)
      → Only P c
      → Only P m
      → Only P (c >> m)
  then-Only P (ok _) m h k = k
  then-Only P (raised e) m h k = h

  pub demand-ok :
      (e : E) (b : Bool) (m : Checked E A) {a : A}
      → demand e b >> m ≡ ok a
      → (b ≡ true) × (m ≡ ok a)
  demand-ok e true m h = (refl, h)
  demand-ok e false m h = absurd (ground (arith, h))

  abbrev pub known : E → Option A → Checked E A
  known e none = raised e
  known e (some a) = ok a

  pub known-Only : (P : E → Type 0) (e : E) (o : Option A) → P e → Only P (known e o)
  known-Only P e none h = h
  known-Only P e (some a) h = tt

  pub known-ok : (e : E) (o : Option A) {a : A} → known e o ≡ ok a → o ≡ some a
  known-ok e none h = absurd (ground (arith, h))
  known-ok e (some a) h = ground (arith, h)

module _ {ℓ κ} {E : Type 0} {A : Type ℓ} {B : Type κ} where
  -- A loop that checks each value in turn.
  abbrev pub each : (A → Checked E B) → List A → Checked E (List B)
  each f [] = ok []
  each f (x ∷ xs) = f x >>= λ y. each f xs >>= λ ys. ok (y ∷ ys)

  pub each-length :
      (f : A → Checked E B) (xs : List A) {ys : List B} → each f xs ≡ ok ys → length ys ≡ length xs
  each-length f [] h = ground (arith, h)
  each-length f (x ∷ xs) h =
      let (y, p, h1) = bind-ok (f x) _ h in
      let (ys', q, h2) = bind-ok (each f xs) _ h1 in ground (arith, each-length f xs q, h2)

  -- Values that a printer's text is read back to.
  pub each-map :
      (f : A → Checked E B) (print : B → A) (ys : List B)
      → All (λ y. f (print y) ≡ ok y) ys
      → each f (map print ys) ≡ ok ys
  each-map f print [] h = refl
  each-map f print (y ∷ ys) (e, h) = simp (e, each-map f print ys h)

module _ {E : Type 0} {A B : Type 0} where
  pub each-All :
      (Q : B → Type 0) (f : A → Checked E B) (xs : List A) {ys : List B}
      → ((x : A) (y : B) → f x ≡ ok y → Q y)
      → each f xs ≡ ok ys
      → All Q ys
  each-All Q f [] k h = subst (All Q) (ok-eq [] _ h) tt
  each-All Q f (x ∷ xs) k h =
      let (y, p, h1) = bind-ok (f x) _ h in
      let (ys', q, h2) = bind-ok (each f xs) _ h1 in
      subst (All Q) (ok-eq _ _ h2) (k x y p, each-All Q f xs k q)

-- ===== src/Collection/Settling.antt =====
-- What the loop of `source_completed` leaves of the domains in its table.
use julius.Common.{
  String, Bool, true, false, not, ◌||◌, ◌≡◌, refl, sym, ◌∙◌, subst, List, [], ◌∷◌, map, elem,
  distinct, All, put, count_where, count_where-append, arith, eq_iff, ◌==◌, string_eq,
  if◌then◌else◌, Bool-cases, inl, inr,
}
use julius.Collection.Writer.{Writer, is_complete, package_of, close, close_complete}

abbrev pub names : List (String × String) → List String
names m = map (λ s. s.0) m

pub elem-put :
    (n k v : String) (m : List (String × String))
    → elem n (names (put k v m)) ≡ (k == n || elem n (names m))
unfolding put
elem-put n k v [] = refl
elem-put n k v ((j, w) ∷ m) = ground (arith, elem-put n k v m, eq_iff j k, eq_iff j n, eq_iff k n)

-- One more source is known: domains that do not wait for it are where they were.
is_complete-put :
    (k v : String) (m : List (String × String)) (expected : List String)
    → elem k expected ≡ false
    → is_complete expected (put k v m) ≡ is_complete expected m
unfolding is_complete
is_complete-put k v m [] h = refl
is_complete-put k v m (n ∷ ns) h =
    ground (arith, h, elem-put n k v m, is_complete-put k v m ns, eq_iff k n, eq_iff n k)

is_complete_stays :
    (k v : String) (m : List (String × String)) (expected : List String)
    → is_complete expected m ≡ true
    → is_complete expected (put k v m) ≡ true
unfolding is_complete
is_complete_stays k v m [] h = refl
is_complete_stays k v m (n ∷ ns) h = ground (arith, h, elem-put n k v m, is_complete_stays k v m ns)

-- Every closed domain has one package, and no other domain has any.
abbrev pub IsPacked : Writer → Type 0
IsPacked w =
    (d : String) → count_where (λ p. p.domain == d) w.packages ≡ (if elem d w.closed then 1 else 0)

abbrev pub domains : List (String × List String) → List String
domains table = map (λ r. r.0) table

module _ (precedes : String → String → Bool) (source : String) (dataset : String → String) where
  close-IsPacked :
      (domain : String) (expected : List String) (w : Writer)
      → elem domain w.closed ≡ false
      → IsPacked w
      → IsPacked (close precedes domain expected dataset w)
  unfolding close count_where
  close-IsPacked domain expected w new h d = ground (
    arith,
    h d,
    count_where-append (λ p. p.domain == d) w.packages
        (package_of precedes domain expected dataset w ∷ []),
    eq_iff domain d,
    new,
  )

  -- A domain that the rest of the table does not name stays as it is.
  close_complete-other :
      (table : List (String × List String)) (w : Writer) (d : String)
      → elem d (domains table) ≡ false
      → elem d (close_complete precedes table source dataset w).closed ≡ elem d w.closed
  unfolding close_complete close
  close_complete-other [] w d h = refl
  close_complete-other ((domain, expected) ∷ table) w d h =
      elim (Bool-cases (elem domain w.closed || not (elem source expected))) [
        | inl e ↦ rw (close_complete, e) (close_complete-other table w d (ground (arith, h)))
        | inr e ↦ elim (Bool-cases (is_complete expected w.statuses)) [
          | inl f ↦
              rw (close_complete, e, f)
                (close_complete-other table (close precedes domain expected dataset w) d
                    (ground (arith, h))
                  ∙ ground (arith, h))
          | inr f ↦ rw (close_complete, e, f) (close_complete-other table w d (ground (arith, h)))
        ]
      ]

  pub close_complete-statuses :
      (table : List (String × List String)) (w : Writer)
      → (close_complete precedes table source dataset w).statuses ≡ w.statuses
  unfolding close_complete close
  close_complete-statuses [] w = refl
  close_complete-statuses ((domain, expected) ∷ table) w =
      elim (Bool-cases (elem domain w.closed || not (elem source expected))) [
        | inl e ↦ rw (close_complete, e) (close_complete-statuses table w)
        | inr e ↦ elim (Bool-cases (is_complete expected w.statuses)) [
          | inl f ↦
              rw (close_complete, e, f)
                (close_complete-statuses table (close precedes domain expected dataset w))
          | inr f ↦ rw (close_complete, e, f) (close_complete-statuses table w)
        ]
      ]

  pub close_complete-IsPacked :
      (table : List (String × List String)) (w : Writer)
      → IsPacked w
      → IsPacked (close_complete precedes table source dataset w)
  unfolding close_complete
  close_complete-IsPacked [] w h = h
  close_complete-IsPacked ((domain, expected) ∷ table) w h =
      elim (Bool-cases (elem domain w.closed || not (elem source expected))) [
        | inl e ↦ rw (close_complete, e) (close_complete-IsPacked table w h)
        | inr e ↦ elim (Bool-cases (is_complete expected w.statuses)) [
          | inl f ↦
              rw (close_complete, e, f)
                (close_complete-IsPacked table (close precedes domain expected dataset w)
                  (close-IsPacked domain expected w (ground (arith, e)) h))
          | inr f ↦ rw (close_complete, e, f) (close_complete-IsPacked table w h)
        ]
      ]

  -- The rows of the table whose domain is closed exactly when its sources are known.
  abbrev pub AreSettled :
      List String → List (String × String) → List (String × List String) → Type 0
  AreSettled closed statuses table = All (λ r. elem r.0 closed ≡ is_complete r.1 statuses) table

  AreSettled-cons :
      (domain : String) (closed : List String) (statuses : List (String × String))
      (table : List (String × List String))
      → elem domain (domains table) ≡ false
      → AreSettled closed statuses table
      → AreSettled (domain ∷ closed) statuses table
  AreSettled-cons domain closed statuses [] h k = tt
  AreSettled-cons domain closed statuses ((d, expected) ∷ table) h (k, ks) = (
    ground (arith, h, k, eq_iff domain d, eq_iff d domain),
    AreSettled-cons domain closed statuses table (ground (arith, h)) ks,
  )

  -- What is left of the loop, once the first row is as it will be.
  settled_first :
      (domain : String) (expected : List String) (table : List (String × List String)) (w : Writer)
      → elem domain (domains table) ≡ false
      → elem domain w.closed ≡ is_complete expected w.statuses
      → AreSettled (close_complete precedes table source dataset w).closed w.statuses table
      → AreSettled
          (close_complete precedes table source dataset w).closed
          w.statuses
          ((domain, expected) ∷ table)
  settled_first domain expected table w other h k =
      (close_complete-other table w domain other ∙ h, k)

  unaffected :
      (domain : String) (expected : List String) (v : String) (old : List (String × String))
      (w : Writer)
      → w.statuses ≡ put source v old
      → elem domain w.closed ≡ is_complete expected old
      → (elem domain w.closed || not (elem source expected)) ≡ true
      → elem domain w.closed ≡ is_complete expected w.statuses
  unaffected domain expected v old w known h e =
      subst (λ m. elem domain w.closed ≡ is_complete expected m) (sym known)
        (elim (Bool-cases (elem source expected)) [
          | inr f ↦ h ∙ sym (is_complete-put source v old expected f)
          | inl f ↦
              let closed : elem domain w.closed ≡ true = ground (arith, e, f) in
              closed ∙ sym (is_complete_stays source v old expected (sym h ∙ closed))
        ])

  pub close_complete-AreSettled :
      (v : String) (old : List (String × String)) (table : List (String × List String)) (w : Writer)
      → distinct (domains table) ≡ true
      → w.statuses ≡ put source v old
      → AreSettled w.closed old table
      → AreSettled (close_complete precedes table source dataset w).closed w.statuses table
  unfolding close close_complete
  close_complete-AreSettled v old [] w once known h = tt
  close_complete-AreSettled v old ((domain, expected) ∷ table) w once known (h, hs) =
      let other : elem domain (domains table) ≡ false = ground (arith, once) in
      let rest : distinct (domains table) ≡ true = ground (arith, once) in
      let later = close_complete-AreSettled v old table w rest known hs in
      let rows = (domain, expected) ∷ table in
      let whole = close_complete precedes rows source dataset w in
      elim (Bool-cases (elem domain w.closed || not (elem source expected))) [
        | inl e ↦
            let same : close_complete precedes table source dataset w ≡ whole =
              rw (close_complete, e) in
            subst (λ x. AreSettled x.closed w.statuses rows) same
              (settled_first domain expected table w other
                (unaffected domain expected v old w known h e) later)
        | inr e ↦ elim (Bool-cases (is_complete expected w.statuses)) [
          | inl f ↦
              let closed = close precedes domain expected dataset w in
              let same : close_complete precedes table source dataset closed ≡ whole =
                rw (close_complete, e, f) in
              subst (λ x. AreSettled x.closed w.statuses rows) same
                (settled_first domain expected table closed other
                  (ground (arith, f, eq_iff domain domain))
                  (close_complete-AreSettled v old table closed rest known
                    (AreSettled-cons domain w.closed old table other hs)))
          | inr f ↦
              let same : close_complete precedes table source dataset w ≡ whole =
                rw (close_complete, e, f) in
              subst (λ x. AreSettled x.closed w.statuses rows) same
                (settled_first domain expected table w other (ground (arith, e, f)) later)
        ]
      ]

-- ===== src/Signals/Promoted.antt =====
-- What a promotion in julius/state/signal_ledger.py is, and what writing one entry leaves of it.
use julius.Common.{
  String, ◌≡◌, sym, subst, true, some, [], ◌∷◌, get, put, get-put, ◌==◌, string_eq, Bool-cases, inl,
  inr, arith, All, eq_iff,
}
use julius.Signals.Ledger.{Measures, Entry, Ledger, was_promoted}

module _ {m : Measures} where
  -- The ledger has an entry for the fingerprint, and no row of it that is not promoted.
  abbrev pub Promoted : String → Ledger m → Type 0
  Promoted fp store =
      ((e : Entry m) × (get fp store ≡ some e))
      × All (λ (k, e). (k == fp) ≡ true → e.promoted ≡ true) store

  Promoted-get :
      (fp : String) (store : Ledger m) (e : Entry m)
      → All (λ (k, e). (k == fp) ≡ true → e.promoted ≡ true) store
      → get fp store ≡ some e
      → e.promoted ≡ true
  unfolding get
  Promoted-get fp [] e h g = absurd (ground (arith, g))
  Promoted-get fp ((k, v) ∷ rest) e (i, h) g = elim (Bool-cases (k == fp)) [
    | inl t ↦
        let same : v ≡ e = ground (arith, g, t) in
        subst (λ (x : Entry m). x.promoted ≡ true) same (i t)
    | inr t ↦ Promoted-get fp rest e h (ground (arith, g, t))
  ]

  All-put :
      (fp key : String) (e : Entry m) (store : Ledger m)
      → ((key == fp) ≡ true → e.promoted ≡ true)
      → All (λ (k, e). (k == fp) ≡ true → e.promoted ≡ true) store
      → All (λ (k, e). (k == fp) ≡ true → e.promoted ≡ true) (put key e store)
  unfolding put
  All-put fp key e [] i h = (i, tt)
  All-put fp key e ((k, v) ∷ rest) i (j, h) = elim (Bool-cases (k == key)) [
    | inl t ↦ simp t ((λ p. i (ground (arith, p, t, eq_iff k key, eq_iff key fp, eq_iff k fp))), h)
    | inr t ↦ simp t (j, All-put fp key e rest i h)
  ]

  pub Promoted-put :
      (fp key : String) (e : Entry m) (store : Ledger m)
      → (Promoted fp store → (key == fp) ≡ true → e.promoted ≡ true)
      → Promoted fp store
      → Promoted fp (put key e store)
  Promoted-put fp key e store i ((old, g), h) = (
    elim (Bool-cases (key == fp)) [
      | inl t ↦ (e, rw (get-put key fp, t))
      | inr t ↦ (old, rw (get-put key fp, t) g)
    ],
    All-put fp key e store (i ((old, g), h)) h,
  )

  -- An entry that is made from the one under its key keeps the promotion of that one.
  pub promoted_again :
      (fp key : String) (store : Ledger m) (e : Entry m)
      → Promoted fp store
      → (key == fp) ≡ true
      → get key store ≡ some e
      → e.promoted ≡ true
  promoted_again fp key store e (_, h) t g =
      Promoted-get fp store e h (subst (λ k. get k store ≡ some e) ((eq_iff key fp).0 t) g)

  pub was_promoted-again :
      (fp key : String) (store : Ledger m)
      → Promoted fp store
      → (key == fp) ≡ true
      → was_promoted (get key store) ≡ true
  was_promoted-again fp key store ((old, g), h) t =
      subst (λ k. was_promoted (get k store) ≡ true) (sym ((eq_iff key fp).0 t))
        (rw g (Promoted-get fp store old h g))

-- ===== src/Signals/Promotions.antt =====
-- A promotion of julius/state/signal_ledger.py lasts: what the ledger's writing calls leave of it.
use julius.Common.{
  ℕ, ◌+◌, String, ◌≡◌, refl, sym, subst, true, false, Option, none, some, List, [], ◌∷◌, select,
  elem, get, put, ◌==◌, string_eq, if◌then◌else◌, Bool-cases, Option-cases, inl, inr, arith, All,
  eq_iff,
}
use julius.Common.Texts.{Unicode, is_blank, strip}
use julius.Signals.Ledger.{
  Measures, Signal, Verdict, PilotResult, Entry, Ledger, Judging, signal_of, judged, record_verdict,
  record_verdicts, piloted, pilot_for, record_pilot, is_pending, pending_promotions, mark_promoted,
}
use julius.Signals.Promoted.{Promoted, Promoted-put, promoted_again, was_promoted-again}

-- The calls that write, and the ledger that each leaves.
pub data Command (m : Measures) : Type 0 where
  verdicts_of : Judging → List Signal → List Verdict → Command m
  pilot_of : String → PilotResult m → Command m
  promoted_of : List String → Command m

module _ {m : Measures} where
  unfoldable pub execute : Unicode → Command m → Ledger m → Ledger m
  execute u (verdicts_of j signals vs) store = (record_verdicts j signals vs (0, store)).1
  execute u (pilot_of fp p) store = (record_pilot u fp p store).1
  execute u (promoted_of fps) store = mark_promoted fps store

  unfoldable pub execute_all : Unicode → List (Command m) → Ledger m → Ledger m
  unfolding execute
  execute_all u [] store = store
  execute_all u (c ∷ cs) store = execute_all u cs (execute u c store)

  record_verdict-Promoted :
      (fp : String) (j : Judging) (signals : List Signal) (v : Verdict) (n : ℕ) (store : Ledger m)
      → Promoted fp store
      → Promoted fp (record_verdict j signals v (n, store)).1
  unfolding record_verdict judged
  record_verdict-Promoted fp j signals v n store h =
      elim (Option-cases (signal_of v.rule_id v.asset_name signals)) [
        | inl e ↦
            let same : record_verdict j signals v (n, store) ≡ (n, store) =
              rw (record_verdict, e) in
            subst (λ (r : ℕ × Ledger m). Promoted fp r.1) (sym same) h
        | inr (s, e) ↦
            let key = s.fingerprint j.account in
            let same : record_verdict j signals v (n, store)
                ≡ (n + 1, put key (judged j v s (get key store)) store) =
              rw (record_verdict, e) in
            subst (λ (r : ℕ × Ledger m). Promoted fp r.1) (sym same)
              (Promoted-put fp key (judged j v s (get key store)) store
                (λ q t. was_promoted-again fp key store q t) h)
      ]

  record_verdicts-Promoted :
      (fp : String) (j : Judging) (signals : List Signal) (vs : List Verdict) (n : ℕ)
      (store : Ledger m)
      → Promoted fp store
      → Promoted fp (record_verdicts j signals vs (n, store)).1
  unfolding record_verdicts
  record_verdicts-Promoted fp j signals [] n store h = h
  record_verdicts-Promoted fp j signals (v ∷ vs) n store h =
      let (n', store') = record_verdict j signals v (n, store) in
      record_verdicts-Promoted fp j signals vs n' store'
        (record_verdict-Promoted fp j signals v n store h)

  piloted-Promoted :
      (fp key : String) (result : PilotResult m) (store : Ledger m) (e : Entry m)
      → get key store ≡ some e
      → Promoted fp store
      → Promoted fp (put key (piloted result e) store)
  piloted-Promoted fp key result store e g h =
      Promoted-put fp key (piloted result e) store (λ q t. promoted_again fp key store e q t g) h

  pilot_for-Promoted :
      (u : Unicode) (fp key : String) (p : PilotResult m) (o : Option (Entry m)) (store : Ledger m)
      → get key store ≡ o
      → Promoted fp store
      → Promoted fp (pilot_for u key p o store).1
  unfolding pilot_for
  pilot_for-Promoted u fp key p none store g h = h
  pilot_for-Promoted u fp key p (some e) store g h = elim (Bool-cases (e.verdict == "confirmed")) [
    | inl t ↦ elim (Bool-cases (m.is_positive p.measured_monthly)) [
      | inl q ↦ elim (Bool-cases (is_blank (strip u p.actor))) [
        | inl b ↦ simp (t, q, b) h
        | inr b ↦
            simp (t, q, b)
              (piloted-Promoted fp key (record p { actor = strip u p.actor }) store e g h)
      ]
      | inr q ↦ simp (t, q) h
    ]
    | inr t ↦ simp t h
  ]

  record_pilot-Promoted :
      (u : Unicode) (fp key : String) (p : PilotResult m) (store : Ledger m)
      → Promoted fp store
      → Promoted fp (record_pilot u key p store).1
  unfolding record_pilot
  record_pilot-Promoted u fp key p store h =
      pilot_for-Promoted u fp key p (get key store) store refl h

  get-mark_promoted :
      (fp : String) (fps : List String) (store : Ledger m) (e : Entry m)
      → get fp store ≡ some e
      → (e' : Entry m) × (get fp (mark_promoted fps store) ≡ some e')
  unfolding get mark_promoted
  get-mark_promoted fp fps [] e g = absurd (ground (arith, g))
  get-mark_promoted fp fps ((k, v) ∷ rest) e g = elim (Bool-cases (k == fp)) [
    | inl t ↦ simp t ((if elem k fps then record v { promoted = true } else v), refl)
    | inr t ↦ simp t (get-mark_promoted fp fps rest e (ground (arith, g, t)))
  ]

  All-mark_promoted :
      (fp : String) (fps : List String) (store : Ledger m)
      → All (λ (k, e). (k == fp) ≡ true → e.promoted ≡ true) store
      → All (λ (k, e). (k == fp) ≡ true → e.promoted ≡ true) (mark_promoted fps store)
  unfolding mark_promoted
  All-mark_promoted fp fps [] h = tt
  All-mark_promoted fp fps ((k, e) ∷ rest) (i, h) = elim (Bool-cases (elem k fps)) [
    | inl t ↦ simp t ((λ p. refl), All-mark_promoted fp fps rest h)
    | inr t ↦ simp t (i, All-mark_promoted fp fps rest h)
  ]

  marked :
      (fp : String) (fps : List String) (store : Ledger m)
      → elem fp fps ≡ true
      → All (λ (k, e). (k == fp) ≡ true → e.promoted ≡ true) (mark_promoted fps store)
  unfolding mark_promoted
  marked fp fps [] m' = tt
  marked fp fps ((k, e) ∷ rest) m' = elim (Bool-cases (elem k fps)) [
    | inl t ↦ simp t ((λ p. refl), marked fp fps rest m')
    | inr t ↦ simp t ((λ p. absurd (cc (t, m', (eq_iff k fp).0 p))), marked fp fps rest m')
  ]

  execute-Promoted :
      (u : Unicode) (fp : String) (c : Command m) (store : Ledger m)
      → Promoted fp store
      → Promoted fp (execute u c store)
  unfolding execute
  execute-Promoted u fp (verdicts_of j signals vs) store h =
      record_verdicts-Promoted fp j signals vs 0 store h
  execute-Promoted u fp (pilot_of key p) store h = record_pilot-Promoted u fp key p store h
  execute-Promoted u fp (promoted_of fps) store ((e, g), h) =
      (get-mark_promoted fp fps store e g, All-mark_promoted fp fps store h)

  execute_all-Promoted :
      (u : Unicode) (fp : String) (cs : List (Command m)) (store : Ledger m)
      → Promoted fp store
      → Promoted fp (execute_all u cs store)
  unfolding execute_all
  execute_all-Promoted u fp [] store h = h
  execute_all-Promoted u fp (c ∷ cs) store h =
      execute_all-Promoted u fp cs (execute u c store) (execute-Promoted u fp c store h)

  not_pending :
      (fp account : String) (store : Ledger m)
      → All (λ (k, e). (k == fp) ≡ true → e.promoted ≡ true) store
      → All (λ (k, e). (k == fp) ≡ false) (pending_promotions account store)
  unfolding pending_promotions select
  not_pending fp account [] h = tt
  not_pending fp account ((k, e) ∷ rest) (i, h) = elim (Bool-cases (is_pending account (k, e))) [
    | inl t ↦ simp t (ground (arith, i, t), not_pending fp account rest h)
    | inr t ↦ simp t (not_pending fp account rest h)
  ]

-- A signal of the ledger that was marked as promoted is never offered for promotion again, by no
-- account, whatever verdicts, pilots and promotions are recorded after it.
pub promoted_once :
    (m : Measures) (u : Unicode) (fp account : String) (fps : List String)
    (commands : List (Command m)) (store : Ledger m) (e : Entry m)
    → get fp store ≡ some e
    → elem fp fps ≡ true
    → All
        (λ (k, e). (k == fp) ≡ false)
        (pending_promotions account (execute_all u commands (mark_promoted fps store)))
promoted_once m u fp account fps commands store e g h =
    not_pending fp account (execute_all u commands (mark_promoted fps store))
      (execute_all-Promoted u fp commands (mark_promoted fps store)
        (get-mark_promoted fp fps store e g, marked fp fps store h)).1

-- ===== src/Backlog/Changes.antt =====
-- The changes of status that a reconciliation of julius/state/store.py makes by itself.
use julius.Common.{
  String, ◌≡◌, sym, subst, false, Option, none, some, List, [], ◌∷◌, ◌++◌, get, put, remove, find?,
  string_eq, All, All-append, Bool-cases, Option-cases, inl, inr, arith,
}
use julius.Backlog.Store.{
  Floats, Entry, Opportunity, Backlog, Reconciliation, is_over, is_legacy, legacy_rule, take_legacy,
  previous, should_reopen, status_now, written,
}
use julius.Backlog.Reconcile.{
  Scan, State, reopening, note, see_all, disappears, gone, disappearance, sweep, nothing, reconcile,
}
use julius.Backlog.Statuses.{
  IsAllowed, IsStatus, Statuses, reopen-allowed, ended-allowed, ended-IsStatus, Statuses-put,
  Statuses-remove, Statuses-get, Statuses-find?,
}

module _ {floats : Floats} where
  abbrev Known : Option (Entry floats) → Type 0
  Known none = Unit
  Known (some e) = IsStatus e.status

  abbrev KnownIn : Option (Entry floats) × Backlog floats → Type 0
  KnownIn (prev, store) = Known prev × Statuses store

  take_legacy-Known :
      (o : Opportunity floats) (rule : Option String) (store : Backlog floats)
      → Statuses store
      → KnownIn (take_legacy o rule store)
  unfolding take_legacy
  take_legacy-Known o none store h = (tt, h)
  take_legacy-Known o (some rule) store h = elim (Option-cases (find? (is_legacy o rule) store)) [
    | inl e ↦
        let same : take_legacy o (some rule) store ≡ (none, store) = rw (take_legacy, e) in
        subst KnownIn (sym same) (tt, h)
    | inr (row, e) ↦
        let same : take_legacy o (some rule) store ≡ (some row.1, remove row.0 store) =
          rw (take_legacy, e) in
        subst KnownIn (sym same)
          (Statuses-find? (is_legacy o rule) store row h e, Statuses-remove row.0 store h)
  ]

  previous-Known :
      (o : Opportunity floats) (store : Backlog floats)
      → Statuses store
      → KnownIn (previous o store)
  unfolding previous
  previous-Known o store h = elim (Option-cases (get o.fingerprint store)) [
    | inl e ↦
        let same : previous o store ≡ take_legacy o (legacy_rule o.rule_id) store =
          rw (previous, e) in
        subst KnownIn (sym same) (take_legacy-Known o (legacy_rule o.rule_id) store h)
    | inr (entry, e) ↦
        let same : previous o store ≡ (some entry, store) = rw (previous, e) in
        subst KnownIn (sym same) (Statuses-get o.fingerprint store entry h e, h)
  ]

  status_now-IsStatus :
      (o : Opportunity floats) (prev : Option (Entry floats))
      → IsStatus o.status
      → Known prev
      → IsStatus (status_now o prev)
  unfolding status_now
  status_now-IsStatus o none h k = h
  status_now-IsStatus o (some prev) h k = elim (Bool-cases (should_reopen o prev)) [
    | inl e ↦ rw e
    | inr e ↦ rw e k
  ]

  reopening-IsAllowed :
      (o : Opportunity floats) (prev : Entry floats) → All IsAllowed (reopening o prev)
  unfolding should_reopen
  reopening-IsAllowed o prev = elim (Bool-cases (should_reopen o prev)) [
    | inl e ↦ rw e (reopen-allowed prev.status (ground (arith, e)), tt)
    | inr e ↦ rw e tt
  ]

  note-IsAllowed :
      (o : Opportunity floats) (prev : Option (Entry floats)) (rec : Reconciliation floats)
      → All IsAllowed rec.status_changes
      → All IsAllowed (note o prev rec).status_changes
  unfolding note
  note-IsAllowed o none rec h = h
  note-IsAllowed o (some prev) rec h =
      All-append IsAllowed rec.status_changes (reopening o prev) h (reopening-IsAllowed o prev)

  abbrev pub Kept : State floats → Type 0
  Kept st = All IsAllowed st.0.status_changes × Statuses st.1

  see_all-Kept :
      (scan : Scan) (os : List (Opportunity floats)) (rec : Reconciliation floats)
      (store : Backlog floats)
      → All (λ o. IsStatus o.status) os
      → Kept (rec, store)
      → Kept (see_all scan os (rec, store))
  unfolding see_all written
  see_all-Kept scan [] rec store i h = h
  see_all-Kept scan (o ∷ os) rec store (j, i) (h, k) =
      let prev = (previous o store).0 in
      let (known, kept) = previous-Known o store k in
      see_all-Kept scan os (note o prev rec)
        (put o.fingerprint (written scan.stamp scan.scan_id o prev) (previous o store).1) i
        (
          note-IsAllowed o prev rec h,
          Statuses-put o.fingerprint (written scan.stamp scan.scan_id o prev) (previous o store).1
              (status_now-IsStatus o prev j known) kept,
        )

  sweep-Kept :
      (scan : Scan) (os : List (Opportunity floats)) (rec : Reconciliation floats)
      (store : Backlog floats)
      → Kept (rec, store)
      → Kept (sweep scan os (rec, store))
  unfolding sweep disappears
  sweep-Kept scan os rec [] h = h
  sweep-Kept scan os rec ((fp, e) ∷ rest) (h, (i, k)) =
      elim (Bool-cases (disappears scan os (fp, e))) [
        | inl t ↦
            let over : is_over e.status ≡ false = ground (arith, t) in
            let changes =
              All-append IsAllowed rec.status_changes (disappearance fp e ∷ []) h
                (ended-allowed e.status i over, tt) in
            let (out, kept) =
              sweep-Kept scan os
                (record rec {
                  disappeared = rec.disappeared ++ gone scan e ∷ [];
                  status_changes = rec.status_changes ++ disappearance fp e ∷ [];
                })
                rest (changes, k) in
            simp t (out, (ended-IsStatus e.status, kept))
        | inr t ↦ let (out, kept) = sweep-Kept scan os rec rest (h, k) in simp t (out, (i, kept))
      ]

-- On a backlog whose entries have statuses of the lifecycle, and opportunities that come with one,
-- every change of status that a reconciliation reports is a transition that the lifecycle allows,
-- and the statuses of the backlog that it leaves are of the lifecycle again.
pub reconcile-IsAllowed :
    (floats : Floats) (scan : Scan) (os : List (Opportunity floats)) (store : Backlog floats)
    → All (λ o. IsStatus o.status) os
    → Statuses store
    → All IsAllowed (reconcile scan os store).0.status_changes
      × Statuses (reconcile scan os store).1
unfolding reconcile
reconcile-IsAllowed floats scan os store i h =
    let (seen_rec, seen_store) = see_all scan os (nothing, store) in
    sweep-Kept scan os seen_rec seen_store (see_all-Kept scan os nothing store i (tt, h))

-- ===== src/Backlog/ByHand.antt =====
-- What `BacklogStore.transition` of julius/state/store.py changes, and when.
use julius.Common.{
  ℕ, String, ◌≡◌, refl, sym, ap, ◌∙◌, [], ◌∷◌, ◌++◌, subst, Bool, true, false, not, some, get, put,
  get-put, ◌==◌, string_eq, if◌then◌else◌, Option-cases, inl, inr, arith,
}
use julius.Common.Texts.{Unicode, is_blank, strip}
use julius.Backlog.Lifecycle.{
  LifecycleEvent, Error, Result, ok, err, unknown_fingerprint, can_transition, check_transition,
}
use julius.Backlog.Store.{Transition, Floats, Entry, Backlog}
use julius.Backlog.Reconcile.{asked, audited, transition}

-- What an event that passed the checks satisfies.
record IsChecked (u : Unicode) (asked_for event : LifecycleEvent) : Type 0 where
  allowed : can_transition asked_for.from_status asked_for.to_status ≡ true
  by_someone : is_blank (strip u asked_for.actor) ≡ false
  for_a_reason : is_blank (strip u asked_for.reason) ≡ false
  stripped :
      event
      ≡ record asked_for { actor = strip u asked_for.actor; reason = strip u asked_for.reason }

-- Three guards in a row, passed.
three_guards :
    (c a r : Bool) (x y z : Error) (v event : LifecycleEvent)
    → ◌≡◌ {A = Result LifecycleEvent}
        (if not c then err x else if a then err y else if r then err z else ok v)
        (ok event)
    → (c ≡ true) × (a ≡ false) × (r ≡ false) × (event ≡ v)
three_guards c a r x y z v event h = ground arith

check_transition-IsChecked :
    (u : Unicode) (e event : LifecycleEvent) → check_transition u e ≡ ok event → IsChecked u e event
unfolding check_transition
check_transition-IsChecked u e event h =
    let (c, a, r, same) =
      three_guards (can_transition e.from_status e.to_status) (is_blank (strip u e.actor))
        (is_blank (strip u e.reason)) _ _ _ _ event h in
    record { allowed = c; by_someone = a; for_a_reason = r; stripped = same }

-- The status that a move leaves; an entry without one counts as detected.
abbrev pub left_status : String → String
left_status status = if is_blank status then "detected" else status

-- What the audit keeps of a move by hand.
abbrev pub audit_record : Unicode → String → String → String → String → ℕ → Transition
audit_record u from to actor reason now = record {
  from_status = from;
  to_status = to;
  actor = strip u actor;
  reason = strip u reason;
  occurred_at = now;
  automatic = false;
}

module _ {floats : Floats} where
  -- The two ways in which a call can end.
  abbrev pub Ends :
      Unicode
      → String
      → String
      → String
      → String
      → ℕ
      → Backlog floats
      → Result LifecycleEvent × Backlog floats
      → Type 0
  Ends u fp to actor reason now store (err problem, after) = after ≡ store
  Ends u fp to actor reason now store (ok event, after) =
      (e : Entry floats) × (get fp store ≡ some e)
      × (can_transition (left_status e.status) to ≡ true)
      × (is_blank (strip u actor) ≡ false)
      × (is_blank (strip u reason) ≡ false)
      × (event ≡ record {
        fingerprint = fp;
        account = e.account;
        opportunity_id = e.opportunity_id;
        from_status = left_status e.status;
        to_status = to;
        actor = strip u actor;
        reason = strip u reason;
        occurred_at = now;
        automatic = false;
      })
      × ((k : String)
          → get k after ≡ (
              if fp == k
              then some (record e {
                status = to;
                transitions =
                    e.transitions ++ audit_record u (left_status e.status) to actor reason now ∷ [];
              })
              else get k store))

-- A transition by hand that raises leaves the backlog as it was. One that returns found an entry
-- whose status the lifecycle lets move to the new one, and had an actor and a reason that are not
-- blank when stripped; it returns the event of that move, and changed that entry alone: to the new
-- status, with the record of the move behind the records that it had, and otherwise as it was.
pub transition-Ends :
    (floats : Floats) (u : Unicode) (fp to actor reason : String) (now : ℕ) (store : Backlog floats)
    → Ends u fp to actor reason now store (transition u fp to actor reason now store)
unfolding transition
transition-Ends floats u fp to actor reason now store = elim (Option-cases (get fp store)) [
  | inl e ↦
      let same : transition u fp to actor reason now store ≡ (err (unknown_fingerprint fp), store) =
        rw (transition, e) in
      subst (Ends u fp to actor reason now store) (sym same) refl
  | inr (entry, e) ↦ by_check entry e (check_transition u (asked fp entry to actor reason now)) refl
]
  where
    by_check :
        (entry : Entry floats)
        → get fp store ≡ some entry
        → (r : Result LifecycleEvent) → check_transition u (asked fp entry to actor reason now) ≡ r
        → Ends u fp to actor reason now store (transition u fp to actor reason now store)
    by_check entry e (err problem) f =
        let same : transition u fp to actor reason now store ≡ (err problem, store) =
          rw (transition, e, f) in
        subst (Ends u fp to actor reason now store) (sym same) refl
    by_check entry e (ok event) f =
        let same : transition u fp to actor reason now store
            ≡ (ok event, put fp (audited event entry) store) =
          rw (transition, e, f) in
        let c = check_transition-IsChecked u (asked fp entry to actor reason now) event f in
        subst (Ends u fp to actor reason now store) (sym same) (
          entry,
          e,
          c.allowed,
          c.by_someone,
          c.for_a_reason,
          c.stripped,
          λ k.
              get-put fp k (audited event entry) store
              ∙ ap (λ (v : LifecycleEvent). if fp == k then some (audited v entry) else get k store)
                  c.stripped,
        )

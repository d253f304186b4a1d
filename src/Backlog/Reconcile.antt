-- ===== src/Backlog/Reconcile.antt =====
-- `reconcile`, `transition` and `status_for` of `BacklogStore`, julius/state/store.py.
use julius.Common.{
  ℕ, String, Bool, false, not, ◌&&◌, Option, none, some, List, [], ◌∷◌, ◌++◌, map, any, elem, get,
  put, ◌==◌, string_eq, if◌then◌else◌,
}
use mathlib.Core.Option
use julius.Common.Texts.{Unicode, is_blank}
use julius.Backlog.Lifecycle.{
  LifecycleEvent, unknown_fingerprint, Result, ok, err, check_transition,
}
use julius.Backlog.Store.{
  Floats, Entry, Opportunity, Backlog, StatusChange, Reconciliation, is_closed, is_over, previous,
  should_reopen, written,
}

-- The arguments of `reconcile` besides the opportunities.
pub record Scan : Type 0 where
  pub scan_id : String
  pub stamp : String
  pub account_id : Option String
  pub ignored_rule_ids : List String
  pub protected_signal_keys : List (String × String × String)

abbrev pub State : Floats → Type 0
State floats = Reconciliation floats × Backlog floats

-- new_status
abbrev pub ended : String → String
ended s = if s == "implemented" then "validated" else "expired"

module _ {floats : Floats} where
  -- The change of status of an opportunity that is reopened.
  abbrev pub reopening : Opportunity floats → Entry floats → List StatusChange
  reopening o prev =
      if should_reopen o prev
      then (record {
        fingerprint = o.fingerprint;
        account = o.account;
        opportunity_id = o.opportunity_id;
        from_status = prev.status;
        to_status = "detected";
        reason = "problema retornou ou surgiu nova evidência";
      })
        ∷ []
      else []

  -- What the branch on `prev` notes.
  unfoldable pub note :
      Opportunity floats → Option (Entry floats) → Reconciliation floats → Reconciliation floats
  note o none rec = record rec { new = rec.new ++ o.fingerprint ∷ [] }
  note o (some prev) rec =
      let again = should_reopen o prev in
      record rec {
        persisting = rec.persisting ++ o.fingerprint ∷ [];
        reopened = if again then rec.reopened ++ o.fingerprint ∷ [] else rec.reopened;
        suppressed =
            if is_closed prev.status && not again
            then rec.suppressed ++ o.fingerprint ∷ []
            else rec.suppressed;
        status_changes = rec.status_changes ++ reopening o prev;
      }

  -- for o in opportunities: …
  unfoldable pub see_all : Scan → List (Opportunity floats) → State floats → State floats
  unfolding note previous written
  see_all scan [] st = st
  see_all scan (o ∷ os) (rec, store) =
      let (prev, store') = previous o store in
      see_all scan os
        (note o prev rec, put o.fingerprint (written scan.stamp scan.scan_id o prev) store')

  -- accounts = {o.account for o in opportunities}, and `account_id` if there is one
  unfoldable pub accounts : Scan → List (Opportunity floats) → List String
  accounts scan os =
      let given : List String = elim scan.account_id [
        | none ↦ []
        | some a ↦ if is_blank a then [] else a ∷ []
      ] in
      map (λ o. o.account) os ++ given

  unfoldable pub is_protected : Scan → Entry floats → Bool
  is_protected scan e =
      any (λ (kind, name, rule). kind == e.asset_type && name == e.asset_name && rule == e.rule_id)
        scan.protected_signal_keys

  -- The tests that lead to the write for an entry of the second loop.
  unfoldable pub disappears : Scan → List (Opportunity floats) → String × Entry floats → Bool
  unfolding accounts is_protected
  disappears scan os (fp, e) =
      not (elem fp (map (λ o. o.fingerprint) os))
      && elem e.account (accounts scan os)
      && not (elem e.rule_id scan.ignored_rule_ids)
      && not (is_protected scan e)
      && not (is_over e.status)

  abbrev pub gone : Scan → Entry floats → Entry floats
  gone scan e = record e { status = ended e.status; last_scan_id = scan.scan_id }

  abbrev pub disappearance : String → Entry floats → StatusChange
  disappearance fp e = record {
    fingerprint = fp;
    account = e.account;
    opportunity_id = e.opportunity_id;
    from_status = e.status;
    to_status = ended e.status;
    reason = "oportunidade desapareceu na nova execução";
  }

  -- for fp, entry in list(store.items()): …
  unfoldable pub sweep : Scan → List (Opportunity floats) → State floats → State floats
  unfolding disappears
  sweep scan os (rec, []) = (rec, [])
  sweep scan os (rec, (fp, e) ∷ rest) =
      let left = disappears scan os (fp, e) in
      let rec' = record rec {
        disappeared = if left then rec.disappeared ++ gone scan e ∷ [] else rec.disappeared;
        status_changes =
            if left then rec.status_changes ++ disappearance fp e ∷ [] else rec.status_changes;
      } in
      let (out, store) = sweep scan os (rec', rest) in
      (out, (fp, if left then gone scan e else e) ∷ store)

  abbrev pub nothing : Reconciliation floats
  nothing = record {
    new = [];
    persisting = [];
    disappeared = [];
    reopened = [];
    suppressed = [];
    status_changes = [];
  }

  unfoldable pub reconcile : Scan → List (Opportunity floats) → Backlog floats → State floats
  unfolding see_all sweep
  reconcile scan os store = sweep scan os (see_all scan os (nothing, store))

  -- The change of an entry by hand; `now` is the clock's answer.
  abbrev pub asked : String → Entry floats → String → String → String → ℕ → LifecycleEvent
  asked fp e to actor reason now = record {
    fingerprint = fp;
    account = e.account;
    opportunity_id = e.opportunity_id;
    from_status = if is_blank e.status then "detected" else e.status;
    to_status = to;
    actor = actor;
    reason = reason;
    occurred_at = now;
    automatic = false;
  }

  abbrev pub audited : LifecycleEvent → Entry floats → Entry floats
  audited event e = record e {
    status = event.to_status;
    transitions =
        e.transitions
        ++ (record {
          from_status = event.from_status;
          to_status = event.to_status;
          actor = event.actor;
          reason = event.reason;
          occurred_at = event.occurred_at;
          automatic = event.automatic;
        })
          ∷ [];
  }

  unfoldable pub transition :
      Unicode
      → String
      → String
      → String
      → String
      → ℕ
      → Backlog floats
      → Result LifecycleEvent × Backlog floats
  unfolding check_transition
  transition u fp to actor reason now store = elim (get fp store) [
    | none ↦ (err (unknown_fingerprint fp), store)
    | some e ↦ elim (check_transition u (asked fp e to actor reason now)) [
      | err problem ↦ (err problem, store)
      | ok event ↦ (ok event, put fp (audited event e) store)
    ]
  ]

  unfoldable pub status_for : String → Backlog floats → Option String
  status_for fp store = Option.map (λ e. e.status) (get fp store)

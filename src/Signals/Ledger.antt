-- ===== src/Signals/Ledger.antt =====
-- `SignalLedger` of julius/state/signal_ledger.py: the file is the dict that it holds, of entries
-- that the ledger wrote. Recommendations and estimates are kept as their JSON. What a pilot
-- measured is a float: its type and the test for a positive amount are parameters.
use julius.Common.{
  ℕ, ◌+◌, String, Bool, true, false, not, ◌&&◌, Option, none, some, List, [], ◌∷◌, ◌++◌, elem,
  select, get, put, ◌==◌, string_eq, if◌then◌else◌,
}
use julius.Common.Texts.{Unicode, is_blank, strip}

pub record Measures : Type 1 where
  pub Float : Type 0
  pub is_positive : Float → Bool

-- A signal of the scan, with what its method `evidence_signature` answers, and for an account
-- what `fingerprint` does.
pub record Signal : Type 0 where
  pub rule_id : String
  pub asset_type : String
  pub asset_name : String
  pub evidence_signature : String
  pub fingerprint : String → String

pub record Verdict : Type 0 where
  pub rule_id : String
  pub asset_name : String
  pub verdict : String
  pub rationale : String
  pub recommendation : Option String
  pub estimation_proposal : Option String
  pub contextual_estimate : Option String

pub record PilotResult (m : Measures) : Type 0 where
  pub actor : String
  pub measured_monthly : m.Float
  pub validated_at : ℕ
  pub notes : String

pub record Entry (m : Measures) : Type 0 where
  pub account : String
  pub rule_id : String
  pub asset_type : String
  pub asset_name : String
  pub verdict : String
  pub rationale : String
  pub evidence_hash : String
  pub scan_id : String
  pub prompt_version : String
  pub decided_at : ℕ
  pub promoted : Bool
  pub status : String
  pub recommendation : Option String
  pub estimation_proposal : Option String
  pub contextual_estimate : Option String
  pub pilot : Option (PilotResult m)

abbrev pub Ledger : Measures → Type 0
Ledger m = List (String × Entry m)

pub record Suppression : Type 0 where
  pub open_signals : List Signal
  pub suppressed : List String
  pub reopened : List String

pub data Error : Type 0 where
  unknown_signal : String → Error
  not_confirmed : String → Error
  no_saving no_actor : Error

pub data Result {ℓ} (A : Type ℓ) : Type ℓ where
  ok : A → Result A
  err : Error → Result A

-- The keyword arguments of `record_verdicts`, with the clock's answer.
pub record Judging : Type 0 where
  pub account : String
  pub scan_id : String
  pub prompt_version : String
  pub decided_at : ℕ

abbrev pub status_of : String → String
status_of verdict =
    if verdict == "confirmed"
    then "candidate"
    else if verdict == "needs_evidence"
    then "needs_evidence"
    else "rejected"

-- by_key.get(…): of the signals with one key the dict keeps the last.
unfoldable pub signal_of : String → String → List Signal → Option Signal
signal_of rule asset [] = none
signal_of rule asset (s ∷ rest) = elim (signal_of rule asset rest) [
  | some t ↦ some t
  | none ↦ if s.rule_id == rule && s.asset_name == asset then some s else none
]

module _ {m : Measures} where
  -- bool(previous.get("promoted"))
  abbrev pub was_promoted : Option (Entry m) → Bool
  was_promoted none = false
  was_promoted (some e) = e.promoted

  unfoldable pub judged : Judging → Verdict → Signal → Option (Entry m) → Entry m
  judged j v s previous = record {
    account = j.account;
    rule_id = s.rule_id;
    asset_type = s.asset_type;
    asset_name = s.asset_name;
    verdict = v.verdict;
    rationale = v.rationale;
    evidence_hash = s.evidence_signature;
    scan_id = j.scan_id;
    prompt_version = j.prompt_version;
    decided_at = j.decided_at;
    promoted = was_promoted previous;
    status = status_of v.verdict;
    recommendation = v.recommendation;
    estimation_proposal = v.estimation_proposal;
    contextual_estimate = v.contextual_estimate;
    pilot = none;
  }

  unfoldable pub record_verdict : Judging → List Signal → Verdict → ℕ × Ledger m → ℕ × Ledger m
  unfolding judged signal_of
  record_verdict j signals v (recorded, store) = elim (signal_of v.rule_id v.asset_name signals) [
    | none ↦ (recorded, store)
    | some s ↦
        let fp = s.fingerprint j.account in
        (recorded + 1, put fp (judged j v s (get fp store)) store)
  ]

  unfoldable pub record_verdicts :
      Judging → List Signal → List Verdict → ℕ × Ledger m → ℕ × Ledger m
  unfolding record_verdict
  record_verdicts j signals [] st = st
  record_verdicts j signals (v ∷ vs) st =
      record_verdicts j signals vs (record_verdict j signals v st)

  -- for signal in signals: …
  unfoldable pub suppress_into : Ledger m → String → List Signal → Suppression → Suppression
  suppress_into store account [] result = result
  suppress_into store account (s ∷ rest) result =
      let fp = s.fingerprint account in
      suppress_into store account rest (elim (get fp store) [
        | none ↦ record result { open_signals = result.open_signals ++ s ∷ [] }
        | some e ↦
            if e.verdict == "needs_evidence"
            then record result { open_signals = result.open_signals ++ s ∷ [] }
            else if not (e.evidence_hash == s.evidence_signature)
            then record result {
              open_signals = result.open_signals ++ s ∷ [];
              reopened = result.reopened ++ fp ∷ [];
            }
            else record result { suppressed = result.suppressed ++ fp ∷ [] }
      ])

  unfoldable pub suppress : Ledger m → String → List Signal → Suppression
  unfolding suppress_into
  suppress store account signals =
      suppress_into store account signals
        (record { open_signals = []; suppressed = []; reopened = [] })

  abbrev pub piloted : PilotResult m → Entry m → Entry m
  piloted result e = record e { pilot = some result; status = "validated_model" }

  -- `record_pilot` behind the entry that it found: the pilot as it is reported, with the clock's
  -- answer.
  unfoldable pub pilot_for :
      Unicode
      → String
      → PilotResult m
      → Option (Entry m)
      → Ledger m
      → Result (PilotResult m) × Ledger m
  pilot_for u fp p none store = (err (unknown_signal fp), store)
  pilot_for u fp p (some e) store =
      if not (e.verdict == "confirmed")
      then (err (not_confirmed e.verdict), store)
      else if not (m.is_positive p.measured_monthly)
      then (err no_saving, store)
      else if is_blank (strip u p.actor)
      then (err no_actor, store)
      else (let result = record p { actor = strip u p.actor } in
          (ok result, put fp (piloted result e) store))

  unfoldable pub record_pilot :
      Unicode → String → PilotResult m → Ledger m → Result (PilotResult m) × Ledger m
  unfolding pilot_for
  record_pilot u fp p store = pilot_for u fp p (get fp store) store

  abbrev pub is_pending : String → String × Entry m → Bool
  is_pending account (fp, e) = e.account == account && e.verdict == "confirmed" && not e.promoted

  -- Of each decision, the fingerprint and the entry that it copies.
  unfoldable pub pending_promotions : String → Ledger m → List (String × Entry m)
  pending_promotions account store = select (is_pending account) store

  unfoldable pub mark_promoted : List String → Ledger m → Ledger m
  mark_promoted fps [] = []
  mark_promoted fps ((k, e) ∷ rest) =
      (k, if elem k fps then record e { promoted = true } else e) ∷ mark_promoted fps rest

  unfoldable pub decisions_for : String → Ledger m → List (String × Entry m)
  decisions_for account store = select (λ (fp, e). e.account == account) store

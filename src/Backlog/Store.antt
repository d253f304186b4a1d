-- ===== src/Backlog/Store.antt =====
-- `BacklogStore` of julius/state/store.py: the file is the dict that it holds, of entries that the
-- store wrote. The amounts are floats, and what the store does with them is a parameter.
use julius.Common.{
  ℕ, String, Bool, not, ◌&&◌, ◌||◌, Option, none, some, List, [], ◌∷◌, elem, get, remove, find?,
  ◌==◌, string_eq, if◌then◌else◌,
}
use julius.Common.Texts.{is_blank}

pub record Transition : Type 0 where
  pub from_status : String
  pub to_status : String
  pub actor : String
  pub reason : String
  pub occurred_at : ℕ
  pub automatic : Bool

-- Python's floats and the comparisons and products of `reconcile` on them: the urgency behind a
-- gain that grew, from the old gain, the new gain, the old urgency and the new urgency.
pub record Floats : Type 1 where
  pub Float : Type 0
  pub escalated : Float → Float → Float → Float → Float

module _ (floats : Floats) where
  pub record Entry : Type 0 where
    pub account : String
    pub asset_type : String
    pub asset_name : String
    pub rule_id : String
    pub opportunity_id : String
    pub first_seen : String
    pub last_seen : String
    pub last_scan_id : String
    pub monthly_expected : floats.Float
    pub technical_monthly_expected : floats.Float
    pub status : String
    pub urgency : floats.Float
    pub evidence_hash : String
    pub transitions : List Transition

  -- An opportunity of the scan, with what its methods `fingerprint` and `evidence_signature` answer.
  pub record Opportunity : Type 0 where
    pub fingerprint : String
    pub evidence_signature : String
    pub account : String
    pub asset_type : String
    pub asset_name : String
    pub rule_id : String
    pub opportunity_id : String
    pub monthly_expected : floats.Float
    pub technical_monthly_expected : floats.Float
    pub status : String
    pub urgency : floats.Float

  abbrev pub Backlog : Type 0
  Backlog = List (String × Entry)

pub record StatusChange : Type 0 where
  pub fingerprint : String
  pub account : String
  pub opportunity_id : String
  pub from_status : String
  pub to_status : String
  pub reason : String

pub record Reconciliation (floats : Floats) : Type 0 where
  pub new : List String
  pub persisting : List String
  pub disappeared : List (Entry floats)
  pub reopened : List String
  pub suppressed : List String
  pub status_changes : List StatusChange

-- `_LEGACY_RULE_IDS`
abbrev pub legacy_rule : String → Option String
legacy_rule rule = if rule == "GLUE-IS-IDLE-TIMEOUT" then some "GLUE-IS-IDLE" else none

-- previous_status in {"dismissed", "validated"}
abbrev pub is_closed : String → Bool
is_closed s = s == "dismissed" || s == "validated"

-- not in ("resolved", "expired", "validated", "dismissed")
abbrev pub is_over : String → Bool
is_over s = elem s ("resolved" ∷ "expired" ∷ "validated" ∷ "dismissed" ∷ [])

module _ {floats : Floats} where
  -- The entry that the rule wrote under its former name for the same asset.
  abbrev pub is_legacy : Opportunity floats → String → String × Entry floats → Bool
  is_legacy o rule (key, e) =
      e.account == o.account
      && e.asset_type == o.asset_type
      && e.asset_name == o.asset_name
      && e.rule_id == rule

  unfoldable pub take_legacy :
      Opportunity floats → Option String → Backlog floats → Option (Entry floats) × Backlog floats
  take_legacy o none store = (none, store)
  take_legacy o (some rule) store = elim (find? (is_legacy o rule) store) [
    | none ↦ (none, store)
    | some row ↦ (some row.1, remove row.0 store)
  ]

  -- `prev`, and the store that it may have been popped from.
  unfoldable pub previous :
      Opportunity floats → Backlog floats → Option (Entry floats) × Backlog floats
  unfolding take_legacy
  previous o store = elim (get o.fingerprint store) [
    | some e ↦ (some e, store)
    | none ↦ take_legacy o (legacy_rule o.rule_id) store
  ]

  unfoldable pub should_reopen : Opportunity floats → Entry floats → Bool
  should_reopen o prev =
      let evidence_changed =
        not (is_blank prev.evidence_hash) && not (prev.evidence_hash == o.evidence_signature) in
      prev.status == "expired" || (is_closed prev.status && evidence_changed)

  -- `o.status`, `o.first_seen` and `o.urgency` behind the branch on `prev`
  unfoldable pub status_now : Opportunity floats → Option (Entry floats) → String
  unfolding should_reopen
  status_now o none = o.status
  status_now o (some prev) = if should_reopen o prev then "detected" else prev.status

  abbrev pub first_seen_now : String → Option (Entry floats) → String
  first_seen_now stamp none = stamp
  first_seen_now stamp (some prev) = prev.first_seen

  abbrev pub urgency_now : Opportunity floats → Option (Entry floats) → floats.Float
  urgency_now o none = o.urgency
  urgency_now o (some prev) =
      floats.escalated prev.monthly_expected o.monthly_expected prev.urgency o.urgency

  -- store[fp] = {…}
  unfoldable pub written :
      String → String → Opportunity floats → Option (Entry floats) → Entry floats
  unfolding status_now
  written stamp scan o prev = record {
    account = o.account;
    asset_type = o.asset_type;
    asset_name = o.asset_name;
    rule_id = o.rule_id;
    opportunity_id = o.opportunity_id;
    first_seen = first_seen_now stamp prev;
    last_seen = stamp;
    last_scan_id = scan;
    monthly_expected = o.monthly_expected;
    technical_monthly_expected = o.technical_monthly_expected;
    status = status_now o prev;
    urgency = urgency_now o prev;
    evidence_hash = o.evidence_signature;
    transitions = [];
  }

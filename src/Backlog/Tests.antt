-- ===== src/Backlog/Tests.antt =====
-- A backlog of two opportunities and the scan that sees one of them again.
use julius.Common.{ℕ, refl, none, List, [], ◌∷◌, String, All, false}
use julius.Backlog.Store.{Floats, Entry, Opportunity, Backlog}
use julius.Backlog.Reconcile.{Scan, reconcile, transition}
use julius.Backlog.Statuses.{IsAllowed, Statuses}
use julius.Common.Texts.{Unicode}
use julius.Backlog.ByHand.{Ends, transition-Ends}
use julius.Backlog.Changes.{reconcile-IsAllowed}

abbrev cents : Floats
cents = record { Float = ℕ; escalated = λ old new before now. now }

abbrev entry : String → String → Entry cents
entry name status = record {
  account = "a";
  asset_type = "job";
  asset_name = name;
  rule_id = "R";
  opportunity_id = "o";
  first_seen = "d1";
  last_seen = "d1";
  last_scan_id = "s1";
  monthly_expected = 5;
  technical_monthly_expected = 5;
  status = status;
  urgency = 1;
  evidence_hash = "h1";
  transitions = [];
}

abbrev backlog : Backlog cents
backlog = ("f1", entry "x" "dismissed") ∷ ("f2", entry "y" "implemented") ∷ []

abbrev seen : List (Opportunity cents)
seen =
    record {
      fingerprint = "f1";
      evidence_signature = "h2";
      account = "a";
      asset_type = "job";
      asset_name = "x";
      rule_id = "R";
      opportunity_id = "o";
      monthly_expected = 6;
      technical_monthly_expected = 6;
      status = "detected";
      urgency = 1;
    }
    ∷ []

abbrev scan : Scan
scan = record {
  scan_id = "s2";
  stamp = "d2";
  account_id = none;
  ignored_rule_ids = [];
  protected_signal_keys = [];
}

reconcile-IsAllowed_example :
    All IsAllowed (reconcile scan seen backlog).0.status_changes
    × Statuses (reconcile scan seen backlog).1
reconcile-IsAllowed_example =
    reconcile-IsAllowed cents scan seen backlog (refl, tt) (refl, (refl, tt))

abbrev ascii : Unicode
ascii = record { is_space = λ c. false; lower = λ s. s }

transition-Ends_example :
    Ends ascii "f1" "detected" "ana" "again" 3 backlog
      (transition ascii "f1" "detected" "ana" "again" 3 backlog)
transition-Ends_example = transition-Ends cents ascii "f1" "detected" "ana" "again" 3 backlog

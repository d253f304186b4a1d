-- ===== src/Signals/Tests.antt =====
-- A ledger of one confirmed signal, its promotion and the verdicts behind it.
use julius.Common.{
  ℕ, ◌≡◌, refl, true, false, not, none, some, [], ◌∷◌, map, select, get, ◌==◌, string_eq, All,
}
use julius.Common.Texts.{Unicode}
use julius.Signals.Ledger.{
  Measures, Signal, Entry, Ledger, suppress, pending_promotions, mark_promoted,
}
use julius.Signals.Suppression.{is_silenced, is_returning, suppress-comprehensions}
use julius.Signals.Promotions.{Command, verdicts_of, execute_all, promoted_once}

abbrev cents : Measures
cents = record { Float = ℕ; is_positive = λ n. true }

abbrev ascii : Unicode
ascii = record { is_space = λ c. false; lower = λ s. s }

abbrev signal : Signal
signal = record {
  rule_id = "R";
  asset_type = "job";
  asset_name = "x";
  evidence_signature = "h1";
  fingerprint = λ account. "f1";
}

abbrev confirmed : Entry cents
confirmed = record {
  account = "a";
  rule_id = "R";
  asset_type = "job";
  asset_name = "x";
  verdict = "confirmed";
  rationale = "r";
  evidence_hash = "h1";
  scan_id = "s1";
  prompt_version = "1";
  decided_at = 1;
  promoted = false;
  status = "candidate";
  recommendation = none;
  estimation_proposal = none;
  contextual_estimate = none;
  pilot = none;
}

abbrev ledger : Ledger cents
ledger = ("f1", confirmed) ∷ []

suppress-comprehensions_example : suppress ledger "a" (signal ∷ []) ≡ record {
  open_signals = select (λ s. not (is_silenced ledger "a" s)) (signal ∷ []);
  suppressed = map (λ s. s.fingerprint "a") (select (is_silenced ledger "a") (signal ∷ []));
  reopened = map (λ s. s.fingerprint "a") (select (is_returning ledger "a") (signal ∷ []));
}
suppress-comprehensions_example = suppress-comprehensions cents ledger "a" (signal ∷ [])

abbrev again : Command cents
again =
    verdicts_of (record { account = "a"; scan_id = "s2"; prompt_version = "1"; decided_at = 2 })
      (signal ∷ [])
      (record {
        rule_id = "R";
        asset_name = "x";
        verdict = "confirmed";
        rationale = "r";
        recommendation = none;
        estimation_proposal = none;
        contextual_estimate = none;
      }
        ∷ [])

finds : get "f1" ledger ≡ some confirmed
unfolding get
finds = refl

promoted_once_example :
    All
      (λ (k, e). (k == "f1") ≡ false)
      (pending_promotions "a" (execute_all ascii (again ∷ []) (mark_promoted ("f1" ∷ []) ledger)))
promoted_once_example =
    promoted_once cents ascii "f1" "a" ("f1" ∷ []) (again ∷ []) ledger confirmed finds refl
